-- ===== src/Server/Page.antt =====
-- The page of web/src/App.js, the development server's proxy and the API together.
use dawn_patrol.Prelude.{
  ℕ, String, codes, Bool, true, false, ◌&&◌, leb, Option, none, some, List, ◌≡◌, refl, ap, ◌∙◌,
  length, Result, ok,
}
use dawn_patrol.Prelude.Object.{lookup}
use dawn_patrol.Printf.{is_plain}
use dawn_patrol.ParseInt.{number, parse_int}
use dawn_patrol.Platform.{Platform}
use dawn_patrol.Env.{Env}
use dawn_patrol.Paths.{Paths}
use dawn_patrol.App
use dawn_patrol.App.{mounted, render_events}
use dawn_patrol.App.Count.{latest, parse_int-render_events}
use dawn_patrol.DevServer.{ServerConfig, server_config}
use dawn_patrol.Api.{Association, Event}
use dawn_patrol.Api.Associations.{Store}
use dawn_patrol.Api.Events.{EventTable}
use dawn_patrol.Api.Rails.{Rails}
use dawn_patrol.Server.{Request, Response, Context, Packages, api}
use dawn_patrol.Server.Routes.{IsPackages, covers, index_path}
use dawn_patrol.Server.Answers.{fresh}
use dawn_patrol.Server.Json.{api-json}

-- A status that no handler wrote is 200.
abbrev code_of : Option ℕ → ℕ
code_of none = 200
code_of (some code) = code

-- A response as `fetch` gives it. `texts` are the texts of
-- the statuses, and `parse` reads a body as JSON.
abbrev pub as_fetched :
    (ℕ → String) → (List ℕ → Result String (List Event)) → Response → App.Response Event
as_fetched texts parse r = record {
  response_ok = leb 200 (code_of r.status) && leb (code_of r.status) 299;
  status_text = texts (code_of r.status);
  json = parse r.body;
}

-- `fetch` through the development server: a path that is proxied is asked of its target, and any
-- other is answered by the server itself.
abbrev pub fetch_proxied :
    {H : Type 0}
    → ServerConfig H
    → (own : String → Result String (App.Response Event))
    → (ask : (target url : String) → App.Response Event) → String
    → Result String (App.Response Event)
fetch_proxied config own ask url = elim (lookup url config.proxy) [
  | none ↦ own url
  | some t ↦ ok (ask t.target url)
]

proxied_index :
    {H : Type 0} (platform : Platform) (paths : Paths) (env : Env) (https : H) (proxy : Bool)
    (allowed_host : Option String) (own : String → Result String (App.Response Event))
    (ask : String → String → App.Response Event)
    → fetch_proxied
        (server_config platform paths env https proxy allowed_host)
        own
        ask
        "/index.json"
      ≡ ok (ask "http://api-dev:8080" "/index.json")
unfolding server_config lookup
proxied_index platform paths env https proxy allowed_host own ask = refl

module _ {S : Type 0} (p : Packages S) (store : Store S) (table : EventTable S)
    (rails : Rails) where
  -- If goji and raven do what they are known to do, the development server's target is the API, an
  -- association is found for the host, its events are marshalled to a JSON text with no percent
  -- sign, and reading this text as JSON gives the events back, then the number that parseInt reads
  -- from the text of the page, once its request has ended, is that of the association's events in
  -- the database, whatever the page began with.
  pub parse_int-page :
      {H : Type 0}
      → IsPackages p
      → (app : Option String) (r : Request) (c : Context S) (a : Association) (json : String)
        (texts : ℕ → String) (parse : List ℕ → Result String (List Event)) (config : ServerConfig H)
        (platform : Platform) (paths : Paths) (env : Env) (https : H) (proxy : Bool)
        (allowed_host : Option String) (own : String → Result String (App.Response Event))
        (ask : String → String → App.Response Event) (props : Option (List Event)) (text : String)
      → covers index_path r ≡ true
      → c.response ≡ fresh
      → store.first_by_host r.host c.world.database ≡ ok a
      → p.marshal (table.find_events a.id c.world.database) ≡ ok json
      → is_plain (codes json) ≡ true
      → parse (codes json) ≡ ok (table.find_events a.id c.world.database)
      → config ≡ server_config platform paths env https proxy allowed_host
      → ask "http://api-dev:8080" "/index.json"
        ≡ as_fetched texts parse (api p app store table rails r c).1.response
      → codes text ≡ render_events (mounted (fetch_proxied config own ask) props)
      → parse_int text ≡ number false (length (table.find_events a.id c.world.database))
  parse_int-page h app r c a json texts parse config platform paths env https proxy allowed_host own
        ask props text asks new found marshalled plain parsed made target shown =
      let es = table.find_events a.id c.world.database in
      let response =
        api-json p store table rails h app r c a json asks new found marshalled plain in
      let came : fetch_proxied config own ask "/index.json"
          ≡ ok (record { response_ok = true; status_text = texts 200; json = ok es }) =
        ap (λ k. fetch_proxied k own ask "/index.json") made
        ∙ proxied_index platform paths env https proxy allowed_host own ask
        ∙ ap ok (
            target
            ∙ ap (as_fetched texts parse) response
            ∙ ap (λ j. record { response_ok = true; status_text = texts 200; json = j }) parsed) in
      parse_int-render_events (fetch_proxied config own ask) props text shown
      ∙ ap (λ f. number false (length (latest props f))) came
