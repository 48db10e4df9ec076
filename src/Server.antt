-- ===== src/Server.antt =====
-- api/pkg/http, api/pkg/rails/http/copy.go, api/pkg/log/request.go and api/cmd/api/api.go: the
-- handlers of the API, their routes and the server that is made of them. goji, which routes, and
-- raven, which recovers, are parameters.
pub mod Routes
pub mod Answers
pub mod Index
pub mod CopyHandler
pub mod Copying
pub mod Copied
pub mod Panics
pub mod Reporting
pub mod Json
pub mod Transactions
pub mod Page
use dawn_patrol.Prelude.{
  ℕ, String, codes, ◌==◌, ◌&&◌, ◌||◌, Bool, Option, none, some, List, [], ◌∷◌, ◌++◌, if◌then◌else◌,
  Result, ok, throw,
}
use dawn_patrol.Printf.{fprintf}
use dawn_patrol.Api.{Event}
use dawn_patrol.Api.Services.{AssociationService, EventService, RacingAssociationService}
use dawn_patrol.Api.Associations.{Store, association_service}
use dawn_patrol.Api.Events.{EventTable, event_service}
use dawn_patrol.Api.Rails.{Rails, racing_association_service}
use dawn_patrol.Api.Instrumentation.{
  World, tell, started, ended, association_service_on, event_service_on,
  new_instrumented_association_service, new_instrumented_event_service,
}

-- What the handlers read of a request: `url` is `r.URL`, `path` what goji matches,
-- `r.URL.EscapedPath()`, and `association` is `r.PostFormValue("association")`.
pub record Request : Type 0 where
  pub verb : String
  pub url : String
  pub path : String
  pub host : String
  pub association : String

-- `http.ResponseWriter`: a status once it is written, the header and the body.
pub record Response : Type 0 where
  pub status : Option ℕ
  pub content_type : Option String
  pub body : List ℕ

-- What a request works on: the world, the response, and the method and URL of each request logged.
pub record Context (S : Type 0) : Type 0 where
  pub world : World S
  pub response : Response
  pub logged : List (String × String)

-- What Go's `panic` is given: an error, or a text.
pub data Panic : Type 0 where
  an_error a_text : String → Panic

-- Code that works on a context and may panic.
abbrev pub Action : Type 0 → Type 0 → Type 0
Action S A = Context S → Result Panic A × Context S

abbrev pub and_then :
    {S A B : Type 0} → Result Panic A × Context S → (A → Action S B) → Result Panic B × Context S
and_then (ok a, c) f = f a c
and_then (throw panic, c) f = (throw panic, c)

infixl 5 ◌>>=◌
abbrev pub ◌>>=◌ : {S A B : Type 0} → Action S A → (A → Action S B) → Action S B
◌>>=◌ action f c = and_then (action c) f

-- `WriteHeader`: only the first status counts.
abbrev pub with_status : ℕ → Response → Response
with_status code r = elim r.status [ none ↦ record r { status = some code } | some old ↦ r ]

abbrev pub with_body : List ℕ → Response → Response
with_body text r = let s = with_status 200 r in record s { body = s.body ++ text }

module _ {S : Type 0} where
  abbrev pub write_header : ℕ → Action S (Unit {0})
  write_header code c = (ok tt, record c { response = with_status code c.response })

  -- A write of the body, which writes the status 200 if there is none.
  abbrev pub write : List ℕ → Action S (Unit {0})
  write text c = (ok tt, record c { response = with_body text c.response })

  abbrev pub set_content_type : String → Action S (Unit {0})
  set_content_type value c =
      (ok tt, record c { response = record c.response { content_type = some value } })

  -- A call of a service, and a panic where a result is an error.
  abbrev pub ask : {A : Type 0} → (World S → A × World S) → Action S A
  ask call c = let (a, w) = call c.world in (ok a, record c { world = w })

  abbrev pub or_panic : {A : Type 0} → (String → Panic) → Result String A → Action S A
  or_panic panic (ok a) c = (ok a, c)
  or_panic panic (throw e) c = (throw (panic e), c)

  -- `if err != nil { panic(err) }`.
  abbrev pub must : {A : Type 0} → Result String A → Action S A
  must = or_panic an_error

-- `http.Handler` with the name of its type.
pub record Handler (S : Type 0) : Type 0 where
  pub type_name : String
  pub serve_http : Request → Action S (Unit {0})

module _ {S : Type 0} where
  -- `Root`; `marshal` is `json.Marshal` of the events.
  unfoldable pub root :
      (List Event → Result String String)
      → AssociationService (World S)
      → EventService (World S)
      → Handler S
  root marshal associations events = record {
    type_name = "*http.Root";
    serve_http = λ r. do
      found ← ask (associations.first_by_host r.host)
      association ← must found
      listed ← ask (events.find association)
      es ← must listed
      json ← must (marshal es)
      done ← set_content_type "application/json"
      write (fprintf (codes json));
  }

  unfoldable pub test_panic : Handler S
  test_panic = record {
    type_name = "*http.TestPanic";
    serve_http = λ r c. (throw (a_text "Parsing failed"), c);
  }

  unfoldable pub status : Handler S
  status = record { type_name = "*http.Status"; serve_http = λ r. write (fprintf (codes "ok")) }

  -- `Copy` of api/pkg/rails/http/copy.go.
  unfoldable pub copy_handler : RacingAssociationService (World S) → Handler S
  copy_handler service = record {
    type_name = "*http.Copy";
    serve_http = λ r.
        let copied : Action S (Unit {0}) = ask (service.copy r.association) >>= λ called.
        or_panic a_text called >>= λ done. must done in
        if r.association == "" then write_header 400 else copied;
  }

  -- `instrumentedHandler`; `recovery` is raven's `RecoveryHandler`.
  unfoldable pub new_instrumented_handler :
      ((Request → Action S (Unit {0})) → Request → Action S (Unit {0}))
      → Option String
      → Handler S
      → Handler S
  new_instrumented_handler recovery none h = record {
    type_name = "*http.instrumentedHandler";
    serve_http = recovery h.serve_http;
  }
  new_instrumented_handler recovery (some app) h = record {
    type_name = "*http.instrumentedHandler";
    serve_http = λ r c.
        let (result, d) =
          recovery h.serve_http r (record c { world = tell (started h.type_name ∷ []) c.world }) in
        (result, record d { world = tell (ended ∷ []) d.world });
  }

-- `pat.Get` and `pat.Post` with a path.
pub data Pattern : Type 0 where
  get post : String → Pattern

-- `MuxConfig`, with the two packages and the marshalling of events.
pub record MuxConfig (S : Type 0) : Type 0 where
  pub association_service : AssociationService (World S)
  pub event_service : EventService (World S)
  pub new_relic_app : Option String
  pub racing_association_service : RacingAssociationService (World S)

-- The packages that the server rests on: raven's recovery, goji's choice among the routes, and
-- `json.Marshal`.
pub record Packages (S : Type 0) : Type 0 where
  pub recovery : (Request → Action S (Unit {0})) → Request → Action S (Unit {0})
  pub goji : List (Pattern × Handler S) → Request → Action S (Unit {0})
  pub marshal : List Event → Result String String

module _ {S : Type 0} where
  -- `log.Request`.
  abbrev pub log_request : (Request → Action S (Unit {0})) → Request → Action S (Unit {0})
  log_request serve r c = serve r (record c { logged = c.logged ++ ((r.verb, r.url) ∷ []) })

  abbrev pub routes : Packages S → MuxConfig S → List (Pattern × Handler S)
  routes p cfg =
      let instrumented = new_instrumented_handler p.recovery cfg.new_relic_app in
      (get "/index.json", instrumented (root p.marshal cfg.association_service cfg.event_service))
      ∷ (get "/panic", instrumented test_panic)
      ∷ (post "/rails/copy", instrumented (copy_handler cfg.racing_association_service))
      ∷ (get "/status", instrumented status)
      ∷ []

  -- `NewMux`, as the function that serves a request.
  unfoldable pub new_mux : Packages S → MuxConfig S → Request → Action S (Unit {0})
  new_mux p cfg = log_request (p.goji (routes p cfg))

  -- `main`: the services over the database, with New Relic or without.
  unfoldable pub api_config : Option String → Store S → EventTable S → Rails → MuxConfig S
  api_config app store table rails =
      let associations =
        new_instrumented_association_service app
          (association_service_on (association_service store)) in
      let events = new_instrumented_event_service app (event_service_on (event_service table)) in
      record {
        association_service = associations;
        event_service = events;
        new_relic_app = app;
        racing_association_service = racing_association_service associations events rails;
      }

  unfoldable pub api :
      Packages S → Option String → Store S → EventTable S → Rails → Request → Action S (Unit {0})
  unfolding new_mux api_config
  api p app store table rails = new_mux p (api_config app store table rails)
