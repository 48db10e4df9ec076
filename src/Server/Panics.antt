-- ===== src/Server/Panics.antt =====
-- Which requests change the database, and which end the server's code with a panic.
use dawn_patrol.Prelude.{
  String, codes, true, false, Option, ◌≡◌, ◌≢◌, ◌⊎◌, ◌↔◌, refl, ap, subst, ◌∙◌, inl, inr, Result,
  ok, throw, Bool-cases,
}
use dawn_patrol.Api.Associations.{Store}
use dawn_patrol.Api.Events.{EventTable}
use dawn_patrol.Api.Copy.{Sources}
use dawn_patrol.Api.Rails.{Rails, read_sources}
use dawn_patrol.Printf.{fprintf}
use dawn_patrol.Server.{
  Request, Context, Packages, Panic, an_error, with_body, test_panic, status,
  new_instrumented_handler, api_config, api,
}
use dawn_patrol.Server.Routes.{
  IsPackages, covers, index_path, panic_path, copy_path, status_path, logging, not_found, mux-panic,
  mux-status, mux-unrouted,
}
use dawn_patrol.Server.Answers.{begun, handler-Settles, Settles-ok, Settles-text, fresh}
use dawn_patrol.Server.Index.{api-AnswersIndex}
use dawn_patrol.Server.CopyHandler.{begun-database, begun-response}
use dawn_patrol.Server.Copying.{CopyEnds, api-AnswersCopy}

-- The route that a request takes.
pub data Route : Type 0 where
  index panic copying status_check nowhere : Route

abbrev pub Takes : Route → Request → Type 0
Takes index r = covers index_path r ≡ true
Takes panic r = covers panic_path r ≡ true
Takes copying r = covers copy_path r ≡ true
Takes status_check r = covers status_path r ≡ true
Takes nowhere r =
    (covers index_path r ≡ false)
    × (covers panic_path r ≡ false)
    × (covers copy_path r ≡ false)
    × (covers status_path r ≡ false)

pub route_of : (r : Request) → (x : Route) × Takes x r
route_of r = elim (Bool-cases (covers index_path r)) [
  | inl e ↦ (index, e)
  | inr i ↦ elim (Bool-cases (covers panic_path r)) [
    | inl e ↦ (panic, e)
    | inr q ↦ elim (Bool-cases (covers copy_path r)) [
      | inl e ↦ (copying, e)
      | inr k ↦ elim (Bool-cases (covers status_path r)) [
        | inl e ↦ (status_check, e)
        | inr s ↦ (nowhere, (i, q, k, s))
      ]
    ]
  ]
]

-- A request to copy an association whose Rails database cannot be opened.
abbrev pub Unopened : Rails → Request → Type 0
Unopened rails r =
    (covers copy_path r ≡ true)
    × (r.association ≢ "")
    × ((panic : String) × (read_sources rails r.association ≡ throw panic))

module _ {S : Type 0} (p : Packages S) (store : Store S) (table : EventTable S) (rails : Rails)
    (h : IsPackages p) (app : Option String) (r : Request) (c : Context S)
    (new : c.response ≡ fresh) where
  abbrev out : Result Panic (Unit {0}) × Context S
  out = api p app store table rails r c

  -- A request for /panic is never answered: raven takes the text that the handler panics with for
  -- an error, and panics itself.
  pub api-panic :
      covers panic_path r ≡ true
      → ((about : String) × (out.0 ≡ throw (an_error about)))
        × (out.1.world.database ≡ c.world.database)
        × (out.1.response ≡ fresh)
  unfolding api test_panic
  api-panic e =
      let (result, kept, response) =
        Settles-text (test_panic.serve_http r (begun app test_panic (logging r c)))
          ((new_instrumented_handler p.recovery app test_panic).serve_http r (logging r c))
          "Parsing failed" (handler-Settles p h app test_panic r (logging r c)) refl in
      rw (mux-panic p h (api_config app store table rails) r c e) (
        result,
        kept ∙ begun-database app test_panic (logging r c),
        response ∙ begun-response app test_panic (logging r c) ∙ new,
      )

  pub api-status :
      covers status_path r ≡ true
      → (out.0 ≡ ok tt)
        × (out.1.world.database ≡ c.world.database)
        × (out.1.response ≡ with_body (codes "ok") fresh)
  unfolding api status fprintf
  api-status e =
      let (result, kept, response) =
        Settles-ok (status.serve_http r (begun app status (logging r c)))
          ((new_instrumented_handler p.recovery app status).serve_http r (logging r c))
          (handler-Settles p h app status r (logging r c)) refl in
      rw (mux-status p h (api_config app store table rails) r c e) (
        result,
        kept ∙ begun-database app status (logging r c),
        response ∙ ap (with_body (codes "ok")) (begun-response app status (logging r c) ∙ new),
      )

  pub api-unrouted :
      Takes nowhere r
      → (out.0 ≡ ok tt)
        × (out.1.world.database ≡ c.world.database)
        × (out.1.response ≡ not_found fresh)
  unfolding api
  api-unrouted e =
      rw (mux-unrouted p h (api_config app store table rails) r c e) (refl, refl, ap not_found new)

  copy_throws :
      (m : Panic) (x : Result String Sources)
      → read_sources rails r.association ≡ x
      → CopyEnds store table rails x r c.world.database out
      → out.0 ≡ throw m
      → (panic : String) × (read_sources rails r.association ≡ throw panic)
  copy_throws m (throw message) read ends e = (message, read)
  copy_throws m (ok sources) read (returned, _, _) e = cc

  throws :
      (m : Panic)
      → out.0 ≡ throw m
      → (x : Route) → Takes x r
      → (covers panic_path r ≡ true) ⊎ Unopened rails r
  throws m e panic t = inl t
  throws m e index t = let returned = (api-AnswersIndex p store table rails h app r c t new).0 in cc
  throws m e status_check t = let returned = (api-status t).0 in cc
  throws m e nowhere t = let returned = (api-unrouted t).0 in cc
  throws m e copying t = elim (api-AnswersCopy store table rails p h app r c t new) [
    | inl (_, returned, _, _) ↦ cc
    | inr (named, ends) ↦
        inr (t, named, copy_throws m (read_sources rails r.association) refl ends e)
  ]

  escapes : (covers panic_path r ≡ true) ⊎ Unopened rails r → (m : Panic) × (out.0 ≡ throw m)
  escapes (inl t) = let (about, e) = (api-panic t).0 in (an_error about, e)
  escapes (inr (t, named, (message, unopened))) =
      elim (api-AnswersCopy store table rails p h app r c t new) [
        | inl (unnamed, _, _, _) ↦ absurd (named unnamed)
        | inr (_, ends) ↦
            let (about, e) =
              (subst (λ x. CopyEnds store table rails x r c.world.database out) unopened ends).0 in
            (an_error about, e)
      ]

  -- If goji and raven do what they are known to do, the code that serves a request ends with a panic
  -- exactly if the request is a GET or HEAD request for /panic, or a POST request for /rails/copy
  -- with an association whose Rails database cannot be opened.
  pub api-throw_iff :
      ((m : Panic) × (out.0 ≡ throw m)) ↔ ((covers panic_path r ≡ true) ⊎ Unopened rails r)
  api-throw_iff = (λ (m, e). throws m e (route_of r).0 (route_of r).1, escapes)

  -- If goji and raven do what they are known to do, no request changes the database but a POST
  -- request for /rails/copy with an association.
  pub api-unchanged :
      (covers copy_path r ≡ false) ⊎ (r.association ≡ "") → out.1.world.database ≡ c.world.database
  api-unchanged k = go (route_of r).0 (route_of r).1
    where
      go : (x : Route) → Takes x r → out.1.world.database ≡ c.world.database
      go index e = (api-AnswersIndex p store table rails h app r c e new).1
      go panic e = (api-panic e).1
      go status_check e = (api-status e).1
      go nowhere e = (api-unrouted e).1
      go copying e = elim (api-AnswersCopy store table rails p h app r c e new) [
        | inl (_, _, kept, _) ↦ kept
        | inr (named, _) ↦ elim k [ inl n ↦ cc | inr unnamed ↦ absurd (named unnamed) ]
      ]
