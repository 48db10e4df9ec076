-- ===== src/Server/Copying.antt =====
-- What the API does for a request to copy an association.
use dawn_patrol.Prelude.{
  String, ◌==◌, true, false, Option, ◌≡◌, ◌≢◌, ◌⊎◌, refl, ap, ◌∙◌, inl, inr, Result, ok, throw,
  Bool-cases, eq_iff,
}
use dawn_patrol.Api.Associations.{Store}
use dawn_patrol.Api.Events.{EventTable}
use dawn_patrol.Api.Copy.{Sources, copy}
use dawn_patrol.Api.Rails.{Rails, read_sources}
use dawn_patrol.Api.Instrumentation.{World}
use dawn_patrol.Server.{
  Request, Context, Panic, an_error, Packages, with_status, new_instrumented_handler, api_config,
  api,
}
use dawn_patrol.Server.Routes.{IsPackages, covers, copy_path, logging, mux-copy}
use dawn_patrol.Server.CopyHandler.{
  copied_to, named_text, copy_response, begun-response, begun-database, copy_rails_unopened,
  copy_rails_opened, plain_copy, config, copy-World, handler_of, run_copy, no_association,
  copied_end,
}
use dawn_patrol.Server.Answers.{
  Settles, begun, handler-Settles, Settles-ok, Settles-error, Settles-text, fresh,
}

module _ {S : Type 0} (store : Store S) (table : EventTable S) (rails : Rails) where
  -- What the database and the response are after the handler, for what is read of the Rails database.
  abbrev pub CopyEnds :
      Result String Sources → Request → S → Result Panic (Unit {0}) × Context S → Type 0
  CopyEnds (throw panic) r s m =
      ((about : String) × (m.0 ≡ throw (an_error about)))
      × (m.1.world.database ≡ s)
      × (m.1.response ≡ fresh)
  CopyEnds (ok sources) r s m =
      (m.0 ≡ ok tt)
      × (m.1.world.database ≡ (plain_copy store table sources r.association s).1)
      × (m.1.response ≡ copy_response (plain_copy store table sources r.association s).0)

  -- A request to copy no association, and one to copy an association.
  abbrev pub AnswersCopy : Request → S → Result Panic (Unit {0}) × Context S → Type 0
  AnswersCopy r s m =
      ((r.association ≡ "")
        × (m.0 ≡ ok tt)
        × (m.1.world.database ≡ s)
        × (m.1.response ≡ with_status 400 fresh))
      ⊎ ((r.association ≢ "") × CopyEnds (read_sources rails r.association) r s m)

  module _ (p : Packages S) (h : IsPackages p) (app : Option String) (r : Request)
      (c : Context S) where
    abbrev served : Result Panic (Unit {0}) × Context S
    served =
        (new_instrumented_handler p.recovery app (handler_of store table rails app)).serve_http r
          (logging r c)

    abbrev start : Context S
    start = begun app (handler_of store table rails app) (logging r c)

    settled : Settles (run_copy store table rails app r c) served
    settled = handler-Settles p h app (handler_of store table rails app) r (logging r c)

    start_response : c.response ≡ fresh → start.response ≡ fresh
    start_response new = begun-response app (handler_of store table rails app) (logging r c) ∙ new

    start_database : start.world.database ≡ c.world.database
    start_database = begun-database app (handler_of store table rails app) (logging r c)

    copy_ended :
        (n : (r.association == "") ≡ false) (new : c.response ≡ fresh) (sources : Sources)
        (y : Result String (Unit {0})) (v : World S)
        → run_copy store table rails app r c ≡ copied_to (ok y) (record start { world = v })
        → (served.0 ≡ ok tt)
          × (served.1.world.database ≡ v.database)
          × (served.1.response ≡ copy_response y)
    copy_ended n new sources (ok tt) v ran =
        let (result, kept, response) = Settles-ok _ served settled (ap (λ m. m.0) ran) in
        (
          result,
          kept ∙ ap (λ m. m.1.world.database) ran,
          response ∙ ap (λ m. m.1.response) ran ∙ start_response new,
        )
    copy_ended n new sources (throw e) v ran =
        let (result, kept, response) = Settles-error _ served e settled (ap (λ m. m.0) ran) in
        (
          result,
          kept ∙ ap (λ m. m.1.world.database) ran,
          response
              ∙ ap (λ m. with_status 500 m.1.response) ran
              ∙ ap (with_status 500) (start_response new),
        )

    copy_named :
        (r.association == "") ≡ false
        → c.response ≡ fresh
        → (x : Result String Sources) → read_sources rails r.association ≡ x
        → CopyEnds x r c.world.database served
    copy_named n new (throw panic) e =
        let ran =
          copied_end store table rails app r c (throw panic) start.world n (
            unfold api_config in copy_rails_unopened _ _ rails r.association start.world panic e) in
        let (result, kept, response) = Settles-text _ served panic settled (ap (λ m. m.0) ran) in
        (
          result,
          kept ∙ ap (λ m. m.1.world.database) ran ∙ start_database,
          response ∙ ap (λ m. m.1.response) ran ∙ start_response new,
        )
    copy_named n new (ok sources) e =
        let w = start.world in
        let m =
          copy (config store table rails app).association_service
            (config store table rails app).event_service sources r.association w in
        let ran =
          copied_end store table rails app r c (ok m.0) m.1 n
            (unfold api_config in copy_rails_opened _ _ rails r.association w sources e) in
        let (same_result, same_database) =
          copy-World store table rails app sources r.association w in
        let (result, kept, response) = copy_ended n new sources m.0 m.1 ran in
        (
          result,
          kept
              ∙ same_database
              ∙ ap (λ s. (plain_copy store table sources r.association s).1) start_database,
          response
              ∙ ap copy_response same_result
              ∙ ap (λ s. copy_response (plain_copy store table sources r.association s).0)
                  start_database,
        )

    -- If goji and raven do what is documented of them, a POST request for /rails/copy is answered
    -- in one of four ways. Without an association it is a bad request. If the Rails database cannot
    -- be opened, the panic with its text is not recovered from: there is no answer, and the
    -- database is as it was. Else the database is what the copy made of it, with the status 500 if
    -- the copy returned an error.
    pub api-AnswersCopy :
        covers copy_path r ≡ true
        → c.response ≡ fresh
        → AnswersCopy r c.world.database (api p app store table rails r c)
    unfolding api
    api-AnswersCopy e new =
        rw (mux-copy p h (config store table rails app) r c e)
          (elim (Bool-cases (r.association == "")) [
            | inl empty ↦
                let (ended_ok, same, written) = no_association store table rails app r c empty in
                let (result, kept, response) = Settles-ok _ served settled ended_ok in
                inl (
                  (eq_iff r.association "").0 empty,
                  result,
                  kept ∙ same,
                  response ∙ written ∙ ap (with_status 400) new,
                )
            | inr n ↦ inr (
              named_text r.association n,
              copy_named n new (read_sources rails r.association) refl,
            )
          ])
