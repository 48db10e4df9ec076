-- ===== src/Server/CopyHandler.antt =====
-- The handler of /rails/copy with its services, and the copy on the database alone.
use dawn_patrol.Prelude.{
  String, ◌==◌, true, false, Option, none, some, List, ◌≡◌, ◌≢◌, refl, inl, inr, Result, ok, throw,
  Result-cases, eq_iff, arith,
}
use dawn_patrol.Api.{Event}
use dawn_patrol.Api.Services.{AssociationService, EventService}
use dawn_patrol.Api.Associations.{Store, association_service}
use dawn_patrol.Api.Events.{EventTable, event_service}
use dawn_patrol.Api.Copy.{Sources, copy, create_converted, convert_all}
use dawn_patrol.Api.Rails.{Rails, read_sources, copy_rails}
use dawn_patrol.Api.Instrumentation.{
  World, traced, new_instrumented_association_service, new_instrumented_event_service,
}
use dawn_patrol.Server.{
  Request, Response, Context, Panic, an_error, a_text, Handler, MuxConfig, with_status,
  copy_handler, api_config,
}
use dawn_patrol.Server.Routes.{logging}
use dawn_patrol.Server.Answers.{begun, fresh}

-- The end of the handler for what the service returns.
abbrev pub copied_to :
    {S : Type 0}
    → Result String (Result String (Unit {0}))
    → Context S
    → Result Panic (Unit {0}) × Context S
copied_to (throw e) d = (throw (a_text e), d)
copied_to (ok (throw e)) d = (throw (an_error e), d)
copied_to (ok (ok tt)) d = (ok tt, d)

pub named_text : (s : String) → (s == "") ≡ false → s ≢ ""
named_text s n e = ground (arith, eq_iff s "")

abbrev pub copy_response : Result String (Unit {0}) → Response
copy_response (ok tt) = fresh
copy_response (throw e) = with_status 500 fresh

module _ {S : Type 0} (app : Option String) (h : Handler S) (c : Context S) where
  pub begun-response : (begun app h c).response ≡ c.response
  begun-response = elim app as (λ o. (begun o h c).response ≡ c.response) [
    | none ↦ refl
    | some name ↦ refl
  ]

  pub begun-database : (begun app h c).world.database ≡ c.world.database
  begun-database = elim app as (λ o. (begun o h c).world.database ≡ c.world.database) [
    | none ↦ refl
    | some name ↦ refl
  ]

module _ {W : Type 0} (associations : AssociationService W) (events : EventService W)
    (rails : Rails) where
  pub copy_rails_unopened :
      (acronym : String) (w : W) (panic : String)
      → read_sources rails acronym ≡ throw panic
      → copy_rails associations events rails acronym w ≡ (throw panic, w)
  unfolding copy_rails
  copy_rails_unopened acronym w panic e = rw (e, copy_rails) refl

  pub copy_rails_opened :
      (acronym : String) (w : W) (sources : Sources)
      → read_sources rails acronym ≡ ok sources
      → copy_rails associations events rails acronym w ≡ (
        ok (copy associations events sources acronym w).0,
        (copy associations events sources acronym w).1,
      )
  unfolding copy_rails
  copy_rails_opened acronym w sources e = rw (e, copy_rails) refl

-- `Copy` on the database alone.
abbrev pub plain_copy :
    {S : Type 0} → Store S → EventTable S → Sources → String → S → Result String (Unit {0}) × S
plain_copy store table = copy (association_service store) (event_service table)

module _ {S : Type 0} (store : Store S) (table : EventTable S) (rails : Rails) where
  abbrev pub config : Option String → MuxConfig S
  config app = api_config app store table rails

  -- New Relic changes neither the result of a copy nor the database.
  create_converted-World :
      (app : Option String) (x : Result String (List Event)) (w : World S)
      → ((create_converted (config app).association_service (config app).event_service x w).0
          ≡ (create_converted (association_service store) (event_service table) x w.database).0)
        × ((create_converted
              (config app).association_service
              (config app).event_service
              x
              w).1.database
            ≡ (create_converted (association_service store) (event_service table) x w.database).1)
  unfolding create_converted api_config traced new_instrumented_event_service
  create_converted-World none (ok es) w = (refl, refl)
  create_converted-World none (throw e) w = (refl, refl)
  create_converted-World (some app) (ok es) w = (refl, refl)
  create_converted-World (some app) (throw e) w = (refl, refl)

  pub copy-World :
      (app : Option String) (sources : Sources) (acronym : String) (w : World S)
      → ((copy (config app).association_service (config app).event_service sources acronym w).0
          ≡ (plain_copy store table sources acronym w.database).0)
        × ((copy
              (config app).association_service
              (config app).event_service
              sources
              acronym
              w).1.database
            ≡ (plain_copy store table sources acronym w.database).1)
  unfolding copy api_config traced new_instrumented_association_service
  copy-World none sources acronym w = elim (Result-cases sources.racing_association) [
    | inr (e, missing) ↦ rw missing (refl, refl)
    | inl (r, found) ↦
        rw found
          (create_converted-World none (convert_all sources.location _ sources.rails_events) _)
  ]
  copy-World (some app) sources acronym w = elim (Result-cases sources.racing_association) [
    | inr (e, missing) ↦ rw missing (refl, refl)
    | inl (r, found) ↦
        rw found (
          create_converted-World (some app) (convert_all sources.location _ sources.rails_events) _)
  ]

  abbrev pub handler_of : Option String → Handler S
  handler_of app = copy_handler (config app).racing_association_service

  abbrev pub run_copy : Option String → Request → Context S → Result Panic (Unit {0}) × Context S
  run_copy app r c = (handler_of app).serve_http r (begun app (handler_of app) (logging r c))

  pub no_association :
      (app : Option String) (r : Request) (c : Context S)
      → (r.association == "") ≡ true
      → ((run_copy app r c).0 ≡ ok tt)
        × ((run_copy app r c).1.world.database ≡ c.world.database)
        × ((run_copy app r c).1.response ≡ with_status 400 c.response)
  unfolding copy_handler
  no_association none r c e = rw e (refl, refl, refl)
  no_association (some app) r c e = rw e (refl, refl, refl)

  pub copied_end :
      (app : Option String) (r : Request) (c : Context S)
      (x : Result String (Result String (Unit {0}))) (v : World S)
      → (r.association == "") ≡ false
      → (config app).racing_association_service.copy r.association
          (begun app (handler_of app) (logging r c)).world
        ≡ (x, v)
      → run_copy app r c
        ≡ copied_to x (record (begun app (handler_of app) (logging r c)) { world = v })
  unfolding copy_handler
  copied_end app r c (throw m) v n e = rw n (rw e refl)
  copied_end app r c (ok (throw m)) v n e = rw n (rw e refl)
  copied_end app r c (ok (ok tt)) v n e = rw n (rw e refl)
