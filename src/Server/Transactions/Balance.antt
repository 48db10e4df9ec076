-- ===== src/Server/Transactions/Balance.antt =====
-- The transactions of a whole request to the API.
use dawn_patrol.Prelude.{
  String, ◌==◌, Option, none, some, List, [], ◌≡◌, sym, subst, inl, inr, Result, ok, throw,
  Result-cases, Bool-cases,
}
use dawn_patrol.Api.{Event}
use dawn_patrol.Api.Services.{AssociationService, EventService}
use dawn_patrol.Api.Associations.{Store}
use dawn_patrol.Api.Events.{EventTable}
use dawn_patrol.Api.Copy.{Sources, copy, create_converted, convert_all, new_association}
use dawn_patrol.Api.Rails.{Rails, read_sources, copy_rails, racing_association_service}
use dawn_patrol.Api.Instrumentation.{World}
use dawn_patrol.Server.{
  Request, Context, Packages, Panic, MuxConfig, new_mux, Handler, root, test_panic, status,
  copy_handler, new_instrumented_handler, api_config, api,
}
use dawn_patrol.Server.Routes.{
  IsPackages, logging, mux-index, mux-panic, mux-copy, mux-status, mux-unrouted,
}
use dawn_patrol.Server.Answers.{begun, handler-world}
use dawn_patrol.Server.Panics.{Route, index, panic, copying, status_check, nowhere, Takes, route_of}
use dawn_patrol.Server.Transactions.{
  Closes-refl, Closes-trans, Closes-around, none-Notes, Closed, IsClosed, api_config-IsClosed,
}

-- A handler ends the transactions that it starts.
abbrev IsQuiet : {S : Type 0} → Handler S → Type 0
IsQuiet {S} handler =
    (r : Request) (c : Context S) → Closed c.world (handler.serve_http r c).1.world

module _ {S : Type 0} (associations : AssociationService (World S))
    (events : EventService (World S)) (h : IsClosed associations events) where
  create_converted-Closed :
      (x : Result String (List Event)) (w : World S)
      → Closed w (create_converted associations events x w).1
  unfolding create_converted
  create_converted-Closed (ok es) w = h.inserted es w
  create_converted-Closed (throw e) w = Closes-refl w.transactions

  copy-Closed :
      (sources : Sources) (acronym : String) (w : World S)
      → Closed w (copy associations events sources acronym w).1
  unfolding copy
  copy-Closed sources acronym w = elim (Result-cases sources.racing_association) [
    | inr (e, missing) ↦ rw missing (Closes-refl w.transactions)
    | inl (r, found) ↦
        let (a, v) = associations.first_or_create (new_association sources acronym r) w in
        rw found (
          Closes-trans w.transactions v.transactions _
            (h.created (new_association sources acronym r) w)
            (create_converted-Closed (convert_all sources.location a.id sources.rails_events) v))
  ]

  copy_rails-Closed :
      (rails : Rails) (acronym : String) (w : World S)
      → Closed w (copy_rails associations events rails acronym w).1
  unfolding copy_rails
  copy_rails-Closed rails acronym w = elim (Result-cases (read_sources rails acronym)) [
    | inr (e, unopened) ↦ rw (unopened, copy_rails) (Closes-refl w.transactions)
    | inl (sources, opened) ↦ rw (opened, copy_rails) (copy-Closed sources acronym w)
  ]

  root-IsQuiet :
      (marshal : List Event → Result String String) → IsQuiet (root marshal associations events)
  unfolding root
  root-IsQuiet marshal r c = elim (Result-cases (associations.first_by_host r.host c.world).0) [
    | inr (e, unfound) ↦ rw unfound (h.by_host r.host c.world)
    | inl (a, found) ↦ rw found (
        let w = (associations.first_by_host r.host c.world).1 in
        let told =
          Closes-trans c.world.transactions w.transactions (events.find a w).1.transactions
            (h.by_host r.host c.world) (h.found a w) in
        elim (Result-cases (events.find a w).0) [
          | inr (e, refused) ↦ rw refused told
          | inl (es, listed) ↦ rw listed (elim (Result-cases (marshal es)) [
            | inr (e, refused) ↦ rw refused told
            | inl (json, marshalled) ↦ rw marshalled told
          ])
        ])
  ]

  copy_handler-IsQuiet :
      (rails : Rails)
      → IsQuiet (copy_handler (racing_association_service associations events rails))
  unfolding copy_handler
  copy_handler-IsQuiet rails r c = elim (Bool-cases (r.association == "")) [
    | inl empty ↦ rw empty (Closes-refl c.world.transactions)
    | inr n ↦ rw n (
        let told = copy_rails-Closed rails r.association c.world in
        elim (Result-cases (copy_rails associations events rails r.association c.world).0) [
          | inr (e, panicked) ↦ rw panicked told
          | inl (ok tt, copied) ↦ rw copied told
          | inl (throw e, failed) ↦ rw failed told
        ])
  ]

module _ {S : Type 0} (p : Packages S) (h : IsPackages p) where
  -- A handler between the start and the end of its own transaction.
  instrumented-IsQuiet :
      (app : Option String) (handler : Handler S)
      → IsQuiet handler
      → IsQuiet (new_instrumented_handler p.recovery app handler)
  instrumented-IsQuiet none handler quiet r c =
      subst (λ (w : World S). Closed c.world w) (sym (handler-world p h none handler r c))
        (quiet r c)
  instrumented-IsQuiet (some name) handler quiet r c =
      subst (λ (w : World S). Closed c.world w) (sym (handler-world p h (some name) handler r c))
        (Closes-around c.world.transactions _ handler.type_name [] none-Notes
          (quiet r (begun (some name) handler c)))

  -- If goji and raven do what they are known to do, New Relic is told of the end of every
  -- transaction that is started for a request, and of no other, whatever the request is and also if
  -- a handler panics.
  pub api-Closed :
      (app : Option String) (store : Store S) (table : EventTable S) (rails : Rails) (r : Request)
      (c : Context S)
      → Closed c.world (api p app store table rails r c).1.world
  unfolding api
  api-Closed app store table rails r c = go (route_of r).0 (route_of r).1
    where
      cfg : MuxConfig S
      cfg = api_config app store table rails

      closed : IsClosed cfg.association_service cfg.event_service
      closed = api_config-IsClosed store table rails app

      told :
          (handler : Handler S)
          → IsQuiet handler
          → new_mux p cfg r c
            ≡ (new_instrumented_handler p.recovery app handler).serve_http r (logging r c)
          → Closed c.world (new_mux p cfg r c).1.world
      told handler quiet e =
          subst (λ (m : Result Panic (Unit {0}) × Context S). Closed c.world m.1.world) (sym e)
            (instrumented-IsQuiet app handler quiet r (logging r c))

      go : (x : Route) → Takes x r → Closed c.world (new_mux p cfg r c).1.world
      go index e =
          told (root p.marshal cfg.association_service cfg.event_service)
            (root-IsQuiet cfg.association_service cfg.event_service closed p.marshal)
            (mux-index p h cfg r c e)
      go panic e =
          told test_panic (unfold test_panic in λ q d. Closes-refl d.world.transactions)
            (mux-panic p h cfg r c e)
      go copying e =
          told
            (copy_handler
              (racing_association_service cfg.association_service cfg.event_service rails))
            (copy_handler-IsQuiet cfg.association_service cfg.event_service closed rails)
            (mux-copy p h cfg r c e)
      go status_check e =
          told status (unfold status in λ q d. Closes-refl d.world.transactions)
            (mux-status p h cfg r c e)
      go nowhere e =
          subst (λ (m : Result Panic (Unit {0}) × Context S). Closed c.world m.1.world)
            (sym (mux-unrouted p h cfg r c e)) (Closes-refl c.world.transactions)
