-- ===== src/Server/Index.antt =====
-- What the API answers to a request for /index.json.
use dawn_patrol.Prelude.{
  String, codes, true, Option, none, some, [], ◌≡◌, ◌⊎◌, refl, ap, ◌∙◌, inl, inr, Result, ok, throw,
  Result-cases,
}
use dawn_patrol.Printf.{fprintf}
use dawn_patrol.Api.{Association}
use dawn_patrol.Api.Associations.{Store}
use dawn_patrol.Api.Events.{EventTable, find_by_association}
use dawn_patrol.Api.Rails.{Rails}
use dawn_patrol.Api.Instrumentation.{
  traced, new_instrumented_association_service, new_instrumented_event_service,
}
use dawn_patrol.Server.{
  Request, Context, Panic, an_error, Handler, Packages, with_status, with_body, root, api_config,
  api,
}
use dawn_patrol.Server.Routes.{IsPackages, covers, index_path, logging, mux-index}
use dawn_patrol.Server.Answers.{begun, handler-Settles, Settles-ok, Settles-error, fresh}

module _ {S : Type 0} (p : Packages S) (store : Store S) (table : EventTable S)
    (rails : Rails) where
  -- `Root` in the server, with the transaction begun.
  abbrev root_of : Option String → Handler S
  root_of app =
      root p.marshal (api_config app store table rails).association_service
        (api_config app store table rails).event_service

  abbrev run_root : Option String → Request → Context S → Result Panic (Unit {0}) × Context S
  run_root app r c = (root_of app).serve_http r (begun app (root_of app) (logging r c))

  root_served :
      (app : Option String) (r : Request) (c : Context S) (a : Association) (json : String)
      → store.first_by_host r.host c.world.database ≡ ok a
      → p.marshal (table.find_events a.id c.world.database) ≡ ok json
      → ((run_root app r c).0 ≡ ok tt)
        × ((run_root app r c).1.world.database ≡ c.world.database)
        × ((run_root app r c).1.response
            ≡ with_body
                (fprintf (codes json))
                (record c.response { content_type = some "application/json" }))
  unfolding root api_config traced find_by_association new_instrumented_association_service
      new_instrumented_event_service
  root_served none r c a json found marshalled = rw (found, marshalled) (refl, refl, refl)
  root_served (some app) r c a json found marshalled = rw (found, marshalled) (refl, refl, refl)

  -- Why /index.json is not answered: there is no association for the host, or its events cannot be
  -- marshalled.
  abbrev pub Unanswerable : Request → S → String → Type 0
  Unanswerable r s e =
      (store.first_by_host r.host s ≡ throw e)
      ⊎ ((a : Association) × (store.first_by_host r.host s ≡ ok a)
          × (p.marshal (table.find_events a.id s) ≡ throw e))

  root_failed :
      (app : Option String) (r : Request) (c : Context S) (e : String)
      → Unanswerable r c.world.database e
      → ((run_root app r c).0 ≡ throw (an_error e))
        × ((run_root app r c).1.world.database ≡ c.world.database)
        × ((run_root app r c).1.response ≡ c.response)
  unfolding root api_config traced find_by_association new_instrumented_association_service
      new_instrumented_event_service
  root_failed none r c e (inl none_found) = rw none_found (refl, refl, refl)
  root_failed none r c e (inr (a, found, refused)) = rw (found, refused) (refl, refl, refl)
  root_failed (some app) r c e (inl none_found) = rw none_found (refl, refl, refl)
  root_failed (some app) r c e (inr (a, found, refused)) = rw (found, refused) (refl, refl, refl)

  -- The answers to a request for /index.json, with the database before.
  abbrev pub AnswersIndex : Request → S → Result Panic (Unit {0}) × Context S → Type 0
  AnswersIndex r s m =
      (m.0 ≡ ok tt)
      × (m.1.world.database ≡ s)
      × (((a : Association) × (json : String) × (store.first_by_host r.host s ≡ ok a)
            × (p.marshal (table.find_events a.id s) ≡ ok json)
            × (m.1.response ≡ record {
              status = some 200;
              content_type = some "application/json";
              body = fprintf (codes json);
            }))
          ⊎ ((e : String) × Unanswerable r s e
              × (m.1.response ≡ record { status = some 500; content_type = none; body = [] })))

  index_cases :
      (r : Request) (s : S)
      → ((a : Association) × (json : String) × (store.first_by_host r.host s ≡ ok a)
          × (p.marshal (table.find_events a.id s) ≡ ok json))
        ⊎ ((e : String) × Unanswerable r s e)
  index_cases r s = elim (Result-cases (store.first_by_host r.host s)) [
    | inr (e, none_found) ↦ inr (e, inl none_found)
    | inl (a, found) ↦ elim (Result-cases (p.marshal (table.find_events a.id s))) [
      | inl (json, marshalled) ↦ inl (a, json, found, marshalled)
      | inr (e, refused) ↦ inr (e, inr (a, found, refused))
    ]
  ]

  module _ (h : IsPackages p) (app : Option String) (r : Request) (c : Context S) where
    -- If goji and raven do what is documented of them, a GET or HEAD request for /index.json leaves
    -- the database as it is and is answered in one of two ways. If an association is found for the
    -- host and its events are marshalled, the answer is the status 200 and the JSON type, with the
    -- JSON taken as a format by fmt.Fprintf; else it is the status 500 with no body.
    pub api-AnswersIndex :
        covers index_path r ≡ true
        → c.response ≡ fresh
        → AnswersIndex r c.world.database (api p app store table rails r c)
    unfolding api
    api-AnswersIndex e new =
        let settled = handler-Settles p h app (root_of app) r (logging r c) in
        rw (mux-index p h (api_config app store table rails) r c e)
          (elim (index_cases r c.world.database) [
            | inl (a, json, found, marshalled) ↦
                let (ended_ok, same, written) = root_served app r c a json found marshalled in
                let (result, kept, response) = Settles-ok _ _ settled ended_ok in
                (
                  result,
                  kept ∙ same,
                  inl (
                    a,
                    json,
                    found,
                    marshalled,
                    response
                        ∙ written
                        ∙ ap
                            (λ t.
                              with_body (fprintf (codes json))
                                (record t { content_type = some "application/json" }))
                            new,
                  ),
                )
            | inr (e, why) ↦
                let (failed, same, written) = root_failed app r c e why in
                let (result, kept, response) = Settles-error _ _ e settled failed in
                (result, kept ∙ same, inr (e, why, response ∙ ap (with_status 500) (written ∙ new)))
          ])
