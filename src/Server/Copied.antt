-- ===== src/Server/Copied.antt =====
-- What the API answers for an association once it was copied: a request for /rails/copy, and a later
-- one for /index.json.
use dawn_patrol.Prelude.{
  String, codes, Bool, true, Option, none, some, List, [], ◌∷◌, map, ◌≡◌, ◌≢◌, ◌⊎◌, refl, sym, ap,
  subst, ◌∙◌, inl, inr, ok, throw, ok-inj,
}
use dawn_patrol.Printf.{fprintf}
use dawn_patrol.Api.{Association, Event, RacingAssociation}
use dawn_patrol.Api.Associations.{Store, IsStore, first_or_create, from_missing, free-missing}
use dawn_patrol.Api.Events.{EventTable, insert_all}
use dawn_patrol.Api.Copy.{Sources, new_association, converted, taken, copy-inserts}
use dawn_patrol.Api.Rails.{Rails, read_sources}
use dawn_patrol.Api.Bags.{bag, add_all}
use dawn_patrol.Api.Calendar.{unnumbered, calendars, IsEventTable}
use dawn_patrol.Api.Calendar.Copied.{KeepsEvents, copy-own_calendar}
use dawn_patrol.Server.{Request, Response, Context, Packages, api}
use dawn_patrol.Server.Routes.{IsPackages, covers, copy_path, index_path}
use dawn_patrol.Server.Answers.{fresh}
use dawn_patrol.Server.Index.{api-AnswersIndex}
use dawn_patrol.Server.CopyHandler.{plain_copy}
use dawn_patrol.Server.Copying.{CopyEnds, api-AnswersCopy}

-- What Postgres documents: an association that is created is found for a host that its pattern
-- answers to, if none was found before; inserting an event changes nothing about this.
pub record IsHosted {S : Type 0} (store : Store S) (table : EventTable S)
    (answers : String → String → Bool) : Type 0 where
  pub created_host :
      (host : String) (a : Association) (s : S) (e : String)
      → store.first_by_host host s ≡ throw e
      → answers host a.host ≡ true
      → a.id ≡ 0
      → store.free a s ≡ true
      → store.first_by_host host (store.create a s).1 ≡ ok (store.create a s).0
  pub kept_host :
      (host : String) (e : Event) (s : S)
      → store.first_by_host host (table.insert_event e s) ≡ store.first_by_host host s

module _ {S : Type 0} (store : Store S) (table : EventTable S) (answers : String → String → Bool)
    (hosted : IsHosted store table answers) where
  insert_all-kept_host :
      (host : String) (es : List Event) (s : S)
      → store.first_by_host host (insert_all table.insert_event es s) ≡ store.first_by_host host s
  insert_all-kept_host host [] s = refl
  insert_all-kept_host host (e ∷ es) s =
      insert_all-kept_host host es (table.insert_event e s) ∙ hosted.kept_host host e s

  -- The association that a copy creates answers for its host.
  copied_host :
      IsStore store
      → (sources : Sources) (acronym host : String) (s : S) (r : RacingAssociation) (e : String)
      → sources.racing_association ≡ ok r
      → sources.location ≡ ok tt
      → acronym ≢ ""
      → store.free (new_association sources acronym r) s ≡ true
      → store.first_by_host host s ≡ throw e
      → answers host (new_association sources acronym r).host ≡ true
      → store.first_by_host host (plain_copy store table sources acronym s).1
        ≡ ok (store.create (new_association sources acronym r) s).0
  copied_host h sources acronym host s r e found loaded named free unhosted answered =
      let a = new_association sources acronym r in
      let own = (first_or_create store a s).0.id in
      let es = map (λ e. converted own e) (taken own sources.rails_events) in
      let missing = free-missing store h a s named free in
      ap (λ m. store.first_by_host host m.1)
        (copy-inserts store table sources acronym s r found loaded)
      ∙ insert_all-kept_host host es (first_or_create store a s).1
      ∙ ap (λ m. store.first_by_host host m.1) (from_missing store a s refl missing)
      ∙ hosted.created_host host a s e unhosted answered refl free

-- The JSON of events, or the failure to make it.
abbrev pub Sent : {S : Type 0} → Packages S → List Event → Response → Type 0
Sent p es response =
    ((json : String) × (p.marshal es ≡ ok json)
      × (response ≡ record {
        status = some 200;
        content_type = some "application/json";
        body = fprintf (codes json);
      }))
    ⊎ ((e : String) × (p.marshal es ≡ throw e)
        × (response ≡ record { status = some 500; content_type = none; body = [] }))

module _ {S : Type 0} (p : Packages S) (store : Store S) (table : EventTable S) (rails : Rails)
    (h : IsPackages p) (app : Option String) where
  -- The database after a copy that opens the Rails database.
  api_copied :
      (r : Request) (c : Context S) (sources : Sources)
      → covers copy_path r ≡ true
      → c.response ≡ fresh
      → r.association ≢ ""
      → read_sources rails r.association ≡ ok sources
      → (api p app store table rails r c).1.world.database
        ≡ (plain_copy store table sources r.association c.world.database).1
  api_copied r c sources e new named opened =
      elim (api-AnswersCopy store table rails p h app r c e new) [
        | inl (unnamed, _, _, _) ↦ absurd (named unnamed)
        | inr (_, ends) ↦
            (subst
              (λ x.
                CopyEnds store table rails x r c.world.database (api p app store table rails r c))
              opened ends).1
      ]

  -- An association that is found for the host is answered with its events.
  pub api-Sent :
      (r : Request) (c : Context S) (a : Association)
      → covers index_path r ≡ true
      → c.response ≡ fresh
      → store.first_by_host r.host c.world.database ≡ ok a
      → Sent p
          (table.find_events a.id c.world.database)
          (api p app store table rails r c).1.response
  api-Sent r c a e new found =
      let s = c.world.database in
      let (_, _, answer) = api-AnswersIndex p store table rails h app r c e new in
      elim answer [
        | inl (b, json, found', marshalled, response) ↦
            let same = ok-inj (sym found' ∙ found) in
            inl (
              json,
              subst (λ (x : Association). p.marshal (table.find_events x.id s) ≡ ok json) same
                  marshalled,
              response,
            )
        | inr (m, inl unfound, response) ↦ cc (sym found ∙ unfound)
        | inr (m, inr (b, found', refused), response) ↦
            let same = ok-inj (sym found' ∙ found) in
            inr (
              m,
              subst (λ (x : Association). p.marshal (table.find_events x.id s) ≡ throw m) same
                  refused,
              response,
            )
      ]

module _ {S : Type 0} (p : Packages S) (store : Store S) (table : EventTable S)
    (rails : Rails) where
  -- If goji, raven, gorm and Postgres do what is documented of them, a copy of an association whose
  -- acronym, host and name are new, and whose Rails database, Rails association and time zone are
  -- found, makes the API answer for its host, if no association did before: a later request for
  -- /index.json gets the JSON of exactly the events of the Rails database, as they are converted,
  -- beside those that were kept under the new association's id, with the JSON taken as a format by
  -- fmt.Fprintf; or the status 500 if those events cannot be marshalled.
  pub api-copied_index :
      IsPackages p
      → IsStore store
      → IsEventTable table
      → KeepsEvents store table
      → (answers : String → String → Bool) → IsHosted store table answers
      → (app : Option String) (q r : Request) (c d : Context S) (sources : Sources)
        (ra : RacingAssociation) (e : String)
      → covers copy_path q ≡ true
      → c.response ≡ fresh
      → q.association ≢ ""
      → read_sources rails q.association ≡ ok sources
      → sources.racing_association ≡ ok ra
      → sources.location ≡ ok tt
      → store.free (new_association sources q.association ra) c.world.database ≡ true
      → store.first_by_host r.host c.world.database ≡ throw e
      → answers r.host (new_association sources q.association ra).host ≡ true
      → covers index_path r ≡ true
      → d.response ≡ fresh
      → d.world.database ≡ (api p app store table rails q c).1.world.database
      → (es : List Event) × (bag (map unnumbered es) ≡ (
          let own =
            (store.create (new_association sources q.association ra) c.world.database).0.id in
          add_all
            (map (λ x. converted own x) sources.rails_events)
            (calendars table c.world.database own)))
        × Sent p es (api p app store table rails r d).1.response
  api-copied_index h hs ht hk answers hosted app q r c d sources ra e copies new named opened found
        loaded free unhosted answered asks new' later =
      let s = c.world.database in
      let a = new_association sources q.association ra in
      let b = (store.create a s).0 in
      let t = (plain_copy store table sources q.association s).1 in
      let after =
        later ∙ api_copied p store table rails h app q c sources copies new named opened in
      let host =
        copied_host store table answers hosted hs sources q.association r.host s ra e found loaded
          named free unhosted answered in
      let missing = free-missing store hs a s named free in
      let sent =
        api-Sent p store table rails h app r d b asks new'
          (ap (store.first_by_host r.host) after ∙ host) in
      (
        table.find_events b.id d.world.database,
        ap (λ x. calendars table x b.id) after
            ∙ copy-own_calendar store table hs ht hk sources q.association s ra found loaded missing
                free,
        sent,
      )
