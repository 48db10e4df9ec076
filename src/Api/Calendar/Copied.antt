-- ===== src/Api/Calendar/Copied.antt =====
-- What a copy from the Rails database does to the calendars.
use dawn_patrol.Prelude.{
  ℕ, String, true, false, none, some, map, ◌≡◌, ◌≢◌, ◌⊎◌, refl, ap, ◌∙◌, arith, nat_eq,
  if◌then◌else◌, Result, ok, inl, inr, Bool-cases, Option-cases,
}
use dawn_patrol.Api.{Association, RacingAssociation}
use dawn_patrol.Api.Associations.{
  Store, IsStore, first_or_create, found_or, association_service, from_found, from_missing,
}
use dawn_patrol.Api.Events.{EventTable, event_service, insert_all}
use dawn_patrol.Api.Copy.{Sources, copy, new_association, converted, taken, copy-inserts}
use dawn_patrol.Api.Bags.{bag, add_all}
use dawn_patrol.Api.Calendar.Converted.{publish-converted, converted-new, known-converted}
use dawn_patrol.Api.Calendar.{unnumbered, events_of, calendars, IsEventTable, insert_all-publish}

-- What Postgres documents of the two tables: creating an association leaves the events as they are
-- and the associations that are there; an association that is found or created is there.
pub record KeepsEvents {S : Type 0} (store : Store S) (table : EventTable S) : Type 0 where
  pub kept :
      (a : Association) (s : S) (id : ℕ)
      → table.find_events id (store.create a s).1 ≡ table.find_events id s
  pub kept_known :
      (id : ℕ) (a : Association) (s : S)
      → table.knows id s ≡ true
      → table.knows id (store.create a s).1 ≡ true
  pub found_known :
      (n : ℕ) (acronym : String) (s : S) (a : Association)
      → store.first_by_acronym n acronym s ≡ some a
      → table.knows a.id s ≡ true
  pub created_known :
      (a : Association) (s : S)
      → a.id ≡ 0
      → (store.create a s).0.id ≢ 0
      → table.knows (store.create a s).0.id (store.create a s).1 ≡ true

module _ {S : Type 0} (store : Store S) (table : EventTable S) where
  first_or_create-kept :
      KeepsEvents store table
      → (a : Association) (s : S) (id : ℕ)
      → table.find_events id (first_or_create store a s).1 ≡ table.find_events id s
  unfolding first_or_create
  first_or_create-kept k a s id = elim (Bool-cases (nat_eq (found_or store a s).id 0)) [
    | inl new ↦ rw new (k.kept (found_or store a s) s id)
    | inr old ↦ rw old refl
  ]

  -- A copy that found or created an association.
  pub copy-known :
      IsEventTable table
      → KeepsEvents store table
      → (sources : Sources) (acronym : String) (s : S) (r : RacingAssociation) (id : ℕ)
      → sources.racing_association ≡ ok r
      → sources.location ≡ ok tt
      → (first_or_create store (new_association sources acronym r) s).0.id ≢ 0
      → table.knows
          (first_or_create store (new_association sources acronym r) s).0.id
          (first_or_create store (new_association sources acronym r) s).1
        ≡ true
      → calendars table
          (copy (association_service store) (event_service table) sources acronym s).1
          id
        ≡ (let own = (first_or_create store (new_association sources acronym r) s).0.id in
            if nat_eq own id
            then add_all (map (λ e. converted own e) sources.rails_events) (calendars table s id)
            else calendars table s id)
  copy-known ht k sources acronym s r id found loaded named there =
      let a = new_association sources acronym r in
      let (own, t) = first_or_create store a s in
      let es = map (λ e. converted own.id e) sources.rails_events in
      let test : nat_eq own.id 0 ≡ false = ground arith in
      let all_taken : taken own.id sources.rails_events ≡ sources.rails_events = rw test refl in
      ap (λ m. calendars table m.1 id) (copy-inserts store table sources acronym s r found loaded)
      ∙ ap
          (λ l.
            calendars table (insert_all table.insert_event (map (λ e. converted own.id e) l) t) id)
          all_taken
      ∙ insert_all-publish table ht es t id (converted-new own.id sources.rails_events)
      ∙ ap (λ l. add_all (map unnumbered (events_of id l)) (calendars table t id))
          (known-converted table own.id sources.rails_events t there)
      ∙ ap (λ l. add_all (map unnumbered (events_of id es)) (bag (map unnumbered l)))
          (first_or_create-kept k a s id)
      ∙ publish-converted own.id id sources.rails_events (calendars table s id)

  -- What a copy does to the calendar of an association, given the database that it leaves.
  abbrev pub CopyPublishes :
      Sources → String → S → RacingAssociation → ℕ → Result String (Unit {0}) × S → Type 0
  CopyPublishes sources acronym s r id out =
      (let own = (first_or_create store (new_association sources acronym r) s).0.id in
        (own ≢ 0)
        × (calendars table out.1 id ≡ (
            if nat_eq own id
            then add_all (map (λ e. converted own e) sources.rails_events) (calendars table s id)
            else calendars table s id)))
      ⊎ ((store.first_by_acronym 0 acronym s ≡ none)
          × (store.free (new_association sources acronym r) s ≡ false)
          × (out ≡ (ok tt, s)))

  -- If the database does what gorm and Postgres document of it, a copy that finds the Rails
  -- association and the time zone puts all events of the Rails database into the calendar of the
  -- association that it found by the acronym or created, beside those that were there, and leaves
  -- every other calendar as it was; or no association is found by the acronym, but the acronym, the
  -- host or the name of the new one is not free, and the copy reports success and has changed
  -- nothing.
  pub copy-calendars :
      IsStore store
      → IsEventTable table
      → KeepsEvents store table
      → (sources : Sources) (acronym : String) (s : S) (r : RacingAssociation) (id : ℕ)
      → sources.racing_association ≡ ok r
      → sources.location ≡ ok tt
      → CopyPublishes sources acronym s r id
          (copy (association_service store) (event_service table) sources acronym s)
  copy-calendars h t k sources acronym s r id found loaded =
      let a = new_association sources acronym r in
      elim (Option-cases (store.first_by_acronym 0 acronym s)) [
        | inr (f, e) ↦
            let n = h.found_id 0 acronym s f e in
            let once = from_found store a f s refl e n in
            let own : (first_or_create store a s).0.id ≢ 0 = rw once n in
            inl (
              own,
              copy-known t k sources acronym s r id found loaded own
                  (rw once (k.found_known 0 acronym s f e)),
            )
        | inl e ↦
            let once = from_missing store a s refl e in
            elim (Bool-cases (store.free a s)) [
              | inl free ↦
                  let n = h.created_id a s refl free in
                  let own : (first_or_create store a s).0.id ≢ 0 = rw once n in
                  inl (
                    own,
                    copy-known t k sources acronym s r id found loaded own
                        (rw once (k.created_known a s refl n)),
                  )
              | inr held ↦ inr (
                e,
                held,
                copy-inserts store table sources acronym s r found loaded
                    ∙ ap
                        (λ (m : Association × S). (
                          ok tt,
                          insert_all table.insert_event
                              (map (λ e. converted m.0.id e) (taken m.0.id sources.rails_events))
                              m.1,
                        ))
                        (once ∙ h.refused a s held),
              )
            ]
      ]

  -- The calendar of an association that a copy creates.
  pub copy-own_calendar :
      IsStore store
      → IsEventTable table
      → KeepsEvents store table
      → (sources : Sources) (acronym : String) (s : S) (r : RacingAssociation)
      → sources.racing_association ≡ ok r
      → sources.location ≡ ok tt
      → store.first_by_acronym 0 acronym s ≡ none
      → store.free (new_association sources acronym r) s ≡ true
      → (let own = (store.create (new_association sources acronym r) s).0.id in
          calendars table
            (copy (association_service store) (event_service table) sources acronym s).1
            own
          ≡ add_all (map (λ e. converted own e) sources.rails_events) (calendars table s own))
  copy-own_calendar h ht k sources acronym s r found loaded missing free =
      let a = new_association sources acronym r in
      let own = (store.create a s).0.id in
      let once = from_missing store a s refl missing in
      let n = h.created_id a s refl free in
      let named : (first_or_create store a s).0.id ≢ 0 = rw once n in
      let there = k.created_known a s refl n in
      let own_test : nat_eq own own ≡ true = ground arith in
      let known_there : table.knows (first_or_create store a s).0.id (first_or_create store a s).1
          ≡ true =
        rw once there in
      copy-known ht k sources acronym s r own found loaded named known_there
      ∙ ap
          (λ (m : Association × S).
            if nat_eq m.0.id own
            then add_all (map (λ e. converted m.0.id e) sources.rails_events)
                (calendars table s own)
            else calendars table s own)
          once
      ∙ ap
          (λ b.
            if b
            then add_all (map (λ e. converted own e) sources.rails_events) (calendars table s own)
            else calendars table s own)
          own_test
