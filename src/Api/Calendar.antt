-- ===== src/Api/Calendar.antt =====
-- What the API promises of its database: for each association, a bag of events that grows by the
-- events that are published.
pub mod Converted
pub mod Copied
use dawn_patrol.Prelude.{
  ℕ, ◌+◌, String, Bool, true, false, not, ◌&&◌, List, [], ◌∷◌, ◌++◌, map, keep, ◌≡◌, ◌≢◌, refl, sym,
  ap, ◌∙◌, arith, nat_eq, if◌then◌else◌, All, Result, ok, throw, inl, inr, Bool-cases,
}
use dawn_patrol.Api.{Association, Event, RailsEvent, RacingAssociation}
use dawn_patrol.Api.Associations.{Store, IsStore, first_or_create, association_service}
use dawn_patrol.Api.Events.{
  EventTable, event_service, create_events, create_events_lem, insert_all, before_nameless,
}
use dawn_patrol.Api.Copy.{Sources, copy, new_association, converted, copy-inserts}
use dawn_patrol.Api.Bags.{Bag, bag, SameEvents, add_all, add_all_nil, add_all_comm, add_all-add_all}
use mathlib.Core.Quot

-- An event without the id that the database gave it.
abbrev pub unnumbered : Event → Event
unnumbered e = record e { id = 0 }

abbrev pub events_of : ℕ → List Event → List Event
events_of id es = keep (λ e. nat_eq e.association_id id) es

pub events_of-cons :
    (id : ℕ) (e : Event) (es : List Event)
    → map unnumbered (events_of id (e ∷ es))
      ≡ map unnumbered (events_of id (e ∷ [])) ++ map unnumbered (events_of id es)
events_of-cons id e es = elim (Bool-cases (nat_eq e.association_id id)) [
  | inl y ↦ rw y refl
  | inr n ↦ rw n refl
]

-- The calendars of all associations, and the publishing of events in them.
abbrev pub Calendars : Type 0
Calendars = ℕ → Bag

abbrev pub publish : List Event → Calendars → Calendars
publish es calendars id = add_all (map unnumbered (events_of id es)) (calendars id)

module _ {S : Type 0} (table : EventTable S) where
  -- What a database stands for.
  abbrev pub calendars : S → Calendars
  calendars s id = bag (map unnumbered (table.find_events id s))

  -- The events whose association is there.
  abbrev pub known : S → List Event → List Event
  known s es = keep (λ e. table.knows e.association_id s) es

  -- What gorm and Postgres document: an event without an id that is inserted is found among those of
  -- its association, in no given order, if the association is there, and the events of the other
  -- associations stay; else the foreign key refuses it and nothing changes. Inserting events changes
  -- nothing about the associations.
  pub record IsEventTable : Type 0 where
    pub inserted :
        (e : Event) (s : S) (id : ℕ)
        → e.id ≡ 0
        → table.knows e.association_id s ≡ true
        → SameEvents
            (map unnumbered (table.find_events id (table.insert_event e s)))
            (map unnumbered (events_of id (e ∷ [])) ++ map unnumbered (table.find_events id s))
    pub unknown :
        (e : Event) (s : S) → table.knows e.association_id s ≡ false → table.insert_event e s ≡ s
    pub kept_known :
        (id : ℕ) (e : Event) (s : S) → table.knows id (table.insert_event e s) ≡ table.knows id s

  module _ (h : IsEventTable) where
    pub insert_event-publish :
        (e : Event) (s : S) (id : ℕ)
        → e.id ≡ 0
        → table.knows e.association_id s ≡ true
        → calendars (table.insert_event e s) id ≡ publish (e ∷ []) (calendars s) id
    unfolding add_all
    insert_event-publish e s id new there = Quot.sound (h.inserted e s id new there)

    known-insert_event :
        (e : Event) (s : S) (es : List Event) → known (table.insert_event e s) es ≡ known s es
    known-insert_event e s [] = refl
    known-insert_event e s (f ∷ es) =
        let same = h.kept_known f.association_id e s in rw (same, known-insert_event e s es) refl

    -- Inserting events one after the other publishes those whose association is there.
    pub insert_all-publish :
        (es : List Event) (s : S) (id : ℕ)
        → All (λ (e : Event). e.id ≡ 0) es
        → calendars (insert_all table.insert_event es s) id ≡ publish (known s es) (calendars s) id
    insert_all-publish [] s id new = sym (add_all_nil (calendars s id))
    insert_all-publish (e ∷ es) s id (new, news) =
        elim (Bool-cases (table.knows e.association_id s)) [
          | inl there ↦
              let first = map unnumbered (events_of id (e ∷ [])) in
              let rest = map unnumbered (events_of id (known s es)) in
              let t = table.insert_event e s in
              rw there (
                insert_all-publish es t id news
                ∙ ap (λ l. publish l (calendars t) id) (known-insert_event e s es)
                ∙ ap (add_all rest) (insert_event-publish e s id new there)
                ∙ add_all_comm rest first (calendars s id)
                ∙ add_all-add_all first rest (calendars s id)
                ∙ ap (λ l. add_all l (calendars s id)) (sym (events_of-cons id e (known s es))))
          | inr missing ↦ rw missing (
              ap (λ t. calendars (insert_all table.insert_event es t) id) (h.unknown e s missing)
              ∙ insert_all-publish es s id news)
        ]

    before_nameless-new :
        (es : List Event)
        → All (λ (e : Event). e.id ≡ 0) es
        → All (λ (e : Event). e.id ≡ 0) (before_nameless es)
    before_nameless-new [] new = tt
    before_nameless-new (e ∷ es) (new, news) = elim (Bool-cases (nat_eq e.association_id 0)) [
      | inl test ↦ rw test tt
      | inr test ↦ rw test (new, before_nameless-new es news)
    ]

    -- If the database does what gorm and Postgres document of it, creating events without ids
    -- publishes, of those before the first one without an association, the ones whose association
    -- is in the database, each in the calendar of its association, and changes nothing else in any
    -- calendar.
    pub create_events-publish :
        (es : List Event) (s : S) (id : ℕ)
        → All (λ (e : Event). e.id ≡ 0) es
        → calendars (create_events table.insert_event es s).1 id
          ≡ publish (known s (before_nameless es)) (calendars s) id
    create_events-publish es s id new =
        ap (λ t. calendars t.1 id) (create_events_lem table.insert_event es s)
        ∙ insert_all-publish (before_nameless es) s id (before_nameless-new es new)
