-- ===== src/Api/Events.antt =====
-- api/pkg/db/event.go: creating and finding events.
use dawn_patrol.Prelude.{
  ℕ, String, Bool, true, not, ◌&&◌, List, [], ◌∷◌, ◌≡◌, inl, inr, refl, arith, nat_eq,
  if◌then◌else◌, Bool-cases, Result, ok, throw,
}
use dawn_patrol.Api.Services.{EventService}
use dawn_patrol.Api.{Association, Event}

abbrev pub required : String
required = "'AssociationID' is required"

-- What the service asks of gorm: `Create`, and `Find` by the association's id, which leaves the list
-- empty where it fails. `knows` is for the foreign key of the table (db/schema.sql): whether an
-- association has an id.
pub record EventTable (S : Type 0) : Type 0 where
  pub insert_event : Event → S → S
  pub find_events : ℕ → S → List Event
  pub knows : ℕ → S → Bool

-- `Find`: no error is read.
unfoldable pub find_by_association :
    {S : Type 0} → EventTable S → Association → S → Result String (List Event)
find_by_association events association s = ok (events.find_events association.id s)

module _ {S : Type 0} (insert_event : Event → S → S) where
  -- `Create`: the loop stops at the first event without an association. `insert_event` is gorm's
  -- `Create`, whose errors the code does not read.
  unfoldable pub create_events : List Event → S → Result String (Unit {0}) × S
  create_events [] s = (ok tt, s)
  create_events (e ∷ es) s =
      let rest = create_events es (insert_event e s) in
      if nat_eq e.association_id 0 then (throw required, s) else rest

  -- All of the events, in their order.
  abbrev pub insert_all : List Event → S → S
  insert_all [] s = s
  insert_all (e ∷ es) s = insert_all es (insert_event e s)

-- `db.EventService` behind its interface.
abbrev pub event_service : {S : Type 0} → EventTable S → EventService S
event_service events = record {
  type_name = "*db.EventService";
  create = create_events events.insert_event;
  find = λ association s. (find_by_association events association s, s);
}

-- The events before the first one without an association, and whether there is none.
abbrev pub before_nameless : List Event → List Event
before_nameless [] = []
before_nameless (e ∷ es) = if nat_eq e.association_id 0 then [] else e ∷ before_nameless es

abbrev pub all_named : List Event → Bool
all_named [] = true
all_named (e ∷ es) = not (nat_eq e.association_id 0) && all_named es

-- If every event has an association, all are inserted; else an error is returned, and the events
-- before the first one without an association stay inserted.
pub create_events_lem :
    {S : Type 0} (insert_event : Event → S → S) (events : List Event) (s : S)
    → create_events insert_event events s ≡ (
      if all_named events then ok tt else throw required,
      insert_all insert_event (before_nameless events) s,
    )
unfolding create_events
create_events_lem insert_event [] s = refl
create_events_lem insert_event (e ∷ es) s = elim (Bool-cases (nat_eq e.association_id 0)) [
  | inl h ↦ rw h refl
  | inr h ↦ rw h (create_events_lem insert_event es (insert_event e s))
]

pub before-all_named :
    (events : List Event) → all_named events ≡ true → before_nameless events ≡ events
before-all_named [] h = refl
before-all_named (e ∷ es) h = ground (arith, before-all_named es)
