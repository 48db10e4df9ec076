-- ===== src/Api/Concurrent.antt =====
-- Two copies at once: api/pkg/rails/db/racing_association.go with the services that it calls, as
-- net/http runs each request in a goroutine of its own. A call of gorm is one step, and a schedule
-- says whose turn it is. The Rails association and the time zone are found.
pub mod References
pub mod Progress
pub mod Schedules
pub mod Turns
pub mod Race
pub mod Apart
use dawn_patrol.Prelude.{
  ℕ, zero, suc, ◌+◌, Bool, true, false, List, [], ◌∷◌, length, nat_eq, if◌then◌else◌,
}
use dawn_patrol.Api.{Association, RailsEvent}
use dawn_patrol.Api.Associations.{Store, found_or}
use dawn_patrol.Api.Events.{EventTable}
use dawn_patrol.Api.Copy.{converted}

-- Where a copy is: before FirstOrCreate's search, before its `Create`, before the insertion of the
-- events that are left, and at its end, with the id that it found or created.
pub data Thread : Type 0 where
  looking creating : Association → List RailsEvent → Thread
  inserting : ℕ → List RailsEvent → Thread
  finished : ℕ → Thread

module _ {S : Type 0} (store : Store S) (table : EventTable S) where
  -- The end of the search: a record without an id is new.
  abbrev looked : Association → List RailsEvent → Thread
  looked current es = if nat_eq current.id 0 then creating current es else inserting current.id es

  unfoldable pub step : Thread → S → Thread × S
  step (looking a es) s = (looked (found_or store a s) es, s)
  step (creating a es) s = let (b, t) = store.create a s in (inserting b.id es, t)
  step (inserting id []) s = (finished id, s)
  step (inserting id (e ∷ es)) s =
      if nat_eq id 0
      then (finished id, s)
      else (inserting id es, table.insert_event (converted id e) s)
  step (finished id) s = (finished id, s)

  -- A schedule of two copies: `true` is a turn of the first.
  unfoldable pub interleave : List Bool → Thread → Thread → S → Thread × Thread × S
  interleave [] one two s = (one, two, s)
  interleave (true ∷ turns) one two s = let (one', t) = step one s in interleave turns one' two t
  interleave (false ∷ turns) one two s = let (two', t) = step two s in interleave turns one two' t
