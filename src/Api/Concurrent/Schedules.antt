-- ===== src/Api/Concurrent/Schedules.antt =====
-- What two interleaved copies do to the calendars.
use dawn_patrol.Prelude.{
  ℕ, suc, ◌+◌, ◌≤◌, Bool, true, false, List, [], ◌∷◌, length, ◌≡◌, refl, sym, ap, ◌∙◌, arith,
}
use dawn_patrol.Api.{Association, RailsEvent}
use dawn_patrol.Api.Associations.{Store}
use dawn_patrol.Api.Events.{EventTable}
use dawn_patrol.Api.Bags.{add_all, add_all_comm}
use dawn_patrol.Api.Calendar.{publish, calendars, IsEventTable}
use dawn_patrol.Api.Calendar.Copied.{KeepsEvents}
use dawn_patrol.Api.Concurrent.{Thread, looking, creating, inserting, finished, step, interleave}
use dawn_patrol.Api.Concurrent.References.{Refers, step-Refers, kept-Refers}
use dawn_patrol.Api.Concurrent.Progress.{
  left_of, turns_for, HasId, created_under, part, part-nil, step-turns_for, step-HasId, step-part,
}

abbrev pub turns_of_first : List Bool → ℕ
turns_of_first [] = 0
turns_of_first (true ∷ turns) = suc (turns_of_first turns)
turns_of_first (false ∷ turns) = turns_of_first turns

abbrev pub turns_of_second : List Bool → ℕ
turns_of_second [] = 0
turns_of_second (true ∷ turns) = turns_of_second turns
turns_of_second (false ∷ turns) = suc (turns_of_second turns)

module _ {S : Type 0} (store : Store S) (table : EventTable S) (ht : IsEventTable table)
    (hk : KeepsEvents store table) where
  -- What two threads come to: ids, a database, and what was published in it.
  abbrev pub Outcome : (one two : Thread) (s : S) (k : ℕ) → Thread × Thread × S → Type 0
  Outcome one two s k out =
      (i : ℕ) × (j : ℕ) × (s' : S) × (out ≡ (finished i, finished j, s'))
      × HasId one i
      × HasId two j
      × (calendars table s' k
          ≡ add_all (part i k (left_of one))
              (add_all (part j k (left_of two)) (calendars table s k)))

  ended :
      (one two : Thread) (s : S) (k : ℕ)
      → turns_for one ≤ 0
      → turns_for two ≤ 0
      → Outcome one two s k (one, two, s)
  ended (finished i) (finished j) s k h g = (
    i,
    j,
    s,
    refl,
    refl,
    refl,
    sym (
        part-nil i k (add_all (part j k []) (calendars table s k))
        ∙ part-nil j k (calendars table s k)),
  )
  ended (looking a es) two s k h g = absurd (omega arith)
  ended (creating a es) two s k h g = absurd (omega arith)
  ended (inserting id es) two s k h g = absurd (omega arith)
  ended (finished i) (looking a es) s k h g = absurd (omega arith)
  ended (finished i) (creating a es) s k h g = absurd (omega arith)
  ended (finished i) (inserting id es) s k h g = absurd (omega arith)

  pub interleave-Outcome :
      (turns : List Bool) (one two : Thread) (s : S) (k : ℕ)
      → Refers store table ht hk one s
      → Refers store table ht hk two s
      → turns_for one ≤ turns_of_first turns
      → turns_for two ≤ turns_of_second turns
      → Outcome one two s k (interleave store table turns one two s)
  unfolding interleave
  interleave-Outcome [] one two s k n m h g = ended one two s k h g
  interleave-Outcome (true ∷ turns) one two s k n m h g =
      let (one', t) = step store table one s in
      let (i, j, s', e, has, had, published) =
        interleave-Outcome turns one' two t k (step-Refers store table ht hk one s n)
          (kept-Refers store table ht hk two one s m)
          (step-turns_for store table one s (turns_of_first turns) h) g in
      let b = part j k (left_of two) in
      (
        i,
        j,
        s',
        e,
        step-HasId store table one s i has,
        had,
        published
            ∙ add_all_comm (part i k (left_of one')) b (calendars table t k)
            ∙ ap (add_all b) (step-part store table ht hk one s i k n has)
            ∙ add_all_comm b (part i k (left_of one)) (calendars table s k),
      )
  interleave-Outcome (false ∷ turns) one two s k n m h g =
      let (two', t) = step store table two s in
      let (i, j, s', e, has, had, published) =
        interleave-Outcome turns one two' t k (kept-Refers store table ht hk one two s n)
          (step-Refers store table ht hk two s m) h
          (step-turns_for store table two s (turns_of_second turns) g) in
      (
        i,
        j,
        s',
        e,
        has,
        step-HasId store table two s j had,
        published
            ∙ ap (add_all (part i k (left_of one))) (step-part store table ht hk two s j k m had),
      )

  -- If inserting an event and creating an association do to the events what gorm and Postgres
  -- document, then under every schedule that gives each of two copies three turns more than it has
  -- events, for associations that start without an id, both end with an id, and every calendar has
  -- what was published in it before and the converted events of both copies, each under the id of
  -- its copy; a copy that ends with the id zero adds none.
  pub interleave-publishes :
      (turns : List Bool) (a b : Association) (es fs : List RailsEvent) (s : S) (k : ℕ)
      → a.id ≡ 0
      → b.id ≡ 0
      → 3 + length es ≤ turns_of_first turns
      → 3 + length fs ≤ turns_of_second turns
      → (i : ℕ) × (j : ℕ) × (s' : S) × (interleave store table turns (looking a es) (looking b fs) s
          ≡ (finished i, finished j, s'))
        × (calendars table s' k
            ≡ publish (created_under i es) (publish (created_under j fs) (calendars table s)) k)
  interleave-publishes turns a b es fs s k new new' h g =
      let (i, j, s', e, _, _, published) =
        interleave-Outcome turns (looking a es) (looking b fs) s k new new' h g in
      (i, j, s', e, published)
