-- ===== src/Api/Concurrent/Turns.antt =====
-- The turns of a schedule one by one, and one copy that is not interrupted.
use dawn_patrol.Prelude.{
  ℕ, zero, suc, ◌+◌, ◌≤◌, ◌<◌, String, Bool, true, false, none, some, List, [], ◌∷◌, map, length,
  ◌≡◌, ◌≢◌, refl, subst, sym, ap, ◌∙◌, arith, nat_eq, inl, inr, Bool-cases, ok,
}
use dawn_patrol.Api.{Association, RailsEvent, RacingAssociation}
use dawn_patrol.Api.Associations.{
  Store, found_or, found_or-missing, found_or-found, first_or_create, association_service,
}
use dawn_patrol.Api.Events.{EventTable, event_service, insert_all}
use dawn_patrol.Api.Copy.{Sources, copy, new_association, converted, taken, copy-inserts}
use dawn_patrol.Api.Concurrent.{Thread, looking, creating, inserting, finished, step, interleave}

-- Turns of the first copy alone.
abbrev pub alone : ℕ → List Bool
alone zero = []
alone (suc n) = true ∷ alone n

module _ {S : Type 0} (store : Store S) (table : EventTable S) where
  idle :
      (n id : ℕ) (two : Thread) (s : S)
      → interleave store table (alone n) (finished id) two s ≡ (finished id, two, s)
  unfolding interleave step
  idle zero id two s = refl
  idle (suc n) id two s = idle n id two s

  -- A turn that takes a known step.
  pub turn_of_first :
      (turns : List Bool) (one two next : Thread) (s t : S)
      → step store table one s ≡ (next, t)
      → interleave store table (true ∷ turns) one two s ≡ interleave store table turns next two t
  unfolding interleave
  turn_of_first turns one two next s t e = ap (λ r. interleave store table turns r.0 two r.1) e

  pub turn_of_second :
      (turns : List Bool) (one two next : Thread) (s t : S)
      → step store table two s ≡ (next, t)
      → interleave store table (false ∷ turns) one two s ≡ interleave store table turns one next t
  unfolding interleave
  turn_of_second turns one two next s t e = ap (λ r. interleave store table turns one r.0 r.1) e

  step-missing :
      (a : Association) (es : List RailsEvent) (s : S)
      → nat_eq (found_or store a s).id 0 ≡ true
      → step store table (looking a es) s ≡ (creating (found_or store a s) es, s)
  unfolding step
  step-missing a es s new = rw new refl

  step-found :
      (a : Association) (es : List RailsEvent) (s : S)
      → nat_eq (found_or store a s).id 0 ≡ false
      → step store table (looking a es) s ≡ (inserting (found_or store a s).id es, s)
  unfolding step
  step-found a es s old = rw old refl

  pub step-create :
      (a : Association) (es : List RailsEvent) (s : S)
      → step store table (creating a es) s
        ≡ (inserting (store.create a s).0.id es, (store.create a s).1)
  unfolding step
  step-create a es s = refl

  step-insert :
      (id : ℕ) (e : RailsEvent) (es : List RailsEvent) (s : S)
      → nat_eq id 0 ≡ false
      → step store table (inserting id (e ∷ es)) s
        ≡ (inserting id es, table.insert_event (converted id e) s)
  unfolding step
  step-insert id e es s named = rw named refl

  inserting_none :
      (m : ℕ) (es : List RailsEvent) (two : Thread) (s : S)
      → length es < m
      → interleave store table (alone m) (inserting 0 es) two s ≡ (finished 0, two, s)
  unfolding interleave step
  inserting_none zero es two s h = absurd (omega arith)
  inserting_none (suc m) [] two s h = idle m 0 two s
  inserting_none (suc m) (e ∷ es) two s h = idle m 0 two s

  inserting_all :
      (m id : ℕ) (es : List RailsEvent) (two : Thread) (s : S)
      → nat_eq id 0 ≡ false
      → length es < m
      → interleave store table (alone m) (inserting id es) two s
        ≡ (finished id, two, insert_all table.insert_event (map (λ e. converted id e) es) s)
  unfolding interleave step
  inserting_all zero id es two s named h = absurd (omega arith)
  inserting_all (suc m) id [] two s named h = idle m id two s
  inserting_all (suc m) id (e ∷ es) two s named h =
      let t = table.insert_event (converted id e) s in
      turn_of_first (alone m) (inserting id (e ∷ es)) two (inserting id es) s t
        (step-insert id e es s named)
      ∙ inserting_all m id es two t named (omega arith)

  -- What a copy that is not interrupted leaves.
  abbrev left_by : List RailsEvent → Thread → Association × S → Thread × Thread × S
  left_by es two (b, t) = (
    finished b.id,
    two,
    insert_all table.insert_event (map (λ e. converted b.id e) (taken b.id es)) t,
  )

  first_or_create-missing :
      (a : Association) (s : S)
      → nat_eq (found_or store a s).id 0 ≡ true
      → first_or_create store a s ≡ store.create (found_or store a s) s
  unfolding first_or_create
  first_or_create-missing a s new = rw new refl

  first_or_create-found :
      (a : Association) (s : S)
      → nat_eq (found_or store a s).id 0 ≡ false
      → first_or_create store a s ≡ (found_or store a s, s)
  unfolding first_or_create
  first_or_create-found a s old = rw old refl

  inserting_taken :
      (m id : ℕ) (es : List RailsEvent) (two : Thread) (s : S)
      → length es < m
      → interleave store table (alone m) (inserting id es) two s ≡ (
        finished id,
        two,
        insert_all table.insert_event (map (λ e. converted id e) (taken id es)) s,
      )
  inserting_taken m id es two s h = elim (Bool-cases (nat_eq id 0)) [
    | inl test ↦
        let none_id : 0 ≡ id = ground arith in
        rw test (
          subst
            (λ n. interleave store table (alone m) (inserting n es) two s ≡ (finished n, two, s))
            none_id (inserting_none m es two s h))
    | inr test ↦ rw test (inserting_all m id es two s test h)
  ]

  looking_all :
      (m : ℕ) (a : Association) (es : List RailsEvent) (two : Thread) (s : S)
      → 2 + length es < m
      → interleave store table (alone m) (looking a es) two s
        ≡ left_by es two (first_or_create store a s)
  looking_all zero a es two s h = absurd (omega arith)
  looking_all (suc zero) a es two s h = absurd (omega arith)
  looking_all (suc (suc m)) a es two s h =
      let found = found_or store a s in
      let (b, t) = store.create found s in
      elim (Bool-cases (nat_eq found.id 0)) [
        | inl new ↦
            turn_of_first (alone (suc m)) (looking a es) two (creating found es) s s
              (step-missing a es s new)
            ∙ turn_of_first (alone m) (creating found es) two (inserting b.id es) s t
                (step-create found es s)
            ∙ inserting_taken m b.id es two t (omega arith)
            ∙ ap (left_by es two) (sym (first_or_create-missing a s new))
        | inr old ↦
            turn_of_first (alone (suc m)) (looking a es) two (inserting found.id es) s s
              (step-found a es s old)
            ∙ inserting_taken (suc m) found.id es two s (omega arith)
            ∙ ap (left_by es two) (sym (first_or_create-found a s old))
      ]

  -- A search that finds nothing leaves the new record.
  pub step-absent :
      (a : Association) (es : List RailsEvent) (s : S)
      → a.id ≡ 0
      → store.first_by_acronym 0 a.acronym s ≡ none
      → step store table (looking a es) s ≡ (creating a es, s)
  step-absent a es s new missing =
      let same : found_or store a s ≡ a = found_or-missing store a s new missing in
      let test : nat_eq (found_or store a s).id 0 ≡ true = rw same (rw new refl) in
      step-missing a es s test ∙ ap (λ b. (creating b es, s)) same

  -- A search that finds a record with an id.
  pub step-present :
      (a f : Association) (es : List RailsEvent) (s : S)
      → a.id ≡ 0
      → store.first_by_acronym 0 a.acronym s ≡ some f
      → f.id ≢ 0
      → step store table (looking a es) s ≡ (inserting f.id es, s)
  step-present a f es s new e n =
      let same = found_or-found store a f s new e in
      let test : nat_eq (found_or store a s).id 0 ≡ false = rw same (ground arith) in
      step-found a es s test ∙ ap (λ (b : Association). (inserting b.id es, s)) same

-- The steps of a copy that is not interrupted, in at least three turns more than it has events, leave the database that `Copy` leaves, where the Rails
-- association and the time zone are found.
pub alone-copy :
    {S : Type 0} (store : Store S) (table : EventTable S) (sources : Sources) (acronym : String)
    (s : S) (r : RacingAssociation) (two : Thread) (m : ℕ)
    → sources.racing_association ≡ ok r
    → sources.location ≡ ok tt
    → 3 + length sources.rails_events ≤ m
    → interleave store table
        (alone m)
        (looking (new_association sources acronym r) sources.rails_events)
        two
        s
      ≡ (
        finished (first_or_create store (new_association sources acronym r) s).0.id,
        two,
        (copy (association_service store) (event_service table) sources acronym s).1,
      )
alone-copy store table sources acronym s r two m found loaded h =
    let a = new_association sources acronym r in
    looking_all store table m a sources.rails_events two s (omega arith)
    ∙ ap (λ t. (finished (first_or_create store a s).0.id, two, t.1))
        (sym (copy-inserts store table sources acronym s r found loaded))
