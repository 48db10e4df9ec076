-- ===== src/Api/Concurrent/Progress.antt =====
-- What one step of a copy does to the calendars and to the events that are left.
use mathlib.Core.Quot
use dawn_patrol.Prelude.{
  ℕ, suc, ◌+◌, ◌≤◌, true, false, List, [], ◌∷◌, map, length, ◌≡◌, ◌≢◌, refl, sym, ap, ◌∙◌, arith,
  nat_eq, inl, inr, Bool-cases,
}
use dawn_patrol.Api.{Event, RailsEvent}
use dawn_patrol.Api.Associations.{Store, found_or}
use dawn_patrol.Api.Events.{EventTable}
use dawn_patrol.Api.Copy.{converted, taken}
use dawn_patrol.Api.Bags.{Bag, add_all, add_all_nil, add_all-add_all, add_all_comm}
use dawn_patrol.Api.Calendar.{
  unnumbered, events_of, events_of-cons, calendars, IsEventTable, insert_event-publish,
}
use dawn_patrol.Api.Calendar.Copied.{KeepsEvents}
use dawn_patrol.Api.Concurrent.References.{Refers}
use dawn_patrol.Api.Concurrent.{Thread, looking, creating, inserting, finished, step}

-- The events that are left, and the turns that are enough.
abbrev pub left_of : Thread → List RailsEvent
left_of (looking a es) = es
left_of (creating a es) = es
left_of (inserting id es) = es
left_of (finished id) = []

abbrev pub turns_for : Thread → ℕ
turns_for (looking a es) = 3 + length es
turns_for (creating a es) = 2 + length es
turns_for (inserting id es) = 1 + length es
turns_for (finished id) = 0

-- The id that a copy has, once it has one.
abbrev pub HasId : Thread → ℕ → Type 0
HasId (inserting id es) i = id ≡ i
HasId (finished id) i = id ≡ i
HasId _ i = Unit

-- The events that `Create` takes, those of them in an association, and these as they will stand in
-- its calendar.
abbrev pub created_under : ℕ → List RailsEvent → List Event
created_under id es = map (λ e. converted id e) (taken id es)

abbrev pub part : ℕ → ℕ → List RailsEvent → List Event
part i k es = map unnumbered (events_of k (created_under i es))

pub part-nil : (i k : ℕ) (b : Bag) → add_all (part i k []) b ≡ b
part-nil i k b = elim (Bool-cases (nat_eq i 0)) [
  | inl test ↦ rw test (add_all_nil b)
  | inr test ↦ rw test (add_all_nil b)
]

part-cons :
    (i k : ℕ) (e : RailsEvent) (es : List RailsEvent) (b : Bag)
    → nat_eq i 0 ≡ false
    → add_all (part i k (e ∷ es)) b
      ≡ add_all (part i k es) (add_all (map unnumbered (events_of k (converted i e ∷ []))) b)
part-cons i k e es b named =
    let first = map unnumbered (events_of k (converted i e ∷ [])) in
    let rest = map (λ e. converted i e) es in
    rw named (
      ap (λ l. add_all l b) (events_of-cons k (converted i e) rest)
      ∙ sym (add_all-add_all first (map unnumbered (events_of k rest)) b)
      ∙ add_all_comm first (map unnumbered (events_of k rest)) b)

module _ {S : Type 0} (store : Store S) (table : EventTable S) where
  -- A turn takes one step.
  pub step-turns_for :
      (t : Thread) (s : S) (n : ℕ) → turns_for t ≤ suc n → turns_for (step store table t s).0 ≤ n
  unfolding step
  step-turns_for (looking a es) s n h = elim (Bool-cases (nat_eq (found_or store a s).id 0)) [
    | inl new ↦ rw new (omega arith)
    | inr old ↦ rw old (omega arith)
  ]
  step-turns_for (creating a es) s n h = omega arith
  step-turns_for (inserting id []) s n h = omega arith
  step-turns_for (inserting id (e ∷ es)) s n h = elim (Bool-cases (nat_eq id 0)) [
    | inl new ↦ rw new (omega arith)
    | inr old ↦ rw old (omega arith)
  ]
  step-turns_for (finished id) s n h = omega arith

  pub step-HasId : (t : Thread) (s : S) (i : ℕ) → HasId (step store table t s).0 i → HasId t i
  unfolding step
  step-HasId (looking a es) s i h = tt
  step-HasId (creating a es) s i h = tt
  step-HasId (inserting id []) s i h = h
  step-HasId (inserting id (e ∷ es)) s i h = elim (Bool-cases (nat_eq id 0)) [
    | inl new ↦ rw new at h
    | inr old ↦ rw old at h
  ]
  step-HasId (finished id) s i h = h

module _ {S : Type 0} (store : Store S) (table : EventTable S) (ht : IsEventTable table)
    (hk : KeepsEvents store table) where
  -- A step publishes what it takes from the events that are left.
  pub step-part :
      (t : Thread) (s : S) (i k : ℕ)
      → Refers store table ht hk t s
      → HasId (step store table t s).0 i
      → add_all
          (part i k (left_of (step store table t s).0))
          (calendars table (step store table t s).1 k)
        ≡ add_all (part i k (left_of t)) (calendars table s k)
  unfolding step
  step-part (looking a es) s i k r h = elim (Bool-cases (nat_eq (found_or store a s).id 0)) [
    | inl new ↦ rw new refl
    | inr old ↦ rw old refl
  ]
  step-part (creating a es) s i k r h =
      ap (λ l. add_all (part i k es) (Quot.mk (map unnumbered l))) (hk.kept a s k)
  step-part (inserting id []) s i k r h = refl
  step-part (inserting id (e ∷ es)) s i k r h = elim (Bool-cases (nat_eq id 0)) [
    | inl new ↦
        let same : id ≡ i = rw new at h in
        let none_left : nat_eq i 0 ≡ true = ground arith in rw new (rw none_left refl)
    | inr old ↦
        let same : id ≡ i = rw old at h in
        let named : nat_eq i 0 ≡ false = ground arith in
        let named_id : id ≢ 0 = ground arith in
        let t = table.insert_event (converted id e) s in
        let there : table.knows id s ≡ true = elim r [
          | inl absent ↦ absurd (named_id absent)
          | inr known ↦ known
        ] in
        rw old (
          ap (add_all (part i k es)) (insert_event-publish table ht (converted id e) s k refl there)
          ∙ ap
              (λ j.
                add_all (part i k es) (
                  add_all (map unnumbered (events_of k (converted j e ∷ [])))
                    (calendars table s k)))
              same
          ∙ sym (part-cons i k e es (calendars table s k) named))
  ]
  step-part (finished id) s i k r h = refl
