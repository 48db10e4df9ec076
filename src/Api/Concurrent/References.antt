-- ===== src/Api/Concurrent/References.antt =====
-- The associations that the events of a copy refer to, under steps of this copy and of others.
use dawn_patrol.Prelude.{
  ℕ, true, false, List, [], ◌∷◌, ◌≡◌, ◌⊎◌, ◌∙◌, sym, ap, arith, nat_eq, inl, inr, Bool-cases,
  Option-cases,
}
use dawn_patrol.Api.{Association, RailsEvent}
use dawn_patrol.Api.Associations.{Store, found_or, found_or-found, found_or-missing}
use dawn_patrol.Api.Events.{EventTable}
use dawn_patrol.Api.Copy.{converted}
use dawn_patrol.Api.Calendar.{IsEventTable}
use dawn_patrol.Api.Calendar.Copied.{KeepsEvents}
use dawn_patrol.Api.Concurrent.{Thread, looking, creating, inserting, finished, step}

module _ {S : Type 0} (store : Store S) (table : EventTable S) (ht : IsEventTable table)
    (hk : KeepsEvents store table) where
  -- An association without an id is new, and one with an id is there.
  abbrev pub Refers : Thread → S → Type 0
  Refers (looking a es) s = a.id ≡ 0
  Refers (creating a es) s = a.id ≡ 0
  Refers (inserting id es) s = (id ≡ 0) ⊎ (table.knows id s ≡ true)
  Refers (finished id) s = Unit

  found_or-Refers :
      (a : Association) (s : S)
      → a.id ≡ 0
      → nat_eq (found_or store a s).id 0 ≡ false
      → table.knows (found_or store a s).id s ≡ true
  found_or-Refers a s new old = elim (Option-cases (store.first_by_acronym 0 a.acronym s)) [
    | inl e ↦
        let same = ap (λ (b : Association). nat_eq b.id 0) (found_or-missing store a s new e) in
        let test : nat_eq a.id 0 ≡ true = ground arith in cc (sym old ∙ same ∙ test)
    | inr (f, e) ↦ rw (found_or-found store a f s new e) (hk.found_known 0 a.acronym s f e)
  ]

  created-Refers :
      (a : Association) (es : List RailsEvent) (s : S)
      → a.id ≡ 0
      → Refers (inserting (store.create a s).0.id es) (store.create a s).1
  created-Refers a es s new = elim (Bool-cases (nat_eq (store.create a s).0.id 0)) [
    | inl test ↦ inl (ground arith)
    | inr test ↦ inr (hk.created_known a s new (ground arith))
  ]

  pub step-Refers :
      (t : Thread) (s : S) → Refers t s → Refers (step store table t s).0 (step store table t s).1
  unfolding step
  step-Refers (looking a es) s r = elim (Bool-cases (nat_eq (found_or store a s).id 0)) [
    | inl new ↦ rw new (ground arith)
    | inr old ↦ rw old (inr (found_or-Refers a s r old))
  ]
  step-Refers (creating a es) s r = created-Refers a es s r
  step-Refers (inserting id []) s r = tt
  step-Refers (inserting id (e ∷ es)) s r = elim (Bool-cases (nat_eq id 0)) [
    | inl new ↦ rw new tt
    | inr old ↦ rw old (elim r [
      | inl absent ↦ inl absent
      | inr there ↦ inr (ht.kept_known id (converted id e) s ∙ there)
    ])
  ]
  step-Refers (finished id) s r = tt

  -- What is there stays there.
  step-knows :
      (id : ℕ) (t : Thread) (s : S)
      → table.knows id s ≡ true
      → table.knows id (step store table t s).1 ≡ true
  unfolding step
  step-knows id (looking a es) s there = there
  step-knows id (creating a es) s there = hk.kept_known id a s there
  step-knows id (inserting n []) s there = there
  step-knows id (inserting n (e ∷ es)) s there = elim (Bool-cases (nat_eq n 0)) [
    | inl new ↦ rw new there
    | inr old ↦ rw old (ht.kept_known id (converted n e) s ∙ there)
  ]
  step-knows id (finished n) s there = there

  -- A step of another copy.
  pub kept-Refers : (t u : Thread) (s : S) → Refers t s → Refers t (step store table u s).1
  kept-Refers (looking a es) u s r = r
  kept-Refers (creating a es) u s r = r
  kept-Refers (inserting id es) u s (inl absent) = inl absent
  kept-Refers (inserting id es) u s (inr there) = inr (step-knows id u s there)
  kept-Refers (finished id) u s r = tt
