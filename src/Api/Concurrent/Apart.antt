-- ===== src/Api/Concurrent/Apart.antt =====
-- Two copies of different associations.
use dawn_patrol.Prelude.{
  ℕ, ◌+◌, ◌≤◌, String, Bool, true, false, some, List, [], ◌∷◌, map, length, ◌≡◌, ◌≢◌, ◌⊎◌, refl,
  sym, ap, subst, ◌∙◌, arith, nat_eq, inl, inr, Bool-cases, Option-cases,
}
use dawn_patrol.Api.{Association, Event, RailsEvent}
use dawn_patrol.Api.Associations.{Store, IsStore}
use dawn_patrol.Api.Events.{EventTable}
use dawn_patrol.Api.Copy.{converted, taken}
use dawn_patrol.Api.Calendar.{calendars, publish, IsEventTable}
use dawn_patrol.Api.Calendar.Copied.{KeepsEvents}
use dawn_patrol.Api.Concurrent.{Thread, looking, creating, inserting, finished, step, interleave}
use dawn_patrol.Api.Concurrent.Turns.{step-absent, step-present}
use dawn_patrol.Api.Concurrent.Schedules.{turns_of_first, turns_of_second, interleave-publishes}

-- Two associations that share no index.
abbrev pub Differ : Association → Association → Type 0
Differ a b = (a.acronym ≢ b.acronym) × (a.host ≢ b.host) × (a.name ≢ b.name)

-- An association that is found by its acronym, or that can be created.
abbrev pub Available : {S : Type 0} → Store S → Association → S → Type 0
Available store a s =
    ((f : Association) × (store.first_by_acronym 0 a.acronym s ≡ some f)) ⊎ (store.free a s ≡ true)

-- What gorm and Postgres document: an association that is found by its acronym stays, and creating
-- another takes only the acronym, host and name of that one; inserting events changes nothing
-- about this.
pub record IsApart {S : Type 0} (store : Store S) (table : EventTable S) : Type 0 where
  pub created_found :
      (acronym : String) (a f : Association) (s : S)
      → acronym ≢ ""
      → store.first_by_acronym 0 acronym s ≡ some f
      → store.first_by_acronym 0 acronym (store.create a s).1 ≡ some f
  pub created_free :
      (a b : Association) (s : S)
      → Differ a b
      → store.free a s ≡ true
      → store.free a (store.create b s).1 ≡ true
  pub inserted_found :
      (acronym : String) (e : Event) (s : S)
      → store.first_by_acronym 0 acronym (table.insert_event e s)
        ≡ store.first_by_acronym 0 acronym s
  pub inserted_free :
      (a : Association) (e : Event) (s : S) → store.free a (table.insert_event e s) ≡ store.free a s

turned : (a b : Association) → Differ a b → Differ b a
turned a b (n, m, o) = (λ h. n (sym h), λ h. m (sym h), λ h. o (sym h))

module _ {S : Type 0} (store : Store S) (table : EventTable S) (hs : IsStore store)
    (ha : IsApart store table) where
  -- A copy of an association finds it or can create it, and has an id from then on.
  abbrev IsReady : Association → Thread → S → Type 0
  IsReady c (looking a es) s = (a ≡ c) × Available store a s
  IsReady c (creating a es) s = (a ≡ c) × (store.free a s ≡ true)
  IsReady c (inserting id es) s = id ≢ 0
  IsReady c (finished id) s = id ≢ 0

  looking-IsReady :
      (c a : Association) (es : List RailsEvent) (s : S)
      → a.id ≡ 0
      → a ≡ c
      → Available store a s
      → IsReady c (step store table (looking a es) s).0 (step store table (looking a es) s).1
  looking-IsReady c a es s new same available =
      elim (Option-cases (store.first_by_acronym 0 a.acronym s)) [
        | inl e ↦
            let free : store.free a s ≡ true = elim available [
              | inl (f, e') ↦ cc (sym e ∙ e')
              | inr free ↦ free
            ] in
            subst (λ (r : Thread × S). IsReady c r.0 r.1)
              (sym (step-absent store table a es s new e)) (same, free)
        | inr (f, e) ↦
            subst (λ (r : Thread × S). IsReady c r.0 r.1)
              (sym (step-present store table a f es s new e (hs.found_id 0 a.acronym s f e)))
              (hs.found_id 0 a.acronym s f e)
      ]

  step-IsReady :
      (c : Association) (t : Thread) (s : S)
      → c.id ≡ 0
      → IsReady c t s
      → IsReady c (step store table t s).0 (step store table t s).1
  unfolding step
  step-IsReady c (looking a es) s new (same, available) =
      looking-IsReady c a es s (ap (λ (x : Association). x.id) same ∙ new) same available
  step-IsReady c (creating a es) s new (same, free) =
      hs.created_id a s (ap (λ (x : Association). x.id) same ∙ new) free
  step-IsReady c (inserting id []) s new n = n
  step-IsReady c (inserting id (e ∷ es)) s new n = elim (Bool-cases (nat_eq id 0)) [
    | inl test ↦ rw test n
    | inr test ↦ rw test n
  ]
  step-IsReady c (finished id) s new n = n

  -- A step of the copy of another association.
  step-Available :
      (a d : Association) (t : Thread) (s : S)
      → a.acronym ≢ ""
      → Differ a d
      → IsReady d t s
      → (Available store a s → Available store a (step store table t s).1)
        × (store.free a s ≡ true → store.free a (step store table t s).1 ≡ true)
  unfolding step
  step-Available a d (looking b es) s named apart r = (λ h. h, λ h. h)
  step-Available a d (creating b es) s named apart (same, free) =
      let differ = subst (Differ a) (sym same) apart in
      (
        λ h. elim h [
          | inl (f, e) ↦ inl (f, ha.created_found a.acronym b f s named e)
          | inr free ↦ inr (ha.created_free a b s differ free)
        ],
        λ h. ha.created_free a b s differ h,
      )
  step-Available a d (inserting id []) s named apart r = (λ h. h, λ h. h)
  step-Available a d (inserting id (e ∷ es)) s named apart r = elim (Bool-cases (nat_eq id 0)) [
    | inl test ↦ rw test (λ h. h, λ h. h)
    | inr test ↦
        let x = converted id e in
        rw test (
          λ h. elim h [
            | inl (f, e) ↦ inl (f, ha.inserted_found a.acronym x s ∙ e)
            | inr free ↦ inr (ha.inserted_free a x s ∙ free)
          ],
          λ h. ha.inserted_free a x s ∙ h,
        )
  ]
  step-Available a d (finished id) s named apart r = (λ h. h, λ h. h)

  kept-IsReady :
      (c d : Association) (t u : Thread) (s : S)
      → c.acronym ≢ ""
      → Differ c d
      → IsReady d u s
      → IsReady c t s
      → IsReady c t (step store table u s).1
  kept-IsReady c d (looking a es) u s named apart r (same, available) =
      let differ = subst (λ x. Differ x d) (sym same) apart in
      let called = subst (λ (x : Association). x.acronym ≢ "") (sym same) named in
      (same, (step-Available a d u s called differ r).0 available)
  kept-IsReady c d (creating a es) u s named apart r (same, free) =
      let differ = subst (λ x. Differ x d) (sym same) apart in
      let called = subst (λ (x : Association). x.acronym ≢ "") (sym same) named in
      (same, (step-Available a d u s called differ r).1 free)
  kept-IsReady c d (inserting id es) u s named apart r n = n
  kept-IsReady c d (finished id) u s named apart r n = n

  abbrev BothReady : Association → Association → Thread × Thread × S → Type 0
  BothReady c d out = IsReady c out.0 out.2 × IsReady d out.1 out.2

  -- Two new associations with acronyms.
  abbrev BothNew : Association → Association → Type 0
  BothNew c d = (c.id ≡ 0) × (d.id ≡ 0) × (c.acronym ≢ "") × (d.acronym ≢ "") × Differ c d

  interleave-BothReady :
      (c d : Association) (turns : List Bool) (one two : Thread) (s : S)
      → BothNew c d
      → BothReady c d (one, two, s)
      → BothReady c d (interleave store table turns one two s)
  unfolding interleave
  interleave-BothReady c d [] one two s new ready = ready
  interleave-BothReady c d (true ∷ turns) one two s (new, new', named, named', apart) (n, m) =
      let (one', t) = step store table one s in
      interleave-BothReady c d turns one' two t (new, new', named, named', apart)
        (step-IsReady c one s new n, kept-IsReady d c two one s named' (turned c d apart) n m)
  interleave-BothReady c d (false ∷ turns) one two s (new, new', named, named', apart) (n, m) =
      let (two', t) = step store table two s in
      interleave-BothReady c d turns one two' t (new, new', named, named', apart)
        (kept-IsReady c d one two s named apart m n, step-IsReady d two s new' m)

taken-named : (i : ℕ) (es : List RailsEvent) → i ≢ 0 → taken i es ≡ es
taken-named i es n = let test : nat_eq i 0 ≡ false = ground arith in rw test refl

-- If gorm and Postgres do what is documented of them, two copies at once of associations whose
-- acronyms, hosts and names differ, and each of which is found by its acronym or has an acronym, a
-- host and a name that are free, both end with an id, under every schedule that gives each three
-- turns more than it has events, and every calendar has what was published in it before and all
-- converted events of both.
pub interleave-apart :
    {S : Type 0} (store : Store S) (table : EventTable S)
    → IsStore store
    → IsApart store table
    → IsEventTable table
    → KeepsEvents store table
    → (turns : List Bool) (a b : Association) (es fs : List RailsEvent) (s : S) (k : ℕ) → a.id ≡ 0
    → b.id ≡ 0
    → a.acronym ≢ ""
    → b.acronym ≢ ""
    → Differ a b
    → Available store a s
    → Available store b s
    → 3 + length es ≤ turns_of_first turns
    → 3 + length fs ≤ turns_of_second turns
    → (i : ℕ) × (j : ℕ) × (i ≢ 0)
      × (j ≢ 0)
      × (s' : S) × (interleave store table turns (looking a es) (looking b fs) s
          ≡ (finished i, finished j, s'))
      × (calendars table s' k
          ≡ publish
              (map (λ e. converted i e) es)
              (publish (map (λ e. converted j e) fs) (calendars table s))
              k)
interleave-apart store table hs ha ht hk turns a b es fs s k new new' named named' apart available
      available' h g =
    let (i, j, s', e, published) =
      interleave-publishes store table ht hk turns a b es fs s k new new' h g in
    let (n, m) = subst (BothReady store table hs ha a b) e (
      interleave-BothReady store table hs ha a b turns (looking a es) (looking b fs) s
        (new, new', named, named', apart) ((refl, available), (refl, available'))) in
    let all_taken =
      ap
        (λ l.
          publish (map (λ e. converted i e) l)
            (publish (map (λ e. converted j e) (taken j fs)) (calendars table s)) k)
        (taken-named i es n)
      ∙ ap
          (λ l.
            publish (map (λ e. converted i e) es)
              (publish (map (λ e. converted j e) l) (calendars table s)) k)
          (taken-named j fs m) in
    (i, j, n, m, s', e, published ∙ all_taken)
