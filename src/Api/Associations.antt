-- ===== src/Api/Associations.antt =====
-- api/pkg/db/association.go: finding and creating associations.
use dawn_patrol.Prelude.{
  ℕ, String, Bool, true, false, Option, none, some, nat_eq, if◌then◌else◌, ◌≡◌, ◌≢◌, ◌∙◌, sym, refl,
  inl, inr, arith, Option-cases, Result,
}
use dawn_patrol.Api.Services.{AssociationService}
use dawn_patrol.Api.{Association, zero_time, zero_association}

-- What the service asks of gorm: `Where(…).First(…)` by the id of the record, unless it is zero, and
-- the acronym, unless it is empty; by the fields of a record that are not zero; and by the host, with
-- its error; and `Create`, which gives the record with its new id, or as it was if it is refused.
-- `free` is for the three unique indexes of the table (db/schema.sql): whether no association has
-- the acronym, the host or the name of a record.
pub record Store (S : Type 0) : Type 0 where
  pub first_by_acronym : ℕ → String → S → Option Association
  pub first_like : Association → S → Option Association
  pub first_by_host : String → S → Result String Association
  pub create : Association → S → Association × S
  pub free : Association → S → Bool

abbrev pub new_default : Association
new_default = record {
  acronym = "CBRA";
  host = "0.0.0.0|localhost|cbra.web";
  id = 0;
  name = "Cascadia Bicycle Racing Association";
  rails_created_at = zero_time;
  rails_updated_at = zero_time;
}

module _ {S : Type 0} (store : Store S) where
  -- The association behind `First`, which leaves it as it is where nothing is found.
  abbrev pub found_or : Association → S → Association
  found_or association s = elim (store.first_by_acronym association.id association.acronym s) [
    | none ↦ association
    | some found ↦ found
  ]

  -- `FirstOrCreate`; a record without an id is new.
  unfoldable pub first_or_create : Association → S → Association × S
  first_or_create association s =
      let current = found_or association s in
      if nat_eq current.id 0 then store.create current s else (current, s)

  -- `CreateDefault`.
  unfoldable pub create_default : S → Association × S
  create_default s = store.create new_default s

  -- `Default`: a search that finds nothing leaves the empty association.
  unfoldable pub default_association : S → Association
  default_association s = elim (store.first_by_acronym 0 "CBRA" s) [
    | none ↦ zero_association
    | some found ↦ found
  ]

  -- `DefaultOrCreateDefault`, by gorm's own `FirstOrCreate`.
  unfoldable pub default_or_create_default : S → Association × S
  default_or_create_default s = elim (store.first_like new_default s) [
    | none ↦ store.create new_default s
    | some found ↦ (found, s)
  ]

-- `db.AssociationService` behind its interface.
abbrev pub association_service : {S : Type 0} → Store S → AssociationService S
association_service store = record {
  type_name = "*db.AssociationService";
  create = store.create;
  create_default = create_default store;
  default_association = λ s. (default_association store s, s);
  default_or_create_default = default_or_create_default store;
  first_by_host = λ host s. (store.first_by_host host s, s);
  first_or_create = first_or_create store;
}

-- What gorm and Postgres document: a record keeps its acronym when it is created; it gets an id and is
-- found by its acronym if the indexes are free, and else it is refused and nothing changes; a record
-- that is found has an id, and the acronym, which is then not free.
pub record IsStore {S : Type 0} (store : Store S) : Type 0 where
  pub created_id :
      (a : Association) (s : S) → a.id ≡ 0 → store.free a s ≡ true → (store.create a s).0.id ≢ 0
  pub created_acronym : (a : Association) (s : S) → (store.create a s).0.acronym ≡ a.acronym
  pub created_found :
      (a : Association) (s : S)
      → a.id ≡ 0
      → a.acronym ≢ ""
      → store.free a s ≡ true
      → store.first_by_acronym 0 a.acronym (store.create a s).1 ≡ some (store.create a s).0
  pub refused : (a : Association) (s : S) → store.free a s ≡ false → store.create a s ≡ (a, s)
  pub found_id :
      (n : ℕ) (acronym : String) (s : S) (a : Association)
      → store.first_by_acronym n acronym s ≡ some a
      → a.id ≢ 0
  pub found_acronym :
      (n : ℕ) (acronym : String) (s : S) (a : Association)
      → acronym ≢ ""
      → store.first_by_acronym n acronym s ≡ some a
      → a.acronym ≡ acronym
  pub found_taken :
      (a b : Association) (s : S)
      → a.acronym ≢ ""
      → store.first_by_acronym 0 a.acronym s ≡ some b
      → store.free a s ≡ false

module _ {S : Type 0} (store : Store S) where
  pub found_or-found :
      (a b : Association) (s : S)
      → a.id ≡ 0
      → store.first_by_acronym 0 a.acronym s ≡ some b
      → found_or store a s ≡ b
  found_or-found a b s new e =
      let found : store.first_by_acronym a.id a.acronym s ≡ some b = rw new e in
      rw (found, found_or) refl

  pub found_or-missing :
      (a : Association) (s : S)
      → a.id ≡ 0
      → store.first_by_acronym 0 a.acronym s ≡ none
      → found_or store a s ≡ a
  found_or-missing a s new e =
      let missing : store.first_by_acronym a.id a.acronym s ≡ none = rw new e in
      rw (missing, found_or) refl

  pub from_found :
      (a f : Association) (s : S)
      → a.id ≡ 0
      → store.first_by_acronym 0 a.acronym s ≡ some f
      → f.id ≢ 0
      → first_or_create store a s ≡ (f, s)
  unfolding first_or_create
  from_found a f s new e n =
      let test : nat_eq f.id 0 ≡ false = ground arith in
      rw (found_or-found a f s new e) (rw test refl)

  pub from_missing :
      (a : Association) (s : S)
      → a.id ≡ 0
      → store.first_by_acronym 0 a.acronym s ≡ none
      → first_or_create store a s ≡ store.create a s
  unfolding first_or_create
  from_missing a s new e =
      let test : nat_eq a.id 0 ≡ true = ground arith in
      rw (found_or-missing a s new e) (rw test refl)

  -- A record whose acronym, host and name are free is new.
  pub free-missing :
      IsStore store
      → (a : Association) (s : S) → a.acronym ≢ ""
      → store.free a s ≡ true
      → store.first_by_acronym 0 a.acronym s ≡ none
  free-missing h a s named free = elim (Option-cases (store.first_by_acronym 0 a.acronym s)) [
    | inl e ↦ e
    | inr (f, e) ↦ cc (sym free ∙ h.found_taken a f s named e)
  ]
