-- ===== src/Tests/Database.antt =====
-- A database in memory, of which the laws of gorm and Postgres hold, for the tests of the API.
use dawn_patrol.Prelude.{
  ℕ, suc, ◌+◌, String, Bool, true, false, List, [], ◌∷◌, ◌++◌, keep, length, some, ◌==◌, ◌≡◌, ◌≢◌,
  refl, sym, ap, ◌∙◌, subst, arith, nat_eq, if◌then◌else◌, ok, Bool-cases, inl, inr,
}
use dawn_patrol.Api.{Time, Association, Event}
use dawn_patrol.Api.Associations.{Store, IsStore}
use dawn_patrol.Api.Events.{EventTable}
use dawn_patrol.Api.Concurrent.Apart.{IsApart}
use dawn_patrol.Api.Calendar.{IsEventTable}
use dawn_patrol.Api.Calendar.Copied.{KeepsEvents}
use dawn_patrol.Server.Copied.{IsHosted}
use dawn_patrol.Tests.Rows.{
  first_at, like_at, host_at, free_at, place_at, first_at-append, first_at-found, first_at-taken,
  first_at-stays, free_at-append, place_at-stays, place_at-append, host_at-append,
}

pub record Db : Type 0 where
  pub associations : List Association
  pub events : List Event

abbrev appended : Association → Db → Association × Db
appended a db = (
  record a { id = suc (length db.associations) },
  record db { associations = db.associations ++ (a ∷ []) },
)

-- Where an index is not free, `Create` fails, and leaves the record as it was.
abbrev create_at : Association → Db → Association × Db
create_at a db = if free_at a db.associations then appended a db else (a, db)

abbrev with_event : Event → Db → Db
with_event e db = record db { events = record e { id = suc (length db.events) } ∷ db.events }

abbrev insert_at : Event → Db → Db
insert_at e db = if place_at 0 e.association_id db.associations then with_event e db else db

abbrev pub store : Store Db
store = record {
  first_by_acronym = λ id acronym db. first_at 0 id acronym db.associations;
  first_like = λ a db. like_at 0 a db.associations;
  first_by_host = λ host db. host_at 0 host db.associations;
  create = create_at;
  free = λ a db. free_at a db.associations;
}

abbrev pub table : EventTable Db
table = record {
  insert_event = insert_at;
  find_events = λ id db. keep (λ e. nat_eq e.association_id id) db.events;
  knows = λ id db. place_at 0 id db.associations;
}

suc-ne : (n : ℕ) → suc n ≢ 0
suc-ne n h = omega arith

zero_left : (n : ℕ) → 0 + n ≡ n
zero_left n = omega arith

create_at-new :
    (a : Association) (db : Db) → free_at a db.associations ≡ true → create_at a db ≡ appended a db
create_at-new a db free = rw free refl

create_at-old :
    (a : Association) (db : Db) → free_at a db.associations ≡ false → create_at a db ≡ (a, db)
create_at-old a db taken = rw taken refl

-- A property that the record and the database have, and the two after the creation.
create_at-either :
    (P : Association × Db → Type 0) (a : Association) (db : Db)
    → (free_at a db.associations ≡ true → P (appended a db))
    → P (a, db)
    → P (create_at a db)
create_at-either P a db new old = elim (Bool-cases (free_at a db.associations)) [
  | inl free ↦ subst P (sym (create_at-new a db free)) (new free)
  | inr taken ↦ subst P (sym (create_at-old a db taken)) old
]

insert_at-either :
    (P : Db → Type 0) (e : Event) (db : Db) → P (with_event e db) → P db → P (insert_at e db)
insert_at-either P e db new old = elim (Bool-cases (place_at 0 e.association_id db.associations)) [
  | inl there ↦ rw there new
  | inr missing ↦ rw missing old
]

appended-place :
    (a : Association) (db : Db)
    → place_at 0 (suc (length db.associations)) (db.associations ++ (a ∷ [])) ≡ true
appended-place a db =
    subst (λ n. place_at 0 (suc n) (db.associations ++ (a ∷ [])) ≡ true)
      (zero_left (length db.associations)) (place_at-append 0 a db.associations)

pub store-IsStore : IsStore store
store-IsStore = record {
  created_id = λ a db new free h.
      suc-ne (length db.associations) (sym (ap (λ r. r.0.id) (create_at-new a db free)) ∙ h);
  created_acronym =
      λ a db. create_at-either (λ r. r.0.acronym ≡ a.acronym) a db (λ free. refl) refl;
  created_found = λ a db new named free.
      subst (λ (r : Association × Db). first_at 0 0 a.acronym r.1.associations ≡ some r.0)
        (sym (create_at-new a db free))
        (subst
          (λ n.
            first_at 0 0 a.acronym (db.associations ++ (a ∷ [])) ≡ some (record a { id = suc n }))
          (zero_left (length db.associations)) (first_at-append 0 a db.associations named free));
  refused = create_at-old;
  found_id = λ n acronym db a h. (first_at-found 0 n acronym db.associations a h).0;
  found_acronym = λ n acronym db a named h.
      elim (first_at-found 0 n acronym db.associations a h).2 [
        | inl empty ↦ absurd (named empty)
        | inr same ↦ same
      ];
  found_taken = λ a b db named h. first_at-taken 0 a b db.associations named h;
}

pub table-IsEventTable : IsEventTable table
table-IsEventTable = record {
  inserted = λ e db id new there test. elim (Bool-cases (nat_eq e.association_id id)) [
    | inl same ↦ rw there (rw same (omega arith))
    | inr other ↦ rw there (rw other refl)
  ];
  unknown = λ e db missing. rw missing refl;
  kept_known = λ id e db.
      insert_at-either (λ d. place_at 0 id d.associations ≡ place_at 0 id db.associations) e db refl
        refl;
}

pub database-KeepsEvents : KeepsEvents store table
database-KeepsEvents = record {
  kept = λ a db id.
      create_at-either (λ r. table.find_events id r.1 ≡ table.find_events id db) a db (λ free. refl)
        refl;
  kept_known = λ id a db there.
      create_at-either (λ r. place_at 0 id r.1.associations ≡ true) a db
        (λ free. place_at-stays 0 id a db.associations there) there;
  found_known = λ n acronym db a h. (first_at-found 0 n acronym db.associations a h).1;
  created_known = λ a db new n. elim (Bool-cases (free_at a db.associations)) [
    | inl free ↦
        subst (λ (r : Association × Db). place_at 0 r.0.id r.1.associations ≡ true)
          (sym (create_at-new a db free)) (appended-place a db)
    | inr taken ↦ absurd (n (ap (λ r. r.0.id) (create_at-old a db taken) ∙ new))
  ];
}

pub database-IsApart : IsApart store table
database-IsApart = record {
  created_found = λ acronym a f db named h.
      create_at-either (λ r. first_at 0 0 acronym r.1.associations ≡ some f) a db
        (λ free. first_at-stays 0 0 acronym a f db.associations h) h;
  created_free = λ a b db (n, m, o) h.
      create_at-either (λ r. free_at a r.1.associations ≡ true) b db
        (λ free. free_at-append a b db.associations n m o h) h;
  inserted_found = λ acronym e db.
      insert_at-either
        (λ d. first_at 0 0 acronym d.associations ≡ first_at 0 0 acronym db.associations) e db refl
        refl;
  inserted_free = λ a e db.
      insert_at-either (λ d. free_at a d.associations ≡ free_at a db.associations) e db refl refl;
}

abbrev pub answers : String → String → Bool
answers host pattern = host == pattern

pub database-IsHosted : IsHosted store table answers
database-IsHosted = record {
  created_host = λ host a db e h k new free.
      subst (λ (r : Association × Db). host_at 0 host r.1.associations ≡ ok r.0)
        (sym (create_at-new a db free))
        (subst (λ n. host_at 0 host (db.associations ++ (a ∷ [])) ≡ ok (record a { id = suc n }))
          (zero_left (length db.associations)) (host_at-append 0 host a db.associations e h k));
  kept_host = λ host e db.
      insert_at-either (λ d. host_at 0 host d.associations ≡ host_at 0 host db.associations) e db
        refl refl;
}

abbrev pub nine_thirty : Time
nine_thirty = record { day = 17000; hour = 9; minute = 30; second = 0; nanosecond = 0 }

abbrev pub obra : Association
obra = record {
  acronym = "OBRA";
  host = "obra.web";
  id = 0;
  name = "OBRA";
  rails_created_at = nine_thirty;
  rails_updated_at = nine_thirty;
}

abbrev pub no_rows : Db
no_rows = record { associations = []; events = [] }
