-- ===== src/Api/Copy.antt =====
-- api/pkg/rails/db/racing_association.go, `Copy`: the events of the Rails database are converted
-- and created in the API's database.
use dawn_patrol.Prelude.{
  ℕ, String, ◌<>◌, List, [], ◌∷◌, map, ◌≡◌, ◌↔◌, ◌⊎◌, inl, inr, refl, sym, ◌∙◌, ap, Result-cases,
  Bool-cases, nat_eq, if◌then◌else◌, Result, ok, throw, ◌>>=◌,
}
use dawn_patrol.Api.{Time, Association, Event, RailsEvent, RacingAssociation}
use dawn_patrol.Api.Zone.{to_association_time_zone, date_of}
use dawn_patrol.Api.Services.{AssociationService, EventService}
use dawn_patrol.Api.Associations.{Store, first_or_create, association_service}
use dawn_patrol.Api.Events.{
  EventTable, event_service, create_events_lem, insert_all, before_nameless,
}

-- What the function reads: the Rails database's events and association, which may be missing,
-- the time zone, which may fail to load, and `strings.ToLower`.
pub record Sources : Type 0 where
  pub rails_events : List RailsEvent
  pub racing_association : Result String RacingAssociation
  pub location : Result String (Unit {0})
  pub to_lower : String → String

abbrev pub new_association : Sources → String → RacingAssociation → Association
new_association sources acronym r = record {
  acronym = acronym;
  host = "0.0.0.0|localhost|" <> (sources.to_lower r.short_name <> ".web");
  id = 0;
  name = r.short_name;
  rails_created_at = r.created_at;
  rails_updated_at = r.updated_at;
}

abbrev pub convert_at : ℕ → RailsEvent → Time → Event
convert_at association_id e date = record {
  association_id = association_id;
  city = e.city;
  discipline = e.discipline;
  id = 0;
  name = e.name;
  rails_created_at = e.created_at;
  rails_id = e.id;
  rails_updated_at = e.updated_at;
  starts_at = date;
  state = e.state;
}

-- The loop over the events.
unfoldable pub convert_all :
    Result String (Unit {0}) → ℕ → List RailsEvent → Result String (List Event)
convert_all location association_id [] = ok []
convert_all location association_id (e ∷ es) = do
  date ← to_association_time_zone location e.date
  rest ← convert_all location association_id es
  ok (convert_at association_id e date ∷ rest)

module _ {W : Type 0} (associations : AssociationService W) (events : EventService W) where
  -- The end of the function: `Create` is called, and its error is not read.
  unfoldable pub create_converted : Result String (List Event) → W → Result String (Unit {0}) × W
  create_converted (throw e) w = (throw e, w)
  create_converted (ok es) w = (ok tt, (events.create es w).1)

  unfoldable pub copy : Sources → String → W → Result String (Unit {0}) × W
  unfolding create_converted
  copy sources acronym w = elim sources.racing_association [
    | throw e ↦ (throw e, w)
    | ok r ↦
        let (association, v) = associations.first_or_create (new_association sources acronym r) w in
        create_converted (convert_all sources.location association.id sources.rails_events) v
  ]

-- An event as it is created, in a zone that loads.
abbrev pub converted : ℕ → RailsEvent → Event
converted association_id e =
    convert_at association_id e
      (date_of e.date.day e.date.minute e.date.hour e.date.second e.date.nanosecond)

convert_all-loaded :
    (id : ℕ) (es : List RailsEvent) → convert_all (ok tt) id es ≡ ok (map (λ e. converted id e) es)
unfolding convert_all to_association_time_zone
convert_all-loaded id [] = refl
convert_all-loaded id (e ∷ es) = rw (convert_all-loaded id es) refl

convert_all-failed :
    (m : String) (id : ℕ) (e : RailsEvent) (es : List RailsEvent)
    → convert_all (throw m) id (e ∷ es) ≡ throw m
unfolding convert_all to_association_time_zone
convert_all-failed m id e es = refl

-- `Create` takes no event without an association.
abbrev pub taken : ℕ → List RailsEvent → List RailsEvent
taken id es = if nat_eq id 0 then [] else es

before_nameless-converted :
    (id : ℕ) (es : List RailsEvent)
    → before_nameless (map (λ e. converted id e) es) ≡ map (λ e. converted id e) (taken id es)
before_nameless-converted id [] = elim (Bool-cases (nat_eq id 0)) [
  | inl test ↦ rw test refl
  | inr test ↦ rw test refl
]
before_nameless-converted id (e ∷ es) = elim (Bool-cases (nat_eq id 0)) [
  | inl test ↦ rw test refl
  | inr test ↦
      let rest : taken id es ≡ es = rw test refl in
      let before = before_nameless-converted id es ∙ ap (map (λ e. converted id e)) rest in
      rw test (ap (λ l. converted id e ∷ l) before)
]

module _ {S : Type 0} (store : Store S) (events : EventTable S) where
  -- A copy that finds the Rails association and the time zone creates every event of the Rails
  -- database, in order, in the association that it found or created, or none if this has no id, and
  -- reports success.
  pub copy-inserts :
      (sources : Sources) (acronym : String) (s : S) (r : RacingAssociation)
      → sources.racing_association ≡ ok r
      → sources.location ≡ ok tt
      → copy (association_service store) (event_service events) sources acronym s ≡ (
        ok tt,
        (let (own, t) = first_or_create store (new_association sources acronym r) s in
            insert_all events.insert_event
              (map (λ e. converted own.id e) (taken own.id sources.rails_events))
              t),
      )
  unfolding copy create_converted
  copy-inserts sources acronym s r found loaded =
      let a = new_association sources acronym r in
      let (own, t) = first_or_create store a s in
      rw (found, loaded, convert_all-loaded own.id sources.rails_events)
        (ap (λ u. (ok tt, u.1))
            (create_events_lem events.insert_event
              (map (λ e. converted own.id e) sources.rails_events) t)
          ∙ ap (λ l. (ok tt, insert_all events.insert_event l t))
              (before_nameless-converted own.id sources.rails_events))

module _ {W : Type 0} (associations : AssociationService W) (events : EventService W) where
  create_converted-ok_iff :
      (location : Result String (Unit {0})) (id : ℕ) (es : List RailsEvent) (w : W)
      → ((create_converted associations events (convert_all location id es) w).0 ≡ ok tt)
        ↔ ((es ≡ []) ⊎ (location ≡ ok tt))
  unfolding create_converted
  create_converted-ok_iff (ok tt) id es w = (λ _. inr refl, λ _. rw (convert_all-loaded id es) refl)
  create_converted-ok_iff (throw m) id [] w = (λ _. inl refl, λ _. unfold convert_all in refl)
  create_converted-ok_iff (throw m) id (e ∷ es) w = (
    λ h. cc (rw (convert_all-failed m id e es) at h),
    λ h. elim h [ inl k ↦ cc k | inr k ↦ cc k ],
  )

  -- Whatever the services do, a copy reports success exactly if the Rails association is found, and
  -- the time zone loads or there is no event to convert: an error of `Create` is not among the
  -- conditions.
  pub copy-ok_iff :
      (sources : Sources) (acronym : String) (w : W)
      → ((copy associations events sources acronym w).0 ≡ ok tt) ↔ (
          (r : RacingAssociation) × (sources.racing_association ≡ ok r)
          × ((sources.rails_events ≡ []) ⊎ (sources.location ≡ ok tt)))
  unfolding copy
  copy-ok_iff sources acronym w = elim (Result-cases sources.racing_association) [
    | inl (r, found) ↦
        let (a, v) = associations.first_or_create (new_association sources acronym r) w in
        let (to, from) = create_converted-ok_iff sources.location a.id sources.rails_events v in
        (λ h. (r, found, to (rw found at h)), λ (_, _, k). rw found (from k))
    | inr (m, missing) ↦ (λ h. cc (rw missing at h), λ (_, found, _). cc (sym missing ∙ found))
  ]
