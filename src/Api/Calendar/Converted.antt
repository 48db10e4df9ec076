-- ===== src/Api/Calendar/Converted.antt =====
-- The events that a copy makes of Rails events, in the calendars.
use dawn_patrol.Prelude.{
  ℕ, true, false, List, [], ◌∷◌, map, ◌≡◌, refl, subst, ap, ◌∙◌, arith, nat_eq, if◌then◌else◌, inl,
  inr, Bool-cases, All,
}
use dawn_patrol.Api.{Event, RailsEvent}
use dawn_patrol.Api.Events.{EventTable}
use dawn_patrol.Api.Copy.{converted}
use dawn_patrol.Api.Bags.{Bag, add_all, add_all_nil}
use dawn_patrol.Api.Calendar.{unnumbered, events_of, known}

events_of-mine :
    (id : ℕ) (es : List RailsEvent)
    → map unnumbered (events_of id (map (λ e. converted id e) es)) ≡ map (λ e. converted id e) es
events_of-mine id [] = refl
events_of-mine id (e ∷ es) = ground (arith, events_of-mine id es)

events_of-others :
    (id other : ℕ) (es : List RailsEvent)
    → nat_eq id other ≡ false
    → events_of other (map (λ e. converted id e) es) ≡ []
events_of-others id other [] n = refl
events_of-others id other (e ∷ es) n = rw n (events_of-others id other es n)

pub publish-converted :
    (own id : ℕ) (es : List RailsEvent) (b : Bag)
    → add_all (map unnumbered (events_of id (map (λ e. converted own e) es))) b
      ≡ (if nat_eq own id then add_all (map (λ e. converted own e) es) b else b)
publish-converted own id es b = elim (Bool-cases (nat_eq own id)) [
  | inl same ↦
      let to : own ≡ id = ground arith in
      rw same (
        subst
          (λ n.
            add_all (map unnumbered (events_of n (map (λ e. converted own e) es))) b
            ≡ add_all (map (λ e. converted own e) es) b)
          to (ap (λ l. add_all l b) (events_of-mine own es)))
  | inr n ↦
      rw n (ap (λ l. add_all (map unnumbered l) b) (events_of-others own id es n) ∙ add_all_nil b)
]

pub converted-new :
    (id : ℕ) (es : List RailsEvent) → All (λ (e : Event). e.id ≡ 0) (map (λ e. converted id e) es)
converted-new id [] = tt
converted-new id (e ∷ es) = (refl, converted-new id es)

pub known-converted :
    {S : Type 0} (table : EventTable S) (id : ℕ) (es : List RailsEvent) (s : S)
    → table.knows id s ≡ true
    → known table s (map (λ e. converted id e) es) ≡ map (λ e. converted id e) es
known-converted table id [] s there = refl
known-converted table id (e ∷ es) s there =
    rw there (ap (λ l. converted id e ∷ l) (known-converted table id es s there))
