-- ===== src/Api/Rails.antt =====
-- api/pkg/rails/db/event.go and api/pkg/rails/db/racing_association.go: the opening of the Rails
-- database, and the service behind its interface.
use dawn_patrol.Prelude.{ℕ, String, Bool, List, Result, ok, throw, ◌>>=◌}
use dawn_patrol.Api.{RailsEvent, RacingAssociation}
use dawn_patrol.Api.Services.{AssociationService, EventService, RacingAssociationService}
use dawn_patrol.Api.Databases.{Settings, for_association}
use dawn_patrol.Api.Copy.{Sources, copy}

-- The Rails databases: whether `gorm.Open` succeeds at the first and at a later opening, with a URL,
-- at an attempt; its last error; what a database with a URL holds; and its first association with a
-- short name.
pub record Rails : Type 0 where
  pub settings : Settings
  pub opens : ℕ → String → ℕ → Bool
  pub refusal : String → String
  pub sources : String → Sources
  pub first_by_short_name : String → String → Result String RacingAssociation

-- `Databases.For`, at the first opening or a later one.
abbrev pub open_rails : Rails → ℕ → String → Result String String
open_rails rails n association =
    for_association rails.settings (rails.opens n) rails.refusal association

-- `rails/db.EventService.Find`.
unfoldable pub find_rails_events : Rails → String → Result String (List RailsEvent)
find_rails_events rails association = do
  url ← open_rails rails 0 association
  ok (rails.sources url).rails_events

-- `RacingAssociationService.Find`, which opens the database of its own: the outer result is a panic.
unfoldable pub find_racing_association :
    Rails → ℕ → String → Result String (Result String RacingAssociation)
find_racing_association rails n short_name = do
  url ← open_rails rails n short_name
  ok (rails.first_by_short_name url short_name)

-- What `Copy` reads in its first lines; `Find` opens the database a second time.
unfoldable pub read_sources : Rails → String → Result String Sources
unfolding find_racing_association
read_sources rails association = do
  url ← open_rails rails 0 association
  racing_association ← find_racing_association rails 1 association
  ok (record (rails.sources url) { racing_association = racing_association })

module _ {W : Type 0} (associations : AssociationService W) (events : EventService W) where
  -- `Copy`, from the opening of the database on.
  unfoldable pub copy_rails : Rails → String → W → Result String (Result String (Unit {0})) × W
  copy_rails rails acronym w = elim (read_sources rails acronym) [
    | throw panic ↦ (throw panic, w)
    | ok sources ↦ let (r, v) = copy associations events sources acronym w in (ok r, v)
  ]

  abbrev pub racing_association_service : Rails → RacingAssociationService W
  racing_association_service rails = record {
    type_name = "*db.RacingAssociationService";
    copy = copy_rails rails;
    find = λ short_name w. (find_racing_association rails 0 short_name, w);
  }
