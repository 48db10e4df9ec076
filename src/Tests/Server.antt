-- ===== src/Tests/Server.antt =====
-- The services of api/pkg on concrete inputs.
use dawn_patrol.Prelude.{
  ℕ, suc, String, Bool, [], ◌∷◌, ◌==◌, ◌≡◌, ◌↔◌, ◌⊎◌, arith, nat_eq, if◌then◌else◌, ok,
}
use dawn_patrol.Api.{Event, RailsEvent, RacingAssociation}
use dawn_patrol.Api.Databases.{Attempted, open_url_with_attempts, open_url_with_attempts-Attempted}
use dawn_patrol.Api.Zone.{to_association_time_zone, to_association_time_zone-kept_iff}
use dawn_patrol.Api.Associations.{association_service}
use dawn_patrol.Api.Events.{event_service}
use dawn_patrol.Tests.Database.{store, table, no_rows, nine_thirty}
use dawn_patrol.Api.Copy.{Sources, copy, copy-ok_iff}

-- The third attempt succeeds.
abbrev opens : ℕ → Bool
opens a = nat_eq a 2

open_url_with_attempts-Attempted_example : Attempted opens 0 10 (open_url_with_attempts opens 10)
open_url_with_attempts-Attempted_example = open_url_with_attempts-Attempted opens 10

to_association_time_zone-kept_iff_example :
    (to_association_time_zone {Z = String} (ok "America/Los_Angeles") nine_thirty ≡ ok nine_thirty)
    ↔ (◌≡◌ {A = ℕ} 9 30)
to_association_time_zone-kept_iff_example =
    to_association_time_zone-kept_iff "America/Los_Angeles" nine_thirty (omega arith) (omega arith)
      (omega arith)

abbrev race : ℕ → Event
race association_id = record {
  association_id = association_id;
  city = "Portland";
  discipline = "Road";
  id = 0;
  name = "Cup";
  rails_created_at = nine_thirty;
  rails_id = 7;
  rails_updated_at = nine_thirty;
  starts_at = nine_thirty;
  state = "OR";
}

-- A database that only counts.
abbrev count_event : Event → ℕ → ℕ
count_event e n = suc n

abbrev rails_association : RacingAssociation
rails_association = record {
  created_at = nine_thirty;
  id = 1;
  name = "Oregon";
  short_name = "OBRA";
  updated_at = nine_thirty;
}

abbrev rails_race : RailsEvent
rails_race = record {
  city = "Portland";
  created_at = nine_thirty;
  date = nine_thirty;
  discipline = "Road";
  id = 7;
  name = "Cup";
  state = "OR";
  updated_at = nine_thirty;
}

abbrev sources : Sources
sources = record {
  rails_events = rails_race ∷ [];
  racing_association = ok rails_association;
  location = ok tt;
  to_lower = λ s. if s == "OBRA" then "obra" else s;
}

copy-ok_iff_example :
    ((copy (association_service store) (event_service table) sources "OBRA" no_rows).0 ≡ ok tt) ↔ (
      (r : RacingAssociation) × (sources.racing_association ≡ ok r)
      × ((sources.rails_events ≡ []) ⊎ (sources.location ≡ ok tt)))
copy-ok_iff_example =
    copy-ok_iff (association_service store) (event_service table) sources "OBRA" no_rows
