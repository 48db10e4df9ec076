-- ===== src/Api.antt =====
-- The API in Go: api/pkg/association.go, api/pkg/event.go and the records of api/pkg/rails. The
-- children model the services over them. gorm is a parameter, over any type of database states;
-- the services' own log lines are left out.
pub mod Services
pub mod Databases
pub mod Zone
pub mod Associations
pub mod Events
pub mod Copy
pub mod Rails
pub mod Instrumentation
pub mod Bags
pub mod Calendar
pub mod Concurrent
use dawn_patrol.Prelude.{ℕ, String}

-- A moment: the wall clock that a time zone shows. The day stands for year, month and day.
pub record Time : Type 0 where
  pub day : ℕ
  pub hour : ℕ
  pub minute : ℕ
  pub second : ℕ
  pub nanosecond : ℕ

-- The zero value: its day stands for the first of January of the year 1.
abbrev pub zero_time : Time
zero_time = record { day = 0; hour = 0; minute = 0; second = 0; nanosecond = 0 }

pub record Association : Type 0 where
  pub acronym : String
  pub host : String
  pub id : ℕ
  pub name : String
  pub rails_created_at : Time
  pub rails_updated_at : Time

-- `api.Association{}`.
abbrev pub zero_association : Association
zero_association = record {
  acronym = "";
  host = "";
  id = 0;
  name = "";
  rails_created_at = zero_time;
  rails_updated_at = zero_time;
}

-- The field `Association`, which the services leave empty, is left out.
pub record Event : Type 0 where
  pub association_id : ℕ
  pub city : String
  pub discipline : String
  pub id : ℕ
  pub name : String
  pub rails_created_at : Time
  pub rails_id : ℕ
  pub rails_updated_at : Time
  pub starts_at : Time
  pub state : String

-- `Event` of api/pkg/rails/event.go.
pub record RailsEvent : Type 0 where
  pub city : String
  pub created_at : Time
  pub date : Time
  pub discipline : String
  pub id : ℕ
  pub name : String
  pub state : String
  pub updated_at : Time

-- `RacingAssociation` of api/pkg/rails/racing_association.go.
pub record RacingAssociation : Type 0 where
  pub created_at : Time
  pub id : ℕ
  pub name : String
  pub short_name : String
  pub updated_at : Time
