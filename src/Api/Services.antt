-- ===== src/Api/Services.antt =====
-- The interfaces of api/pkg/association.go, api/pkg/event.go and api/pkg/rails/racing_association.go,
-- over any type of states. A method that changes the record behind its pointer returns it.
use dawn_patrol.Prelude.{String, List, Result}
use dawn_patrol.Api.{Association, Event, RacingAssociation}

-- `type_name` is what `fmt.Sprintf("%T", …)` gives for the service.
pub record AssociationService (W : Type 0) : Type 0 where
  pub type_name : String
  pub create : Association → W → Association × W
  pub create_default : W → Association × W
  pub default_association : W → Association × W
  pub default_or_create_default : W → Association × W
  pub first_by_host : String → W → Result String Association × W
  pub first_or_create : Association → W → Association × W

pub record EventService (W : Type 0) : Type 0 where
  pub type_name : String
  pub create : List Event → W → Result String (Unit {0}) × W
  pub find : Association → W → Result String (List Event) × W

-- Opening the Rails database may panic: the outer result.
pub record RacingAssociationService (W : Type 0) : Type 0 where
  pub type_name : String
  pub copy : String → W → Result String (Result String (Unit {0})) × W
  pub find : String → W → Result String (Result String RacingAssociation) × W
