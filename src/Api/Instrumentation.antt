-- ===== src/Api/Instrumentation.antt =====
-- api/pkg/instrumentation.go, api/pkg/db/instrumentation.go and api/pkg/rails/db/instrumentation.go:
-- the services that report to New Relic.
use dawn_patrol.Prelude.{
  String, ◌<>◌, ◌==◌, Option, none, some, List, [], ◌∷◌, ◌++◌, if◌then◌else◌, Result, ok, ◌>>=◌,
}
use dawn_patrol.Env.{Env}
use dawn_patrol.Api.Databases.{getenv}
use dawn_patrol.Api.Services.{AssociationService, EventService, RacingAssociationService}

-- What New Relic is told, in order.
pub data Entry : Type 0 where
  started named : String → Entry
  attribute : (key value : String) → Entry
  ended : Entry

-- The database with what New Relic was told, the newest last.
pub record World (S : Type 0) : Type 0 where
  pub database : S
  pub transactions : List Entry

unfoldable pub app_name : Env → String
app_name env =
    if getenv "DAWN_PATROL_ENVIRONMENT" env == ""
    then "Dawn Patrol"
    else "Dawn Patrol " <> getenv "DAWN_PATROL_ENVIRONMENT" env

-- `NewNewRelicApp`: the name of the app, if there is a license. `new_application` says how New
-- Relic's constructor ends for a name and a license; its error is a panic.
unfoldable pub new_new_relic_app :
    (String → String → Result String (Unit {0})) → Env → Result String (Option String)
unfolding app_name
new_new_relic_app new_application env =
    let name = app_name env in
    let created = new_application name (getenv "NEW_RELIC_LICENSE_KEY" env) in
    let app = created >>= λ done. ok (some name) in
    if getenv "NEW_RELIC_LICENSE_KEY" env == "" then ok none else app

abbrev pub transaction : (type_name name : String) → List Entry
transaction type_name name = started type_name ∷ named name ∷ []

module _ {S : Type 0} where
  abbrev pub tell : List Entry → World S → World S
  tell entries w = record w { transactions = w.transactions ++ entries }

  -- A call of a service between the start of a transaction and its deferred end.
  unfoldable pub traced :
      {A : Type 0} → List Entry → (World S → A × World S) → World S → A × World S
  traced entries call w = let (a, v) = call (tell entries w) in (a, tell (ended ∷ []) v)

  -- A service over the database alone.
  abbrev pub on_database : {A : Type 0} → (S → A × S) → World S → A × World S
  on_database call w = let (a, s) = call w.database in (a, record w { database = s })

  -- `NewInstrumentedAssociationService`.
  unfoldable pub new_instrumented_association_service :
      Option String → AssociationService (World S) → AssociationService (World S)
  new_instrumented_association_service none associations = associations
  new_instrumented_association_service (some app) associations = record {
    type_name = "*db.instrumentedAssociationService";
    create = λ a.
        traced (transaction associations.type_name "db.AssociationService#Create()")
          (associations.create a);
    create_default =
        traced (transaction associations.type_name "db.AssociationService#CreateDefault()")
          associations.create_default;
    default_association =
        traced (transaction associations.type_name "db.AssociationService#Default()")
          associations.default_association;
    default_or_create_default =
        traced (transaction associations.type_name "db.AssociationService#DefaultOrCreateDefault()")
          associations.default_or_create_default;
    first_by_host = λ host.
        traced (transaction associations.type_name "db.AssociationService#FirstByHost()")
          (associations.first_by_host host);
    first_or_create = λ a.
        traced (transaction associations.type_name "db.AssociationService#FirstOrCreate()")
          (associations.first_or_create a);
  }

  -- `NewInstrumentedEventService`.
  unfoldable pub new_instrumented_event_service :
      Option String → EventService (World S) → EventService (World S)
  new_instrumented_event_service none es = es
  new_instrumented_event_service (some app) es = record {
    type_name = "*db.instrumentedEventService";
    create =
        λ events. traced (transaction es.type_name "db.EventService#Create()") (es.create events);
    find = λ association.
        traced
          (transaction es.type_name "db.EventService#Find()"
            ++ (attribute "association" association.acronym ∷ []))
          (es.find association);
  }

  -- `NewInstrumentedRacingAssociationService`, which the program does not use.
  unfoldable pub new_instrumented_racing_association_service :
      Option String → RacingAssociationService (World S) → RacingAssociationService (World S)
  new_instrumented_racing_association_service none ras = ras
  new_instrumented_racing_association_service (some app) ras = record {
    type_name = "*db.instrumentedRacingAssociationService";
    copy = λ acronym.
        traced (transaction ras.type_name "rails.db.RacingAssociationService#Copy()")
          (ras.copy acronym);
    find = λ acronym.
        traced (transaction ras.type_name "rails.db.RacingAssociationService#Find()")
          (ras.find acronym);
  }

  -- Services over the database, for a world.
  abbrev pub association_service_on : AssociationService S → AssociationService (World S)
  association_service_on associations = record {
    type_name = associations.type_name;
    create = λ a. on_database (associations.create a);
    create_default = on_database associations.create_default;
    default_association = on_database associations.default_association;
    default_or_create_default = on_database associations.default_or_create_default;
    first_by_host = λ host. on_database (associations.first_by_host host);
    first_or_create = λ a. on_database (associations.first_or_create a);
  }

  abbrev pub event_service_on : EventService S → EventService (World S)
  event_service_on es = record {
    type_name = es.type_name;
    create = λ events. on_database (es.create events);
    find = λ association. on_database (es.find association);
  }
