-- ===== src/Tests/Calendars.antt =====
-- The calendar of an association, in the database, in the API's answer and on the page.
use dawn_patrol.Prelude.{
  ℕ, String, codes, Bool, true, false, Option, none, some, List, [], ◌∷◌, map, length, ◌==◌, ◌≡◌,
  ◌≢◌, refl, ap, arith, nat_eq, if◌then◌else◌, Result, ok, throw,
}
use dawn_patrol.ParseInt.{number, parse_int}
use dawn_patrol.App
use dawn_patrol.App.{mounted, render_events}
use dawn_patrol.DevServer.{server_config}
use dawn_patrol.Api.{Association, Event}
use dawn_patrol.Api.Associations.{association_service}
use dawn_patrol.Api.Events.{event_service, create_events, before_nameless}
use dawn_patrol.Api.Copy.{copy}
use dawn_patrol.Api.Calendar.{publish, known, calendars, create_events-publish}
use dawn_patrol.Api.Calendar.Copied.{CopyPublishes, copy-calendars}
use dawn_patrol.Server.{api}
use dawn_patrol.Server.Json.{api-json, api-garbled}
use dawn_patrol.Server.Page.{as_fetched, fetch_proxied, parse_int-page}
use dawn_patrol.Tests.Database.{
  Db, store, table, store-IsStore, table-IsEventTable, database-KeepsEvents, nine_thirty, obra,
}
use dawn_patrol.Tests.Requests.{
  packages, packages-IsPackages, get_request, context, rails_association, sources, rails,
}
use dawn_patrol.Tests.Configuration.{platform, folders}

abbrev race : String → Event
race name = record {
  association_id = 1;
  city = "Portland";
  discipline = "Road";
  id = 1;
  name = name;
  rails_created_at = nine_thirty;
  rails_id = 7;
  rails_updated_at = nine_thirty;
  starts_at = nine_thirty;
  state = "OR";
}

abbrev with_race : String → Db
with_race name = record {
  associations = record obra { host = "0.0.0.0|localhost|obra.web" } ∷ [];
  events = race name ∷ [];
}

-- A new race, and one of an association that is not there.
abbrev new_races : List Event
new_races =
    record (race "Ride") { id = 0 } ∷ record (race "Sprint") { association_id = 7; id = 0 } ∷ []

create_events-publish_example :
    calendars table (create_events table.insert_event new_races (with_race "Cup")).1 1
    ≡ publish
        (known table (with_race "Cup") (before_nameless new_races))
        (calendars table (with_race "Cup"))
        1
create_events-publish_example =
    create_events-publish table table-IsEventTable new_races (with_race "Cup") 1 (refl, (refl, tt))

copy-calendars_example :
    CopyPublishes store table sources "OBRA"
      (with_race "Cup")
      rails_association
      1
      (copy (association_service store) (event_service table) sources "OBRA" (with_race "Cup"))
copy-calendars_example =
    copy-calendars store table store-IsStore table-IsEventTable database-KeepsEvents sources "OBRA"
      (with_race "Cup") rails_association 1 refl refl

abbrev found : Association
found = record obra { host = "0.0.0.0|localhost|obra.web"; id = 1 }

api-json_example :
    (api packages none store table
      (rails true)
      (get_request "/index.json")
      (context (with_race "Cup"))).1.response
    ≡ record { status = some 200; content_type = some "application/json"; body = codes "Cup" }
api-json_example =
    api-json packages store table (rails true) packages-IsPackages none (get_request "/index.json")
      (context (with_race "Cup")) found "Cup" refl refl refl refl refl

api-garbled_example :
    (api packages none store table
      (rails true)
      (get_request "/index.json")
      (context (with_race "50%off"))).1.response.body
    ≢ codes "50%off"
api-garbled_example =
    api-garbled packages store table (rails true) packages-IsPackages none
      (get_request "/index.json") (context (with_race "50%off")) found "50%off" (codes "50") b'o'
      (codes "ff") refl refl refl refl refl refl refl

-- `JSON.parse` of the name of the race.
abbrev parse : List ℕ → Result String (List Event)
parse body = ok (race "Cup" ∷ [])

abbrev texts : ℕ → String
texts code = "OK"

abbrev ask : String → String → App.Response Event
ask target url =
    as_fetched texts parse
      (api packages none store table (rails true) (get_request url)
        (context (with_race "Cup"))).1.response

abbrev own : String → Result String (App.Response Event)
own url = throw "Not Found"

one_shown :
    codes "1 events"
    ≡ render_events
        (mounted (fetch_proxied (server_config platform folders [] false true none) own ask) none)
unfolding render_events mounted dawn_patrol.ParseInt.Decimal.print_decimal
    dawn_patrol.Prelude.Object.lookup server_config api dawn_patrol.Server.new_instrumented_handler
    dawn_patrol.Server.root dawn_patrol.Api.Instrumentation.new_instrumented_association_service
    dawn_patrol.Api.Instrumentation.new_instrumented_event_service
    dawn_patrol.Api.Events.find_by_association
one_shown = refl

parse_int-page_example : parse_int "1 events" ≡ number false 1
parse_int-page_example =
    parse_int-page packages store table (rails true) packages-IsPackages none
      (get_request "/index.json") (context (with_race "Cup")) found "Cup" texts parse
      (server_config platform folders [] false true none) platform folders [] false true none own
      ask none "1 events" refl refl refl refl refl refl refl refl one_shown
