-- ===== src/Tests/Requests.antt =====
-- Requests to the API on a database in memory.
use dawn_patrol.Prelude.{
  String, Bool, true, false, none, some, List, [], ◌∷◌, map, ◌==◌, ◌≡◌, ◌≢◌, ◌↔◌, ◌⊎◌, inl, refl,
  ap, eq_iff, arith, if◌then◌else◌, Result, ok, throw,
}
use dawn_patrol.Api.{Association, Event, RacingAssociation, RailsEvent}
use dawn_patrol.Api.Copy.{Sources, converted}
use dawn_patrol.Api.Databases.{Settings}
use dawn_patrol.Api.Rails.{Rails, read_sources}
use dawn_patrol.Api.Bags.{bag, add_all}
use dawn_patrol.Api.Calendar.{unnumbered, calendars}
use dawn_patrol.Server.{
  Request, Context, Panic, an_error, a_text, Action, Handler, Pattern, Packages, with_status, api,
}
use dawn_patrol.Server.Routes.{IsPackages, covers, not_found}
use dawn_patrol.Server.Answers.{fresh}
use dawn_patrol.Server.Index.{AnswersIndex, api-AnswersIndex}
use dawn_patrol.Server.Copying.{AnswersCopy, api-AnswersCopy}
use dawn_patrol.Server.Copied.{Sent, api-copied_index}
use dawn_patrol.Server.Panics.{Unopened, api-throw_iff, api-unchanged}
use dawn_patrol.Server.Reporting.{api-without_app}
use dawn_patrol.Server.Transactions.{Closed}
use dawn_patrol.Server.Transactions.Balance.{api-Closed}
use dawn_patrol.Tests.Database.{
  Db, store, table, store-IsStore, table-IsEventTable, database-KeepsEvents, answers,
  database-IsHosted, no_rows, nine_thirty,
}

abbrev pub recover : Result Panic (Unit {0}) × Context Db → Result Panic (Unit {0}) × Context Db
recover (ok tt, d) = (ok tt, d)
recover (throw (an_error e), d) = (ok tt, record d { response = with_status 500 d.response })
recover (throw (a_text e), d) = (throw (an_error "interface conversion"), d)

abbrev pub route : List (Pattern × Handler Db) → Request → Action Db (Unit {0})
route [] r = λ c. (ok tt, record c { response = not_found c.response })
route ((q, h) ∷ rest) r = if covers q r then h.serve_http r else route rest r

-- Events are written as the name of the first.
abbrev pub marshal : List Event → Result String String
marshal [] = ok "[]"
marshal (e ∷ es) = ok e.name

abbrev pub packages : Packages Db
packages = record { recovery = λ serve r c. recover (serve r c); goji = route; marshal = marshal }

pub packages-IsPackages : IsPackages packages
packages-IsPackages = record {
  hit = λ q h rest r e. rw e refl;
  miss = λ q h rest r e. rw e refl;
  no_route = λ r c. refl;
  returned = λ serve r c d e. ap recover e;
  recovered = λ serve r c d m e. ap recover e;
  panicked = λ serve r c d m e. ("interface conversion", ap recover e);
}

abbrev pub get_request : String → Request
get_request url = record {
  verb = "GET";
  url = url;
  path = url;
  host = "0.0.0.0|localhost|obra.web";
  association = "";
}

abbrev copy_request : Request
copy_request = record {
  verb = "POST";
  url = "/rails/copy";
  path = "/rails/copy";
  host = "api:8080";
  association = "OBRA";
}

abbrev pub context : Db → Context Db
context db = record {
  world = record { database = db; transactions = [] };
  response = fresh;
  logged = [];
}

abbrev pub rails_association : RacingAssociation
rails_association = record {
  created_at = nine_thirty;
  id = 1;
  name = "Oregon";
  short_name = "OBRA";
  updated_at = nine_thirty;
}

abbrev pub rails_race : String → RailsEvent
rails_race name = record {
  city = "Portland";
  created_at = nine_thirty;
  date = nine_thirty;
  discipline = "Road";
  id = 7;
  name = name;
  state = "OR";
  updated_at = nine_thirty;
}

abbrev pub lower : String → String
lower s = if s == "OBRA" then "obra" else s

abbrev pub sources : Sources
sources = record {
  rails_events = rails_race "Cup" ∷ [];
  racing_association = ok rails_association;
  location = ok tt;
  to_lower = lower;
}

-- The Rails database opens at the first attempt, or never.
abbrev pub rails : Bool → Rails
rails up = record {
  settings = record { env = []; to_upper = λ s. s; to_lower = lower };
  opens = λ n url attempt. up;
  refusal = λ url. "connection refused";
  sources = λ url. sources;
  first_by_short_name = λ url short_name.
      if short_name == "OBRA" then ok rails_association else throw "record not found";
}

rails_opened : read_sources (rails true) "OBRA" ≡ ok sources
unfolding read_sources dawn_patrol.Api.Databases.for_association dawn_patrol.Api.Databases.open_from
rails_opened = refl

not_empty : ◌≢◌ {A = String} "OBRA" ""
not_empty h = ground (arith, eq_iff "OBRA" "")

abbrev copied : Context Db
copied =
    (api packages (some "Dawn Patrol") store table (rails true) copy_request (context no_rows)).1

api-copied_index_example :
    (es : List Event) × (bag (map unnumbered es)
      ≡ add_all (map (λ x. converted 1 x) sources.rails_events) (calendars table no_rows 1))
    × Sent packages es
        (api packages
          (some "Dawn Patrol")
          store
          table
          (rails true)
          (get_request "/index.json")
          (context copied.world.database)).1.response
api-copied_index_example =
    api-copied_index packages store table (rails true) packages-IsPackages store-IsStore
      table-IsEventTable database-KeepsEvents answers database-IsHosted (some "Dawn Patrol")
      copy_request (get_request "/index.json") (context no_rows) (context copied.world.database)
      sources rails_association "record not found" refl refl not_empty rails_opened refl refl refl
      refl refl refl refl refl

api-AnswersIndex_example :
    AnswersIndex packages store table
      (rails true)
      (get_request "/index.json")
      no_rows
      (api packages none store table (rails true) (get_request "/index.json") (context no_rows))
api-AnswersIndex_example =
    api-AnswersIndex packages store table (rails true) packages-IsPackages none
      (get_request "/index.json") (context no_rows) refl refl

api-AnswersCopy_example :
    AnswersCopy store table
      (rails true)
      copy_request
      no_rows
      (api packages none store table (rails true) copy_request (context no_rows))
api-AnswersCopy_example =
    api-AnswersCopy store table (rails true) packages packages-IsPackages none copy_request
      (context no_rows) refl refl

-- The Rails database is down.
api-throw_iff_example :
    ((m : Panic) × ((api packages none store table (rails false) copy_request (context no_rows)).0
        ≡ throw m))
    ↔ ((covers (Pattern.get "/panic") copy_request ≡ true) ⊎ Unopened (rails false) copy_request)
api-throw_iff_example =
    api-throw_iff packages store table (rails false) packages-IsPackages none copy_request
      (context no_rows) refl

api-unchanged_example :
    (api packages none store table
      (rails true)
      (get_request "/rails/copy")
      (context no_rows)).1.world.database
    ≡ no_rows
api-unchanged_example =
    api-unchanged packages store table (rails true) packages-IsPackages none
      (get_request "/rails/copy") (context no_rows) refl (inl refl)

api-without_app_example :
    ((api packages
        (some "Dawn Patrol")
        store
        table
        (rails true)
        copy_request
        (context no_rows)).1.world.database
      ≡ (api packages none store table
          (rails true)
          copy_request
          (context no_rows)).1.world.database)
    × ((api packages
          (some "Dawn Patrol")
          store
          table
          (rails true)
          copy_request
          (context no_rows)).1.response
        ≡ (api packages none store table (rails true) copy_request (context no_rows)).1.response)
api-without_app_example =
    api-without_app packages store table (rails true) packages-IsPackages "Dawn Patrol" copy_request
      (context no_rows) refl

api-Closed_example :
    Closed
      (context no_rows).world
      (api packages
        (some "Dawn Patrol")
        store
        table
        (rails true)
        (get_request "/panic")
        (context no_rows)).1.world
api-Closed_example =
    api-Closed packages packages-IsPackages (some "Dawn Patrol") store table (rails true)
      (get_request "/panic") (context no_rows)
