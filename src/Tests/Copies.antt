-- ===== src/Tests/Copies.antt =====
-- Two copies at once, on the database in memory.
use dawn_patrol.Prelude.{
  ℕ, String, Bool, true, false, List, [], ◌∷◌, ◌≡◌, ◌≢◌, refl, inr, arith, eq_iff, map,
}
use dawn_patrol.Api.{Association}
use dawn_patrol.Api.Associations.{association_service, first_or_create}
use dawn_patrol.Api.Events.{event_service}
use dawn_patrol.Api.Copy.{copy, new_association, converted}
use dawn_patrol.Api.Calendar.{publish, calendars}
use dawn_patrol.Api.Concurrent.{looking, finished, interleave}
use dawn_patrol.Api.Concurrent.Progress.{created_under}
use dawn_patrol.Api.Concurrent.Schedules.{interleave-publishes}
use dawn_patrol.Api.Concurrent.Turns.{alone, alone-copy}
use dawn_patrol.Api.Concurrent.Apart.{interleave-apart}
use dawn_patrol.Tests.Database.{
  database-IsApart, Db, store, table, store-IsStore, table-IsEventTable, database-KeepsEvents,
  no_rows,
}
use dawn_patrol.Tests.Requests.{rails_association, sources}

abbrev obra : Association
obra = new_association sources "OBRA" rails_association

obra_named : obra.acronym ≢ ""
obra_named h = ground (arith, eq_iff "OBRA" "")

abbrev in_turns : List Bool
in_turns = true ∷ false ∷ true ∷ false ∷ true ∷ false ∷ true ∷ false ∷ true ∷ false ∷ []

interleave-publishes_example :
    (i : ℕ) × (j : ℕ) × (db : Db) × (interleave store table in_turns
        (looking obra sources.rails_events)
        (looking obra sources.rails_events)
        no_rows
      ≡ (finished i, finished j, db))
    × (calendars table db 1
        ≡ publish
            (created_under i sources.rails_events)
            (publish (created_under j sources.rails_events) (calendars table no_rows))
            1)
interleave-publishes_example =
    interleave-publishes store table table-IsEventTable database-KeepsEvents in_turns obra obra
      sources.rails_events sources.rails_events no_rows 1 refl refl (omega arith) (omega arith)

alone-copy_example :
    interleave store table (alone 5) (looking obra sources.rails_events) (finished 9) no_rows ≡ (
      finished (first_or_create store obra no_rows).0.id,
      finished 9,
      (copy (association_service store) (event_service table) sources "OBRA" no_rows).1,
    )
alone-copy_example =
    alone-copy store table sources "OBRA" no_rows rails_association (finished 9) 5 refl refl
      (omega arith)

abbrev wsba : Association
wsba = new_association sources "WSBA" (record rails_association { short_name = "WSBA" })

wsba_named : wsba.acronym ≢ ""
wsba_named h = ground (arith, eq_iff "WSBA" "")

acronyms-ne : ◌≢◌ {A = String} "OBRA" "WSBA"
acronyms-ne h = ground (arith, eq_iff "OBRA" "WSBA")

hosts-ne : ◌≢◌ {A = String} "0.0.0.0|localhost|obra.web" "0.0.0.0|localhost|WSBA.web"
hosts-ne h = ground (arith, eq_iff "0.0.0.0|localhost|obra.web" "0.0.0.0|localhost|WSBA.web")

interleave-apart_example :
    (i : ℕ) × (j : ℕ) × (i ≢ 0)
    × (j ≢ 0)
    × (db : Db) × (interleave store table in_turns
          (looking obra sources.rails_events)
          (looking wsba sources.rails_events)
          no_rows
        ≡ (finished i, finished j, db))
    × (calendars table db 2
        ≡ publish
            (map (λ e. converted i e) sources.rails_events)
            (publish (map (λ e. converted j e) sources.rails_events) (calendars table no_rows))
            2)
interleave-apart_example =
    interleave-apart store table store-IsStore database-IsApart table-IsEventTable
      database-KeepsEvents in_turns obra wsba sources.rails_events sources.rails_events no_rows 2
      refl refl obra_named wsba_named (acronyms-ne, hosts-ne, acronyms-ne) (inr refl) (inr refl)
      (omega arith) (omega arith)
