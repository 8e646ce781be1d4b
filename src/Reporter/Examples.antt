-- ===== src/Reporter/Examples.antt =====
-- The theorems about the spool and the reporter, at a small spool.
use async_energy_controller.Value.Encode.{is_plain}
use async_energy_controller.Spool.{column}
use async_energy_controller.Value.{get}
use async_energy_controller.Spool.Order.{IsBindable}
use async_energy_controller.Spool.Order.{IsQueue}
use async_energy_controller.Base.{refl, flatten, List, ◌≡◌, [], ◌∷◌, true, arith, some, All, none}
use async_energy_controller.Reporter.{
  ReportResult, Spool, chunks, Client, api_uplink, items_of, report_run, pos, drain_spool, Value,
}
use async_energy_controller.Reporter.Drain.{IsDrain, drain_spool-IsDrain}
use async_energy_controller.Samples.{run_record, texts, spooled, open_api, no_api, client}
use async_energy_controller.Value.{list, int}
use async_energy_controller.Reporter.Chunks.{Fits, chunks_lem}
use async_energy_controller.Reporter.Report.{Accounted, report_run-Accounted}

run_record-is_plain : is_plain run_record ≡ true
unfolding is_plain
run_record-is_plain = refl

run_record-IsBindable : IsBindable texts run_record
unfolding column get
run_record-IsBindable = (refl, refl)

nil-is_plain : is_plain (list (items_of [])) ≡ true
unfolding is_plain
nil-is_plain = refl

spooled-IsQueue : IsQueue spooled
spooled-IsQueue = record { ascending = omega arith }

abbrev trace : List Value
trace = int (pos 5) ∷ int (pos 6) ∷ int (pos 7) ∷ []

chunks_lem_example : (flatten (chunks trace (pos 2)) ≡ trace) × All (Fits 2) (chunks trace (pos 2))
chunks_lem_example = chunks_lem trace 1

report_run-Accounted_example :
    (r : ReportResult × Client × Spool) × (report_run
        (api_uplink texts no_api)
        (pos 2)
        texts
        "now"
        run_record
        []
        client
        spooled
      ≡ some r)
    × Accounted (api_uplink texts no_api) (pos 2) texts "now" run_record [] client spooled r
report_run-Accounted_example =
    report_run-Accounted (api_uplink texts no_api) (pos 2) texts "now" run_record [] client spooled
      run_record-is_plain nil-is_plain run_record-IsBindable

drain_spool-IsDrain_example :
    IsDrain
      (api_uplink texts open_api)
      (pos 2)
      spooled.rows
      []
      2
      0
      client
      (drain_spool (api_uplink texts open_api) (pos 2) none client spooled)
drain_spool-IsDrain_example =
    drain_spool-IsDrain (api_uplink texts open_api) (pos 2) none client spooled spooled-IsQueue
