-- ===== src/Tests/Reads.antt =====
-- Pages of the log, and its boundaries recomputed, on concrete inputs.
use curator_skill_registry.Base.{map, ◌≡◌, ◌+◌, List, [], some, none, ok, arith, codes, ltb}
use curator_skill_registry.Store.{LogEntry}
use curator_skill_registry.Store.History.{step, here, append_step}
use curator_skill_registry.Store.Invariant.Snapshots.{prefix_boundary, snapshot_boundary-prefix}
use curator_skill_registry.Store.Pages.{log_page}
use curator_skill_registry.Store.Pages.Stable.{log_page-Reachable}
use curator_skill_registry.Store.Pages.Total.{log_page-total}
use curator_skill_registry.Store.Verify.{recompute_prefix}
use curator_skill_registry.Store.Verify.Rebuild.{
  leaf_pair, expected_of, recompute_prefix-IsConsistent,
}
use curator_skill_registry.Tests.Sample.{env, skill, time}
use curator_skill_registry.Tests.Runs.{one, two, runs, one_row, one-IsConsistent}

log_page-Reachable_example :
    log_page env two.db 0 10 0 none (some (prefix_boundary env [] one_row.0))
    ≡ log_page env one.db 0 10 0 none (some (prefix_boundary env [] one_row.0))
log_page-Reachable_example =
    log_page-Reachable env 0 10 0 1 (prefix_boundary env [] one_row.0)
      (step here (append_step 20 (skill (codes "b")) time)) one-IsConsistent
      (omega (arith, runs.two_entries))
      (snapshot_boundary-prefix env one.db [] one_row.0 [] one-IsConsistent one_row.1)

log_page-total_example :
    (entries : List LogEntry) × (log_page env one.db 0 10 0 none
        (some (prefix_boundary env [] one_row.0))
      ≡ ok (entries, ltb (0 + 0 + 10) 1))
log_page-total_example =
    log_page-total env one.db 0 10 0 1 (prefix_boundary env [] one_row.0) one-IsConsistent
      (snapshot_boundary-prefix env one.db [] one_row.0 [] one-IsConsistent one_row.1) (omega arith)

recompute_prefix-IsConsistent_example :
    recompute_prefix env.sha256 (map leaf_pair one.db.log)
    ≡ ok (map expected_of one.db.boundaries, one-IsConsistent.frontier)
recompute_prefix-IsConsistent_example =
    recompute_prefix-IsConsistent env one.db one-IsConsistent (omega (arith, runs.one_entry))
