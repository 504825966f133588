-- ===== src/Tests/Stores.antt =====
-- The theorems on the store at the sample calls.
use curator_skill_registry.Base.{
  ◌+◌, ◌≡◌, ◌++◌, ◌∷◌, [], refl, codes, ok, err, none, some, true, text_eq_refl, length, arith,
}
use curator_skill_registry.Json.{end, Value}
use curator_skill_registry.Store.Append.{append_locked, head_hash, validate_append_anchors}
use curator_skill_registry.Store.Boundary.{
  head_seq, snapshot_boundary, boundary_available, page_boundary,
}
use curator_skill_registry.Store.{LogEntry, LogRow, Database, idempotency_conflict}
use curator_skill_registry.Store.Transaction.{append, append_idempotent, purge}
use curator_skill_registry.Store.Imports.{import_records, no_batch}
use curator_skill_registry.Store.Transaction.Retry.{
  append_idempotent-replays, append_idempotent-conflicts,
}
use curator_skill_registry.Store.Invariant.{IsConsistent}
use curator_skill_registry.Store.Invariant.Anchors.{validate_append_anchors-IsConsistent}
use curator_skill_registry.Store.Invariant.Preserved.{append_locked-IsConsistent, next_row}
use curator_skill_registry.Store.Invariant.Snapshots.{prefix_boundary, snapshot_boundary-prefix}
use curator_skill_registry.Store.Imports.Records.{import_records-again}
use curator_skill_registry.Store.History.{here, step, append_step}
use curator_skill_registry.Store.History.Consistency.{
  Reachable-IsConsistent, Reachable-boundary_available,
}
use curator_skill_registry.Store.History.Growth.{Grows, Reachable-Grows}
use curator_skill_registry.Store.History.Latch.{Reachable-latched}
use curator_skill_registry.Tests.Sample.{env, fresh, skill, time, request}
use curator_skill_registry.Tests.Runs.{
  alpha, one, two, submitted, answer, answer_entry, again, other, refused, imports, imported,
  alpha_columns, alpha_bytes, runs, one_row, two_steps, fresh-IsConsistent, one-IsConsistent,
}

append_locked-IsConsistent_example :
    (entry : LogEntry) × (db' : Database Value) × (append_locked env fresh.db alpha time
      ≡ ok (entry, db'))
    × IsConsistent env db'
    × (db'.log
        ≡ fresh.db.log
          ++ next_row env fresh.db fresh-IsConsistent alpha alpha_bytes alpha_columns time
              runs.named runs.canonical
            ∷ [])
    × (entry.seq ≡ length fresh.db.log + 1)
    × (entry.entry_hash
        ≡ (next_row env fresh.db fresh-IsConsistent alpha alpha_bytes alpha_columns time runs.named
            runs.canonical).entry_hash)
append_locked-IsConsistent_example =
    append_locked-IsConsistent env fresh.db fresh-IsConsistent alpha alpha_bytes alpha_columns time
      runs.named runs.canonical runs.version (omega (arith, runs.empty_log))

Reachable-IsConsistent_example : IsConsistent env two.db
Reachable-IsConsistent_example =
    Reachable-IsConsistent env two_steps fresh-IsConsistent (omega (arith, runs.two_entries))

append_idempotent-replays_example : append_idempotent env submitted.1 20 end again ≡ (
  ok (record { response = answer.response; entry = none }),
  record submitted.1 {
    db = record submitted.1.db { idempotency = purge again.unix_now submitted.1.db.idempotency };
  },
)
append_idempotent-replays_example =
    append_idempotent-replays env fresh submitted.1 10 20 alpha end request again answer
      answer_entry runs.answered runs.fresh_answer runs.valid_again refl refl (omega arith)
      runs.writable refl

append_idempotent-conflicts_example :
    append_idempotent env submitted.1 20 alpha other ≡ (err idempotency_conflict, submitted.1)
append_idempotent-conflicts_example =
    append_idempotent-conflicts env fresh submitted.1 10 20 alpha alpha request other answer
      answer_entry runs.answered runs.fresh_answer runs.valid_other refl refl (omega arith)
      runs.writable (λ e. ground (arith, runs.different, text_eq_refl request.body_sha256))

snapshot_boundary-prefix_example :
    snapshot_boundary one.db (some (length {A = LogRow Value} [] + 1))
    ≡ ok (prefix_boundary env [] one_row.0)
snapshot_boundary-prefix_example =
    snapshot_boundary-prefix env one.db [] one_row.0 [] one-IsConsistent one_row.1

Reachable-boundary_available_example :
    (boundary_available two.db (prefix_boundary env [] one_row.0) ≡ true)
    × (page_boundary two.db (some (prefix_boundary env [] one_row.0)) none
        ≡ ok (prefix_boundary env [] one_row.0))
Reachable-boundary_available_example =
    Reachable-boundary_available env 1 (prefix_boundary env [] one_row.0)
      (step here (append_step 20 (skill (codes "b")) time)) one-IsConsistent
      (omega (arith, runs.two_entries))
      (snapshot_boundary-prefix env one.db [] one_row.0 [] one-IsConsistent one_row.1)

Reachable-Grows_example : Grows fresh.db two.db
Reachable-Grows_example = Reachable-Grows env two_steps

Reachable-latched_example : (append env refused 30 alpha time).1 ≡ refused
Reachable-latched_example =
    Reachable-latched env (step here (append_step 30 alpha time)) runs.latched

import_records-again_example :
    import_records env imported.1 no_batch (codes "later") imports ≡ ok (no_batch, imported.1)
import_records-again_example =
    import_records-again env fresh.db imported.1 imported.0 time (codes "later") imports runs.batch

validate_append_anchors-IsConsistent_example :
    validate_append_anchors env one.db
      (head_seq one.db.log)
      (head_hash one.db.log)
      one-IsConsistent.frontier
    ≡ ok tt
validate_append_anchors-IsConsistent_example =
    validate_append_anchors-IsConsistent env one.db one-IsConsistent
