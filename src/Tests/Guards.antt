-- ===== src/Tests/Guards.antt =====
-- The startup checkpoint and the rate limiter on concrete inputs.
use curator_skill_registry.Base.{
  ◌≡◌, ◌∙◌, ap, refl, [], ◌∷◌, none, some, ok, true, false, codes, arith, text_eq,
}
use curator_skill_registry.Store.Boundary.{snapshot_boundary}
use curator_skill_registry.Store.Health.{restore_below_checkpoint}
use curator_skill_registry.Store.History.{here, step, append_step}
use curator_skill_registry.Store.Invariant.Snapshots.{
  prefix_boundary, snapshot_boundary-live, snapshot_boundary-prefix,
}
use curator_skill_registry.Checkpoint.{apply_startup_checkpoint}
use curator_skill_registry.Checkpoint.Comparison.{
  view_of, apply_startup_checkpoint-Reachable, apply_startup_checkpoint-below,
}
use curator_skill_registry.Limits.{expired, remaining, FixedWindowLimiter, allow, current, find}
use curator_skill_registry.Limits.Windows.{IsWithin, allow-IsWithin}
use curator_skill_registry.Limits.Retry.{allow-retried}
use curator_skill_registry.Tests.Sample.{env, fresh, skill, time}
use curator_skill_registry.Tests.Runs.{
  one, two, runs, one_row, one-IsConsistent, fresh-IsConsistent,
}

one_live : snapshot_boundary one.db none ≡ ok (prefix_boundary env [] one_row.0)
one_live =
    let served = snapshot_boundary-prefix env one.db [] one_row.0 [] one-IsConsistent one_row.1 in
    snapshot_boundary-live env one.db one-IsConsistent
    ∙ ap (λ n. snapshot_boundary one.db (some n)) runs.one_entry
    ∙ served

apply_startup_checkpoint-Reachable_example :
    apply_startup_checkpoint two 7 (view_of (prefix_boundary env [] one_row.0)) ≡ (ok none, two)
apply_startup_checkpoint-Reachable_example =
    apply_startup_checkpoint-Reachable env 7 (prefix_boundary env [] one_row.0)
      (step here (append_step 20 (skill (codes "b")) time)) one-IsConsistent
      (omega (arith, runs.two_entries)) one_live

apply_startup_checkpoint-below_example :
    ((apply_startup_checkpoint fresh 7 (view_of (prefix_boundary env [] one_row.0))).0
      ≡ ok (some restore_below_checkpoint))
    × ((apply_startup_checkpoint fresh 7 (view_of (prefix_boundary env [] one_row.0))).1.db
        ≡ fresh.db)
    × ((apply_startup_checkpoint fresh 7
          (view_of (prefix_boundary env [] one_row.0))).1.health.integrity_failed
        ≡ true)
apply_startup_checkpoint-below_example =
    apply_startup_checkpoint-below env fresh 7 (view_of (prefix_boundary env [] one_row.0))
      fresh-IsConsistent (omega (arith, runs.empty_log))

abbrev limiter : FixedWindowLimiter
limiter = record {
  requests = 1;
  window_seconds = 60;
  max_keys = 2;
  entries =
      record { key = codes "a"; start = 0; count = 1; used = 0 }
      ∷ record { key = codes "b"; start = 0; count = 1; used = 1 }
      ∷ [];
}

limiter-IsWithin : IsWithin limiter
limiter-IsWithin = record { keys = omega arith; counts = (omega arith, (omega arith, tt)) }

allow-IsWithin_example : IsWithin (allow limiter (codes "c") 5).1
allow-IsWithin_example = allow-IsWithin limiter (codes "c") 5 (omega arith) limiter-IsWithin

refused : (allow limiter (codes "a") 5).0.allowed ≡ false
unfolding allow current find text_eq expired
refused = refl

told : (allow limiter (codes "a") 5).0.retry_after ≡ 60
unfolding allow current find text_eq expired remaining
told = refl

allow-retried_example :
    (allow (allow limiter (codes "a") 5).1 (codes "a") 60000000005).0.allowed ≡ true
allow-retried_example =
    allow-retried limiter (codes "a") 5 60000000005 (omega arith) refused (omega (arith, told))
