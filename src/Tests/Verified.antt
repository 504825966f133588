-- ===== src/Tests/Verified.antt =====
-- The verification at the sample calls.
use curator_skill_registry.Base.{
  ◌≡◌, ◌↔◌, refl, [], ◌∷◌, Option, some, Text, codes, ok, err, true, false, text_eq_refl, All,
  arith,
}
use curator_skill_registry.Store.{genesis, wrong_time, verification_failed, integrity}
use curator_skill_registry.Store.Health.{require_writes_allowed}
use curator_skill_registry.Store.Invariant.{Numbered, Chain}
use curator_skill_registry.Store.History.{Reachable, here, step, idempotent_step, append_step}
use curator_skill_registry.Store.History.Verified.Steps.{
  AllWellFormed, Reachable-IsVerified, Reachable-ready, Publishes,
}
use curator_skill_registry.Store.Verify.Walk.{timestamp, walk_log}
use curator_skill_registry.Store.Verify.Walk.Sound.{walk_log_iff}
use curator_skill_registry.Store.Verify.Refresh.{
  Checks, verification, found, publish_refresh, refresh_health_verdict,
}
use curator_skill_registry.Store.Verify.Refresh.Verdict.{publish_refresh-found}
use curator_skill_registry.Store.Verify.Verified.{IsVerified, Sound, fresh_database-IsVerified}
use curator_skill_registry.Tests.Sample.{env, fresh, skill, time, request}
use curator_skill_registry.Tests.Runs.{alpha, one, mixed, runs}

-- Every text stands for a time that prints as itself, and no float is a whole number.
abbrev reformat : Text → Option Text
reformat = some

abbrev checks : Checks
checks = record {
  integrity_check = codes "ok" ∷ [];
  foreign_keys = [];
  schema_version = some (codes "4");
}

checks-Sound : Sound checks
checks-Sound = record { integrity_check = refl; foreign_keys = refl; schema_version = refl }

timely : (t : Text) → timestamp reformat t ≡ true
unfolding timestamp
timely t = text_eq_refl t

fresh-IsVerified : IsVerified env reformat (λ t n. false) fresh.db
fresh-IsVerified = fresh_database-IsVerified env reformat (λ t n. false) time (timely time)

abbrev calls : Reachable env fresh mixed
calls =
    step (step here (idempotent_step 10 alpha request)) (append_step 20 (skill (codes "b")) time)

calls-AllWellFormed : AllWellFormed env reformat (λ t n. false) calls
calls-AllWellFormed = ((tt, timely request.created_at), timely time)

walk_log_iff_example : (walk_log env reformat genesis 1 one.db.log ≡ ok []) ↔ (
    Numbered 1 one.db.log
    × Chain env genesis one.db.log
    × All (λ r. timestamp reformat r.created_at ≡ true) one.db.log)
walk_log_iff_example = walk_log_iff env reformat one.db.log

Reachable-IsVerified_example :
    IsVerified env reformat (λ t n. false) mixed.db
    × (verification env reformat (λ t n. false) checks mixed.db ≡ ok [])
Reachable-IsVerified_example =
    Reachable-IsVerified env reformat (λ t n. false) checks calls checks-Sound calls-AllWellFormed
      fresh-IsVerified (omega (arith, runs.mixed_entries))

Reachable-ready_example :
    Publishes env reformat
      (λ t n. false)
      mixed.db
      time
      700
      (refresh_health_verdict env reformat (λ t n. false) checks mixed 100 time)
Reachable-ready_example =
    Reachable-ready env reformat (λ t n. false) checks calls 100 700 time checks-Sound
      calls-AllWellFormed fresh-IsVerified (omega (arith, runs.mixed_entries)) runs.mixed_health
      (omega (arith, runs.mixed_interval))

publish_refresh-found_example :
    ((publish_refresh fresh 100 time (ok (wrong_time ∷ []))).0.ready ≡ false)
    × ((publish_refresh fresh 100 time (ok (wrong_time ∷ []))).1.health.integrity_failed ≡ true)
    × (require_writes_allowed (publish_refresh fresh 100 time (ok (wrong_time ∷ []))).1.health 101
        ≡ err (integrity verification_failed))
    × ((publish_refresh fresh 100 time (ok (wrong_time ∷ []))).1.db ≡ fresh.db)
unfolding found
publish_refresh-found_example = publish_refresh-found fresh 100 time (ok (wrong_time ∷ [])) 101 refl
