-- ===== src/Store/Health.antt =====
-- The cached integrity verdict of the store: `health_verdict`, the latch of
-- `_latch_integrity_failure_locked`, the write guard `_require_writes_allowed`, and the publication
-- after a commit. Instants of the monotonic clock are natural numbers of ticks.
use curator_skill_registry.Base.{
  ℕ, ◌-◌, ◌*◌, Bool, true, false, List, [], ◌∷◌, Option, none, some, Text, ltb, ◌||◌, not,
  if◌then◌else◌, Outcome, ◌>>◌, ensure,
}
use curator_skill_registry.Store.{
  Failure, StoreError, integrity, verification_failed, verification_stale, LogEntry,
}

-- The error code of a health answer that is not ready.
pub data HealthCode : Type 0 where
  not_ready restore_below_checkpoint restore_inconsistent_with_checkpoint : HealthCode
  checkpoint_signature_invalid : HealthCode

-- The fields `_health_*`, `_integrity_failed` and `_health_verify_interval` of `Store`.
pub record Health : Type 0 where
  pub ready : Bool
  pub verified_head : Text
  pub verified_log_size : ℕ
  pub verified_at : Text
  pub error : Option (List Failure)
  pub code : HealthCode
  pub last_refresh : ℕ
  pub integrity_failed : Bool
  pub verify_interval : ℕ

pub record HealthVerdict : Type 0 where
  pub ready : Bool
  pub verified_head : Text
  pub verified_log_size : ℕ
  pub verified_at : Text
  pub error : Option (List Failure)
  pub code : HealthCode

-- `_health_stale_locked(now)`
unfoldable pub is_stale : Health → ℕ → Bool
is_stale h now = ltb (h.verify_interval * 2) (now - h.last_refresh)

-- `health_verdict()`
unfoldable pub health_verdict : Health → ℕ → HealthVerdict
health_verdict h now =
    let verdict = λ (ready : Bool) (error : Option (List Failure)) (code : HealthCode).
      let v : HealthVerdict = record {
        ready = ready;
        verified_head = h.verified_head;
        verified_log_size = h.verified_log_size;
        verified_at = h.verified_at;
        error = error;
        code = code;
      } in
      v in
    if not h.ready
    then verdict false h.error h.code
    else (if is_stale h now
        then verdict false (some (verification_stale ∷ [])) not_ready
        else verdict true none not_ready)

-- `_require_writes_allowed()`
unfoldable pub require_writes_allowed : Health → ℕ → Outcome StoreError (Unit {0})
unfolding is_stale
require_writes_allowed h now =
    ensure (not (h.integrity_failed || not h.ready)) (integrity verification_failed)
    >> ensure (not (is_stale h now)) (integrity verification_stale)

-- `_latch_integrity_failure_locked(error)`: the first error wins.
unfoldable pub latch : Health → ℕ → Failure → Health
latch h now failure = if h.integrity_failed then h else record h {
  integrity_failed = true;
  ready = false;
  error = some (failure ∷ []);
  last_refresh = now;
}

-- the assignments after COMMIT: the verdict moves to the last durable entry
unfoldable pub publish : Health → Option LogEntry → Health
publish h none = h
publish h (some entry) = record h {
  verified_head = entry.entry_hash;
  verified_log_size = entry.seq;
}

-- `refuse_startup_checkpoint(diagnostic, detail)`, at one of the closed diagnostics
unfoldable pub refuse_startup_checkpoint : Health → ℕ → HealthCode → Failure → Health
unfolding latch
refuse_startup_checkpoint h now diagnostic detail =
    latch (if h.integrity_failed then h else record h { code = diagnostic }) now detail
