-- ===== src/Store/History/Latch.antt =====
-- The integrity latch: once a failure is latched, no call ever writes again.
use curator_skill_registry.Base.{
  ℕ, ◌≡◌, refl, ap, ◌∙◌, true, Option, some, Outcome, err, Bool-cases, inl, inr,
}
use curator_skill_registry.Json.{Fields}
use curator_skill_registry.Signing.{Env}
use curator_skill_registry.Store.{
  LogEntry, Failure, Database, StoreError, integrity, verification_failed,
}
use curator_skill_registry.Store.Health.{
  Health, HealthCode, require_writes_allowed, latch, refuse_startup_checkpoint,
}
use curator_skill_registry.Store.Transaction.{
  Store, finish, write_transaction, published, KeyedRequest, append, append_idempotent,
  valid_request,
}
use curator_skill_registry.Store.Transaction.Outcomes.{
  append_idempotent-valid, append_idempotent-invalid,
}
use curator_skill_registry.Store.Verify.Refresh.Verdict.{publish_refresh-latched}
use curator_skill_registry.Store.Imports.{append_imports, append_upstream_import}
use curator_skill_registry.Store.History.{
  Step, append_step, idempotent_step, imports_step, upstream_step, checkpoint_step, refresh_step,
  Reachable, here, step,
}

module _ {Doc A : Type 0} where
  -- Under the latch a transaction is refused before its body.
  pub write_transaction-latched :
      (s : Store Doc) (now : ℕ) (body : Database Doc → Outcome StoreError (A × Database Doc))
      → s.health.integrity_failed ≡ true
      → write_transaction s now body ≡ (err (integrity verification_failed), s)
  unfolding write_transaction require_writes_allowed finish
  write_transaction-latched s now body h = rw h

  published-latched :
      (entry : A → Option LogEntry) (s : Store Doc) (now : ℕ)
      (body : Database Doc → Outcome StoreError (A × Database Doc))
      → s.health.integrity_failed ≡ true
      → (published entry (write_transaction s now body)).1 ≡ s
  unfolding published
  published-latched entry s now body h = rw (write_transaction-latched s now body h)

refuse_startup_checkpoint-latched :
    (h : Health) (now : ℕ) (diagnostic : HealthCode) (detail : Failure)
    → h.integrity_failed ≡ true
    → refuse_startup_checkpoint h now diagnostic detail ≡ h
unfolding refuse_startup_checkpoint latch
refuse_startup_checkpoint-latched h now diagnostic detail l = rw l

module _ {Doc : Type 0} (env : Env Doc) where
  append_idempotent-latched :
      (s : Store Doc) (now : ℕ) (body : Fields) (request : KeyedRequest)
      → s.health.integrity_failed ≡ true
      → (append_idempotent env s now body request).1 ≡ s
  append_idempotent-latched s now body request h = elim (Bool-cases (valid_request request)) [
    | inl e ↦
        rw (append_idempotent-valid env s now body request e)
          (published-latched (λ r. r.entry) s now _ h)
    | inr e ↦ rw (append_idempotent-invalid env s now body request e)
  ]

  Step-latched : {s s' : Store Doc} → Step env s s' → s.health.integrity_failed ≡ true → s' ≡ s
  unfolding append append_imports append_upstream_import
  Step-latched {s} (append_step now body created_at) h = published-latched some s now _ h
  Step-latched {s} (idempotent_step now body request) h =
      append_idempotent-latched s now body request h
  Step-latched {s} (imports_step now records created_at mark) h =
      published-latched (λ b. b.last_entry) s now _ h
  Step-latched {s} (upstream_step now records created_at offered older) h =
      published-latched (λ r. r.batch.last_entry) s now _ h
  Step-latched {s} (checkpoint_step now diagnostic detail) h =
      ap (λ k. record s { health = k })
        (refuse_startup_checkpoint-latched s.health now diagnostic detail h)
  Step-latched {s} (refresh_step now utc_now walk) h =
      ap (λ p. p.1) (publish_refresh-latched s now utc_now walk h)

  -- Once a store has latched an integrity failure, no history of calls changes it: neither a
  -- table nor the health fields, whose first error stays.
  pub Reachable-latched :
      {s s' : Store Doc} → Reachable env s s' → s.health.integrity_failed ≡ true → s' ≡ s
  Reachable-latched here h = refl
  Reachable-latched (step r q) h =
      let before = Reachable-latched r h in Step-latched q (rw before h) ∙ before
