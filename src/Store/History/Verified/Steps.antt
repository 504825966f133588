-- ===== src/Store/History/Verified/Steps.antt =====
-- Tables that pass the whole verification, through histories of calls with well-formed input; the
-- background pass behind such a history leaves the store ready.
use curator_skill_registry.Base.{
  ℕ, ◌-◌, ◌*◌, ◌^◌, ◌≤◌, ◌≡◌, ap, ◌∙◌, Bool, true, false, Option, none, some, Text, [], ok,
  Ensures-bind, Ensures-then, Ensures-ok, Bool-cases, inl, inr, length,
}
use curator_skill_registry.Json.{Fields}
use curator_skill_registry.Signing.{Env}
use curator_skill_registry.Store.{Database, UpstreamHighWater, genesis}
use curator_skill_registry.Store.Health.{HealthVerdict}
use curator_skill_registry.Store.Invariant.Rows.{chain_end}
use curator_skill_registry.Bundle.Boundary.{live_boundary-log}
use curator_skill_registry.Store.Transaction.{
  Store, KeyedRequest, append, valid_request, append_idempotent, idempotent_body,
}
use curator_skill_registry.Store.Transaction.Outcomes.{
  append_idempotent-valid, append_idempotent-invalid,
}
use curator_skill_registry.Store.Append.{append_locked}
use curator_skill_registry.Store.Imports.{
  append_imports, append_upstream_import, imports_body, upstream_body, import_records,
  import_decision, no_batch, settle_mark, require_mark, high_water,
}
use curator_skill_registry.Store.History.{
  Step, append_step, idempotent_step, imports_step, upstream_step, checkpoint_step, refresh_step,
  Reachable, here, step,
}
use curator_skill_registry.Store.History.Growth.{transaction-relates}
use curator_skill_registry.Store.History.Consistency.{Reachable-IsConsistent}
use curator_skill_registry.Store.Verify.Walk.{timestamp}
use curator_skill_registry.Store.Verify.Ledgers.{mark_holds}
use curator_skill_registry.Store.Verify.Refresh.{
  ready_verdict, Checks, verification, refresh_health_verdict,
}
use curator_skill_registry.Store.Verify.Refresh.Verdict.{
  publish_refresh-db, publish_refresh-IsReady, IsReady,
}
use curator_skill_registry.Store.Verify.Verified.{IsVerified, Sound, verification-IsVerified}
use curator_skill_registry.Store.History.Verified.{
  Holds, Fingerprinted, append_locked-Holds, idempotent_body-Holds, import_records-Holds,
  settle-Holds,
}

module _ {Doc : Type 0} (env : Env Doc) (reformat : Text → Option Text)
    (float_eq : Text → ℕ → Bool) where
  abbrev pub MarkHolds : Option UpstreamHighWater → Type 0
  MarkHolds none = Unit
  MarkHolds (some offered) = mark_holds reformat offered ≡ true

  -- A call with a well-formed time, true fingerprints and a well-formed mark.
  abbrev pub IsWellFormed : {s s' : Store Doc} → Step env s s' → Type 0
  IsWellFormed (append_step now body created_at) = timestamp reformat created_at ≡ true
  IsWellFormed (idempotent_step now body request) = timestamp reformat request.created_at ≡ true
  IsWellFormed (imports_step now records created_at mark) =
      (timestamp reformat created_at ≡ true)
      × Fingerprinted env reformat float_eq records
      × MarkHolds mark
  IsWellFormed (upstream_step now records created_at offered older) =
      (timestamp reformat created_at ≡ true)
      × Fingerprinted env reformat float_eq records
      × MarkHolds (some offered)
  IsWellFormed (checkpoint_step now diagnostic detail) = Unit
  IsWellFormed (refresh_step now utc_now walk) = Unit

  abbrev pub AllWellFormed : {s s' : Store Doc} → Reachable env s s' → Type 0
  AllWellFormed here = Unit
  AllWellFormed (step r q) = AllWellFormed r × IsWellFormed q

  abbrev Fine : Database Doc → Type 0
  Fine = Holds env reformat float_eq

  append_idempotent-Holds :
      (s : Store Doc) (now : ℕ) (body : Fields) (request : KeyedRequest)
      → timestamp reformat request.created_at ≡ true
      → Fine s.db
      → Fine (append_idempotent env s now body request).1.db
  append_idempotent-Holds s now body request t v = elim (Bool-cases (valid_request request)) [
    | inl e ↦ rw (append_idempotent-valid env s now body request e) (
        transaction-relates Fine (λ r. r.entry) s now (idempotent_body env body request) v
          (idempotent_body-Holds env reformat float_eq s.db body request t e v))
    | inr e ↦ rw (append_idempotent-invalid env s now body request e) v
  ]

  settle_mark-Holds :
      (db : Database Doc) (mark : Option UpstreamHighWater)
      → MarkHolds mark
      → Fine db
      → Fine (settle_mark mark db)
  unfolding settle_mark
  settle_mark-Holds db none m v = v
  settle_mark-Holds db (some offered) m v = settle-Holds env reformat float_eq db offered _ m v

  Step-Holds : {s s' : Store Doc} (q : Step env s s') → IsWellFormed q → Fine s.db → Fine s'.db
  unfolding append append_imports append_upstream_import imports_body upstream_body
  Step-Holds {s} (append_step now body created_at) t v =
      transaction-relates Fine some s now (λ db. append_locked env db body created_at) v
        (append_locked-Holds env reformat float_eq s.db body created_at t v)
  Step-Holds {s} (idempotent_step now body request) t v =
      append_idempotent-Holds s now body request t v
  Step-Holds {s} (imports_step now records created_at mark) (t, known, m) v =
      transaction-relates Fine (λ b. b.last_entry) s now (imports_body env records created_at mark)
        v
        (Ensures-then (require_mark mark s.db) _ (λ _.
          Ensures-bind (import_records env s.db no_batch created_at records) _
            (λ (batch, grown) run. Ensures-ok _ (
              settle_mark-Holds grown mark m (
                (import_records-Holds env reformat float_eq s.db no_batch created_at records t known
                    v).at
                  _ run)))))
  Step-Holds {s} (upstream_step now records created_at offered older) (t, known, m) v =
      transaction-relates Fine (λ r. r.batch.last_entry) s now
        (upstream_body env records created_at offered older) v
        (Ensures-bind
          (import_decision (high_water offered.key_id s.db.upstream_high_water) offered older) _
          (λ outcome _.
            Ensures-bind (import_records env s.db no_batch created_at records) _
              (λ (batch, grown) run. Ensures-ok _ (
                settle-Holds env reformat float_eq grown offered outcome m (
                  (import_records-Holds env reformat float_eq s.db no_batch created_at records t
                      known v).at
                    _ run)))))
  Step-Holds {s} (checkpoint_step now diagnostic detail) t v = v
  Step-Holds {s} (refresh_step now utc_now walk) t v = rw (publish_refresh-db s now utc_now walk) v

  Reachable-Holds :
      {s s' : Store Doc} (r : Reachable env s s') → AllWellFormed r → Fine s.db → Fine s'.db
  Reachable-Holds here w v = v
  Reachable-Holds (step r q) w v = Step-Holds q w.1 (Reachable-Holds r w.0 v)

  -- Tables that are consistent and whose ledgers fit the log stay so through every history of
  -- calls with well-formed times, batches whose fingerprints are those of their records and
  -- well-formed high-water marks, as long as the log ends with at most 2^64 entries; while SQLite
  -- reports nothing, the whole verification then finds nothing.
  pub Reachable-IsVerified :
      {s s' : Store Doc} (checks : Checks) (r : Reachable env s s')
      → Sound checks
      → AllWellFormed r
      → IsVerified env reformat float_eq s.db
      → length s'.db.log ≤ 2 ^ 64
      → IsVerified env reformat float_eq s'.db
        × (verification env reformat float_eq checks s'.db ≡ ok [])
  Reachable-IsVerified {s} {s'} checks r sound w v h =
      let v' : IsVerified env reformat float_eq s'.db = record {
        consistent = Reachable-IsConsistent env r v.consistent h;
        ledgers = Reachable-Holds r w v.ledgers;
      } in
      (v', verification-IsVerified env reformat float_eq checks s'.db sound v' h)

  -- A verdict of ready at the last entry of the log, in the answer and in the fields of the store,
  -- which then reports ready and allows writes at the tick `later`.
  pub record Publishes (db : Database Doc) (utc_now : Text) (later : ℕ)
      (p : HealthVerdict × Store Doc) : Type 0 where
    pub ready : p.0.ready ≡ true
    pub error : p.0.error ≡ none
    pub verified_at : p.0.verified_at ≡ utc_now
    pub verified_head : p.0.verified_head ≡ chain_end env genesis db.log
    pub verified_log_size : p.0.verified_log_size ≡ length db.log
    pub stored_head : p.1.health.verified_head ≡ chain_end env genesis db.log
    pub stored_log_size : p.1.health.verified_log_size ≡ length db.log
    pub stays : IsReady p.1.health later

  -- Take any history of calls with well-formed times, batches whose fingerprints are those of
  -- their records and well-formed high-water marks, from tables that pass the verification, to a
  -- store that is not latched and has at most 2^64 log entries, while SQLite reports nothing.
  -- Then a refresh there answers ready, without an error, with the given time, the hash at the
  -- end of the log and the length of the log; the store keeps that hash and length as verified;
  -- and up to two verify intervals after it the store reports ready without an error and allows
  -- writes.
  pub Reachable-ready :
      {s s' : Store Doc} (checks : Checks) (r : Reachable env s s') (now later : ℕ) (utc_now : Text)
      → Sound checks
      → AllWellFormed r
      → IsVerified env reformat float_eq s.db
      → length s'.db.log ≤ 2 ^ 64
      → s'.health.integrity_failed ≡ false
      → later - now ≤ s'.health.verify_interval * 2
      → Publishes s'.db utc_now later
          (refresh_health_verdict env reformat float_eq checks s' now utc_now)
  unfolding refresh_health_verdict ready_verdict
  Reachable-ready {s} {s'} checks r now later utc_now sound w v h l fresh =
      let (v', clean) = Reachable-IsVerified checks r sound w v h in
      let (b, d) = live_boundary-log env s'.db v'.consistent in
      let (answer, head, size, ready) =
        publish_refresh-IsReady s' now utc_now _ later l clean d.live fresh in
      simp l (record {
        ready = ap (λ a. a.ready) answer;
        error = ap (λ a. a.error) answer;
        verified_at = ap (λ a. a.verified_at) answer;
        verified_head = ap (λ a. a.verified_head) answer ∙ d.head;
        verified_log_size = ap (λ a. a.verified_log_size) answer ∙ d.log_size;
        stored_head = head ∙ d.head;
        stored_log_size = size ∙ d.log_size;
        stays = ready;
      })
