-- ===== src/Store/Transaction/Outcomes.antt =====
-- What a transaction leaves behind: the tables of its body on a commit, and the tables that were
-- there before on any error.
use curator_skill_registry.Base.{
  ℕ, ◌≡◌, refl, ap, ◌∙◌, sym, true, false, Option, Outcome, ok, err, ◌>>◌, Bool-cases, inl, inr,
  then-eq-ok,
}
use curator_skill_registry.Json.{Fields}
use curator_skill_registry.Signing.{Env}
use curator_skill_registry.Store.{LogEntry, Database, StoreError, latched, value_error}
use curator_skill_registry.Store.Health.{require_writes_allowed}
use curator_skill_registry.Store.Transaction.{
  Store, Submission, finish, write_transaction, published, append_idempotent, KeyedRequest,
  idempotent_body, valid_request,
}

module _ {Doc A : Type 0} where
  pub finish-eq-ok :
      (s : Store Doc) (now : ℕ) (o : Outcome StoreError (A × Database Doc)) {a : A} {s' : Store Doc}
      → finish s now o ≡ (ok a, s')
      → o ≡ ok (a, s'.db)
  unfolding finish
  finish-eq-ok s now (ok (b, db)) h = cc
  finish-eq-ok s now (err (latched f)) h = cc
  finish-eq-ok s now (err e) h = cc

  pub published-db :
      (entry : A → Option LogEntry) (p : Outcome StoreError A × Store Doc)
      → (published entry p).1.db ≡ p.1.db
  unfolding published
  published-db entry (ok a, s) = refl
  published-db entry (err e, s) = refl

  pub published-outcome :
      (entry : A → Option LogEntry) (p : Outcome StoreError A × Store Doc)
      → (published entry p).0 ≡ p.0
  unfolding published
  published-outcome entry (ok a, s) = refl
  published-outcome entry (err e, s) = refl

  -- A transaction that returns was allowed to write, and its body returned.
  pub write_transaction-eq-ok :
      (s : Store Doc) (now : ℕ) (body : Database Doc → Outcome StoreError (A × Database Doc))
      {a : A} {s' : Store Doc}
      → write_transaction s now body ≡ (ok a, s')
      → (require_writes_allowed s.health now ≡ ok tt) × (body s.db ≡ ok (a, s'.db))
  unfolding write_transaction
  write_transaction-eq-ok s now body h =
      then-eq-ok _ _ (finish-eq-ok s now (require_writes_allowed s.health now >> body s.db) h)

  pub write_transaction-commit :
      (s : Store Doc) (now : ℕ) (body : Database Doc → Outcome StoreError (A × Database Doc))
      {a : A} {db : Database Doc}
      → require_writes_allowed s.health now ≡ ok tt
      → body s.db ≡ ok (a, db)
      → write_transaction s now body ≡ (ok a, record s { db = db })
  unfolding write_transaction finish
  write_transaction-commit s now body h h' = rw (h, h')

module _ {Doc : Type 0} (env : Env Doc) where
  pub append_idempotent-valid :
      (s : Store Doc) (now : ℕ) (body : Fields) (request : KeyedRequest)
      → valid_request request ≡ true
      → append_idempotent env s now body request
        ≡ published (λ r. r.entry) (write_transaction s now (idempotent_body env body request))
  unfolding append_idempotent
  append_idempotent-valid s now body request h = rw h

  pub append_idempotent-invalid :
      (s : Store Doc) (now : ℕ) (body : Fields) (request : KeyedRequest)
      → valid_request request ≡ false
      → append_idempotent env s now body request ≡ (err value_error, s)
  unfolding append_idempotent
  append_idempotent-invalid s now body request h = rw h

  -- A keyed submission that returns: its body returned the tables that stand after it.
  pub append_idempotent-eq-ok :
      (s s' : Store Doc) (now : ℕ) (body : Fields) (request : KeyedRequest) {sub : Submission}
      → append_idempotent env s now body request ≡ (ok sub, s')
      → idempotent_body env body request s.db ≡ ok (sub, s'.db)
  append_idempotent-eq-ok s s' now body request {sub} h =
      elim (Bool-cases (valid_request request)) [
        | inl good ↦
            let run = sym (append_idempotent-valid s now body request good) ∙ h in
            let result = sym (published-outcome (λ r. r.entry) _) ∙ ap (λ p. p.0) run in
            let tables = sym (published-db (λ r. r.entry) _) ∙ ap (λ p. p.1.db) run in
            rw (← tables)
              (write_transaction-eq-ok s now (idempotent_body env body request) (
                ap (λ o. (o, (write_transaction s now (idempotent_body env body request)).1))
                  result)).1
        | inr bad ↦ let refused = sym (append_idempotent-invalid s now body request bad) ∙ h in cc
      ]
