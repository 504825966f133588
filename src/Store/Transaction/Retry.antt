-- ===== src/Store/Transaction/Retry.antt =====
-- A retry under the same idempotency key: the stored answer comes back while the key lives, and
-- another body under it is refused.
use curator_skill_registry.Base.{
  ℕ, ◌+◌, ◌<◌, ◌≡◌, refl, ap, ◌∙◌, sym, true, none, some, ok, err, List, [], ◌∷◌, ◌++◌, Text,
  text_eq_refl, eq_of_text_eq, Option-cases, inl, inr, ◌≢◌, arith, Ensures, Ensures-bind,
  Ensures-ok,
}
use curator_skill_registry.Json.{Fields, obj}
use curator_skill_registry.Signing.{Env}
use curator_skill_registry.Store.{LogEntry, Database, IdempotencyRow, idempotency_conflict}
use curator_skill_registry.Store.Health.{require_writes_allowed, publish}
use curator_skill_registry.Store.Append.{append_locked}
use curator_skill_registry.Store.Transaction.{
  Store, Submission, finish, write_transaction, published, append_idempotent, KeyedRequest,
  idempotent_body, valid_request, purge, find_key, replay, append_keyed, response_of,
}
use curator_skill_registry.Store.Invariant.Tables.{append_locked-Appends}
use curator_skill_registry.Store.Transaction.Outcomes.{
  append_idempotent-valid, append_idempotent-eq-ok, write_transaction-commit,
}

module _ {Doc : Type 0} where
  find_key-append :
      (auditor key : Text) (rs : List (IdempotencyRow Doc)) (row : IdempotencyRow Doc)
      → find_key auditor key rs ≡ none
      → row.auditor_id ≡ auditor
      → row.key ≡ key
      → find_key auditor key (rs ++ row ∷ []) ≡ some row
  unfolding find_key
  find_key-append auditor key [] row h e e' = rw (e, e', text_eq_refl auditor, text_eq_refl key)
  find_key-append auditor key (r ∷ rs) row h e e' =
      ground (arith, find_key-append auditor key rs row)

  purge-append :
      (now : ℕ) (rs : List (IdempotencyRow Doc)) (row : IdempotencyRow Doc)
      → now < row.expires_at
      → purge now (rs ++ row ∷ []) ≡ purge now rs ++ row ∷ []
  unfolding purge
  purge-append now [] row h = ground arith
  purge-append now (r ∷ rs) row h = ground (arith, purge-append now rs row)

  -- What a purge drops is not found again.
  find_key-purge :
      (now : ℕ) (auditor key : Text) (rs : List (IdempotencyRow Doc))
      → find_key auditor key rs ≡ none
      → find_key auditor key (purge now rs) ≡ none
  unfolding find_key purge
  find_key-purge now auditor key [] h = refl
  find_key-purge now auditor key (r ∷ rs) h = ground (arith, find_key-purge now auditor key rs)

-- The row of an answered request, at the end of the live ones.
record Remembers {Doc : Type 0} (env : Env Doc) (live : List (IdempotencyRow Doc))
    (request : KeyedRequest) (sub : Submission) (db : Database Doc) : Type 0 where
  row : IdempotencyRow Doc
  auditor_id : row.auditor_id ≡ request.auditor_id
  key : row.key ≡ request.key
  body_sha256 : row.body_sha256 ≡ request.body_sha256
  response_json : row.response_json ≡ env.dumps (obj sub.response)
  expires_at : row.expires_at ≡ request.unix_now + request.ttl_seconds
  idempotency : db.idempotency ≡ live ++ row ∷ []

module _ {Doc : Type 0} (env : Env Doc) where
  -- A replay answers from the row, without an entry.
  replay-entry :
      (request : KeyedRequest) (row : IdempotencyRow Doc) (db : Database Doc) {sub : Submission}
      {db' : Database Doc}
      → replay env request row db ≡ ok (sub, db')
      → sub.entry ≡ none
  unfolding replay
  replay-entry request row db h = ground arith

  replay-obj :
      (request : KeyedRequest) (row : IdempotencyRow Doc) (db : Database Doc) {response : Fields}
      → row.body_sha256 ≡ request.body_sha256
      → row.response_json ≡ env.dumps (obj response)
      → replay env request row db ≡ ok (record { response = response; entry = none }, db)
  unfolding replay
  replay-obj request row db e e' = rw (e, text_eq_refl request.body_sha256, e', env.loads-dumps)

  replay-other :
      (request : KeyedRequest) (row : IdempotencyRow Doc) (db : Database Doc)
      → row.body_sha256 ≢ request.body_sha256
      → replay env request row db ≡ err idempotency_conflict
  unfolding replay
  replay-other request row db h = ground (arith, eq_of_text_eq row.body_sha256 request.body_sha256)

  append_keyed-Remembers :
      (db : Database Doc) (body : Fields) (request : KeyedRequest)
      → Ensures
          (λ (r : Submission × Database Doc). Remembers env db.idempotency request r.0 r.1)
          (append_keyed env db body request)
  unfolding append_keyed
  append_keyed-Remembers db body request =
      Ensures-bind (append_locked env db body request.created_at) _ (λ (entry, grown) run.
        let a = (append_locked-Appends env db body request.created_at).at _ run in
        Ensures-ok _ (record {
          row = record {
            auditor_id = request.auditor_id;
            key = request.key;
            body_sha256 = request.body_sha256;
            response_json = env.dumps (obj (response_of entry));
            seq = entry.seq;
            expires_at = request.unix_now + request.ttl_seconds;
          };
          auditor_id = refl;
          key = refl;
          body_sha256 = refl;
          response_json = refl;
          expires_at = refl;
          idempotency =
              ap
                (λ t.
                  t
                  ++ record {
                    auditor_id = request.auditor_id;
                    key = request.key;
                    body_sha256 = request.body_sha256;
                    response_json = env.dumps (obj (response_of entry));
                    seq = entry.seq;
                    expires_at = request.unix_now + request.ttl_seconds;
                  }
                    ∷ [])
                a.idempotency;
        }))

  -- A submission that reports an entry found no live row, and remembers its answer.
  idempotent_body-Remembers :
      (db db' : Database Doc) (body : Fields) (request : KeyedRequest) (sub : Submission)
      {entry : LogEntry}
      → idempotent_body env body request db ≡ ok (sub, db')
      → sub.entry ≡ some entry
      → (find_key request.auditor_id request.key (purge request.unix_now db.idempotency) ≡ none)
        × Remembers env (purge request.unix_now db.idempotency) request sub db'
  unfolding idempotent_body
  idempotent_body-Remembers db db' body request sub {entry} h fresh =
      elim (Option-cases
        (find_key request.auditor_id request.key (purge request.unix_now db.idempotency))) [
          | inl e ↦ (e, (append_keyed-Remembers _ body request).at _ (rw (e, idempotent_body) at h))
          | inr (row, e) ↦
              let none_left = replay-entry request row _ (rw (e, idempotent_body) at h) in cc
        ]

  -- Any live request under the key of an answered one reads the answer's row.
  find_key-Remembers :
      (live : List (IdempotencyRow Doc)) (request again : KeyedRequest) (sub : Submission)
      (db : Database Doc)
      → (m : Remembers env live request sub db)
      → find_key request.auditor_id request.key live ≡ none
      → again.auditor_id ≡ request.auditor_id
      → again.key ≡ request.key
      → again.unix_now < request.unix_now + request.ttl_seconds
      → find_key again.auditor_id again.key (purge again.unix_now db.idempotency) ≡ some m.row
  find_key-Remembers live request again sub db m missing e e' alive =
      rw
        (
          m.idempotency,
          purge-append again.unix_now live m.row (omega (arith, alive, m.expires_at)),
          e,
          e',
        )
        (find_key-append _ _ (purge again.unix_now live) m.row
          (find_key-purge again.unix_now _ _ live missing) m.auditor_id m.key)

  module _ (s s' : Store Doc) (now now' : ℕ) (body body' : Fields) (request again : KeyedRequest)
      (sub : Submission) (entry : LogEntry)
      (first : append_idempotent env s now body request ≡ (ok sub, s'))
      (fresh : sub.entry ≡ some entry) (valid : valid_request again ≡ true)
      (same_auditor : again.auditor_id ≡ request.auditor_id) (same_key : again.key ≡ request.key)
      (alive : again.unix_now < request.unix_now + request.ttl_seconds)
      (writable : require_writes_allowed s'.health now' ≡ ok tt) where
    answered :
        (row : IdempotencyRow Doc) × (find_key again.auditor_id again.key
            (purge again.unix_now s'.db.idempotency)
          ≡ some row)
        × (row.body_sha256 ≡ request.body_sha256)
        × (row.response_json ≡ env.dumps (obj sub.response))
    answered =
        let (missing, m) =
          idempotent_body-Remembers s.db s'.db body request sub
            (append_idempotent-eq-ok env s s' now body request first) fresh in
        (
          m.row,
          find_key-Remembers _ request again sub s'.db m missing same_auditor same_key alive,
          m.body_sha256,
          m.response_json,
        )

    -- After a keyed submission that appended an entry, a valid request of the same auditor under
    -- the same key and body digest, before the key expires and while writes are allowed, gets the
    -- first answer and no new entry, whatever record it carries; of the tables only the expired
    -- keys go.
    pub append_idempotent-replays :
        again.body_sha256 ≡ request.body_sha256
        → append_idempotent env s' now' body' again ≡ (
          ok (record { response = sub.response; entry = none }),
          record s' { db = record s'.db { idempotency = purge again.unix_now s'.db.idempotency } },
        )
    unfolding idempotent_body published publish
    append_idempotent-replays same_body =
        let (row, found, e, stored) = answered in
        let answer : idempotent_body env body' again s'.db
            ≡ ok (
              record { response = sub.response; entry = none },
              record s'.db { idempotency = purge again.unix_now s'.db.idempotency },
            ) =
          rw (idempotent_body, found) (replay-obj again row _ (e ∙ sym same_body) stored) in
        rw (
          append_idempotent-valid env s' now' body' again valid,
          write_transaction-commit s' now' (idempotent_body env body' again) writable answer,
          published,
          publish,
        )

    -- After a keyed submission that appended an entry, a valid request of the same auditor under
    -- the same key with another body digest, before the key expires and while writes are allowed,
    -- is refused as a conflict, and the store is unchanged.
    pub append_idempotent-conflicts :
        again.body_sha256 ≢ request.body_sha256
        → append_idempotent env s' now' body' again ≡ (err idempotency_conflict, s')
    unfolding idempotent_body write_transaction published finish
    append_idempotent-conflicts other_body =
        let (row, found, e, stored) = answered in
        let answer : idempotent_body env body' again s'.db ≡ err idempotency_conflict =
          rw (idempotent_body, found) (replay-other again row _ (λ k. other_body (sym k ∙ e))) in
        rw (
          append_idempotent-valid env s' now' body' again valid,
          write_transaction,
          writable,
          answer,
          finish,
          published,
        )
