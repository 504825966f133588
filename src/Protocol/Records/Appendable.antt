-- ===== src/Protocol/Records/Appendable.antt =====
-- A validated record has the columns, the framing version and the canonical form that the store
-- asks for.
use curator_skill_registry.Base.{
  ◌≡◌, refl, true, false, Bool, [], ◌∷◌, Option, none, some, Text, codes, text_eq, ok, ensure,
  ensure-eq-ok, then-eq-ok, length, ltb, not, ◌&&◌, sym, ap, subst, all, Ensures, ensures_rules,
}
use curator_skill_registry.Json.{
  Value, Fields, null, bool, int, float, str, arr, obj, get, nonempty_str, keys,
}
use curator_skill_registry.Signing.PublicKey.{Base64}
use curator_skill_registry.Store.Append.{Columns, require_str, require_columns}
use curator_skill_registry.Protocol.{valid_hash_version}
use curator_skill_registry.Protocol.Patterns.{
  Unicode, matches_identifier, matches_commit, matches_sha256, one_of, portable_component,
  valid_source_identity,
}
use curator_skill_registry.Protocol.Records.{
  statuses, record_keys, text_that, validate_status, validate_columns, validate_record, record_name,
  source_identity, record_commit, record_hash, unknown_fields, hash_version,
}

-- The text under a key, as a required column.
abbrev HasText : Text → Fields → Type 0
HasText key body = (t : Text) × (require_str key body ≡ ok t)

module _ (key : Text) (body : Fields) where
  require_str-text :
      (v : Option Value) (test : Text → Bool)
      → get key body ≡ v
      → text_that test v ≡ true
      → test [] ≡ false
      → HasText key body
  unfolding text_that require_str nonempty_str
  require_str-text none test e h empty = cc
  require_str-text (some (str [])) test e h empty = cc
  require_str-text (some (str (c ∷ s))) test e h empty = (c ∷ s, rw (require_str, e))
  require_str-text (some null) test e h empty = cc
  require_str-text (some (bool b)) test e h empty = cc
  require_str-text (some (int n)) test e h empty = cc
  require_str-text (some (float f)) test e h empty = cc
  require_str-text (some (arr xs)) test e h empty = cc
  require_str-text (some (obj fs)) test e h empty = cc

validate_status-text :
    (v : Option Value) → validate_status v ≡ ok tt → text_that (one_of statuses) v ≡ true
unfolding validate_status text_that
validate_status-text none h = cc
validate_status-text (some (str t)) h = ensure-eq-ok (one_of statuses t) _ h
validate_status-text (some null) h = cc
validate_status-text (some (bool b)) h = cc
validate_status-text (some (int n)) h = cc
validate_status-text (some (float f)) h = cc
validate_status-text (some (arr xs)) h = cc
validate_status-text (some (obj fs)) h = cc

-- A record that passes the checks of `validate_record` on its columns and its framing version.
pub record IsAppendable (body : Fields) : Type 0 where
  pub columns : Columns
  pub named : require_columns body ≡ ok columns
  pub version : valid_hash_version body ≡ true

module _ (base64 : Base64) (unicode : Unicode) where
  validate_columns-named :
      (body : Fields)
      → validate_columns base64 unicode body ≡ ok tt
      → (columns : Columns) × (require_columns body ≡ ok columns)
  unfolding validate_columns require_columns
  validate_columns-named body h =
      let name_test = λ (t : Text).
        not (ltb 128 (length t)) && matches_identifier t && portable_component unicode t in
      let (a, h1) =
        then-eq-ok (ensure (text_that name_test (get (codes "name") body)) record_name) _ h in
      let (b, h2) =
        then-eq-ok
          (ensure (text_that (valid_source_identity unicode) (get (codes "source_identity") body))
            source_identity)
          _ h1 in
      let (c, h3) =
        then-eq-ok (ensure (text_that matches_commit (get (codes "commit") body)) record_commit) _
          h2 in
      let (d, h4) =
        then-eq-ok
          (ensure (text_that matches_sha256 (get (codes "content_sha256") body)) record_hash) _
          h3 in
      let (t, e) =
        require_str-text (codes "name") body _ name_test refl (ensure-eq-ok _ _ a)
          (unfold matches_identifier in refl) in
      let (t1, e1) =
        require_str-text (codes "source_identity") body _ (valid_source_identity unicode) refl
          (ensure-eq-ok _ _ b) (unfold valid_source_identity in refl) in
      let (t2, e2) =
        require_str-text (codes "commit") body _ matches_commit refl (ensure-eq-ok _ _ c)
          (unfold matches_commit in refl) in
      let (t3, e3) =
        require_str-text (codes "content_sha256") body _ matches_sha256 refl (ensure-eq-ok _ _ d)
          (unfold matches_sha256 text_eq in refl) in
      let (t4, e4) =
        require_str-text (codes "status") body _ (one_of statuses) refl
          (validate_status-text (get (codes "status") body) h4) (unfold one_of text_eq in refl) in
      (
        record {
          name = t;
          source_identity = t1;
          commit_hash = t2;
          content_sha256 = t3;
          status = t4;
        },
        rw (e, e1, e2, e3, e4),
      )

  validate_record-same :
      (fields : Fields)
      → Ensures (λ (b : Fields). b ≡ fields) (validate_record base64 unicode (obj fields))
  unfolding validate_record
  validate_record-same fields = search ensures_rules depth 12

  pub validate_record-IsAppendable :
      (v : Value) {body : Fields}
      → validate_record base64 unicode v ≡ ok body
      → (v ≡ obj body) × IsAppendable body
  unfolding validate_record
  validate_record-IsAppendable (obj fields) {body} h =
      let same : body ≡ fields = (validate_record-same fields).at body h in
      let (_, h1) =
        then-eq-ok (ensure (all (one_of record_keys) (keys fields)) unknown_fields) _ h in
      let (a, h2) = then-eq-ok (ensure (valid_hash_version fields) hash_version) _ h1 in
      let (b, _) = then-eq-ok (validate_columns base64 unicode fields) _ h2 in
      let (columns, named) = validate_columns-named fields b in
      (
        ap obj (sym same),
        subst IsAppendable (sym same)
            (record { columns = columns; named = named; version = ensure-eq-ok _ _ a }),
      )
  validate_record-IsAppendable (str t) h = cc
  validate_record-IsAppendable null h = cc
  validate_record-IsAppendable (bool b) h = cc
  validate_record-IsAppendable (int n) h = cc
  validate_record-IsAppendable (float f) h = cc
  validate_record-IsAppendable (arr xs) h = cc
