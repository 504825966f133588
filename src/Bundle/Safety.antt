-- ===== src/Bundle/Safety.antt =====
-- What an accepted bundle of src/csk_registry/bundle.py vouches for.
use curator_skill_registry.Base.{
  ℕ, ◌≡◌, refl, false, ◌&&◌, ap, subst, ◌∙◌, Bool, true, List, [], ◌∷◌, Option, none, some, Text,
  codes, Bytes, from_hex, map, All, length, Outcome, ok, err, ensure, ensure-eq-ok, bind-eq-ok,
  then-eq-ok, ok-injective, Ensures, ensures_rules,
}
use curator_skill_registry.Json.{
  Value, Fields, null, bool, int, float, str, arr, obj, get, equals_nat,
}
use curator_skill_registry.Signing.{Env, canonical_bytes}
use curator_skill_registry.Signing.PublicKey.{Base64}
use curator_skill_registry.Signing.Key.{Ed25519, verify_signed, is_text}
use curator_skill_registry.Protocol.Patterns.{Unicode}
use curator_skill_registry.Protocol.Records.{validate_record, validate_snapshot}
use curator_skill_registry.Protocol.{is_int}
use curator_skill_registry.Countersign.{value_or}
use curator_skill_registry.Store.{genesis}
use curator_skill_registry.Store.Append.{chain_hash}
use curator_skill_registry.Store.Transaction.{Store}
use curator_skill_registry.Bundle.{
  log_mismatch, root_mismatch, BundleError, Checked, lifted, protocol, canonical, leaf_bytes,
  record_list, bundle_root, check_snapshot, check_record, check_records, check_log, check_bundle,
}
use curator_skill_registry.Bundle.Checks.{lifted-ok}
use curator_skill_registry.Bundle.Import.{Offer, prepare, submit, import_bundle}
use curator_skill_registry.Bundle.Validated.{is_text-eq, validate_record-obj, validate_snapshot-obj}

and_left : (a b : Bool) → (a && b) ≡ true → a ≡ true
and_left true b h = refl
and_left false b h = cc

and_right : (a b : Bool) → (a && b) ≡ true → b ≡ true
and_right true b h = h
and_right false b h = cc

module _ (base64 : Base64) (ed : Ed25519) {Doc : Type 0} (env : Env Doc) (unicode : Unicode)
    (float_eq : Text → ℕ → Bool) (upstream : Text) where
  abbrev Signed : Fields → Type 0
  Signed body = verify_signed base64 ed env upstream body ≡ true

  -- The hash chain over records: from the hash `prev` it has these leaves and ends at `head`.
  abbrev pub ChainOf : Text → List Fields → List Bytes → Text → Type 0
  ChainOf prev [] [] head = head ≡ prev
  ChainOf prev [] (leaf ∷ leaves) head = ⊥
  ChainOf prev (body ∷ bodies) [] head = ⊥
  ChainOf prev (body ∷ bodies) (leaf ∷ leaves) head =
      (bytes : Bytes) × (canonical_bytes env body ≡ ok bytes)
      × (from_hex (chain_hash env prev bytes) ≡ some leaf)
      × ChainOf (chain_hash env prev bytes) bodies leaves head

  -- What stands behind an accepted bundle, of all its records: they verify under the upstream
  -- key, and so does the snapshot, which states the length, the end and the Merkle root of their
  -- chain.
  pub record Vouches (bundle : Value) : Type 0 where
    pub dict : Fields
    pub is_dict : bundle ≡ obj dict
    pub snapshot : Fields
    pub embedded : value_or null (get (codes "snapshot") dict) ≡ obj snapshot
    pub bodies : List Fields
    pub listed : record_list (get (codes "records") dict) ≡ ok (map obj bodies)
    pub snapshot_signed : Signed snapshot
    pub records_signed : All Signed bodies
    pub leaves : List Bytes
    pub chain_head : Text
    pub chain : ChainOf genesis bodies leaves chain_head
    pub log_size : equals_nat float_eq (get (codes "log_size") snapshot) (length bodies) ≡ true
    pub head : get (codes "head") snapshot ≡ some (str chain_head)
    pub merkle_root :
        get (codes "merkle_root") snapshot ≡ some (str (bundle_root env.sha256 leaves))

  leaf_bytes-ok : (o : Option Bytes) {leaf : Bytes} → leaf_bytes o ≡ ok leaf → o ≡ some leaf
  unfolding leaf_bytes
  leaf_bytes-ok none h = cc
  leaf_bytes-ok (some b) h = ap some (ok-injective h)

  -- What a turn of the loop has found out of its record.
  record Turn (prev : Text) (value : Value) (checked : Fields) (leaf : Bytes) (entry_hash : Text)
      : Type 0 where
    same : value ≡ obj checked
    signed : Signed checked
    bytes : Bytes
    encoded : canonical_bytes env checked ≡ ok bytes
    hash : entry_hash ≡ chain_hash env prev bytes
    node : from_hex (chain_hash env prev bytes) ≡ some leaf

  check_record-Turn :
      (schema_one : Bool) (prev : Text) (value : Value) {r : Fields × Bytes × Text}
      → check_record base64 ed env unicode float_eq upstream schema_one prev value ≡ ok r
      → Turn prev value r.0 r.1 r.2
  unfolding check_record
  check_record-Turn schema_one prev value {r} h =
      let (checked, valid, h1) =
        bind-eq-ok (lifted protocol (validate_record base64 unicode value)) _ h in
      let (_, h2) = then-eq-ok _ _ h1 in
      let (signed, h3) =
        then-eq-ok (ensure (verify_signed base64 ed env upstream checked) _) _ h2 in
      let (bytes, encoded, h4) = bind-eq-ok (lifted canonical (canonical_bytes env checked)) _ h3 in
      let (leaf, node, h5) = bind-eq-ok (leaf_bytes (from_hex (chain_hash env prev bytes))) _ h4 in
      subst (λ (r : Fields × Bytes × Text). Turn prev value r.0 r.1 r.2) (ok-injective h5)
        (record {
          same = (validate_record-obj base64 unicode value).at checked (lifted-ok protocol _ valid);
          signed = ensure-eq-ok _ _ signed;
          bytes = bytes;
          encoded = lifted-ok canonical _ encoded;
          hash = refl;
          node = leaf_bytes-ok _ node;
        })

  -- What the loop has found out of its records.
  record Loop (prev : Text) (values : List Value) (c : Checked) : Type 0 where
    same : values ≡ map obj c.verified
    signed : All Signed c.verified
    chain : ChainOf prev c.verified c.entry_hashes c.head

  check_records-Loop :
      (schema_one : Bool) (prev : Text) (values : List Value) {c : Checked}
      → check_records base64 ed env unicode float_eq upstream schema_one prev values ≡ ok c
      → Loop prev values c
  unfolding check_records
  check_records-Loop schema_one prev [] h =
      subst (Loop prev []) (ok-injective h) (record { same = refl; signed = tt; chain = refl })
  check_records-Loop schema_one prev (value ∷ values) h =
      let ((checked, leaf, entry_hash), one, h1) =
        bind-eq-ok (check_record base64 ed env unicode float_eq upstream schema_one prev value) _
          h in
      let (rest, more, h2) =
        bind-eq-ok
          (check_records base64 ed env unicode float_eq upstream schema_one entry_hash values) _
          h1 in
      let t = check_record-Turn schema_one prev value one in
      let l = check_records-Loop schema_one entry_hash values more in
      subst (Loop prev (value ∷ values)) (ok-injective h2) (record {
        same = rw (t.same, ← l.same) refl;
        signed = (t.signed, l.signed);
        chain = (
          t.bytes,
          t.encoded,
          t.node,
          subst (λ h. ChainOf h rest.verified rest.entry_hashes rest.head) t.hash l.chain,
        );
      })

  Signed-by :
      (body : Fields) (e : BundleError)
      → ensure (verify_signed base64 ed env upstream body) e ≡ ok tt
      → Signed body
  Signed-by body e h = ensure-eq-ok (verify_signed base64 ed env upstream body) e h

  check_snapshot-Signed :
      (bundle : Fields)
      → Ensures Signed (check_snapshot base64 ed env unicode float_eq upstream bundle)
  unfolding check_snapshot
  check_snapshot-Signed bundle = search (ensures_rules, Signed-by) depth 16

  snapshot-obj :
      (value : Value) (s : Fields)
      → lifted protocol (validate_snapshot base64 float_eq value) ≡ ok s
      → value ≡ obj s
  snapshot-obj value s h =
      (validate_snapshot-obj base64 float_eq value).at s (lifted-ok protocol _ h)

  check_snapshot-obj :
      (bundle : Fields)
      → Ensures
          (λ s. value_or null (get (codes "snapshot") bundle) ≡ obj s)
          (check_snapshot base64 ed env unicode float_eq upstream bundle)
  unfolding check_snapshot
  check_snapshot-obj bundle = search (ensures_rules, snapshot-obj) depth 16

  check_log-agrees :
      (snapshot : Fields) (c : Checked)
      → check_log base64 ed env unicode float_eq upstream snapshot c ≡ ok tt
      → (equals_nat float_eq (get (codes "log_size") snapshot) (length c.verified) ≡ true)
        × (get (codes "head") snapshot ≡ some (str c.head))
        × (get (codes "merkle_root") snapshot ≡ some (str (bundle_root env.sha256 c.entry_hashes)))
  unfolding check_log
  check_log-agrees snapshot c h =
      let size = equals_nat float_eq (get (codes "log_size") snapshot) (length c.verified) in
      let head = is_text (get (codes "head") snapshot) c.head in
      let root =
        is_text (get (codes "merkle_root") snapshot) (bundle_root env.sha256 c.entry_hashes) in
      let (logs, roots) =
        then-eq-ok (ensure (size && head) log_mismatch) (ensure root root_mismatch) h in
      let both = ensure-eq-ok (size && head) log_mismatch logs in
      (
        and_left size head both,
        is_text-eq _ _ (and_right size head both),
        is_text-eq _ _ (ensure-eq-ok root root_mismatch roots),
      )

  check_bundle-Vouches :
      (bundle : Value) {r : Fields × Checked}
      → check_bundle base64 ed env unicode float_eq upstream bundle ≡ ok r
      → Vouches bundle
  unfolding check_bundle
  check_bundle-Vouches (obj bundle) h =
      let (snapshot, found, h1) =
        bind-eq-ok (check_snapshot base64 ed env unicode float_eq upstream bundle) _ h in
      let (records, listed, h2) = bind-eq-ok (record_list (get (codes "records") bundle)) _ h1 in
      let (checked, run, h3) =
        bind-eq-ok
          (check_records base64 ed env unicode float_eq upstream
            (is_int (get (codes "schema_version") bundle) 1) genesis records)
          _ h2 in
      let (agrees, _) =
        then-eq-ok (check_log base64 ed env unicode float_eq upstream snapshot checked)
          (ok (snapshot, checked)) h3 in
      let (size, head, root) = check_log-agrees snapshot checked agrees in
      let l =
        check_records-Loop (is_int (get (codes "schema_version") bundle) 1) genesis records run in
      record {
        dict = bundle;
        is_dict = refl;
        snapshot = snapshot;
        embedded = (check_snapshot-obj bundle).at snapshot found;
        bodies = checked.verified;
        listed = listed ∙ ap ok l.same;
        snapshot_signed = (check_snapshot-Signed bundle).at snapshot found;
        records_signed = l.signed;
        leaves = checked.entry_hashes;
        chain_head = checked.head;
        chain = l.chain;
        log_size = size;
        head = head;
        merkle_root = root;
      }
  check_bundle-Vouches null h = cc
  check_bundle-Vouches (bool b) h = cc
  check_bundle-Vouches (int n) h = cc
  check_bundle-Vouches (float f) h = cc
  check_bundle-Vouches (str t) h = cc
  check_bundle-Vouches (arr xs) h = cc

  submit-prepared :
      (s s' : Store Doc) (now : ℕ) (utc_now : Text) (older : Bool) (o : Outcome BundleError Offer)
      {n : ℕ}
      → submit base64 ed env unicode float_eq upstream s now utc_now older o ≡ (ok n, s')
      → (offer : Offer) × (o ≡ ok offer)
  unfolding submit
  submit-prepared s s' now utc_now older (ok offer) h = (offer, refl)
  submit-prepared s s' now utc_now older (err e) h = let failed = ap (λ p. p.0) h in cc

  -- When `import_bundle` answers with a count, the bundle is a dict whose list of records
  -- consists of dicts that all verify under the upstream key, one by one; its snapshot verifies
  -- under the same key; and the snapshot states how many records the list has, the hash at the
  -- end of the chain that their canonical bytes form from the genesis hash, and the Merkle root
  -- over the hashes of that chain.
  pub import_bundle-Vouches :
      (s s' : Store Doc) (now : ℕ) (key : ed.Private) (bundle : Value) (utc_now : Text)
      (older : Bool) {n : ℕ}
      → import_bundle base64 ed env unicode float_eq upstream s now key bundle utc_now older
        ≡ (ok n, s')
      → Vouches bundle
  unfolding import_bundle prepare
  import_bundle-Vouches s s' now key bundle utc_now older h =
      let (offer, e) =
        submit-prepared s s' now utc_now older
          (prepare base64 ed env unicode float_eq upstream key bundle utc_now) h in
      let (checked, run, _) =
        bind-eq-ok (check_bundle base64 ed env unicode float_eq upstream bundle) _ e in
      check_bundle-Vouches bundle run
