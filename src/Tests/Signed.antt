-- ===== src/Tests/Signed.antt =====
-- Signed records, a bundle and an import on concrete inputs.
use curator_skill_registry.Base.{
  text_eq, from_hex, hex, hex256, is_lower_hex, ℕ, ◌==◌, ◌≡◌, ◌++◌, ◌∷◌, [], List, refl, codes, ok,
  err, none, some, Text, Bytes, Outcome, true, false, Bool, not, text_eq_refl, length, arith, ltb,
  drop, map,
}
use curator_skill_registry.Json.{
  nonempty_str, get, without, items, of_list, put, keys, has_exactly, equals_nat, as_nat, as_str,
  Value, Fields, obj, end, field, str,
}
use curator_skill_registry.Merkle.{
  climb, finish_level, first, frontier_append, frontier_root, last, last_pair, last_two,
  merkle_pair_hash, second_last, upper_tail, next_level, merkle_loop, merkle_root, zeros,
}
use curator_skill_registry.Protocol.{is_int, valid_hash_version}
use curator_skill_registry.Signing.{canonical_bytes, canonical_document_bytes, sig_key}
use curator_skill_registry.Json.Canonical.{validate_ccj}
use curator_skill_registry.Signing.PublicKey.{remove_prefix, parse_public_key, Base64}
use curator_skill_registry.Signing.Key.{
  key_id_of, is_text, verify, public_pinned, sign, envelope, sign_record, verify_value,
  verify_envelope, verify_sig, verify_signed, Ed25519, IsGenuine, RoundTrips,
}
use curator_skill_registry.Protocol.Patterns.{
  is_digit, matches_identifier, matches_host, matches_commit, matches_sha256, matches_key_id, fits,
  matches_timestamp, one_of, before, behind, split_on, split, ends_badly, portable_component,
  portable_path, valid_source_identity, Unicode,
}
use curator_skill_registry.Protocol.Records.{
  canonicalize_error, canonicalize_validated, text_that, validate_status, is_audit,
  endorsement_list, sizes_hold, is_signature, validate_signature, validate_endorsement,
  validate_endorsements, validate_columns, validate_record, validate_snapshot,
}
use curator_skill_registry.Countersign.{
  value_or, endorsement, extended, endorsed, field_of, signature_of, signed_or, countersign,
  values_digest, countersign_import, countersign_imports, ImportError,
}
use curator_skill_registry.Store.Append.{
  append_locked, require_columns, require_str, of_canonical, latching, ascii, bottom_length,
  bottom_tail, chain_hash, frontier_failure, has_boundary, head_hash, insert_entry, nodes_eq,
  of_frontier, unhex, validate_against, validate_append_anchors, validate_bottom,
  validate_committed, validate_links, write_entry, Columns,
}
use curator_skill_registry.Store.Boundary.{
  head_seq, selected_seq, snapshot_boundary, cached_boundary, anchor_matches, empty_boundary,
}
use curator_skill_registry.Store.Frontier.{
  decode_tail, encode_tail, load_from, load_frontier, load_level, save_from, save_frontier,
  tail_items,
}
use curator_skill_registry.Store.Health.{is_stale, latch, publish, require_writes_allowed}
use curator_skill_registry.Store.{boundary_at, head_row, row_at, fresh_database, LogEntry}
use curator_skill_registry.Store.Transaction.{published, write_transaction, finish, append, Store}
use curator_skill_registry.Store.Imports.{
  import_records, import_one, is_imported, upstream_offer_diagnostic, high_water, drop_high_water,
  put_high_water, import_decision, settle, upstream_body, append_upstream_import, same_body,
}
use curator_skill_registry.Store.Pages.{select, entry_from_row, entries_from_rows, log_entries}
use curator_skill_registry.Store.Verify.Ledgers.{
  endorsement_signature, upstream_signature, all_texts, texts_digest, import_fingerprint,
  equals_text, or_else, import_error,
}
use curator_skill_registry.Store.Verify.Walk.{report}
use curator_skill_registry.Bundle.{
  lifted, snapshot_body, leaf_bytes, bundle_root, check_embedded, record_list, build_snapshot,
  export_bundle, check_record, check_records, check_log, check_snapshot, check_bundle, BundleError,
  bundle_fields,
}
use curator_skill_registry.Bundle.Import.{
  nat_field, text_field, advance_of, refusal, upstream_key_id, answered, prepare, submit,
  import_bundle,
}
use curator_skill_registry.Store.Invariant.{IsConsistent}
use curator_skill_registry.Store.Invariant.Fresh.{fresh_database-IsConsistent}
use curator_skill_registry.Store.History.{here, step, append_step}
use curator_skill_registry.Store.History.Consistency.{Reachable-IsConsistent}
use curator_skill_registry.Tests.Sample.{env, digest, fresh, time}
use curator_skill_registry.Countersign.Imports.{listed}

-- Texts that stand for themselves in base64.
abbrev pub base64 : Base64
base64 = record { decode = some; encode = λ b. b }

pub base64-RoundTrips : RoundTrips base64
base64-RoundTrips = record { decode-encode = λ b. refl }

abbrev pub public_of : ℕ → Bytes
public_of k = k ∷ zeros 31

-- A signature is the digest of the message before the public key.
abbrev pub ed : Ed25519
ed = record {
  Private = ℕ;
  public_bytes = public_of;
  sign = λ k m. digest m ++ public_of k;
  verify = λ public signature m. text_eq signature (digest m ++ public);
}

pub ed-IsGenuine : IsGenuine ed
ed-IsGenuine = record {
  length-public_bytes = λ k. refl;
  length-sign = λ k m. refl;
  verify-sign = λ k m. text_eq_refl (digest m ++ public_of k);
}

abbrev pub unicode : Unicode
unicode = record { is_control = λ c. ltb c 32; is_space = λ c. c == 32; casefold = λ t. t }

abbrev pub plain : Fields
plain = field (codes "commit") (str (codes "0123456789012345678901234567890123456789")) (
    field (codes "content_sha256")
      (str (codes "sha256:0000000000000000000000000000000000000000000000000000000000000000"))
      (field (codes "name") (str (codes "skill")) (
        field (codes "source_identity") (str (codes "git.example/org/skill"))
          (field (codes "status") (str (codes "audited")) end))))

abbrev pub or_end : {E : Type 0} → Outcome E Fields → Fields
or_end (ok body) = body
or_end (err e) = end

-- the record signed by the key 7
abbrev pub signed : Fields
signed = or_end (sign_record base64 ed env 7 plain)

abbrev pub served : Store Value
served = (append env fresh 10 signed time).1

abbrev pub entries : List LogEntry
entries = elim (log_entries env served.db 0 none) [ ok es ↦ es | err e ↦ [] ]

abbrev pub snapshot : Fields
snapshot = or_end (build_snapshot base64 ed env served.db 7)

abbrev pub bundle : Fields
bundle = or_end (export_bundle base64 ed env served.db served.db 7)

abbrev pub no_float : Text → ℕ → Bool
no_float t n = false

abbrev pub pinned : Text
pinned = public_pinned base64 ed 7

abbrev pub imported : Outcome BundleError ℕ × Store Value
imported = import_bundle base64 ed env unicode no_float pinned fresh 10 9 (obj bundle) time false

abbrev pub refused : Outcome BundleError ℕ × Store Value
refused = import_bundle base64 ed env unicode no_float pinned fresh 10 9 (str []) time false

-- the record countersigned by the key 9 for its import, and again by the key 11
abbrev pub or_nothing : Outcome ImportError (Text × Fields) → Text × Fields
or_nothing (ok p) = p
or_nothing (err e) = ([], end)

abbrev pub once : Text × Fields
once = or_nothing (countersign_import base64 ed env 9 signed)

abbrev pub twice : Text × Fields
twice = or_nothing (countersign_import base64 ed env 11 once.1)

abbrev pub published_record : Fields
published_record = or_end (countersign base64 ed env 9 (codes "alice") signed)

abbrev pub signed_columns : Columns
signed_columns = record {
  name = codes "skill";
  source_identity = codes "git.example/org/skill";
  commit_hash = codes "0123456789012345678901234567890123456789";
  content_sha256 = codes "sha256:0000000000000000000000000000000000000000000000000000000000000000";
  status = codes "audited";
}

abbrev pub signature_envelope : Fields → Fields
signature_envelope body = elim (get sig_key body) [ some (obj fs) ↦ fs | _ ↦ end ]

abbrev pub signature_text : Fields → Text
signature_text body = elim (get (codes "signature") (signature_envelope body)) [
  | some (str t) ↦ t
  | _ ↦ []
]

abbrev pub head_of : Text → ℕ
head_of [] = 0
head_of (c ∷ t) = c

-- What the sample calls compute.
pub record SignedRuns : Type 0 where
  pub signs : sign_record base64 ed env 7 plain ≡ ok signed
  pub validates : validate_record base64 unicode (obj signed) ≡ ok signed
  pub verifies : verify_signed base64 ed env pinned signed ≡ true
  pub one_entry : length served.db.log ≡ 1
  pub no_entry : length fresh.db.log ≡ 0
  pub reads : log_entries env served.db 0 none ≡ ok entries
  pub builds : build_snapshot base64 ed env served.db 7 ≡ ok snapshot
  pub exported : map (λ (e : LogEntry). e.record_fields) entries ≡ signed ∷ []
  pub imports : imported ≡ (ok 1, imported.1)
  pub refuses : refused.0 ≡ err bundle_fields
  pub publishes : countersign base64 ed env 9 (codes "alice") signed ≡ ok published_record
  pub imports_once : countersign_import base64 ed env 9 signed ≡ ok once
  pub imports_twice : countersign_import base64 ed env 11 once.1 ≡ ok twice
  pub named : require_columns signed ≡ ok signed_columns
  pub named_once : require_columns once.1 ≡ ok signed_columns
  pub original : upstream_signature (listed (get (codes "endorsements") signed)) ≡ none
  pub envelope : get sig_key signed ≡ some (obj (signature_envelope signed))
  pub signature :
      get (codes "signature") (signature_envelope signed)
      ≡ some (str (head_of (signature_text signed) ∷ drop 1 (signature_text signed)))
  pub envelope_once : get sig_key once.1 ≡ some (obj (signature_envelope once.1))
  pub signature_once :
      get (codes "signature") (signature_envelope once.1)
      ≡ some (str (head_of (signature_text once.1) ∷ drop 1 (signature_text once.1)))
  pub earlier :
      upstream_signature (listed (get (codes "endorsements") once.1))
      ≡ some (str (head_of (signature_text signed) ∷ drop 1 (signature_text signed)))
  pub framing : not (equals_nat no_float (get (codes "hash_version") signed) 2) ≡ true
  pub differ : text_eq (signature_text signed) (signature_text once.1) ≡ false
  pub portable : portable_path unicode (codes "org/skill") ≡ true

pub signed_runs : SignedRuns
unfolding text_eq from_hex hex hex256 is_lower_hex nonempty_str get without items of_list put keys
    has_exactly equals_nat as_nat as_str climb finish_level first frontier_append frontier_root last
    last_pair last_two merkle_pair_hash second_last upper_tail next_level merkle_loop merkle_root
    is_int valid_hash_version canonical_bytes canonical_document_bytes validate_ccj remove_prefix
    parse_public_key key_id_of is_text verify public_pinned sign envelope sign_record verify_value
    verify_envelope verify_sig verify_signed is_digit matches_identifier matches_host matches_commit
    matches_sha256 matches_key_id fits matches_timestamp one_of before behind split_on split
    ends_badly portable_component portable_path valid_source_identity canonicalize_error
    canonicalize_validated text_that validate_status is_audit endorsement_list sizes_hold
    is_signature validate_signature validate_endorsement validate_endorsements validate_columns
    validate_record validate_snapshot value_or endorsement extended endorsed field_of signature_of
    signed_or countersign values_digest countersign_import countersign_imports append_locked
    require_columns require_str of_canonical latching ascii bottom_length bottom_tail chain_hash
    frontier_failure has_boundary head_hash insert_entry nodes_eq of_frontier unhex validate_against
    validate_append_anchors validate_bottom validate_committed validate_links write_entry head_seq
    selected_seq snapshot_boundary cached_boundary anchor_matches empty_boundary decode_tail
    encode_tail load_from load_frontier load_level save_from save_frontier tail_items is_stale latch
    publish require_writes_allowed boundary_at head_row row_at fresh_database published
    write_transaction finish append import_records import_one is_imported upstream_offer_diagnostic
    high_water drop_high_water put_high_water import_decision settle upstream_body
    append_upstream_import same_body select entry_from_row entries_from_rows log_entries
    endorsement_signature upstream_signature all_texts texts_digest import_fingerprint equals_text
    or_else import_error report lifted snapshot_body leaf_bytes bundle_root check_embedded
    record_list build_snapshot export_bundle check_record check_records check_log check_snapshot
    check_bundle nat_field text_field advance_of refusal upstream_key_id answered prepare submit
    import_bundle
signed_runs = record {
  signs = refl;
  validates = refl;
  verifies = refl;
  one_entry = refl;
  no_entry = refl;
  reads = refl;
  builds = refl;
  exported = refl;
  imports = refl;
  refuses = refl;
  publishes = refl;
  imports_once = refl;
  imports_twice = refl;
  named = refl;
  named_once = refl;
  original = refl;
  envelope = refl;
  signature = refl;
  envelope_once = refl;
  signature_once = refl;
  earlier = refl;
  framing = refl;
  differ = refl;
  portable = refl;
}

pub served-IsConsistent : IsConsistent env served.db
served-IsConsistent =
    Reachable-IsConsistent env (step here (append_step 10 signed time))
      (fresh_database-IsConsistent env time) (omega (arith, signed_runs.one_entry))
