-- ===== src/Tests/Runs.antt =====
-- Calls of the store on concrete inputs, and what they compute.
use curator_skill_registry.Base.{
  text_eq, from_hex, hex, hex256, ◌≡◌, ◌++◌, ◌∷◌, [], List, refl, codes, ok, err, none, some, Text,
  Bytes, Outcome, true, false, length, arith,
}
use curator_skill_registry.Json.{
  nonempty_str, get, without, items, of_list, put, obj, Fields, end, Value,
}
use curator_skill_registry.Merkle.{
  climb, finish_level, first, frontier_append, frontier_root, last, last_pair, last_two,
  merkle_pair_hash, second_last, upper_tail,
}
use curator_skill_registry.Protocol.{is_int, valid_hash_version}
use curator_skill_registry.Signing.{canonical_bytes, canonical_document_bytes}
use curator_skill_registry.Json.Canonical.{validate_ccj}
use curator_skill_registry.Store.Append.{
  append_locked, require_columns, require_str, of_canonical, latching, ascii, bottom_length,
  bottom_tail, chain_hash, frontier_failure, has_boundary, head_hash, insert_entry, nodes_eq,
  of_frontier, unhex, validate_against, validate_append_anchors, validate_bottom,
  validate_committed, validate_links, write_entry, Columns,
}
use curator_skill_registry.Store.Boundary.{head_seq}
use curator_skill_registry.Store.Frontier.{
  decode_tail, encode_tail, load_from, load_frontier, load_level, save_from, save_frontier,
  tail_items,
}
use curator_skill_registry.Store.Health.{
  is_stale, latch, publish, require_writes_allowed, refuse_startup_checkpoint,
  restore_below_checkpoint,
}
use curator_skill_registry.Store.{
  boundary_at, head_row, row_at, fresh_database, checkpoint_refused, LogEntry, LogRow, Database,
  value_error, StoreError,
}
use curator_skill_registry.Store.Transaction.{
  published, write_transaction, finish, append, append_idempotent, idempotent_body, valid_request,
  valid_key, purge, find_key, append_keyed, response_of, replay, Store, Submission, KeyedRequest,
}
use curator_skill_registry.Store.Imports.{import_records, import_one, is_imported, no_batch, Batch}
use curator_skill_registry.Store.Invariant.{IsConsistent}
use curator_skill_registry.Store.Invariant.Fresh.{fresh_database-IsConsistent}
use curator_skill_registry.Store.History.{Reachable, here, step, append_step}
use curator_skill_registry.Store.History.Consistency.{Reachable-IsConsistent}
use curator_skill_registry.Tests.Sample.{env, fresh, skill, time, request, healthy}

abbrev pub alpha : Fields
alpha = skill (codes "a")

abbrev pub one : Store Value
one = (append env fresh 10 alpha time).1

abbrev pub two : Store Value
two = (append env one 20 (skill (codes "b")) time).1

abbrev pub no_entry : LogEntry
no_entry = record { seq = 0; entry_hash = []; prev_hash = []; record_fields = end }

abbrev pub submitted : Outcome StoreError Submission × Store Value
submitted = append_idempotent env fresh 10 alpha request

abbrev pub answer : Submission
answer = elim submitted.0 [ ok sub ↦ sub | err e ↦ record { response = end; entry = none } ]

abbrev pub answer_entry : LogEntry
answer_entry = elim answer.entry [ some e ↦ e | none ↦ no_entry ]

-- a keyed submission, then an append
abbrev pub mixed : Store Value
mixed = (append env submitted.1 20 (skill (codes "b")) time).1

abbrev pub again : KeyedRequest
again = record request { unix_now = 2000 }

abbrev pub other : KeyedRequest
other = record again {
  body_sha256 = codes "00000000000000000000000000000000000000000000000000000000000000bb";
}

abbrev pub refused : Store Value
refused = record fresh {
  health = refuse_startup_checkpoint healthy 5 restore_below_checkpoint checkpoint_refused;
}

abbrev pub imports : List (Text × Fields)
imports = (codes "f1", alpha) ∷ (codes "f2", skill (codes "b")) ∷ []

abbrev pub imported : Batch × Database Value
imported = elim (import_records env fresh.db no_batch time imports) [
  | ok r ↦ r
  | err e ↦ (no_batch, fresh.db)
]

abbrev pub alpha_columns : Columns
alpha_columns = record {
  name = codes "a";
  source_identity = codes "git";
  commit_hash = codes "c1";
  content_sha256 = codes "ab";
  status = codes "approved";
}

abbrev pub alpha_bytes : Bytes
alpha_bytes = env.utf8 (obj alpha)

-- What the sample calls compute.
pub record Runs : Type 0 where
  pub empty_log : length fresh.db.log ≡ 0
  pub one_entry : length one.db.log ≡ 1
  pub two_entries : length two.db.log ≡ 2
  pub mixed_entries : length mixed.db.log ≡ 2
  pub mixed_health : mixed.health.integrity_failed ≡ false
  pub mixed_interval : mixed.health.verify_interval ≡ 300
  pub named : require_columns alpha ≡ ok alpha_columns
  pub canonical : canonical_bytes env alpha ≡ ok alpha_bytes
  pub version : valid_hash_version alpha ≡ true
  pub answered : submitted ≡ (ok answer, submitted.1)
  pub fresh_answer : answer.entry ≡ some answer_entry
  pub valid_again : valid_request again ≡ true
  pub valid_other : valid_request other ≡ true
  pub writable : require_writes_allowed submitted.1.health 20 ≡ ok tt
  pub no_columns : (append env fresh 10 end time).0 ≡ err value_error
  pub no_columns_keyed : (append_idempotent env fresh 10 end request).0 ≡ err value_error
  pub latched : refused.health.integrity_failed ≡ true
  pub batch : import_records env fresh.db no_batch time imports ≡ ok imported
  pub two_imported : imported.0.imported ≡ 2
  pub different : text_eq again.body_sha256 other.body_sha256 ≡ false

pub runs : Runs
unfolding text_eq from_hex hex hex256 nonempty_str get without items of_list put climb finish_level
    first frontier_append frontier_root last last_pair last_two merkle_pair_hash second_last
    upper_tail is_int valid_hash_version canonical_bytes canonical_document_bytes validate_ccj
    append_locked require_columns require_str of_canonical latching ascii bottom_length bottom_tail
    chain_hash frontier_failure has_boundary head_hash insert_entry nodes_eq of_frontier unhex
    validate_against validate_append_anchors validate_bottom validate_committed validate_links
    write_entry head_seq decode_tail encode_tail load_from load_frontier load_level save_from
    save_frontier tail_items is_stale latch publish require_writes_allowed refuse_startup_checkpoint
    boundary_at head_row row_at fresh_database published write_transaction finish append
    append_idempotent idempotent_body valid_request valid_key purge find_key append_keyed
    response_of replay import_records import_one is_imported
runs = record {
  empty_log = refl;
  one_entry = refl;
  two_entries = refl;
  mixed_entries = refl;
  mixed_health = refl;
  mixed_interval = refl;
  named = refl;
  canonical = refl;
  version = refl;
  answered = refl;
  fresh_answer = refl;
  valid_again = refl;
  valid_other = refl;
  writable = refl;
  no_columns = refl;
  no_columns_keyed = refl;
  latched = refl;
  batch = refl;
  two_imported = refl;
  different = refl;
}

pub one_row : (r : LogRow Value) × (one.db.log ≡ [] ++ r ∷ [])
unfolding text_eq from_hex hex hex256 nonempty_str get without items of_list put climb finish_level
    first frontier_append frontier_root last last_pair last_two merkle_pair_hash second_last
    upper_tail is_int valid_hash_version canonical_bytes canonical_document_bytes validate_ccj
    append_locked require_columns require_str of_canonical latching ascii bottom_length bottom_tail
    chain_hash frontier_failure has_boundary head_hash insert_entry nodes_eq of_frontier unhex
    validate_against validate_append_anchors validate_bottom validate_committed validate_links
    write_entry head_seq decode_tail encode_tail load_from load_frontier load_level save_from
    save_frontier tail_items is_stale latch publish require_writes_allowed refuse_startup_checkpoint
    boundary_at head_row row_at fresh_database published write_transaction finish append
    append_idempotent idempotent_body valid_request valid_key purge find_key append_keyed
    response_of replay import_records import_one is_imported
one_row = (_, refl)

one_step : Reachable env fresh one
one_step = step here (append_step 10 alpha time)

pub two_steps : Reachable env fresh two
two_steps = step one_step (append_step 20 (skill (codes "b")) time)

pub fresh-IsConsistent : IsConsistent env fresh.db
fresh-IsConsistent = fresh_database-IsConsistent env time

pub one-IsConsistent : IsConsistent env one.db
one-IsConsistent =
    Reachable-IsConsistent env one_step fresh-IsConsistent (omega (arith, runs.one_entry))
