-- ===== src/Tests/Federation.antt =====
-- The theorems on signed records, bundles and imports at the sample calls.
use curator_skill_registry.Base.{
  ◌+◌, ◌≡◌, ◌++◌, ◌∷◌, [], sym, subst, codes, ok, some, true, false, length, arith, All, map, drop,
}
use curator_skill_registry.Json.{Value, obj, without}
use curator_skill_registry.Signing.{sig_key}
use curator_skill_registry.Signing.Key.{verify_signed, public_pinned}
use curator_skill_registry.Signing.Key.Genuine.{verify_signed-sign_record}
use curator_skill_registry.Protocol.Patterns.{split}
use curator_skill_registry.Protocol.Patterns.Paths.{resolve, reversed, join, portable_path-resolve}
use curator_skill_registry.Store.{LogEntry, Database, genesis}
use curator_skill_registry.Store.Append.{append_locked}
use curator_skill_registry.Store.Invariant.{IsConsistent, leaves}
use curator_skill_registry.Store.Verify.Ledgers.{import_fingerprint, texts_digest}
use curator_skill_registry.Countersign.Imports.{covered}
use curator_skill_registry.Countersign.Appends.{countersign-appends}
use curator_skill_registry.Countersign.Fingerprints.{
  Importable, countersign_import-fingerprint, countersign_import-again,
}
use curator_skill_registry.Bundle.{Checked, check_records, check_log}
use curator_skill_registry.Bundle.Checks.{Accepts, check_records-exported}
use curator_skill_registry.Bundle.Safety.{Vouches, import_bundle-Vouches}
use curator_skill_registry.Tests.Sample.{env, fresh, time}
use curator_skill_registry.Tests.Runs.{fresh-IsConsistent}
use curator_skill_registry.Tests.Signed.{
  base64, base64-RoundTrips, ed, ed-IsGenuine, unicode, plain, signed, served, entries, snapshot,
  bundle, no_float, pinned, imported, once, twice, signed_columns, signature_envelope,
  signature_text, head_of, published_record, signed_runs, served-IsConsistent,
}

verify_signed-sign_record_example :
    (verify_signed base64 ed env (public_pinned base64 ed 7) signed ≡ true)
    × (without sig_key signed ≡ without sig_key plain)
verify_signed-sign_record_example =
    verify_signed-sign_record base64 ed base64-RoundTrips ed-IsGenuine env 7 plain signed_runs.signs

signed-Importable : Importable signed
signed-Importable = record {
  columns = signed_columns;
  named = signed_runs.named;
  sig = signature_envelope signed;
  envelope = signed_runs.envelope;
  first = head_of (signature_text signed);
  rest = drop 1 (signature_text signed);
  signature = signed_runs.signature;
}

once-Importable : Importable once.1
once-Importable = record {
  columns = signed_columns;
  named = signed_runs.named_once;
  sig = signature_envelope once.1;
  envelope = signed_runs.envelope_once;
  first = head_of (signature_text once.1);
  rest = drop 1 (signature_text once.1);
  signature = signed_runs.signature_once;
}

countersign_import-fingerprint_example : import_fingerprint env (some (obj once.1)) ≡ some once.0
countersign_import-fingerprint_example =
    countersign_import-fingerprint base64 ed env 9 signed signed-Importable signed_runs.original
      signed_runs.imports_once

countersign_import-again_example :
    (twice.0
      ≡ texts_digest env
          (covered once-Importable.columns ++ (once-Importable.first ∷ once-Importable.rest) ∷ []))
    × (import_fingerprint env (some (obj twice.1))
        ≡ some (
            texts_digest env (
              covered once-Importable.columns
              ++ (head_of (signature_text signed) ∷ drop 1 (signature_text signed)) ∷ [])))
countersign_import-again_example =
    countersign_import-again base64 ed env 11 once.1 once-Importable
      (head_of (signature_text signed)) (drop 1 (signature_text signed)) signed_runs.earlier
      signed_runs.imports_twice

countersign-appends_example :
    (entry : LogEntry) × (db' : Database Value) × (append_locked env fresh.db published_record time
      ≡ ok (entry, db'))
    × IsConsistent env db'
    × (entry.seq ≡ length fresh.db.log + 1)
    × (verify_signed base64 ed env (public_pinned base64 ed 9) published_record ≡ true)
countersign-appends_example =
    countersign-appends base64 ed env base64-RoundTrips ed-IsGenuine unicode fresh.db 9 (obj signed)
      (codes "alice") time signed_runs.validates signed_runs.publishes fresh-IsConsistent
      (omega (arith, signed_runs.no_entry))

portable_path-resolve_example :
    (resolve [] (split b'/' (codes "org/skill"))
      ≡ some (reversed [] (split b'/' (codes "org/skill"))))
    × (join b'/' (split b'/' (codes "org/skill")) ≡ codes "org/skill")
portable_path-resolve_example =
    portable_path-resolve unicode (codes "org/skill") signed_runs.portable

entries-Accepts :
    All
      (Accepts base64 ed env unicode no_float pinned true)
      (map (λ (e : LogEntry). e.record_fields) entries)
entries-Accepts =
    subst (All (Accepts base64 ed env unicode no_float pinned true)) (sym signed_runs.exported) (
      record {
        valid = signed_runs.validates;
        framing = signed_runs.framing;
        signed = signed_runs.verifies;
      },
      tt,
    )

check_records-exported_example :
    (checked : Checked) × (check_records base64 ed env unicode no_float pinned true genesis
        (map (λ (e : LogEntry). obj e.record_fields) entries)
      ≡ ok checked)
    × (checked.verified ≡ map (λ (e : LogEntry). e.record_fields) entries)
    × (checked.entry_hashes ≡ leaves served.db.log)
    × (check_log base64 ed env unicode no_float pinned snapshot checked ≡ ok tt)
check_records-exported_example =
    check_records-exported base64 ed env unicode no_float pinned true served.db 7
      served-IsConsistent signed_runs.reads signed_runs.builds entries-Accepts

import_bundle-Vouches_example : Vouches base64 ed env unicode no_float pinned (obj bundle)
import_bundle-Vouches_example =
    import_bundle-Vouches base64 ed env unicode no_float pinned fresh imported.1 10 9 (obj bundle)
      time false signed_runs.imports
