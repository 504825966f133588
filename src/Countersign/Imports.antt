-- ===== src/Countersign/Imports.antt =====
-- The fingerprint under which a record is imported, and the one that the verification of the store
-- computes from the stored record.
use curator_skill_registry.Base.{
  ℕ, ◌≡◌, refl, ap, ◌∙◌, false, List, [], ◌∷◌, ◌++◌, Option, none, some, Text, codes, text_eq,
  text_eq_refl, ok, ok-injective, bind-eq-ok, Option-cases, inl, inr, subst,
}
use curator_skill_registry.Json.{
  Value, Fields, Items, null, bool, int, float, str, arr, obj, get, put, without, items,
  nonempty_str, as_str,
}
use curator_skill_registry.Json.Laws.{get-put_same}
use curator_skill_registry.Signing.{Env, sig_key}
use curator_skill_registry.Signing.PublicKey.{Base64}
use curator_skill_registry.Signing.Key.{Ed25519, sign_record}
use curator_skill_registry.Store.Append.{Columns, require_str, require_columns}
use curator_skill_registry.Json.Laws.{items-of_list}
use curator_skill_registry.Store.Verify.Ledgers.{
  equals_text, endorsement_signature, upstream_signature, all_texts, texts_digest,
  import_fingerprint, or_else,
}
use curator_skill_registry.Countersign.{value_or, endorsement, extended, endorsed}
use curator_skill_registry.Countersign.Reads.{get-without_other, get-endorsed, get-sign_record}

-- The endorsements that a record has, where it has a list of them.
abbrev pub listed : Option Value → List Value
listed (some (arr xs)) = items xs
listed _ = []

extended-listed :
    (v : Option Value) (e : Value)
    → (xs : Items) × (extended v e ≡ arr xs) × (items xs ≡ listed v ++ e ∷ [])
unfolding extended
extended-listed none e = (_, refl, items-of_list (e ∷ []))
extended-listed (some (arr ys)) e = (_, refl, items-of_list (items ys ++ e ∷ []))
extended-listed (some (str t)) e = (_, refl, items-of_list (e ∷ []))
extended-listed (some null) e = (_, refl, items-of_list (e ∷ []))
extended-listed (some (bool b)) e = (_, refl, items-of_list (e ∷ []))
extended-listed (some (int n)) e = (_, refl, items-of_list (e ∷ []))
extended-listed (some (float f)) e = (_, refl, items-of_list (e ∷ []))
extended-listed (some (obj fs)) e = (_, refl, items-of_list (e ∷ []))

-- The first endorsement by an upstream import counts.
pub upstream_signature-append :
    (vs : List Value) (e : Value)
    → upstream_signature (vs ++ e ∷ [])
      ≡ or_else (upstream_signature vs) (upstream_signature (e ∷ []))
unfolding upstream_signature or_else
upstream_signature-append [] e = refl
upstream_signature-append (v ∷ vs) e = elim (Option-cases (endorsement_signature v)) [
  | inl k ↦ rw (upstream_signature, k, upstream_signature-append vs e)
  | inr (s, k) ↦ rw (upstream_signature, k)
]

get-endorsements :
    (endorser : Text) (body bare : Fields)
    → get (codes "endorsements") (endorsed endorser body bare)
      ≡ some (extended (get (codes "endorsements") bare) (endorsement endorser body))
unfolding endorsed
get-endorsements endorser body bare = get-put_same (codes "endorsements") _ bare

-- The endorsement that countersigning adds has the signature of the record.
endorsement-fields :
    (body : Fields)
    → (fields : Fields) × (endorsement (codes "upstream-import") body ≡ obj fields)
      × (get (codes "endorser") fields ≡ some (str (codes "upstream-import")))
      × (get sig_key fields ≡ some (value_or null (get sig_key body)))
unfolding endorsement put get text_eq
endorsement-fields body = (_, refl, refl, refl)

pub upstream_signature-endorsement :
    (body sig : Fields) (s : Text)
    → get sig_key body ≡ some (obj sig)
    → get (codes "signature") sig ≡ some (str s)
    → upstream_signature (endorsement (codes "upstream-import") body ∷ []) ≡ some (str s)
unfolding upstream_signature endorsement_signature equals_text value_or as_str
upstream_signature-endorsement body sig s e k =
    let (fields, shape, who, what) = endorsement-fields body in
    rw (
      shape,
      upstream_signature,
      endorsement_signature,
      who,
      text_eq_refl (codes "upstream-import"),
      what,
      e,
      k,
    )

all_texts-cons :
    (v : Option Value) (vs : List (Option Value)) {t : Text} {ts : List Text}
    → nonempty_str v ≡ some t
    → all_texts vs ≡ some ts
    → all_texts (v ∷ vs) ≡ some (t ∷ ts)
unfolding all_texts
all_texts-cons v vs h k = rw (all_texts, h, k)

all_texts-nil : all_texts [] ≡ some []
unfolding all_texts
all_texts-nil = refl

nonempty_str-cons : (c : ℕ) (t : Text) → nonempty_str (some (str (c ∷ t))) ≡ some (c ∷ t)
unfolding nonempty_str
nonempty_str-cons c t = refl

require_str-nonempty :
    (key : Text) (body : Fields) {t : Text}
    → require_str key body ≡ ok t
    → nonempty_str (get key body) ≡ some t
unfolding require_str
require_str-nonempty key body h = elim (Option-cases (nonempty_str (get key body))) [
  | inl e ↦ let none_there = rw (require_str, e) at h in cc
  | inr (t, e) ↦ rw e (ap some (ok-injective (rw (require_str, e) at h)))
]

-- The four columns that a fingerprint covers.
abbrev pub covered : Columns → List Text
covered columns =
    columns.source_identity ∷ columns.commit_hash ∷ columns.content_sha256 ∷ columns.status ∷ []

record Covers (body : Fields) (columns : Columns) : Type 0 where
  source_identity : nonempty_str (get (codes "source_identity") body) ≡ some columns.source_identity
  commit_hash : nonempty_str (get (codes "commit") body) ≡ some columns.commit_hash
  content_sha256 : nonempty_str (get (codes "content_sha256") body) ≡ some columns.content_sha256
  status : nonempty_str (get (codes "status") body) ≡ some columns.status

require_columns-Covers :
    (body : Fields) (columns : Columns) → require_columns body ≡ ok columns → Covers body columns
unfolding require_columns
require_columns-Covers body columns h =
    let (_, _, h1) = bind-eq-ok (require_str (codes "name") body) _ h in
    let (_, e1, h2) = bind-eq-ok (require_str (codes "source_identity") body) _ h1 in
    let (_, e2, h3) = bind-eq-ok (require_str (codes "commit") body) _ h2 in
    let (_, e3, h4) = bind-eq-ok (require_str (codes "content_sha256") body) _ h3 in
    let (_, e4, h5) = bind-eq-ok (require_str (codes "status") body) _ h4 in
    subst (Covers body) (ok-injective h5) (record {
      source_identity = require_str-nonempty (codes "source_identity") body e1;
      commit_hash = require_str-nonempty (codes "commit") body e2;
      content_sha256 = require_str-nonempty (codes "content_sha256") body e3;
      status = require_str-nonempty (codes "status") body e4;
    })

module _ (base64 : Base64) (ed : Ed25519) {Doc : Type 0} (env : Env Doc) where
  signed-endorsements :
      (k : ed.Private) (body : Fields) {signed : Fields}
      → sign_record base64 ed env k (endorsed (codes "upstream-import") body (without sig_key body))
        ≡ ok signed
      → (xs : Items) × (get (codes "endorsements") signed ≡ some (arr xs))
        × (items xs
            ≡ listed (get (codes "endorsements") body)
              ++ endorsement (codes "upstream-import") body ∷ [])
  signed-endorsements k body {signed} h =
      let bare = without sig_key body in
      let e = endorsement (codes "upstream-import") body in
      let kept : get (codes "endorsements") bare ≡ get (codes "endorsements") body =
        get-without_other sig_key (codes "endorsements") body (unfold text_eq in refl) in
      let (xs, shape, list) = extended-listed (get (codes "endorsements") bare) e in
      (
        xs,
        get-sign_record base64 ed env k (codes "endorsements") _ h (unfold text_eq in refl)
            ∙ get-endorsements (codes "upstream-import") body bare
            ∙ ap some shape,
        list ∙ ap (λ v. listed v ++ e ∷ []) kept,
      )

  signed-column :
      (k : ed.Private) (key : Text) (body : Fields) {signed : Fields}
      → sign_record base64 ed env k (endorsed (codes "upstream-import") body (without sig_key body))
        ≡ ok signed
      → text_eq sig_key key ≡ false
      → text_eq (codes "endorsements") key ≡ false
      → get key signed ≡ get key body
  signed-column k key body h s e =
      get-sign_record base64 ed env k key _ h s
      ∙ get-endorsed (codes "upstream-import") key body (without sig_key body) e
      ∙ get-without_other sig_key key body s

  -- The fingerprint that the verification computes from a countersigned record covers the first
  -- signature by an upstream import that stands in it.
  pub import_fingerprint-signed :
      (k : ed.Private) (body : Fields) (columns : Columns) (c : ℕ) (t : Text) {signed : Fields}
      → require_columns body ≡ ok columns
      → upstream_signature (
          listed (get (codes "endorsements") body)
          ++ endorsement (codes "upstream-import") body ∷ [])
        ≡ some (str (c ∷ t))
      → sign_record base64 ed env k (endorsed (codes "upstream-import") body (without sig_key body))
        ≡ ok signed
      → import_fingerprint env (some (obj signed))
        ≡ some (texts_digest env (covered columns ++ (c ∷ t) ∷ []))
  unfolding import_fingerprint text_eq
  import_fingerprint-signed k body columns c t {signed} named first h =
      let v = require_columns-Covers body columns named in
      let (xs, there, list) = signed-endorsements k body h in
      let same =
        λ (key : Text) (s : text_eq sig_key key ≡ false)
            (e : text_eq (codes "endorsements") key ≡ false).
          ap nonempty_str (signed-column k key body h s e) in
      let last : nonempty_str (upstream_signature (items xs)) ≡ some (c ∷ t) =
        ap nonempty_str (ap upstream_signature list ∙ first) ∙ nonempty_str-cons c t in
      let texts =
        all_texts-cons _ _ (same (codes "source_identity") refl refl ∙ v.source_identity) (
          all_texts-cons _ _ (same (codes "commit") refl refl ∙ v.commit_hash) (
            all_texts-cons _ _ (same (codes "content_sha256") refl refl ∙ v.content_sha256) (
              all_texts-cons _ _ (same (codes "status") refl refl ∙ v.status)
                (all_texts-cons _ [] last all_texts-nil)))) in
      rw (import_fingerprint, there, texts)
