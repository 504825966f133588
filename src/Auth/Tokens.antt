-- ===== src/Auth/Tokens.antt =====
-- Which auditor a token names.
use curator_skill_registry.Base.{
  ◌≡◌, ◌≤◌, refl, sym, ap, true, false, List, [], ◌∷◌, ◌++◌, none, some, Text, text_eq,
  text_eq_refl, eq_of_text_eq, Bytes, hex, hex256, ltb, leb, not, length, ok, ensure, arith,
  then-eq-ok, ensure-eq-ok, ok-injective, Bool-cases, inl, inr,
}
use curator_skill_registry.Signing.PublicKey.{Base64, parse_public_key}
use curator_skill_registry.Store.{value_error}
use curator_skill_registry.Auth.{
  valid_auditor_id, is_some, Auditor, AuditorTokens, member, check_auditor, check_auditors,
  auditor_tokens, find_digest, resolve,
}

check_auditor-digest :
    (base64 : Base64) (ids digests : List Text) (a : Auditor)
    → check_auditor base64 ids digests a ≡ ok tt
    → member a.token_sha256 digests ≡ false
unfolding check_auditor
check_auditor-digest base64 ids digests a h =
    let (_, h1) = then-eq-ok (ensure (valid_auditor_id a.auditor_id) value_error) _ h in
    let (_, h2) = then-eq-ok (ensure (leb (length a.org) 8192) value_error) _ h1 in
    let (_, h3) =
      then-eq-ok (ensure (is_some (parse_public_key base64 a.public_pinned)) value_error) _ h2 in
    let (_, h4) = then-eq-ok (ensure (hex256 a.token_sha256) value_error) _ h3 in
    let (_, h5) = then-eq-ok (ensure (not (member a.auditor_id ids)) value_error) _ h4 in
    let fresh = ensure-eq-ok (not (member a.token_sha256 digests)) value_error h5 in
    ground (arith, fresh)

-- A digest that was seen is not found among the auditors that follow.
find_digest-seen :
    (base64 : Base64) (ids digests : List Text) (auditors : List Auditor) (digest : Text)
    → check_auditors base64 ids digests auditors ≡ ok tt
    → member digest digests ≡ true
    → find_digest digest auditors ≡ none
unfolding check_auditors find_digest
find_digest-seen base64 ids digests [] digest h m = refl
find_digest-seen base64 ids digests (a ∷ auditors) digest h m =
    let (this, later) = then-eq-ok (check_auditor base64 ids digests a) _ h in
    let fresh = check_auditor-digest base64 ids digests a this in
    let rest =
      find_digest-seen base64 (a.auditor_id ∷ ids) (a.token_sha256 ∷ digests) auditors digest later
        (ground (arith, m)) in
    elim (Bool-cases (text_eq a.token_sha256 digest)) [
      | inl same ↦ let e = eq_of_text_eq _ _ same in let seen = rw e at fresh in cc
      | inr other ↦ rw (find_digest, other) rest
    ]

find_digest-listed :
    (base64 : Base64) (ids digests : List Text) (xs : List Auditor) (a : Auditor)
    (ys : List Auditor)
    → check_auditors base64 ids digests (xs ++ a ∷ ys) ≡ ok tt
    → find_digest a.token_sha256 (xs ++ a ∷ ys) ≡ some a
unfolding check_auditors find_digest
find_digest-listed base64 ids digests [] a ys h = rw (text_eq_refl a.token_sha256)
find_digest-listed base64 ids digests (x ∷ xs) a ys h =
    let (this, later) = then-eq-ok (check_auditor base64 ids digests x) _ h in
    let rest = find_digest-listed base64 _ _ xs a ys later in
    elim (Bool-cases (text_eq x.token_sha256 a.token_sha256)) [
      | inl same ↦
          let e = eq_of_text_eq _ _ same in
          let none_left =
            find_digest-seen base64 _ _ (xs ++ a ∷ ys) a.token_sha256 later
              (rw (e, text_eq_refl a.token_sha256)) in
          cc
      | inr other ↦ rw (find_digest, other) rest
    ]

-- Of a list of auditors that `AuditorTokens` accepted, a token of at least 22 characters resolves
-- to each auditor whose digest is the token's.
pub resolve-auditor_tokens :
    (sha256 : Bytes → Bytes) (utf8 : Text → Bytes) (base64 : Base64) (xs : List Auditor)
    (a : Auditor) (ys : List Auditor) (tokens : AuditorTokens) (token : Text)
    → auditor_tokens base64 (xs ++ a ∷ ys) ≡ ok tokens
    → a.token_sha256 ≡ hex (sha256 (utf8 token))
    → 22 ≤ length token
    → resolve sha256 utf8 tokens token ≡ some a
unfolding auditor_tokens resolve
resolve-auditor_tokens sha256 utf8 base64 xs a ys tokens token h e long =
    let (checked, made) = then-eq-ok (check_auditors base64 [] [] (xs ++ a ∷ ys)) _ h in
    let same : tokens.by_hash ≡ xs ++ a ∷ ys = ap (λ t. t.by_hash) (sym (ok-injective made)) in
    let enough : ltb (length token) 22 ≡ false = ground (arith, long) in
    rw (enough, same, ← e) (find_digest-listed base64 [] [] xs a ys checked)
