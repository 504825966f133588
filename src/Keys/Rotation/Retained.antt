-- ===== src/Keys/Rotation/Retained.antt =====
-- Which public keys a rotation keeps in the keyring of src/csk_registry/keys.py.
use curator_skill_registry.Base.{
  ◌≡◌, refl, subst, ap, sym, ◌∙◌, ◌⊎◌, inl, inr, Bool, true, false, ◌||◌, List, [], ◌∷◌, ◌++◌, map,
  Option, none, some, Text, text_eq, text_eq_refl, eq_of_text_eq, any, All, All-append, arith,
  Bytes, ℕ, if◌then◌else◌, Outcome, ok, err, ok-injective, bind-eq-ok,
}
use curator_skill_registry.Json.{keys, str, equals_nat, get, put, has_exactly}
use curator_skill_registry.Signing.PublicKey.{Base64, parse_public_key}
use curator_skill_registry.Signing.Key.{Ed25519}
use curator_skill_registry.Json.Laws.{items-of_list}
use curator_skill_registry.Keys.{
  KeysError, KeyProvider, Keyring, Home, add_unique, read_entries, read_array, read_object,
  read_keyring, unique_keys, write_public_keys, keyring_of, malformed_public_key,
}
use curator_skill_registry.Keys.Rotation.{public_keys, publish_staged, pinned}

-- `value in values`
abbrev pub Lists : List Text → Text → Type 0
Lists values value = any (text_eq value) values ≡ true

any-append_left :
    {A : Type 0} (p : A → Bool) (xs ys : List A) → any p xs ≡ true → any p (xs ++ ys) ≡ true
any-append_left p [] ys h = cc
any-append_left p (x ∷ xs) ys h = ground (arith, any-append_left p xs ys)

any-append_right :
    {A : Type 0} (p : A → Bool) (xs ys : List A) → any p ys ≡ true → any p (xs ++ ys) ≡ true
any-append_right p [] ys h = h
any-append_right p (x ∷ xs) ys h = ground (arith, any-append_right p xs ys)

abbrev add_if : Bool → List Text → Text → List Text
add_if known values v = if known then values else values ++ v ∷ []

add_if-Lists :
    (known : Bool) (values : List Text) (v x : Text)
    → Lists values x
    → Lists (add_if known values v) x
add_if-Lists true values v x h = h
add_if-Lists false values v x h = any-append_left (text_eq x) values (v ∷ []) h

pub add_unique-Lists :
    (values : List Text) (v x : Text) → Lists values x → Lists (add_unique values v) x
unfolding add_unique
add_unique-Lists values v x h = add_if-Lists (any (text_eq v) values) values v x h

add_if-added :
    (known : Bool) (values : List Text) (v : Text)
    → any (text_eq v) values ≡ known
    → Lists (add_if known values v) v
add_if-added true values v h = h
add_if-added false values v h =
    any-append_right (text_eq v) values (v ∷ []) (ground (arith, text_eq_refl v))

add_unique-added : (values : List Text) (v : Text) → Lists (add_unique values v) v
unfolding add_unique
add_unique-added values v = add_if-added (any (text_eq v) values) values v refl

first_if :
    (b : Bool) (v : Text) (vs : List Text) (x : Text)
    → text_eq x v ≡ b
    → (b || any (text_eq x) vs) ≡ true
    → (x ≡ v) ⊎ Lists vs x
first_if true v vs x e h = inl (eq_of_text_eq x v e)
first_if false v vs x e h = inr h

first_or_rest : (v : Text) (vs : List Text) (x : Text) → Lists (v ∷ vs) x → (x ≡ v) ⊎ Lists vs x
first_or_rest v vs x h = first_if (text_eq x v) v vs x refl h

module _ (base64 : Base64) (float_is : Text → ℕ → Bool) where
  abbrev Parses : Text → Type 0
  Parses v = (raw : Bytes) × (parse_public_key base64 v ≡ some raw)

  add_if-Parses :
      (known : Bool) (values : List Text) (v : Text)
      → All Parses values
      → Parses v
      → All Parses (add_if known values v)
  add_if-Parses true values v hs h = hs
  add_if-Parses false values v hs h = All-append Parses values (v ∷ []) hs (h, tt)

  -- A round of the loop of `_write_public_keys` that does not raise parses its key.
  unique_parsed :
      (u vs : List Text) (v : Text) {out : List Text} (o : Option Bytes)
      → parse_public_key base64 v ≡ o
      → elim o [
        | none ↦ err malformed_public_key
        | some _ ↦ unique_keys base64 float_is (add_unique u v) vs
      ]
        ≡ ok out
      → Parses v × (unique_keys base64 float_is (add_unique u v) vs ≡ ok out)
  unique_parsed u vs v none e h = cc
  unique_parsed u vs v (some raw) e h = ((raw, e), h)

  unique_keys-Parses :
      (u vs : List Text) {out : List Text}
      → All Parses u
      → unique_keys base64 float_is u vs ≡ ok out
      → All Parses out
  unfolding unique_keys add_unique
  unique_keys-Parses u [] hs h = subst (All Parses) (ok-injective h) hs
  unique_keys-Parses u (v ∷ vs) hs h =
      let p = unique_parsed u vs v (parse_public_key base64 v) refl h in
      unique_keys-Parses (add_unique u v) vs (add_if-Parses (any (text_eq v) u) u v hs p.0) p.1

  unique_keys-kept :
      (u vs : List Text) {out : List Text}
      → unique_keys base64 float_is u vs ≡ ok out
      → (x : Text) → Lists u x
      → Lists out x
  unfolding unique_keys
  unique_keys-kept u [] h x hx = subst (λ o. Lists o x) (ok-injective h) hx
  unique_keys-kept u (v ∷ vs) h x hx =
      let p = unique_parsed u vs v (parse_public_key base64 v) refl h in
      unique_keys-kept (add_unique u v) vs p.1 x (add_unique-Lists u v x hx)

  unique_keys-Lists :
      (u vs : List Text) {out : List Text}
      → unique_keys base64 float_is u vs ≡ ok out
      → (x : Text) → Lists vs x
      → Lists out x
  unfolding unique_keys
  unique_keys-Lists u [] h x hx = cc
  unique_keys-Lists u (v ∷ vs) h x hx =
      let p = unique_parsed u vs v (parse_public_key base64 v) refl h in
      elim (first_or_rest v vs x hx) [
        | inl e ↦
            unique_keys-kept (add_unique u v) vs p.1 x
              (subst (Lists (add_unique u v)) (sym e) (add_unique-added u v))
        | inr m ↦ unique_keys-Lists (add_unique u v) vs p.1 x m
      ]

  -- Keys that parse are read back from a keyring, behind those before them.
  read_entries-Parses :
      (start u : List Text)
      → All Parses u
      → (out : List Text) × (read_entries base64 float_is start (map str u) ≡ ok out)
        × ((x : Text) → Lists start x → Lists out x)
        × ((x : Text) → Lists u x → Lists out x)
  unfolding read_entries
  read_entries-Parses start [] hs = (start, refl, λ x h. h, λ x h. cc)
  read_entries-Parses start (v ∷ u) hs =
      let rest = read_entries-Parses (add_unique start v) u hs.1 in
      (
        rest.0,
        rw (read_entries, hs.0.1) rest.1,
        λ x h. rest.2 x (add_unique-Lists start v x h),
        λ x h. elim (first_or_rest v u x h) [
          | inl e ↦ rest.2 x (subst (Lists (add_unique start v)) (sym e) (add_unique-added start v))
          | inr m ↦ rest.3 x m
        ],
      )

  ring_read :
      (start u : List Text)
      → read_keyring base64 float_is start (some (keyring_of u))
        ≡ read_entries base64 float_is start (map str u)
  unfolding read_keyring keyring_of read_object has_exactly equals_nat get put read_array text_eq
      keys
  ring_read start u = ap (read_entries base64 float_is start) (items-of_list (map str u))

module _ (base64 : Base64) (float_is : Text → ℕ → Bool) (ed : Ed25519)
    (provider : KeyProvider ed.Private) where
  -- what is read lists every one of `values`
  unfoldable pub Retains : List Text → Outcome KeysError (List Text) → Type 0
  Retains values o = (out : List Text) × (o ≡ ok out) × ((x : Text) → Lists values x → Lists out x)

  abbrev pub own : ed.Private → List Text
  own staged = pinned base64 float_is ed provider staged ∷ []

  pub publish_staged-Retains :
      (home : Home) (active staged : ed.Private) (start : List Text) {values : List Text}
      {ring : Keyring}
      → public_keys base64 float_is ed provider home active ≡ ok values
      → publish_staged base64 float_is ed provider home active staged ≡ ok ring
      → Retains values (read_keyring base64 float_is start (some ring))
  unfolding publish_staged write_public_keys Retains
  publish_staged-Retains home active staged start {values} hv h =
      let p =
        bind-eq-ok (public_keys base64 float_is ed provider home active)
          (λ vs. write_public_keys base64 float_is (vs ++ own staged)) h in
      let q =
        bind-eq-ok (unique_keys base64 float_is [] (p.0 ++ own staged)) (λ u. ok (keyring_of u))
          p.2 in
      let back =
        read_entries-Parses base64 float_is start q.0
          (unique_keys-Parses base64 float_is [] (p.0 ++ own staged) tt q.1) in
      subst (λ ring. Retains values (read_keyring base64 float_is start (some ring)))
        (ok-injective q.2)
        (
          back.0,
          ring_read base64 float_is start q.0 ∙ back.1,
          λ x hx. back.3 x (
              unique_keys-Lists base64 float_is [] (p.0 ++ own staged) q.1 x (
                any-append_left (text_eq x) p.0 (own staged)
                  (subst (λ vs. Lists vs x) (ok-injective (sym hv ∙ p.1)) hx))),
        )
