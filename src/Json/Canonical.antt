-- ===== src/Json/Canonical.antt =====
-- `_validate_ccj` of src/csk_registry/signing.py: which values have a canonical form.
use curator_skill_registry.Base.{
  ℕ, suc, ◌+◌, ◌≤◌, ◌<◌, ◌≡◌, ◌↔◌, Bool, true, false, ltb, leb, ◌&&◌, not, any, Outcome, ok, err,
  ◌>>◌, ensure, ensure-eq-ok, ensure-true, then-eq-ok, then-ok, and-true, and-intro, max, arith,
}
use curator_skill_registry.Json.{
  ℤ, pos, negsuc, Value, Items, Fields, null, bool, int, float, str, arr, obj, nil, cons, end,
  field,
}

-- `CanonicalDepthError`, and every other `CanonicalError`.
pub data CanonicalError : Type 0 where
  too_deep not_canonical : CanonicalError

abbrev pub max_safe_integer : ℕ
max_safe_integer = 9007199254740991

abbrev pub max_json_depth : ℕ
max_json_depth = 100

is_safe : ℤ → Bool
is_safe (pos n) = leb n max_safe_integer
is_safe (negsuc n) = leb (n + 1) max_safe_integer

is_surrogate : ℕ → Bool
is_surrogate c = leb 0xd800 c && leb c 0xdfff

unfoldable mutual
  unfolding is_safe is_surrogate

  pub validate_ccj : Value → ℕ → Outcome CanonicalError (Unit {0})
  validate_ccj null depth = ok tt
  validate_ccj (bool b) depth = ok tt
  validate_ccj (int n) depth = ensure (is_safe n) not_canonical
  validate_ccj (float t) depth = err not_canonical
  validate_ccj (str s) depth = ensure (not (any is_surrogate s)) not_canonical
  validate_ccj (arr xs) depth =
      ensure (not (ltb max_json_depth (depth + 1))) too_deep >> validate_items xs (depth + 1)
  validate_ccj (obj fs) depth =
      ensure (not (ltb max_json_depth (depth + 1))) too_deep >> validate_fields fs (depth + 1)

  -- the loop over the items of a list
  pub validate_items : Items → ℕ → Outcome CanonicalError (Unit {0})
  validate_items nil depth = ok tt
  validate_items (cons v rest) depth = validate_ccj v depth >> validate_items rest depth

  -- the loop over the keys and values of a dict; a key is always a text
  pub validate_fields : Fields → ℕ → Outcome CanonicalError (Unit {0})
  validate_fields end depth = ok tt
  validate_fields (field k v rest) depth =
      ensure (not (any is_surrogate k)) not_canonical
      >> (validate_ccj v depth >> validate_fields rest depth)

-- How many lists and dicts stand inside one another.
mutual
  pub nesting : Value → ℕ
  nesting (arr xs) = suc (nesting_items xs)
  nesting (obj fs) = suc (nesting_fields fs)
  nesting _ = 0

  pub nesting_items : Items → ℕ
  nesting_items nil = 0
  nesting_items (cons v rest) = max (nesting v) (nesting_items rest)

  pub nesting_fields : Fields → ℕ
  nesting_fields end = 0
  nesting_fields (field k v rest) = max (nesting v) (nesting_fields rest)

-- Safe integers, texts with no lone surrogate, no float, at every depth.
mutual
  pub is_plain : Value → Bool
  is_plain null = true
  is_plain (bool b) = true
  is_plain (int n) = is_safe n
  is_plain (float t) = false
  is_plain (str s) = not (any is_surrogate s)
  is_plain (arr xs) = plain_items xs
  is_plain (obj fs) = plain_fields fs

  pub plain_items : Items → Bool
  plain_items nil = true
  plain_items (cons v rest) = is_plain v && plain_items rest

  pub plain_fields : Fields → Bool
  plain_fields end = true
  plain_fields (field k v rest) = not (any is_surrogate k) && (is_plain v && plain_fields rest)

shallow→lt : (d : ℕ) → not (ltb max_json_depth (d + 1)) ≡ true → d < max_json_depth
shallow→lt d h = ground arith

lt→shallow : (d : ℕ) → d < max_json_depth → not (ltb max_json_depth (d + 1)) ≡ true
lt→shallow d h = ground arith

mutual
  unfolding validate_ccj nesting is_plain

  ccj_sound :
      (v : Value) (d : ℕ)
      → validate_ccj v d ≡ ok tt
      → (is_plain v ≡ true) × (d + nesting v ≤ max max_json_depth d)
  ccj_sound null d h = ground arith
  ccj_sound (bool b) d h = ground arith
  ccj_sound (int n) d h = (ensure-eq-ok _ _ h, omega arith)
  ccj_sound (float t) d h = cc
  ccj_sound (str s) d h = (ensure-eq-ok _ _ h, omega arith)
  ccj_sound (arr xs) d h =
      let (g, r) = then-eq-ok _ _ h in
      let ih = ccj_items_sound xs (d + 1) r in
      let fits : d < max_json_depth = shallow→lt d (ensure-eq-ok _ _ g) in
      (ih.0, omega (arith, ih.1))
  ccj_sound (obj fs) d h =
      let (g, r) = then-eq-ok _ _ h in
      let ih = ccj_fields_sound fs (d + 1) r in
      let fits : d < max_json_depth = shallow→lt d (ensure-eq-ok _ _ g) in
      (ih.0, omega (arith, ih.1))

  ccj_items_sound :
      (xs : Items) (d : ℕ)
      → validate_items xs d ≡ ok tt
      → (plain_items xs ≡ true) × (d + nesting_items xs ≤ max max_json_depth d)
  ccj_items_sound nil d h = ground arith
  ccj_items_sound (cons v rest) d h =
      let (g, r) = then-eq-ok _ _ h in
      let here = ccj_sound v d g in
      let ih = ccj_items_sound rest d r in (and-intro here.0 ih.0, omega (arith, here.1, ih.1))

  ccj_fields_sound :
      (fs : Fields) (d : ℕ)
      → validate_fields fs d ≡ ok tt
      → (plain_fields fs ≡ true) × (d + nesting_fields fs ≤ max max_json_depth d)
  ccj_fields_sound end d h = ground arith
  ccj_fields_sound (field k v rest) d h =
      let (f, more) = then-eq-ok _ _ h in
      let (g, r) = then-eq-ok _ _ more in
      let here = ccj_sound v d g in
      let ih = ccj_fields_sound rest d r in
      (and-intro (ensure-eq-ok _ _ f) (and-intro here.0 ih.0), omega (arith, here.1, ih.1))

mutual
  unfolding validate_ccj nesting is_plain

  ccj_complete :
      (v : Value) (d : ℕ)
      → is_plain v ≡ true
      → d + nesting v ≤ max_json_depth
      → validate_ccj v d ≡ ok tt
  ccj_complete null d h b = ground arith
  ccj_complete (bool _) d h b = ground arith
  ccj_complete (int n) d h b = ensure-true _ _ h
  ccj_complete (float t) d h b = cc
  ccj_complete (str s) d h b = ensure-true _ _ h
  ccj_complete (arr xs) d h b =
      then-ok _ _ (ensure-true _ _ (lt→shallow d (omega arith)))
        (ccj_items_complete xs (d + 1) h (omega arith))
  ccj_complete (obj fs) d h b =
      then-ok _ _ (ensure-true _ _ (lt→shallow d (omega arith)))
        (ccj_fields_complete fs (d + 1) h (omega arith))

  ccj_items_complete :
      (xs : Items) (d : ℕ)
      → plain_items xs ≡ true
      → d + nesting_items xs ≤ max_json_depth
      → validate_items xs d ≡ ok tt
  ccj_items_complete nil d h b = ground arith
  ccj_items_complete (cons v rest) d h b =
      let (p, q) = and-true _ _ h in
      then-ok _ _ (ccj_complete v d p (omega arith)) (ccj_items_complete rest d q (omega arith))

  ccj_fields_complete :
      (fs : Fields) (d : ℕ)
      → plain_fields fs ≡ true
      → d + nesting_fields fs ≤ max_json_depth
      → validate_fields fs d ≡ ok tt
  ccj_fields_complete end d h b = ground arith
  ccj_fields_complete (field k v rest) d h b =
      let (f, more) = and-true _ _ h in
      let (p, q) = and-true _ _ more in
      then-ok _ _ (ensure-true _ _ f) (
        then-ok _ _ (ccj_complete v d p (omega arith)) (ccj_fields_complete rest d q (omega arith)))

-- `_validate_ccj` accepts a value exactly when its integers are safe, its texts and keys hold no
-- lone surrogate, it has no float, and it nests at most 100 lists and dicts.
pub validate_ccj_iff :
    (v : Value) → (validate_ccj v 0 ≡ ok tt) ↔ ((is_plain v ≡ true) × (nesting v ≤ max_json_depth))
validate_ccj_iff v = (
  λ h. ((ccj_sound v 0 h).0, omega (arith, (ccj_sound v 0 h).1)),
  λ h. ccj_complete v 0 h.0 (omega arith),
)
