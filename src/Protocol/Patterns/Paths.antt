-- ===== src/Protocol/Patterns/Paths.antt =====
-- What a portable path names: read from a base directory, it stays below it and is its own normal
-- form.
use curator_skill_registry.Base.{
  ℕ, ◌≡◌, refl, ap, ◌∙◌, Bool, true, List, [], ◌∷◌, ◌++◌, Option, none, some, Text, codes, text_eq,
  length, ◌==◌, ◌&&◌, not, all, if◌then◌else◌, and-true, arith, Bool-cases, inl, inr,
}
use curator_skill_registry.Protocol.Patterns.{
  Unicode, one_of, split_on, split, portable_component, portable_path,
}

-- Where a path leads from a base: an empty component and `.` stay, `..` goes up, and from the base
-- itself it escapes (`none`).
up : List Text → Option (List Text)
up [] = none
up (c ∷ cs) = some cs

abbrev is_step : Text → Bool
is_step c = not (length c == 0) && not (text_eq c (codes ".")) && not (text_eq c (codes ".."))

-- the directories entered so far, innermost first
pub resolve : List Text → List Text → Option (List Text)
unfolding up
resolve entered [] = some entered
resolve entered (c ∷ cs) =
    let deeper = resolve (c ∷ entered) cs in
    let here = resolve entered cs in
    let above : Option (List Text) = elim (up entered) [
      | none ↦ none
      | some outer ↦ resolve outer cs
    ] in
    if is_step c then deeper else (if text_eq c (codes "..") then above else here)

abbrev pub reversed : List Text → List Text → List Text
reversed acc [] = acc
reversed acc (c ∷ cs) = reversed (c ∷ acc) cs

-- `mark.join(components)`
abbrev pub join : ℕ → List Text → Text
join mark [] = []
join mark (c ∷ []) = c
join mark (c ∷ d ∷ cs) = c ++ mark ∷ join mark (d ∷ cs)

module _ (unicode : Unicode) where
  portable_component-is_step : (c : Text) → portable_component unicode c ≡ true → is_step c ≡ true
  unfolding portable_component one_of
  portable_component-is_step c h = ground (arith, h)

  all-resolve :
      (entered cs : List Text)
      → all (portable_component unicode) cs ≡ true
      → resolve entered cs ≡ some (reversed entered cs)
  unfolding resolve
  all-resolve entered [] h = refl
  all-resolve entered (c ∷ cs) h =
      let (p, q) =
        and-true (portable_component unicode c) (all (portable_component unicode) cs) h in
      rw (portable_component-is_step c p) (all-resolve (c ∷ entered) cs q)

join-cons :
    (mark c : ℕ) (first : Text) (rest : List Text)
    → join mark ((c ∷ first) ∷ rest) ≡ c ∷ join mark (first ∷ rest)
join-cons mark c first [] = refl
join-cons mark c first (d ∷ rest) = refl

join-split : (mark : ℕ) (t : Text) → join mark (split mark t) ≡ t
unfolding split split_on
join-split mark [] = refl
join-split mark (c ∷ t) = elim (Bool-cases (c == mark)) [
  | inl e ↦
      let same : c ≡ mark = ground (arith, e) in rw (e, same) (ap (◌∷◌ mark) (join-split mark t))
  | inr e ↦
      rw e
        (join-cons mark c (split_on mark t).0 (split_on mark t).1 ∙ ap (◌∷◌ c) (join-split mark t))
]

-- A path that `portable_path` accepts, read from a base directory with `.` and empty parts as
-- staying and `..` as going up, enters exactly its components one after the other, none of which
-- leads up, and joining its components gives the path back.
pub portable_path-resolve :
    (unicode : Unicode) (value : Text)
    → portable_path unicode value ≡ true
    → (resolve [] (split b'/' value) ≡ some (reversed [] (split b'/' value)))
      × (join b'/' (split b'/' value) ≡ value)
unfolding portable_path
portable_path-resolve unicode value h =
    let (_, good) = and-true _ (all (portable_component unicode) (split b'/' value)) h in
    (all-resolve unicode [] (split b'/' value) good, join-split b'/' value)
