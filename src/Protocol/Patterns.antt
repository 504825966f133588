-- ===== src/Protocol/Patterns.antt =====
-- The regular expressions of src/csk_registry/protocol.py, and its portable names and paths. What
-- unicodedata and `str` say of a character is a parameter.
pub mod Paths
use curator_skill_registry.Base.{
  ℕ, Bool, true, false, List, [], ◌∷◌, ◌++◌, Text, codes, text_eq, is_lower_hex, hex256, ltb, leb,
  ◌==◌, ◌&&◌, ◌||◌, not, if◌then◌else◌, length, take, drop, all, any, map,
}

-- What Python's texts know of characters.
pub record Unicode : Type 0 where
  -- `unicodedata.category(c) == "Cc"`
  pub is_control : ℕ → Bool
  -- `c.isspace()`
  pub is_space : ℕ → Bool
  -- `t.casefold()`
  pub casefold : Text → Text

unfoldable pub is_digit : ℕ → Bool
is_digit c = leb b'0' c && leb c b'9'

is_lower : ℕ → Bool
is_lower c = leb b'a' c && leb c b'z'

is_alnum : ℕ → Bool
unfolding is_lower is_digit
is_alnum c = is_lower c || (leb b'A' c && leb c b'Z') || is_digit c

-- ^[A-Za-z0-9][A-Za-z0-9._-]*$
unfoldable pub matches_identifier : Text → Bool
unfolding is_alnum
matches_identifier [] = false
matches_identifier (c ∷ t) =
    is_alnum c && all (λ d. is_alnum d || d == b'.' || d == b'_' || d == b'-') t

-- ^[a-z0-9][a-z0-9.-]*$
unfoldable pub matches_host : Text → Bool
unfolding is_lower is_digit
matches_host [] = false
matches_host (c ∷ t) =
    (is_lower c || is_digit c) && all (λ d. is_lower d || is_digit d || d == b'.' || d == b'-') t

-- ^[0-9a-f]{40}(?:[0-9a-f]{24})?$
unfoldable pub matches_commit : Text → Bool
matches_commit t = (length t == 40 || length t == 64) && all is_lower_hex t

-- ^sha256:[0-9a-f]{64}$
unfoldable pub matches_sha256 : Text → Bool
matches_sha256 t = text_eq (take 7 t) (codes "sha256:") && hex256 (drop 7 t)

-- ^[0-9a-f]{16}$
unfoldable pub matches_key_id : Text → Bool
matches_key_id t = length t == 16 && all is_lower_hex t

-- a text against a pattern in which `0` stands for a digit
unfoldable pub fits : Text → Text → Bool
fits [] [] = true
fits [] (c ∷ t) = false
fits (p ∷ ps) [] = false
fits (p ∷ ps) (c ∷ t) = (if p == b'0' then is_digit c else c == p) && fits ps t

-- ^[0-9]{4}-[0-9]{2}-[0-9]{2}T[0-9]{2}:[0-9]{2}:[0-9]{2}Z$
unfoldable pub matches_timestamp : Text → Bool
matches_timestamp t = fits (codes "0000-00-00T00:00:00Z") t

-- `value in {...}` for texts
unfoldable pub one_of : List Text → Text → Bool
one_of names t = any (text_eq t) names

-- `_WINDOWS_RESERVED`
abbrev numbered : Text → List Text
numbered prefix = map (λ d. prefix ++ d ∷ []) (codes "123456789")

abbrev pub windows_reserved : List Text
windows_reserved =
    codes "con"
    ∷ codes "prn"
    ∷ codes "aux"
    ∷ codes "nul"
    ∷ (numbered (codes "com") ++ numbered (codes "lpt"))

-- `value.split(mark, 1)[0]`
unfoldable pub before : ℕ → Text → Text
before mark [] = []
before mark (c ∷ t) = if c == mark then [] else c ∷ before mark t

-- `value.partition(mark)[2]`, empty when the mark is missing
unfoldable pub behind : ℕ → Text → Text
behind mark [] = []
behind mark (c ∷ t) = if c == mark then t else behind mark t

-- `value.split(mark)`
unfoldable pub split_on : ℕ → Text → Text × List Text
split_on mark [] = ([], [])
split_on mark (c ∷ t) =
    let (first, rest) = split_on mark t in
    if c == mark then ([], first ∷ rest) else (c ∷ first, rest)

unfoldable pub split : ℕ → Text → List Text
split mark t = let (first, rest) = split_on mark t in first ∷ rest

-- `value.endswith((" ", "."))`
unfoldable pub ends_badly : Text → Bool
ends_badly [] = false
ends_badly (c ∷ []) = c == b' ' || c == b'.'
ends_badly (c ∷ d ∷ t) = ends_badly (d ∷ t)

module _ (unicode : Unicode) where
  -- `_portable_component(value)`
  unfoldable pub portable_component : Text → Bool
  portable_component value =
      not (
        length value == 0
        || one_of (codes "." ∷ codes ".." ∷ []) value
        || ends_badly value
        || any (λ c. c == b':' || c == b'/' || c == b'\\') value)
      && not (any unicode.is_control value)
      && not (one_of windows_reserved (unicode.casefold (before b'.' value)))

  -- `portable_path(value)`
  unfoldable pub portable_path : Text → Bool
  portable_path value =
      not (
        length value == 0
        || ltb 4096 (length value)
        || text_eq (take 1 value) (codes "/")
        || any (λ c. c == b'\\') value)
      && all portable_component (split b'/' value)

  -- `validate_source_identity(value)`; `false` is its ProtocolError
  unfoldable pub valid_source_identity : Text → Bool
  valid_source_identity value =
      not (ltb 4096 (length value))
      && any (λ c. c == b'/') value
      && matches_host (before b'/' value)
      && portable_path (behind b'/' value)
      && not
          (any (λ c. unicode.is_space c || c == b'%' || c == b'?' || c == b'#') (behind b'/' value))
