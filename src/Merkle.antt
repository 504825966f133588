-- ===== src/Merkle.antt =====
-- The Merkle tree of src/csk_registry/store.py: `_merkle_pair_hash`, `_merkle_root`, the
-- incremental frontier of `_frontier_append` and `_frontier_root`.
-- A node is a list of bytes, and `sha256` is the digest function of hashlib, a parameter.
pub mod Levels
pub mod Root
pub mod Growth
pub mod Append
use curator_skill_registry.Base.{
  ℕ, zero, suc, ◌+◌, ◌/◌, ◌%◌, Bool, List, [], ◌∷◌, ◌++◌, Option, none, some, length, last?, ltb,
  leb, ◌==◌, ◌||◌, ◌&&◌, not, if◌then◌else◌, Bytes, Outcome, ok, err, ◌>>=◌, ◌>>◌, ensure,
}

-- The `StoreIntegrityError`s of the frontier code, and Python's `IndexError`.
pub data FrontierError : Type 0 where
  inconsistent tail_incomplete depth_exceeded index_error : FrontierError

pub record FrontierLevel : Type 0 where
  pub len : ℕ
  pub tail : List Bytes

abbrev pub Frontier : Type 0
Frontier = List FrontierLevel

-- `xs[0]`, `xs[-1]` and `xs[-2]`
unfoldable pub first : List Bytes → Outcome FrontierError Bytes
first [] = err index_error
first (x ∷ xs) = ok x

unfoldable pub last : List Bytes → Outcome FrontierError Bytes
last [] = err index_error
last (x ∷ []) = ok x
last (x ∷ y ∷ r) = last (y ∷ r)

unfoldable pub second_last : List Bytes → Outcome FrontierError Bytes
second_last [] = err index_error
second_last (x ∷ []) = err index_error
second_last (x ∷ y ∷ []) = ok x
second_last (x ∷ y ∷ z ∷ r) = second_last (y ∷ z ∷ r)

-- `xs[-2:]`
unfoldable pub last_two : List Bytes → List Bytes
last_two [] = []
last_two (x ∷ []) = x ∷ []
last_two (x ∷ y ∷ []) = x ∷ y ∷ []
last_two (x ∷ y ∷ z ∷ r) = last_two (y ∷ z ∷ r)

-- "0" * 64, as the bytes that it encodes
abbrev pub zeros : ℕ → Bytes
zeros zero = []
zeros (suc n) = 0 ∷ zeros n

abbrev pub genesis_node : Bytes
genesis_node = zeros 32

unfoldable pub frontier_root : Frontier → Outcome FrontierError Bytes
frontier_root [] = ok genesis_node
frontier_root (l ∷ []) = last l.tail
frontier_root (l ∷ m ∷ r) = frontier_root (m ∷ r)

-- the new tail of an upper level: its last node replaced, or one appended
unfoldable pub upper_tail : ℕ → FrontierLevel → Bytes → Outcome FrontierError (List Bytes)
upper_tail upper_new_length upper_old new_last =
    if upper_new_length == upper_old.len
    then (if upper_old.len == 1
        then ok (new_last ∷ [])
        else (do a ← second_last upper_old.tail; ok (a ∷ new_last ∷ [])))
    else if upper_new_length == upper_old.len + 1
    then (if upper_new_length == 1
        then ok (new_last ∷ [])
        else (do b ← last upper_old.tail; ok (last_two (b ∷ new_last ∷ []))))
    else err inconsistent

-- The end of a round: the level just written is the top, or the loop goes on above it.
unfoldable pub finish_level :
    ℕ → FrontierLevel → Outcome FrontierError Frontier → Outcome FrontierError Frontier
finish_level level_index upper rest =
    if upper.len == 1
    then ok (upper ∷ [])
    else (if ltb 64 (level_index + 1)
        then err depth_exceeded
        else (do above ← rest; ok (upper ∷ above)))

module _ (sha256 : Bytes → Bytes) where
  unfoldable pub merkle_pair_hash : Bytes → Bytes → Bytes
  merkle_pair_hash left right = sha256 (left ++ right)

  -- the `for` loop of `_merkle_root`: the next level, an odd last node paired with itself
  unfoldable pub next_level : List Bytes → List Bytes
  next_level [] = []
  next_level (left ∷ []) = merkle_pair_hash left left ∷ []
  next_level (left ∷ right ∷ r) = merkle_pair_hash left right ∷ next_level r

  -- the `while` loop of `_merkle_root`, on fuel: the level's length suffices
  unfoldable pub merkle_loop : ℕ → List Bytes → List Bytes
  merkle_loop zero level = level
  merkle_loop (suc f) level =
      let rest = merkle_loop f (next_level level) in if ltb 1 (length level) then rest else level

  abbrev pub first_or : Bytes → List Bytes → Bytes
  first_or d [] = d
  first_or d (x ∷ xs) = x

  unfoldable pub merkle_root : List Bytes → Bytes
  merkle_root level = first_or genesis_node (merkle_loop (length level) level)

  -- the hash of a level's last node, or of its last two
  unfoldable pub last_pair : ℕ → List Bytes → Outcome FrontierError Bytes
  last_pair n tail =
      if n % 2 == 1
      then (do b ← last tail; ok (merkle_pair_hash b b))
      else (do a ← second_last tail; b ← last tail; ok (merkle_pair_hash a b))

  -- The `while True` loop of `_frontier_append`. The list is `frontier[level_index:]`, which the
  -- loop rewrites; it returns what stands there in the end.
  unfoldable pub climb : Frontier → ℕ → ℕ → List Bytes → Outcome FrontierError Frontier
  climb [] level_index lower_new_length lower_new_tail =
      if leb lower_new_length 1 then ok [] else (do
        new_last ← last_pair lower_new_length lower_new_tail
        ensure ((lower_new_length + 1) / 2 == 1) inconsistent
        ok (record { len = 1; tail = new_last ∷ [] } ∷ []))
  climb (upper_old ∷ above) level_index lower_new_length lower_new_tail =
      if leb lower_new_length 1 then ok [] else (do
        new_last ← last_pair lower_new_length lower_new_tail
        ensure (not (leb 2 upper_old.len && not (length upper_old.tail == 2))) tail_incomplete
        new_tail ← upper_tail ((lower_new_length + 1) / 2) upper_old new_last
        finish_level level_index (record { len = (lower_new_length + 1) / 2; tail = new_tail })
            (climb above (level_index + 1) ((lower_new_length + 1) / 2) new_tail))

  -- `_frontier_append`: the frontier with one more leaf, and the root that is returned
  unfoldable pub frontier_append : Frontier → Bytes → Outcome FrontierError (Frontier × Bytes)
  frontier_append [] leaf = ok (record { len = 1; tail = leaf ∷ [] } ∷ [], leaf)
  frontier_append (bottom ∷ above) leaf = do
    b ← (if bottom.len == 1 then first bottom.tail else last bottom.tail)
    above' ← climb above 1 (bottom.len + 1) (b ∷ leaf ∷ [])
    root ← frontier_root (record { len = bottom.len + 1; tail = b ∷ leaf ∷ [] } ∷ above')
    ok (record { len = bottom.len + 1; tail = b ∷ leaf ∷ [] } ∷ above', root)
