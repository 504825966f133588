-- ===== src/Store/Frontier.antt =====
-- `_load_frontier` and `_save_frontier`: the table merkle_frontier, whose tails are JSON arrays of
-- hexadecimal digests.
use curator_skill_registry.Base.{
  ℕ, ◌+◌, List, [], ◌∷◌, Option, none, some, Bytes, hex, from_hex, hex256, ltb, leb, ◌==◌, ◌&&◌,
  ◌||◌, not, length, map, Outcome, ok, err, ◌>>=◌, ◌>>◌, ensure,
}
use curator_skill_registry.Json.{Value, str, arr, items, of_list}
use curator_skill_registry.Merkle.{Frontier, FrontierLevel}
use curator_skill_registry.Signing.{Env}
use curator_skill_registry.Store.{
  FrontierRow, Failure, levels_not_contiguous, frontier_encoding, frontier_length,
}

-- the digests of a tail: every item a text that `_hex256` accepts
unfoldable pub decode_tail : List Value → Outcome Failure (List Bytes)
decode_tail [] = ok []
decode_tail (str t ∷ vs) = do
  ensure (hex256 t) frontier_encoding
  rest ← decode_tail vs
  elim (from_hex t) [ none ↦ err frontier_encoding | some b ↦ ok (b ∷ rest) ]
decode_tail (_ ∷ vs) = err frontier_encoding

-- `isinstance(tail_hex, list) and 1 <= len(tail_hex) <= 2`
unfoldable pub tail_items : Option Value → Outcome Failure (List Value)
tail_items (some (arr xs)) =
    let l = length (items xs) in ensure (leb 1 l && leb l 2) frontier_encoding >> ok (items xs)
tail_items _ = err frontier_encoding

module _ {Doc : Type 0} (env : Env Doc) where
  unfoldable pub load_level : FrontierRow Doc → Outcome Failure FrontierLevel
  load_level row = do
    vs ← tail_items (env.loads row.tail)
    tail ← decode_tail vs
    ensure (not (ltb row.len 1 || ltb row.len (length tail))) frontier_length
    ok (record { len = row.len; tail = tail })

  -- the loop over `enumerate(rows)`
  unfoldable pub load_from : ℕ → List (FrontierRow Doc) → Outcome Failure Frontier
  load_from index [] = ok []
  load_from index (row ∷ rows) = do
    ensure (row.level == index) levels_not_contiguous
    l ← load_level row
    rest ← load_from (index + 1) rows
    ok (l ∷ rest)

  unfoldable pub load_frontier : List (FrontierRow Doc) → Outcome Failure Frontier
  load_frontier rows = load_from 0 rows

  unfoldable pub encode_tail : List Bytes → Value
  encode_tail tail = arr (of_list (map (λ b. str (hex b)) tail))

  unfoldable pub save_from : ℕ → Frontier → List (FrontierRow Doc)
  save_from level [] = []
  save_from level (l ∷ f) =
      record { level = level; len = l.len; tail = env.dumps (encode_tail l.tail) }
      ∷ save_from (level + 1) f

  unfoldable pub save_frontier : Frontier → List (FrontierRow Doc)
  save_frontier f = save_from 0 f
