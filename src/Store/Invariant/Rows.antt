-- ===== src/Store/Invariant/Rows.antt =====
-- Finding rows and boundaries by number in a log that is numbered from 1.
use curator_skill_registry.Base.{
  ℕ, suc, ◌+◌, ◌≤◌, ◌≡◌, refl, sym, ap, List, [], ◌∷◌, ◌++◌, none, some, Text, Bytes, hex, from_hex,
  from_hex-hex, IsDigest, length, length-append, arith, ◌==◌, false, All, append_assoc, append-nil,
  inl, inr, ◌⊎◌,
}
use curator_skill_registry.Signing.{Env}
use curator_skill_registry.Store.{LogRow, head_row, row_at, boundary_at}
use curator_skill_registry.Store.Boundary.{head_seq}
use curator_skill_registry.Store.Append.{chain_hash, head_hash}
use curator_skill_registry.Store.Invariant.{
  leaf_of, leaves, Numbered, RowIsValid, Chain, boundary_of, boundaries_from,
}

module _ {Doc : Type 0} where
  pub leaves-append : (xs ys : List (LogRow Doc)) → leaves (xs ++ ys) ≡ leaves xs ++ leaves ys
  leaves-append [] ys = refl
  leaves-append (x ∷ xs) ys = ap (◌∷◌ (leaf_of x)) (leaves-append xs ys)

  pub length-leaves : (xs : List (LogRow Doc)) → length (leaves xs) ≡ length xs
  length-leaves [] = refl
  length-leaves (x ∷ xs) = ap suc (length-leaves xs)

  -- A log is empty or has a last row.
  pub log-cases :
      (log : List (LogRow Doc))
      → (log ≡ []) ⊎ ((m : List (LogRow Doc)) × (r : LogRow Doc) × (log ≡ m ++ r ∷ []))
  log-cases [] = inl refl
  log-cases (r ∷ rs) = elim (log-cases rs) [
    | inl e ↦ inr ([], r, ap (◌∷◌ r) e)
    | inr (m, q, e) ↦ inr (r ∷ m, q, ap (◌∷◌ r) e)
  ]

  pub Numbered-middle :
      (n : ℕ) (xs : List (LogRow Doc)) (r : LogRow Doc) (ys : List (LogRow Doc))
      → Numbered n (xs ++ r ∷ ys)
      → r.seq ≡ n + length xs
  Numbered-middle n [] r ys h = omega (arith, h.0)
  Numbered-middle n (x ∷ xs) r ys h = omega (arith, Numbered-middle (suc n) xs r ys h.1)

  pub Numbered-append :
      (n : ℕ) (xs : List (LogRow Doc)) (r : LogRow Doc)
      → Numbered n xs
      → r.seq ≡ n + length xs
      → Numbered n (xs ++ r ∷ [])
  Numbered-append n [] r h e = (omega arith, tt)
  Numbered-append n (x ∷ xs) r h e = (h.0, Numbered-append (suc n) xs r h.1 (omega arith))

  pub head_row-append : (xs : List (LogRow Doc)) (r : LogRow Doc) → head_row (xs ++ r ∷ []) ≡ some r
  unfolding head_row
  head_row-append [] r = refl
  head_row-append (x ∷ []) r = refl
  head_row-append (x ∷ y ∷ rs) r = head_row-append (y ∷ rs) r

  pub row_at-middle :
      (n : ℕ) (xs : List (LogRow Doc)) (r : LogRow Doc) (ys : List (LogRow Doc))
      → Numbered n (xs ++ r ∷ ys)
      → row_at (n + length xs) (xs ++ r ∷ ys) ≡ some r
  unfolding row_at
  row_at-middle n [] r ys h = ground arith
  row_at-middle n (x ∷ xs) r ys h = ground (arith, row_at-middle (suc n) xs r ys)

  pub head_seq-last : (m : List (LogRow Doc)) (r : LogRow Doc) → head_seq (m ++ r ∷ []) ≡ r.seq
  unfolding head_seq
  head_seq-last m r = rw (head_row-append m r, head_seq)

  pub head_hash-last :
      (m : List (LogRow Doc)) (r : LogRow Doc) → head_hash (m ++ r ∷ []) ≡ r.entry_hash
  unfolding head_hash
  head_hash-last m r = rw (head_row-append m r, head_hash)

  head_seq-append :
      (m : List (LogRow Doc)) (r : LogRow Doc)
      → Numbered 1 (m ++ r ∷ [])
      → head_seq (m ++ r ∷ []) ≡ length (m ++ r ∷ [])
  head_seq-append m r h =
      rw head_seq-last (omega (arith, Numbered-middle 1 m r [] h, length-append m (r ∷ [])))

  -- The head of a numbered log.
  pub head_seq-Numbered : (log : List (LogRow Doc)) → Numbered 1 log → head_seq log ≡ length log
  head_seq-Numbered log h = elim (log-cases log) [
    | inl e ↦ rw e (unfold head_seq head_row in refl)
    | inr (m, r, e) ↦ rw e (head_seq-append m r (rw e at h))
  ]

module _ {Doc : Type 0} (env : Env Doc) where
  -- The boundary found at a row's number is that of the prefix which ends with the row.
  pub boundary_at-middle :
      (n k : ℕ) (acc : List Bytes) (xs : List (LogRow Doc)) (r : LogRow Doc)
      (ys : List (LogRow Doc))
      → Numbered n (xs ++ r ∷ ys)
      → k ≡ n + length xs
      → boundary_at k (boundaries_from env acc (xs ++ r ∷ ys))
        ≡ some (boundary_of env (acc ++ leaves xs) r)
  unfolding boundary_at
  boundary_at-middle n k acc [] r ys h e = rw (append-nil acc) (ground arith)
  boundary_at-middle n k acc (x ∷ xs) r ys h e =
      let later : (x.seq == k) ≡ false = ground arith in
      rw (← append_assoc acc (leaf_of x ∷ []) (leaves xs), later)
        (boundary_at-middle (suc n) k (acc ++ leaf_of x ∷ []) xs r ys h.1 (omega arith))

  pub boundary_at-above :
      (n k : ℕ) (acc : List Bytes) (xs : List (LogRow Doc))
      → Numbered n xs
      → n + length xs ≤ k
      → boundary_at k (boundaries_from env acc xs) ≡ none
  unfolding boundary_at
  boundary_at-above n k acc [] h b = refl
  boundary_at-above n k acc (x ∷ xs) h b =
      ground (arith, boundary_at-above (suc n) k (acc ++ leaf_of x ∷ []) xs)

  pub boundaries_from-append :
      (acc : List Bytes) (xs : List (LogRow Doc)) (r : LogRow Doc)
      → boundaries_from env acc (xs ++ r ∷ [])
        ≡ boundaries_from env acc xs ++ boundary_of env (acc ++ leaves xs) r ∷ []
  boundaries_from-append acc [] r = rw (append-nil acc)
  boundaries_from-append acc (x ∷ xs) r =
      rw (← append_assoc acc (leaf_of x ∷ []) (leaves xs))
        (ap (◌∷◌ (boundary_of env acc x)) (boundaries_from-append (acc ++ leaf_of x ∷ []) xs r))

  leaf_of-from_hex : (r : LogRow Doc) {b : Bytes} → from_hex r.entry_hash ≡ some b → leaf_of r ≡ b
  unfolding leaf_of
  leaf_of-from_hex r h = rw (h, leaf_of)

  -- What a chain's row says of its hash.
  pub leaf_of-RowIsValid :
      {prev : Text} (r : LogRow Doc)
      → RowIsValid env prev r
      → IsDigest (leaf_of r)
        × (from_hex r.entry_hash ≡ some (leaf_of r))
        × (hex (leaf_of r) ≡ r.entry_hash)
  unfolding chain_hash
  leaf_of-RowIsValid {prev} r v =
      let digest = env.sha256 (prev ++ v.record_bytes) in
      let d : IsDigest digest = env.sha256-IsDigest (prev ++ v.record_bytes) in
      let read : from_hex r.entry_hash ≡ some digest =
        rw v.entry_hash (from_hex-hex digest d.bytes) in
      rw (leaf_of-from_hex r read) (d, read, sym v.entry_hash)

  pub Chain-digests :
      (prev : Text) (rs : List (LogRow Doc)) → Chain env prev rs → All IsDigest (leaves rs)
  Chain-digests prev [] c = tt
  Chain-digests prev (r ∷ rs) c = ((leaf_of-RowIsValid r c.0).0, Chain-digests r.entry_hash rs c.1)

  pub Chain-middle :
      (prev : Text) (xs : List (LogRow Doc)) (r : LogRow Doc) (ys : List (LogRow Doc))
      → Chain env prev (xs ++ r ∷ ys)
      → (p : Text) × RowIsValid env p r
  Chain-middle prev [] r ys c = (prev, c.0)
  Chain-middle prev (x ∷ xs) r ys c = Chain-middle x.entry_hash xs r ys c.1

  -- The hash that the next row chains to.
  abbrev pub chain_end : Text → List (LogRow Doc) → Text
  chain_end prev [] = prev
  chain_end prev (r ∷ rs) = chain_end r.entry_hash rs

  pub Chain-append :
      (prev : Text) (xs : List (LogRow Doc)) (r : LogRow Doc)
      → Chain env prev xs
      → RowIsValid env (chain_end prev xs) r
      → Chain env prev (xs ++ r ∷ [])
  Chain-append prev [] r c v = (v, tt)
  Chain-append prev (x ∷ xs) r c v = (c.0, Chain-append x.entry_hash xs r c.1 v)

  pub chain_end-append :
      (prev : Text) (xs : List (LogRow Doc)) (r : LogRow Doc)
      → chain_end prev (xs ++ r ∷ []) ≡ r.entry_hash
  chain_end-append prev [] r = refl
  chain_end-append prev (x ∷ xs) r = chain_end-append x.entry_hash xs r
