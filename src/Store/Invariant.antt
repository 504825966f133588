-- ===== src/Store/Invariant.antt =====
-- When the tables of the store are consistent: the log is a hash chain with a row for each number
-- from 1, the boundaries are those of its prefixes, and the frontier is that of its Merkle tree.
pub mod Rows
pub mod Tables
pub mod Saved
pub mod Anchors
pub mod Reading
pub mod Preserved
pub mod Keeps
pub mod Snapshots
pub mod Fresh
use curator_skill_registry.Base.{
  ℕ, suc, ◌≡◌, List, [], ◌∷◌, ◌++◌, Option, some, none, Text, Bytes, hex, from_hex, ok, codes,
  length, map,
}
use curator_skill_registry.Json.{Fields, obj, str, get}
use curator_skill_registry.Merkle.{Frontier, merkle_root}
use curator_skill_registry.Merkle.Levels.{Represents}
use curator_skill_registry.Signing.{Env, canonical_bytes}
use curator_skill_registry.Store.{LogRow, BoundaryRow, Database, genesis}
use curator_skill_registry.Store.Append.{Columns, chain_hash}
use curator_skill_registry.Store.Frontier.{save_frontier}

module _ {Doc : Type 0} where
  abbrev pub columns_of : LogRow Doc → Columns
  columns_of r = record {
    name = r.name;
    source_identity = r.source_identity;
    commit_hash = r.commit_hash;
    content_sha256 = r.content_sha256;
    status = r.status;
  }

  -- the leaf of a log row: its entry hash as bytes
  unfoldable pub leaf_of : LogRow Doc → Bytes
  leaf_of r = elim (from_hex r.entry_hash) [ none ↦ [] | some b ↦ b ]

  abbrev pub leaves : List (LogRow Doc) → List Bytes
  leaves = map leaf_of

  -- Rows with the numbers from `n` on.
  abbrev pub Numbered : ℕ → List (LogRow Doc) → Type 0
  Numbered n [] = Unit
  Numbered n (r ∷ rs) = (r.seq ≡ n) × Numbered (suc n) rs

-- The body names the five columns of its row.
pub record Names (body : Fields) (columns : Columns) : Type 0 where
  pub name : get (codes "name") body ≡ some (str columns.name)
  pub source_identity : get (codes "source_identity") body ≡ some (str columns.source_identity)
  pub commit_hash : get (codes "commit") body ≡ some (str columns.commit_hash)
  pub content_sha256 : get (codes "content_sha256") body ≡ some (str columns.content_sha256)
  pub status : get (codes "status") body ≡ some (str columns.status)

module _ {Doc : Type 0} (env : Env Doc) where
  -- A row that extends the chain from `prev`: it stores a record with a canonical form, its hash
  -- covers that form and `prev`, and its columns are the record's.
  pub record RowIsValid (prev : Text) (r : LogRow Doc) : Type 0 where
    pub prev_hash : r.prev_hash ≡ prev
    pub body : Fields
    pub stored : env.loads r.record_json ≡ some (obj body)
    pub record_bytes : Bytes
    pub canonical : canonical_bytes env body ≡ ok record_bytes
    pub entry_hash : r.entry_hash ≡ chain_hash env prev record_bytes
    pub columns : Names body (columns_of r)

  abbrev pub Chain : Text → List (LogRow Doc) → Type 0
  Chain prev [] = Unit
  Chain prev (r ∷ rs) = RowIsValid prev r × Chain r.entry_hash rs

  -- The boundary of the prefix that ends with `r`, above the leaves `acc`.
  abbrev pub boundary_of : List Bytes → LogRow Doc → BoundaryRow
  boundary_of acc r = record {
    log_size = r.seq;
    head = r.entry_hash;
    merkle_root = hex (merkle_root env.sha256 (acc ++ leaf_of r ∷ []));
    created_at = r.created_at;
  }

  abbrev pub boundaries_from : List Bytes → List (LogRow Doc) → List BoundaryRow
  boundaries_from acc [] = []
  boundaries_from acc (r ∷ rs) = boundary_of acc r ∷ boundaries_from (acc ++ leaf_of r ∷ []) rs

  pub record IsConsistent (db : Database Doc) : Type 0 where
    pub numbered : Numbered 1 db.log
    pub chain : Chain genesis db.log
    pub sequence : db.log_sequence ≡ length db.log
    pub boundaries : db.boundaries ≡ boundaries_from [] db.log
    pub frontier : Frontier
    pub represents : Represents env.sha256 (leaves db.log) frontier
    pub saved : db.merkle_frontier ≡ save_frontier env frontier
    pub created : Text
    pub created_at : db.created_at ≡ some created
