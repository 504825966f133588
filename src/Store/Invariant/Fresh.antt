-- ===== src/Store/Invariant/Fresh.antt =====
-- The tables of a new database are consistent.
use curator_skill_registry.Base.{[], refl, Text}
use curator_skill_registry.Merkle.Levels.{empty}
use curator_skill_registry.Signing.{Env}
use curator_skill_registry.Store.{fresh_database}
use curator_skill_registry.Store.Frontier.{save_frontier, save_from}
use curator_skill_registry.Store.Invariant.{IsConsistent}

pub fresh_database-IsConsistent :
    {Doc : Type 0} (env : Env Doc) (created_at : Text)
    → IsConsistent env (fresh_database created_at)
unfolding fresh_database save_frontier save_from
fresh_database-IsConsistent env created_at = record {
  numbered = tt;
  chain = tt;
  sequence = refl;
  boundaries = refl;
  frontier = [];
  represents = empty;
  saved = refl;
  created = created_at;
  created_at = refl;
}
