-- ===== src/Protocol.antt =====
-- src/csk_registry/protocol.py: which protocol objects are well formed.
pub mod Patterns
pub mod Records
use curator_skill_registry.Base.{ℕ, Bool, false, Option, some, codes, ◌==◌, ◌&&◌, ◌||◌, not}
use curator_skill_registry.Json.{pos, Value, Fields, int, get, has}

-- `type(value) is int and value == n`
unfoldable pub is_int : Option Value → ℕ → Bool
is_int (some (int (pos m))) n = m == n
is_int _ n = false

-- `validate_hash_version(record)`; `false` is its ProtocolError
unfoldable pub valid_hash_version : Fields → Bool
unfolding is_int
valid_hash_version body =
    let schema_one =
      is_int (get (codes "schema_version") body) 1 || not (has (codes "schema_version") body) in
    let schema_two = is_int (get (codes "schema_version") body) 2 in
    (schema_one && not (has (codes "hash_version") body))
    || (schema_two && is_int (get (codes "hash_version") body) 2)
