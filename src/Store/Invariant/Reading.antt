-- ===== src/Store/Invariant/Reading.antt =====
-- What a record says of its columns when `_append_locked` reads them.
use curator_skill_registry.Base.{
  arith, ◌≡◌, subst, [], ◌∷◌, Option, none, some, Text, codes, ok, bind-eq-ok, ok-injective,
}
use curator_skill_registry.Json.{
  Value, Fields, null, bool, int, float, str, arr, obj, get, nonempty_str,
}
use curator_skill_registry.Store.Append.{Columns, require_str, require_columns}
use curator_skill_registry.Store.Invariant.{Names}

nonempty_str-some : (v : Option Value) {t : Text} → nonempty_str v ≡ some t → v ≡ some (str t)
unfolding nonempty_str
nonempty_str-some none h = cc
nonempty_str-some (some (str [])) h = cc
nonempty_str-some (some (str (c ∷ s))) h = cc
nonempty_str-some (some null) h = cc
nonempty_str-some (some (bool b)) h = cc
nonempty_str-some (some (int n)) h = cc
nonempty_str-some (some (float f)) h = cc
nonempty_str-some (some (arr xs)) h = cc
nonempty_str-some (some (obj fs)) h = cc

require_str-get :
    (key : Text) (body : Fields) {t : Text}
    → require_str key body ≡ ok t
    → get key body ≡ some (str t)
unfolding require_str
require_str-get key body h = nonempty_str-some (get key body) (ground (arith, h))

pub require_columns-Names :
    (body : Fields) (columns : Columns) → require_columns body ≡ ok columns → Names body columns
unfolding require_columns
require_columns-Names body columns h =
    let (name, e, h1) = bind-eq-ok (require_str (codes "name") body) _ h in
    let (source_identity, e1, h2) = bind-eq-ok (require_str (codes "source_identity") body) _ h1 in
    let (commit, e2, h3) = bind-eq-ok (require_str (codes "commit") body) _ h2 in
    let (content_sha256, e3, h4) = bind-eq-ok (require_str (codes "content_sha256") body) _ h3 in
    let (status, e4, h5) = bind-eq-ok (require_str (codes "status") body) _ h4 in
    subst (Names body) (ok-injective h5) (record {
      name = require_str-get (codes "name") body e;
      source_identity = require_str-get (codes "source_identity") body e1;
      commit_hash = require_str-get (codes "commit") body e2;
      content_sha256 = require_str-get (codes "content_sha256") body e3;
      status = require_str-get (codes "status") body e4;
    })
