-- ===== src/Manager/Missing.antt =====
-- plugin/manager.go, topologicalSort: the search for a dependency that is not registered.
use xmpp_go.Prelude.{◌≡◌, true, false, none, some, List, [], ◌∷◌, eq_iff, list_eq, arith}
use xmpp_go.Prelude.Bytes.{Bytes}
use xmpp_go.Prelude.Dict.{get, keys, IsDistinct}
use xmpp_go.Manager.{Graph, find_missing, missing_of}
use xmpp_go.Manager.Names.{has}
use xmpp_go.Manager.Edges.{deps_of}
use xmpp_go.Manager.Sort.{has-keys}

missing_of-none :
    (g : Graph) (name : Bytes) (deps : List Bytes) (d : Bytes)
    → missing_of g name deps ≡ none
    → has d deps ≡ true
    → has d (keys g) ≡ true
unfolding missing_of has
missing_of-none g name [] d h i = absurd (ground arith)
missing_of-none g name (e ∷ deps) d h i =
    ground (arith, missing_of-none g name deps d, has-keys g d, has-keys g e, eq_iff d e)

missing_of-some :
    (g : Graph) (name : Bytes) (deps : List Bytes) (n d : Bytes)
    → missing_of g name deps ≡ some (n, d)
    → (n ≡ name) × (has d deps ≡ true) × (has d (keys g) ≡ false)
unfolding missing_of has
missing_of-some g name [] n d h = absurd (ground arith)
missing_of-some g name (e ∷ deps) n d h =
    ground (arith, missing_of-some g name deps n d, has-keys g d, has-keys g e, eq_iff d e)

pub find_missing-none :
    (g entries : Graph) (x d : Bytes)
    → IsDistinct entries
    → find_missing g entries ≡ none
    → has d (deps_of entries x) ≡ true
    → has d (keys g) ≡ true
unfolding find_missing has get
find_missing-none g [] x d s h i = absurd (ground arith)
find_missing-none g ((name, deps) ∷ entries) x d s h i =
    ground
      (arith, find_missing-none g entries x d s.1, missing_of-none g name deps d, eq_iff name x)

pub find_missing-some :
    (g entries : Graph) (n d : Bytes)
    → IsDistinct entries
    → find_missing g entries ≡ some (n, d)
    → (has d (deps_of entries n) ≡ true) × (has d (keys g) ≡ false)
unfolding find_missing has get
find_missing-some g [] n d s h = absurd (ground arith)
find_missing-some g ((name, deps) ∷ entries) n d s h = ground (
  arith,
  find_missing-some g entries n d s.1,
  missing_of-some g name deps n d,
  eq_iff name n,
  s.0,
)
