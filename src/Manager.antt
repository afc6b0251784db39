-- ===== src/Manager.antt =====
-- plugin/manager.go: registration, initialisation in dependency order and closing. The plugins are of
-- any type; their dependencies and what their own Initialize and Close return are parameters.
pub mod Names
pub mod Edges
pub mod Sort
pub mod Missing
pub mod Orders
pub mod Lifecycle
use xmpp_go.Prelude.{
  ℕ, zero, suc, ◌+◌, ◌-◌, Bool, Option, none, some, List, [], ◌∷◌, ◌++◌, Result, ok, err, or_zero,
  if◌then◌else◌, not, eqb, length, list_eq, nat_eq,
}
use xmpp_go.Prelude.Bytes.{Bytes}
use xmpp_go.Prelude.Dict.{Dict, get, put, keys}

pub data PluginError : Type 0 where
  duplicate_plugin missing_dep cyclic_dep : PluginError
  failed : Bytes → PluginError

-- What `Dependencies` returns, by name.
abbrev pub Graph : Type 0
Graph = Dict Bytes (List Bytes)

-- The first dependency that is not registered, with the plugin that requires it.
unfoldable pub missing_of : Graph → Bytes → List Bytes → Option (Bytes × Bytes)
missing_of g name [] = none
missing_of g name (dep ∷ deps) =
    let rest = missing_of g name deps in
    elim (get g dep) [ none ↦ some (name, dep) | some _ ↦ rest ]

unfoldable pub find_missing : Graph → Graph → Option (Bytes × Bytes)
find_missing g [] = none
find_missing g ((name, deps) ∷ entries) =
    let rest = find_missing g entries in
    elim (missing_of g name deps) [ none ↦ rest | some m ↦ some m ]

-- `inDegree` and `dependents`.
pub record Counts : Type 0 where
  pub in_degree : Dict Bytes ℕ
  pub dependents : Dict Bytes (List Bytes)

abbrev pub degree : Dict Bytes ℕ → Bytes → ℕ
degree d x = or_zero 0 (get d x)

abbrev pub waiting : Dict Bytes (List Bytes) → Bytes → List Bytes
waiting d x = or_zero [] (get d x)

-- The loop over the dependencies of one plugin.
unfoldable pub add_edges : Bytes → Counts → List Bytes → Counts
add_edges name c [] = c
add_edges name c (dep ∷ deps) =
    add_edges name
      (record {
        in_degree = put c.in_degree name (degree c.in_degree name + 1);
        dependents = put c.dependents dep (waiting c.dependents dep ++ name ∷ []);
      })
      deps

unfoldable pub build : Counts → Graph → Counts
build c [] = c
build c ((name, deps) ∷ entries) = build (add_edges name c deps) entries

unfoldable pub zero_degrees : Graph → Dict Bytes ℕ
zero_degrees [] = []
zero_degrees ((name, deps) ∷ entries) = (name, 0) ∷ zero_degrees entries

-- The names of degree 0; the keys of `inDegree` are those of the plugins.
unfoldable pub ready : Dict Bytes ℕ → List Bytes → List Bytes
ready d [] = []
ready d (name ∷ names) =
    let rest = ready d names in if eqb (degree d name) 0 then name ∷ rest else rest

-- The loop over the dependents of a plugin that is placed: degrees fall by one, and a plugin whose
-- degree becomes 0 is queued.
unfoldable pub release : Dict Bytes ℕ → List Bytes → List Bytes → Dict Bytes ℕ × List Bytes
release d queue [] = (d, queue)
release d queue (dep ∷ deps) =
    release (put d dep (degree d dep - 1))
      (if eqb (degree d dep) 1 then queue ++ dep ∷ [] else queue) deps

-- The main loop, for at most the given number of rounds; none if the queue is not empty by then.
unfoldable pub sort_loop :
    Dict Bytes (List Bytes) → ℕ → Dict Bytes ℕ → List Bytes → List Bytes → Option (List Bytes)
sort_loop w rounds d [] order = some order
sort_loop w zero d (name ∷ queue) order = none
sort_loop w (suc rounds) d (name ∷ queue) order =
    let r = release d queue (waiting w name) in sort_loop w rounds r.0 r.1 (order ++ name ∷ [])

-- `topologicalSort`; none if the rounds run out.
unfoldable pub topological_sort : Graph → Option (Result PluginError (List Bytes))
topological_sort g = elim (find_missing g g) [
  | some _ ↦ some (err missing_dep)
  | none ↦
      let c = build (record { in_degree = zero_degrees g; dependents = [] }) g in
      elim (sort_loop c.dependents (length g) c.in_degree (ready c.in_degree (keys g)) []) [
        | none ↦ none
        | some order ↦
            some (if not (eqb (length order) (length g)) then err cyclic_dep else ok order)
      ]
]

pub record Manager (P : Type 0) : Type 0 where
  pub plugins : Dict Bytes P
  pub order : List Bytes

abbrev pub new_manager : {P : Type 0} → Manager P
new_manager = record { plugins = []; order = [] }

unfoldable pub register : {P : Type 0} → Bytes → P → Manager P → Manager P × Option PluginError
register name p m = elim (get m.plugins name) [
  | some _ ↦ (m, some duplicate_plugin)
  | none ↦ (record m { plugins = put m.plugins name p }, none)
]

unfoldable pub get_plugin : {P : Type 0} → Bytes → Manager P → Option P
get_plugin name m = get m.plugins name

unfoldable pub graph_of : {P : Type 0} → (P → List Bytes) → Dict Bytes P → Graph
graph_of dependencies [] = []
graph_of dependencies ((name, p) ∷ d) = (name, dependencies p) ∷ graph_of dependencies d

-- The plugins initialised without an error, in order, and the error that ended the loop. A name
-- without a plugin, which the order has not, is a nil pointer in the source.
unfoldable pub initialize_loop :
    {P : Type 0} → (P → Bool) → Dict Bytes P → List Bytes → List Bytes × Option PluginError
initialize_loop works d [] = ([], none)
initialize_loop works d (name ∷ order) =
    let rest = initialize_loop works d order in
    elim (get d name) [
      | none ↦ ([], some (failed name))
      | some p ↦ if works p then (name ∷ rest.0, rest.1) else ([], some (failed name))
    ]

-- `Initialize`: the manager, the plugins initialised without an error, and the error; none if the
-- rounds of the sort run out. `works` says which plugins initialise without an error.
unfoldable pub initialize :
    {P : Type 0}
    → (P → List Bytes)
    → (P → Bool)
    → Manager P
    → Option (Manager P × List Bytes × Option PluginError)
initialize dependencies works m = elim (topological_sort (graph_of dependencies m.plugins)) [
  | none ↦ none
  | some (err e) ↦ some (m, [], some e)
  | some (ok order) ↦
      let r = initialize_loop works m.plugins order in some (record m { order = order }, r.0, r.1)
]

-- `Close`: the names of the plugins closed, in order, and the first of their errors. The list is the
-- order reversed.
unfoldable pub close_loop :
    {P E : Type 0} → (P → Option E) → Dict Bytes P → List Bytes → List Bytes × Option E
close_loop close_plugin d [] = ([], none)
close_loop close_plugin d (name ∷ names) =
    let rest = close_loop close_plugin d names in
    elim (get d name) [
      | none ↦ rest
      | some p ↦ (name ∷ rest.0, elim (close_plugin p) [ none ↦ rest.1 | some e ↦ some e ])
    ]

unfoldable pub backwards : List Bytes → List Bytes
backwards [] = []
backwards (x ∷ l) = backwards l ++ x ∷ []

unfoldable pub close : {P E : Type 0} → (P → Option E) → Manager P → List Bytes × Option E
close close_plugin m = close_loop close_plugin m.plugins (backwards m.order)

unfoldable pub select : {P : Type 0} → Dict Bytes P → List Bytes → List P
select d [] = []
select d (name ∷ order) =
    let rest = select d order in elim (get d name) [ none ↦ rest | some p ↦ p ∷ rest ]

unfoldable pub plugins : {P : Type 0} → Manager P → List P
plugins m = select m.plugins m.order
