-- ===== src/Manager/Lifecycle.antt =====
-- plugin/manager.go: the manager of registered plugins through Initialize and Close.
use mathlib.Core.List.{append-nil}
use xmpp_go.Prelude.{
  ◌≡◌, refl, sym, ap, ◌∙◌, subst, Bool, true, Option, none, some, List, [], ◌∷◌, ◌++◌, eq_refl,
  list_eq, arith, Bool-cases, inl, inr, Result, ok, err, Option-cases,
}
use xmpp_go.Prelude.Bytes.{Bytes}
use xmpp_go.Prelude.Dict.{Dict, get, keys, IsDistinct, put-IsDistinct}
use xmpp_go.Manager.{
  Graph, Manager, register, graph_of, initialize_loop, initialize, close_loop, backwards, close,
  topological_sort, PluginError, duplicate_plugin, missing_dep, cyclic_dep, failed,
}
use xmpp_go.Manager.Names.{has, has-append}
use xmpp_go.Manager.Sort.{DependsBehind, IsOrder, has-keys}
use xmpp_go.Manager.Orders.{topological_sort-IsOrder, topological_sort-total}

-- The names whose Initialize was called, from those initialised and the error of the run.
abbrev pub called : List Bytes → Option PluginError → List Bytes
called started none = started
called started (some (failed name)) = started ++ name ∷ []
called started (some e) = started

called-cons :
    (n : Bytes) (l : List Bytes) (e : Option PluginError) → called (n ∷ l) e ≡ n ∷ called l e
called-cons n l none = refl
called-cons n l (some (failed name)) = refl
called-cons n l (some duplicate_plugin) = refl
called-cons n l (some missing_dep) = refl
called-cons n l (some cyclic_dep) = refl

-- An error of the sort is no error of a plugin.
sort_called :
    (g : Graph) (e : PluginError) → topological_sort g ≡ some (err e) → called [] (some e) ≡ []
unfolding topological_sort
sort_called g (failed name) h = absurd (ground arith)
sort_called g duplicate_plugin h = refl
sort_called g missing_dep h = refl
sort_called g cyclic_dep h = refl

module _ {P : Type 0} (dependencies : P → List Bytes) where
  get-graph_of :
      (d : Dict Bytes P) (x : Bytes)
      → get (graph_of dependencies d) x
        ≡ (elim (get d x) [ none ↦ none | some p ↦ some (dependencies p) ])
  unfolding graph_of get
  get-graph_of [] x = refl
  get-graph_of ((y, p) ∷ d) x = ground (arith, get-graph_of d x)

  graph_of-IsDistinct : (d : Dict Bytes P) → IsDistinct d → IsDistinct (graph_of dependencies d)
  unfolding graph_of
  graph_of-IsDistinct [] h = tt
  graph_of-IsDistinct ((y, p) ∷ d) h =
      (ground (arith, get-graph_of d y, h.0), graph_of-IsDistinct d h.1)

  -- The plugins initialised are those in front of the first that fails.
  initialize_loop-prefix :
      (works : P → Bool) (d : Dict Bytes P) (order : List Bytes)
      → let r = initialize_loop works d order in
        (rest : List Bytes) × (order ≡ r.0 ++ rest) × (r.1 ≡ none → rest ≡ [])
  unfolding initialize_loop
  initialize_loop-prefix works d [] = ([], refl, λ e. refl)
  initialize_loop-prefix works d (n ∷ order) =
      let (rest, s, e) = initialize_loop-prefix works d order in
      elim (Option-cases (get d n)) [
        | inl q ↦ (n ∷ order, ground (arith, q), λ w. absurd (ground (arith, q)))
        | inr (p, q) ↦ elim (Bool-cases (works p)) [
          | inl fine ↦ (rest, ground (arith, q, fine, s), λ w. e (ground (arith, q, fine)))
          | inr fails ↦
              (n ∷ order, ground (arith, q, fails), λ w. absurd (ground (arith, q, fails)))
        ]
      ]

  -- The plugins whose Initialize was called: those initialised and the one that failed.
  initialize_loop-called :
      (works : P → Bool) (d : Dict Bytes P) (order : List Bytes)
      → let r = initialize_loop works d order in
        (rest : List Bytes) × (order ≡ called r.0 r.1 ++ rest)
  unfolding initialize_loop
  initialize_loop-called works d [] = ([], refl)
  initialize_loop-called works d (n ∷ order) =
      let (rest, s) = initialize_loop-called works d order in
      elim (Option-cases (get d n)) [
        | inl q ↦ (order, rw (q, initialize_loop) refl)
        | inr (p, q) ↦ elim (Bool-cases (works p)) [
          | inl fine ↦
              let r = initialize_loop works d order in
              (
                rest,
                rw (q, fine, initialize_loop)
                    (ap (◌∷◌ n) s ∙ ap (λ l. l ++ rest) (sym (called-cons n r.0 r.1))),
              )
          | inr fails ↦ (order, rw (q, fails, initialize_loop) refl)
        ]
      ]

  DependsBehind-prefix :
      (g : Graph) (done a b : List Bytes) → DependsBehind g done (a ++ b) → DependsBehind g done a
  DependsBehind-prefix g done [] b h = tt
  DependsBehind-prefix g done (x ∷ a) b h = (h.0, DependsBehind-prefix g (done ++ x ∷ []) a b h.1)

  -- `register` keeps each name once.
  pub register-IsDistinct :
      (name : Bytes) (p : P) (m : Manager P)
      → IsDistinct m.plugins
      → IsDistinct (register name p m).0.plugins
  unfolding register
  register-IsDistinct name p m h = elim (Option-cases (get m.plugins name)) [
    | inl e ↦ rw (e, register) (put-IsDistinct m.plugins name p h)
    | inr (q, e) ↦ rw (e, register) h
  ]

  -- What `initialize` returns on an order that was found.
  initialize-ordered :
      (works : P → Bool) (m : Manager P) (order : List Bytes)
      → topological_sort (graph_of dependencies m.plugins) ≡ some (ok order)
      → (let r = initialize_loop works m.plugins order in
          initialize dependencies works m ≡ some (record m { order = order }, r.0, r.1))
  unfolding initialize
  initialize-ordered works m order q = ground (arith, q)

  -- `Initialize` returns on every manager in which no name is registered twice.
  pub initialize-total :
      (works : P → Bool) (m : Manager P)
      → IsDistinct m.plugins
      → (r : Manager P × List Bytes × Option PluginError) × (initialize dependencies works m
          ≡ some r)
  unfolding initialize
  initialize-total works m h =
      let (r, q) =
        topological_sort-total (graph_of dependencies m.plugins)
          (graph_of-IsDistinct m.plugins h) in
      returned r q
    where
      returned :
          (r : Result PluginError (List Bytes))
          → topological_sort (graph_of dependencies m.plugins) ≡ some r
          → (x : Manager P × List Bytes × Option PluginError) × (initialize dependencies works m
              ≡ some x)
      returned (err e) q = ((m, [], some e), ground (arith, q))
      returned (ok order) q = (_, initialize-ordered works m order q)

  -- Where `Initialize` returns, also with an error, a plugin's Initialize was called only after those
  -- of all its dependencies were called and returned without an error: this holds of the plugins
  -- `started`, and of the one, called last, whose error ended it.
  pub initialize-DependsBehind :
      (works : P → Bool) (m n : Manager P) (started : List Bytes) (e : Option PluginError)
      → IsDistinct m.plugins
      → initialize dependencies works m ≡ some (n, started, e)
      → DependsBehind (graph_of dependencies m.plugins) [] (called started e)
  unfolding initialize
  initialize-DependsBehind works m n started e h q =
      let g = graph_of dependencies m.plugins in
      let d = graph_of-IsDistinct m.plugins h in
      let (r, t) = topological_sort-total g d in ended r t
    where
      ended :
          (r : Result PluginError (List Bytes))
          → topological_sort (graph_of dependencies m.plugins) ≡ some r
          → DependsBehind (graph_of dependencies m.plugins) [] (called started e)
      ended (err f) t =
          let none_started : [] ≡ started = ground (arith, q, t) in
          let same : some f ≡ e = ground (arith, q, t) in
          let none_called : [] ≡ called started e =
            sym (sort_called (graph_of dependencies m.plugins) f t)
            ∙ ap (λ l. called l (some f)) none_started
            ∙ ap (called started) same in
          subst (DependsBehind (graph_of dependencies m.plugins) []) none_called tt
      ended (ok order) t =
          let g = graph_of dependencies m.plugins in
          let r = initialize_loop works m.plugins order in
          let o = topological_sort-IsOrder g order (graph_of-IsDistinct m.plugins h) t in
          let (rest, s) = initialize_loop-called works m.plugins order in
          let w = initialize-ordered works m order t in
          let front : r.0 ≡ started = ground (arith, q, w) in
          let same : r.1 ≡ e = ground (arith, q, w) in
          subst (DependsBehind g []) (ap (λ l. called l r.1) front ∙ ap (called started) same)
            (DependsBehind-prefix g [] _ rest (subst (DependsBehind g []) s o.behind))

  -- Where `Initialize` returns without an error, the plugins that were initialised are all that are
  -- registered, each once, and their order is the one that the manager keeps for Close.
  pub initialize-IsOrder :
      (works : P → Bool) (m n : Manager P) (started : List Bytes)
      → IsDistinct m.plugins
      → initialize dependencies works m ≡ some (n, started, none)
      → IsOrder (graph_of dependencies m.plugins) started
        × (n.order ≡ started)
        × (n.plugins ≡ m.plugins)
  unfolding initialize
  initialize-IsOrder works m n started h q =
      let g = graph_of dependencies m.plugins in
      let d = graph_of-IsDistinct m.plugins h in
      let (r, t) = topological_sort-total g d in ended r t
    where
      ended :
          (r : Result PluginError (List Bytes))
          → topological_sort (graph_of dependencies m.plugins) ≡ some r
          → IsOrder (graph_of dependencies m.plugins) started
            × (n.order ≡ started)
            × (n.plugins ≡ m.plugins)
      ended (err f) t = absurd (ground (arith, q, t))
      ended (ok order) t =
          let g = graph_of dependencies m.plugins in
          let o = topological_sort-IsOrder g order (graph_of-IsDistinct m.plugins h) t in
          let (rest, s, k) = initialize_loop-prefix works m.plugins order in
          let w = initialize-ordered works m order t in
          let all_started : order ≡ started =
            ground (arith, q, w, s, k, append-nil (initialize_loop works m.plugins order).0) in
          (subst (IsOrder g) all_started o, ground (arith, q, w, all_started), ground (arith, q, w))

  module _ {E : Type 0} (close_plugin : P → Option E) where
    close_loop-all :
        (d : Dict Bytes P) (names : List Bytes)
        → ((x : Bytes) → has x names ≡ true → has x (keys (graph_of dependencies d)) ≡ true)
        → (close_loop close_plugin d names).0 ≡ names
    unfolding close_loop has
    close_loop-all d [] k = refl
    close_loop-all d (n ∷ names) k =
        let known = k n (ground (arith, eq_refl n)) in
        let rest = close_loop-all d names (λ x i. k x (ground arith)) in
        ground (arith, rest, known, has-keys (graph_of dependencies d) n, get-graph_of d n)

    has-backwards : (l : List Bytes) (x : Bytes) → has x (backwards l) ≡ has x l
    unfolding backwards has
    has-backwards [] x = refl
    has-backwards (y ∷ l) x = ground (arith, has-backwards l x, has-append x (backwards l) (y ∷ []))

    -- After an Initialize without an error, Close calls every plugin that was initialised, in the
    -- reverse order, also where some of them fail to close.
    pub close-initialize :
        (works : P → Bool) (m n : Manager P) (started : List Bytes)
        → IsDistinct m.plugins
        → initialize dependencies works m ≡ some (n, started, none)
        → (close close_plugin n).0 ≡ backwards started
    unfolding close
    close-initialize works m n started h q =
        let (o, kept, same) = initialize-IsOrder works m n started h q in
        let all =
          close_loop-all n.plugins (backwards n.order)
            (λ x i. ground (arith, i, has-backwards n.order x, kept, o.complete x, same)) in
        ground (arith, all, kept)
