-- ===== src/Manager/Orders.antt =====
-- plugin/manager.go, topologicalSort: when it returns an order, which one, and its two errors.
use mathlib.Core.List.{append-nil}
use xmpp_go.Prelude.{
  ℕ, ◌≡◌, sym, ◌∙◌, subst, true, none, some, List, [], ◌∷◌, ◌++◌, if◌then◌else◌, not, ◌==◌, eqb,
  eq_iff, eq_refl, length, list_eq, arith, Bool-cases, inl, inr, Result, ok, err, ◌↔◌, Option-cases,
}
use xmpp_go.Prelude.Bytes.{Bytes}
use xmpp_go.Prelude.Dict.{Dict, get, keys, IsDistinct}
use xmpp_go.Manager.{
  Graph, Counts, zero_degrees, ready, topological_sort, find_missing, missing_dep, cyclic_dep,
  PluginError,
}
use xmpp_go.Manager.Names.{
  has, times, Distinct, has-append, outside_all, Distinct-length, Distinct-covers,
}
use xmpp_go.Manager.Edges.{deps_of, waiting-build}
use xmpp_go.Manager.Sort.{
  DependsBehind, IsOrder, Sorting, has-keys, keys-Distinct, length-keys, sort_loop-Sorting,
  first-Sorting, counts,
}
use xmpp_go.Manager.Missing.{find_missing-none, find_missing-some}

no_name : (x : Bytes) → has x [] ≡ true → ⊥
unfolding has
no_name x h = ground arith

-- Where no dependency is missing, the loop ends, and the length decides between the two results.
topological_sort-Sorting :
    (g : Graph)
    → IsDistinct g
    → find_missing g g ≡ none
    → (last : List Bytes) × (topological_sort g
        ≡ some (if not (eqb (length last) (length g)) then err cyclic_dep else ok last))
      × (e : Dict Bytes ℕ) × Sorting g e [] last
unfolding topological_sort times get
topological_sort-Sorting g h m =
    let c : Counts = record { in_degree = zero_degrees g; dependents = [] } in
    let b = counts g in
    let (last, q, e, s) =
      sort_loop-Sorting g b.dependents (length g) b.in_degree (ready b.in_degree (keys g)) []
        (λ y n. omega (arith, waiting-build c g y n h)) (first-Sorting g h) (omega arith) in
    (last, ground (arith, m, q), e, s)

Sorting-IsOrder :
    (g : Graph) (e : Dict Bytes ℕ) (last : List Bytes)
    → Sorting g e [] last
    → length last ≡ length g
    → IsOrder g last
Sorting-IsOrder g e last s n =
    let t = append-nil last in
    let distinct = subst Distinct t s.distinct in
    let member : (x : Bytes) → has x last ≡ true → has x (keys g) ≡ true =
      λ x i. s.member x (subst (λ l. has x l ≡ true) (sym t) i) in
    let covers = Distinct-covers last (keys g) distinct member (omega (arith, length-keys g)) in
    record {
      distinct = distinct;
      complete = λ x. ground (arith, member x, covers x);
      behind = s.behind;
    }

-- The names of any list in which each stands behind its dependencies are placed.
Sorting-places :
    (g : Graph) (e : Dict Bytes ℕ) (last done l : List Bytes)
    → Sorting g e [] last
    → DependsBehind g done l
    → ((x : Bytes) → has x l ≡ true → has x (keys g) ≡ true)
    → ((x : Bytes) → has x done ≡ true → has x last ≡ true)
    → (x : Bytes) → has x l ≡ true
    → has x last ≡ true
unfolding has
Sorting-places g e last done [] s b k p x i = absurd (ground arith)
Sorting-places g e last done (n ∷ l) s b k p x i =
    let placed : has n last ≡ true =
      subst (λ r. has n r ≡ true) (append-nil last)
        (s.queued n (k n (ground (arith, eq_refl n)))
          (s.degrees n ∙ outside_all (deps_of g n) last (λ d j. p d (b.0 d j)))) in
    elim (Bool-cases (x == n)) [
      | inl same ↦ let q = (eq_iff x n).0 same in rw q placed
      | inr other ↦
          Sorting-places g e last (done ++ n ∷ []) l s b.1 (λ z j. k z (ground arith))
            (λ z j. ground (arith, p z, has-append z done (n ∷ []), placed, eq_iff z n)) x
            (ground arith)
    ]

-- In such an order no dependency is missing.
DependsBehind-known :
    (g : Graph) (done l : List Bytes)
    → DependsBehind g done l
    → ((x : Bytes) → has x done ≡ true → has x (keys g) ≡ true)
    → ((x : Bytes) → has x l ≡ true → has x (keys g) ≡ true)
    → (x d : Bytes) → has x l ≡ true
    → has d (deps_of g x) ≡ true
    → has d (keys g) ≡ true
unfolding has
DependsBehind-known g done [] b p k x d i j = absurd (ground arith)
DependsBehind-known g done (n ∷ l) b p k x d i j = elim (Bool-cases (x == n)) [
  | inl same ↦ p d (b.0 d (subst (λ y. has d (deps_of g y) ≡ true) ((eq_iff x n).0 same) j))
  | inr other ↦
      DependsBehind-known g (done ++ n ∷ []) l b.1
        (λ z q. ground (arith, p z, has-append z done (n ∷ []), k n, eq_refl n, eq_iff z n))
        (λ z q. k z (ground arith)) x d (ground arith) j
]

-- For every map of plugins, each name once, `topologicalSort` ends within as many rounds of its loop
-- as there are plugins.
pub topological_sort-total :
    (g : Graph)
    → IsDistinct g
    → (r : Result PluginError (List Bytes)) × (topological_sort g ≡ some r)
unfolding topological_sort
topological_sort-total g h = elim (Option-cases (find_missing g g)) [
  | inl m ↦ let (last, q, e, s) = topological_sort-Sorting g h m in (_, q)
  | inr (p, m) ↦ (err missing_dep, ground (arith, m))
]

-- The order that `topologicalSort` returns has every plugin once, and each behind all of its
-- dependencies.
pub topological_sort-IsOrder :
    (g : Graph) (order : List Bytes)
    → IsDistinct g
    → topological_sort g ≡ some (ok order)
    → IsOrder g order
unfolding topological_sort
topological_sort-IsOrder g order h q = elim (Option-cases (find_missing g g)) [
  | inl m ↦
      let (last, r, e, s) = topological_sort-Sorting g h m in
      let same : last ≡ order = ground (arith, q, r) in
      let long : length last ≡ length g = ground (arith, q, r) in
      subst (IsOrder g) same (Sorting-IsOrder g e last s long)
  | inr (p, m) ↦ absurd (ground arith)
]

-- Where the plugins have any order in which each stands once and behind its dependencies,
-- `topologicalSort` returns such an order: it reports a missing or a cyclic dependency only where
-- there is none.
pub topological_sort_complete :
    (g : Graph) (l : List Bytes)
    → IsDistinct g
    → IsOrder g l
    → (order : List Bytes) × (topological_sort g ≡ some (ok order)) × IsOrder g order
unfolding has
topological_sort_complete g l h o = elim (Option-cases (find_missing g g)) [
  | inl m ↦
      let (last, r, e, s) = topological_sort-Sorting g h m in
      let into : (x : Bytes) → has x l ≡ true → has x (keys g) ≡ true =
        λ x i. sym (o.complete x) ∙ i in
      let names : (x : Bytes) → has x (keys g) ≡ true → has x last ≡ true = λ x i.
        Sorting-places g e last [] l s o.behind into (λ y j. absurd (no_name y j)) x
          (o.complete x ∙ i) in
      let longer = Distinct-length (keys g) last (keys-Distinct g h) names in
      let t = append-nil last in
      let shorter =
        Distinct-length last (keys g) (subst Distinct t s.distinct)
          (λ x i. s.member x (subst (λ k. has x k ≡ true) (sym t) i)) in
      let long : length last ≡ length g = omega (arith, length-keys g) in
      (last, ground (arith, r, long), Sorting-IsOrder g e last s long)
  | inr ((n, d), m) ↦
      let (named, unknown) = find_missing-some g g n d h m in
      let known =
        DependsBehind-known g [] l o.behind (λ y j. absurd (no_name y j))
          (λ x i. sym (o.complete x) ∙ i) in
      absurd (ground (arith, known n d, named, unknown, o.complete n, has-keys g n))
]

-- `topologicalSort` returns ErrMissingDep exactly if some plugin has a dependency that is not
-- registered.
pub topological_sort-missing :
    (g : Graph)
    → IsDistinct g
    → (topological_sort g ≡ some (err missing_dep))
      ↔ ((x : Bytes) × (d : Bytes) × (has d (deps_of g x) ≡ true) × (get g d ≡ none))
unfolding topological_sort
topological_sort-missing g h = elim (Option-cases (find_missing g g)) [
  | inl m ↦
      let (last, r, e, s) = topological_sort-Sorting g h m in
      (
        λ q. absurd (ground (arith, q, r)),
        λ (x, d, i, n). absurd (ground (arith, find_missing-none g g x d h m i, has-keys g d)),
      )
  | inr ((n, d), m) ↦
      let (named, unknown) = find_missing-some g g n d h m in
      (λ q. (n, d, named, ground (arith, unknown, has-keys g d)), λ w. ground (arith, m))
]
