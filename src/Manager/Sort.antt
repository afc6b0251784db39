-- ===== src/Manager/Sort.antt =====
-- plugin/manager.go, topologicalSort: the loop is Kahn's algorithm, with an invariant that relates
-- its degrees to the dependencies that are not placed yet.
use mathlib.Core.List.{append_assoc}
use xmpp_go.Prelude.{
  ℕ, zero, suc, ◌+◌, ◌≤◌, ◌<◌, ◌≡◌, refl, sym, ap, ◌∙◌, subst, true, false, none, some, List, [],
  ◌∷◌, ◌++◌, ◌||◌, ◌&&◌, eqb, eq_iff, eq_refl, length, length-append, list_eq, arith,
}
use xmpp_go.Prelude.Bytes.{Bytes}
use xmpp_go.Prelude.Dict.{Dict, get, keys, IsDistinct}
use xmpp_go.Manager.{Graph, Counts, degree, waiting, build, zero_degrees, ready, release, sort_loop}
use xmpp_go.Manager.Names.{
  has, times, outside, Distinct, has-append, times-has, has-times, Distinct-middle, outside-append,
  outside_none, outside_nil, Distinct-length,
}
use xmpp_go.Manager.Edges.{
  deps_of, degree-build, degree-zero_degrees, has-ready, ready-Distinct, degree-release,
  has-release, release-Distinct,
}

-- Each name stands behind its dependencies; `done` are the names in front of the list.
abbrev pub DependsBehind : Graph → List Bytes → List Bytes → Type 0
DependsBehind g done [] = Unit
DependsBehind g done (n ∷ order) =
    ((d : Bytes) → has d (deps_of g n) ≡ true → has d done ≡ true)
    × DependsBehind g (done ++ n ∷ []) order

-- An order of all plugins, each once and behind its dependencies.
pub record IsOrder (g : Graph) (order : List Bytes) : Type 0 where
  pub distinct : Distinct order
  pub complete : (x : Bytes) → has x order ≡ has x (keys g)
  pub behind : DependsBehind g [] order

pub record Sorting (g : Graph) (d : Dict Bytes ℕ) (queue order : List Bytes) : Type 0 where
  pub degrees : (x : Bytes) → degree d x ≡ outside (deps_of g x) order
  pub distinct : Distinct (order ++ queue)
  pub zero_degree : (x : Bytes) → has x (order ++ queue) ≡ true → degree d x ≡ 0
  pub queued : (x : Bytes) → has x (keys g) ≡ true → degree d x ≡ 0 → has x (order ++ queue) ≡ true
  pub member : (x : Bytes) → has x (order ++ queue) ≡ true → has x (keys g) ≡ true
  pub behind : DependsBehind g [] order

pub has-keys :
    (g : Graph) (x : Bytes) → has x (keys g) ≡ (elim (get g x) [ none ↦ false | some _ ↦ true ])
unfolding has keys get
has-keys [] x = refl
has-keys ((y, deps) ∷ g) x = ground (arith, has-keys g x, eq_iff x y, eq_iff y x)

pub keys-Distinct : (g : Graph) → IsDistinct g → Distinct (keys g)
unfolding keys
keys-Distinct [] h = tt
keys-Distinct ((y, deps) ∷ g) h = (ground (arith, has-keys g y, h.0), keys-Distinct g h.1)

pub length-keys : (g : Graph) → length (keys g) ≡ length g
unfolding keys
length-keys [] = refl
length-keys ((y, deps) ∷ g) = ap suc (length-keys g)

depends-has : (g : Graph) (x m : Bytes) → 0 < times m (deps_of g x) → has x (keys g) ≡ true
unfolding times
depends-has g x m h = ground (arith, has-keys g x)

DependsBehind-append :
    (g : Graph) (done order : List Bytes) (n : Bytes)
    → DependsBehind g done order
    → ((d : Bytes) → has d (deps_of g n) ≡ true → has d (done ++ order) ≡ true)
    → DependsBehind g done (order ++ n ∷ [])
unfolding has
DependsBehind-append g done [] n h k = (λ d i. ground (arith, k d i, has-append d done []), tt)
DependsBehind-append g done (x ∷ order) n h k = (
  h.0,
  DependsBehind-append g (done ++ x ∷ []) order n h.1
      (λ d i. ground (arith, k d i, append_assoc done (x ∷ []) order)),
)

-- One round keeps the invariant.
round-Sorting :
    (g : Graph) (w : Dict Bytes (List Bytes)) (d : Dict Bytes ℕ) (n : Bytes)
    (queue order : List Bytes)
    → ((y m : Bytes) → times y (waiting w m) ≡ times m (deps_of g y))
    → Sorting g d (n ∷ queue) order
    → (let r = release d queue (waiting w n) in Sorting g r.0 r.1 (order ++ n ∷ []))
unfolding has
round-Sorting g w d n queue order out s =
    let new = Distinct-middle order queue n s.distinct in
    let there : has n (order ++ n ∷ queue) ≡ true =
      ground (arith, has-append n order (n ∷ queue), eq_refl n) in
    let split = append_assoc order (n ∷ []) queue in
    let below : (x : Bytes) → times x (waiting w n) ≤ degree d x =
      λ x. omega (arith, out x n, s.degrees x, outside-append n (deps_of g x) order new) in
    let fall = degree-release d queue (waiting w n) below in
    let grow = has-release d queue (waiting w n) below in
    let all_names : (x : Bytes)
        → has x ((order ++ n ∷ []) ++ (release d queue (waiting w n)).1) ≡ (
            has x (order ++ n ∷ queue)
            || (has x (waiting w n) && eqb (degree d x) (times x (waiting w n)))) =
      λ x. ground (
        arith,
        grow x,
        has-append x (order ++ n ∷ []) (release d queue (waiting w n)).1,
        has-append x order (n ∷ []),
        has-append x order (n ∷ queue),
      ) in
    record {
      degrees = λ x.
          omega (arith, fall x, out x n, s.degrees x, outside-append n (deps_of g x) order new);
      distinct =
          release-Distinct (order ++ n ∷ []) d queue (waiting w n) below
            (λ x i. s.zero_degree x (subst (λ l. has x l ≡ true) split i))
            (subst Distinct (sym split) s.distinct);
      zero_degree = λ x i. ground (arith, all_names x, s.zero_degree x, fall x, below x);
      queued = λ x k z. ground (
        arith,
        all_names x,
        s.queued x k,
        fall x,
        below x,
        times-has x (waiting w n),
        has-times x (waiting w n),
      );
      member = λ x i.
          ground
            (arith, all_names x, s.member x, out x n, has-times x (waiting w n), depends-has g x n);
      behind =
          DependsBehind-append g [] order n s.behind
            (outside_none (deps_of g n) order (sym (s.degrees n) ∙ s.zero_degree n there));
    }

-- Enough rounds empty the queue.
pub sort_loop-Sorting :
    (g : Graph) (w : Dict Bytes (List Bytes)) (rounds : ℕ) (d : Dict Bytes ℕ)
    (queue order : List Bytes)
    → ((y m : Bytes) → times y (waiting w m) ≡ times m (deps_of g y))
    → Sorting g d queue order
    → length g ≤ rounds + length order
    → (last : List Bytes) × (sort_loop w rounds d queue order ≡ some last)
      × (e : Dict Bytes ℕ) × Sorting g e [] last
unfolding sort_loop
sort_loop-Sorting g w rounds d [] order out s k = (order, refl, d, s)
sort_loop-Sorting g w zero d (n ∷ queue) order out s k =
    let bound = Distinct-length (order ++ n ∷ queue) (keys g) s.distinct s.member in
    absurd (omega (arith, length-keys g, length-append order (n ∷ queue)))
sort_loop-Sorting g w (suc rounds) d (n ∷ queue) order out s k =
    let r = release d queue (waiting w n) in
    sort_loop-Sorting g w rounds r.0 r.1 (order ++ n ∷ []) out
      (round-Sorting g w d n queue order out s) (omega (arith, length-append order (n ∷ [])))

abbrev pub counts : Graph → Counts
counts g = build (record { in_degree = zero_degrees g; dependents = [] }) g

pub first-Sorting :
    (g : Graph)
    → IsDistinct g
    → Sorting g (counts g).in_degree (ready (counts g).in_degree (keys g)) []
first-Sorting g h =
    let c : Counts = record { in_degree = zero_degrees g; dependents = [] } in
    let d = (counts g).in_degree in
    record {
      degrees = λ x.
          omega (arith, degree-build c g x h, degree-zero_degrees g x, outside_nil (deps_of g x));
      distinct = ready-Distinct d (keys g) (keys-Distinct g h);
      zero_degree = λ x i. ground (arith, has-ready d (keys g) x);
      queued = λ x k z. ground (arith, has-ready d (keys g) x);
      member = λ x i. ground (arith, has-ready d (keys g) x);
      behind = tt;
    }
