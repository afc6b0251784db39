-- ===== src/Manager/Edges.antt =====
-- plugin/manager.go, topologicalSort: what its maps hold when they are built, and how the loop over
-- a plugin's dependents changes them.
use mathlib.Core.List.{append_assoc}
use xmpp_go.Prelude.{
  ℕ, ◌+◌, ◌-◌, ◌≤◌, ◌≡◌, refl, subst, Bool, true, false, List, [], ◌∷◌, ◌++◌, if◌then◌else◌, ◌||◌,
  ◌&&◌, ◌==◌, eqb, eq_iff, length, list_eq, arith, or_zero,
}
use xmpp_go.Prelude.Bytes.{Bytes}
use xmpp_go.Prelude.Dict.{Dict, get, put, get-put, IsDistinct}
use xmpp_go.Manager.{Graph, Counts, degree, waiting, add_edges, build, zero_degrees, ready, release}
use xmpp_go.Manager.Names.{
  has, times, Distinct, has-append, times-append, times-has, has-times, Distinct-append_one,
}

abbrev pub deps_of : Graph → Bytes → List Bytes
deps_of g x = or_zero [] (get g x)

degree-put :
    (d : Dict Bytes ℕ) (k x : Bytes) (v : ℕ)
    → degree (put d k v) x ≡ (if k == x then v else degree d x)
degree-put d k x v = ground (arith, get-put d k x v)

waiting-put :
    (d : Dict Bytes (List Bytes)) (k x : Bytes) (v : List Bytes)
    → waiting (put d k v) x ≡ (if k == x then v else waiting d x)
waiting-put d k x v = ground (arith, get-put d k x v)

degree-add_edges :
    (name : Bytes) (c : Counts) (deps : List Bytes) (x : Bytes)
    → degree (add_edges name c deps).in_degree x
      ≡ degree c.in_degree x + (if name == x then length deps else 0)
unfolding add_edges
degree-add_edges name c [] x = ground arith
degree-add_edges name c (dep ∷ deps) x = ground (
  arith,
  degree-add_edges name
      (record {
        in_degree = put c.in_degree name (degree c.in_degree name + 1);
        dependents = put c.dependents dep (waiting c.dependents dep ++ name ∷ []);
      })
      deps x,
  degree-put c.in_degree name x (degree c.in_degree name + 1),
  eq_iff name x,
)

waiting-add_edges :
    (name : Bytes) (c : Counts) (deps : List Bytes) (y n : Bytes)
    → times y (waiting (add_edges name c deps).dependents n)
      ≡ times y (waiting c.dependents n) + (if name == y then times n deps else 0)
unfolding add_edges times
waiting-add_edges name c [] y n = ground arith
waiting-add_edges name c (dep ∷ deps) y n = ground (
  arith,
  waiting-add_edges name
      (record {
        in_degree = put c.in_degree name (degree c.in_degree name + 1);
        dependents = put c.dependents dep (waiting c.dependents dep ++ name ∷ []);
      })
      deps y n,
  waiting-put c.dependents dep n (waiting c.dependents dep ++ name ∷ []),
  times-append y (waiting c.dependents dep) (name ∷ []),
  eq_iff name y,
  eq_iff y name,
  eq_iff dep n,
  eq_iff n dep,
)

-- The degree of a plugin is the number of its dependencies.
pub degree-build :
    (c : Counts) (g : Graph) (x : Bytes)
    → IsDistinct g
    → degree (build c g).in_degree x ≡ degree c.in_degree x + length (deps_of g x)
unfolding build get
degree-build c [] x h = omega arith
degree-build c ((name, deps) ∷ g) x h = ground (
  arith,
  degree-build (add_edges name c deps) g x h.1,
  degree-add_edges name c deps x,
  h.0,
  eq_iff name x,
)

-- A plugin is as often among the dependents of another as it names that one.
pub waiting-build :
    (c : Counts) (g : Graph) (y n : Bytes)
    → IsDistinct g
    → times y (waiting (build c g).dependents n)
      ≡ times y (waiting c.dependents n) + times n (deps_of g y)
unfolding build get times
waiting-build c [] y n h = omega arith
waiting-build c ((name, deps) ∷ g) y n h = ground (
  arith,
  waiting-build (add_edges name c deps) g y n h.1,
  waiting-add_edges name c deps y n,
  h.0,
  eq_iff name y,
)

pub degree-zero_degrees : (g : Graph) (x : Bytes) → degree (zero_degrees g) x ≡ 0
unfolding zero_degrees get
degree-zero_degrees [] x = refl
degree-zero_degrees ((name, deps) ∷ g) x = ground (arith, degree-zero_degrees g x)

pub has-ready :
    (d : Dict Bytes ℕ) (l : List Bytes) (x : Bytes)
    → has x (ready d l) ≡ (has x l && eqb (degree d x) 0)
unfolding ready has
has-ready d [] x = refl
has-ready d (y ∷ l) x = ground (arith, has-ready d l x, eq_iff x y)

pub ready-Distinct : (d : Dict Bytes ℕ) (l : List Bytes) → Distinct l → Distinct (ready d l)
unfolding ready
ready-Distinct d [] h = tt
ready-Distinct d (y ∷ l) h = ground (arith, ready-Distinct d l h.1, has-ready d l y, h.0)

pub degree-release :
    (d : Dict Bytes ℕ) (queue ds : List Bytes)
    → ((x : Bytes) → times x ds ≤ degree d x)
    → (x : Bytes) → degree (release d queue ds).0 x + times x ds ≡ degree d x
unfolding release times
degree-release d queue [] h x = omega arith
degree-release d queue (y ∷ ds) h x = ground (
  arith,
  degree-release (put d y (degree d y - 1)) (if eqb (degree d y) 1 then queue ++ y ∷ [] else queue)
      ds (λ z. ground (arith, h z, degree-put d y z (degree d y - 1), eq_iff z y, eq_iff y z)) x,
  h y,
  degree-put d y x (degree d y - 1),
  eq_iff x y,
  eq_iff y x,
)

-- The queue grows by the names whose degree the loop brings to 0.
pub has-release :
    (d : Dict Bytes ℕ) (queue ds : List Bytes)
    → ((x : Bytes) → times x ds ≤ degree d x)
    → (x : Bytes)
    → has x (release d queue ds).1 ≡ (has x queue || (has x ds && eqb (degree d x) (times x ds)))
unfolding release times has
has-release d queue [] h x = ground arith
has-release d queue (y ∷ ds) h x = ground (
  arith,
  has-release (put d y (degree d y - 1)) (if eqb (degree d y) 1 then queue ++ y ∷ [] else queue) ds
      (λ z. ground (arith, h z, degree-put d y z (degree d y - 1), eq_iff z y, eq_iff y z)) x,
  h y,
  h x,
  degree-put d y x (degree d y - 1),
  eq_iff x y,
  eq_iff y x,
  has-append x queue (y ∷ []),
  times-has x ds,
  has-times x ds,
)

queued-Distinct :
    (b : Bool) (placed queue : List Bytes) (y : Bytes)
    → (b ≡ true → has y (placed ++ queue) ≡ false)
    → Distinct (placed ++ queue)
    → Distinct (placed ++ (if b then queue ++ y ∷ [] else queue))
queued-Distinct false placed queue y n s = s
queued-Distinct true placed queue y n s =
    subst Distinct (append_assoc placed queue (y ∷ []))
      (Distinct-append_one (placed ++ queue) y s (n refl))

has-queued :
    (b : Bool) (placed queue : List Bytes) (y x : Bytes)
    → has x (placed ++ (if b then queue ++ y ∷ [] else queue))
      ≡ (has x (placed ++ queue) || (b && x == y))
unfolding has
has-queued false placed queue y x = ground arith
has-queued true placed queue y x =
    ground (arith, append_assoc placed queue (y ∷ []), has-append x (placed ++ queue) (y ∷ []))

pub release-Distinct :
    (placed : List Bytes) (d : Dict Bytes ℕ) (queue ds : List Bytes)
    → ((x : Bytes) → times x ds ≤ degree d x)
    → ((x : Bytes) → has x (placed ++ queue) ≡ true → degree d x ≡ 0)
    → Distinct (placed ++ queue)
    → Distinct (placed ++ (release d queue ds).1)
unfolding release times
release-Distinct placed d queue [] h z s = s
release-Distinct placed d queue (y ∷ ds) h z s =
    release-Distinct placed (put d y (degree d y - 1))
      (if eqb (degree d y) 1 then queue ++ y ∷ [] else queue) ds
      (λ x. ground (arith, h x, degree-put d y x (degree d y - 1), eq_iff x y, eq_iff y x))
      (λ x q. ground (
        arith,
        z x,
        h x,
        has-queued (eqb (degree d y) 1) placed queue y x,
        degree-put d y x (degree d y - 1),
        eq_iff x y,
        eq_iff y x,
      ))
      (queued-Distinct (eqb (degree d y) 1) placed queue y (λ p. ground (arith, z y)) s)
