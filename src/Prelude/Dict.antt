-- ===== src/Prelude/Dict.antt =====
-- Go maps as association lists: reads and writes by key, deletion, `len` and iteration. The
-- order of a list is one of the orders in which Go may iterate.
use mathlib.Core.Path.{◌≡◌, refl, ap}
use mathlib.Core.Logic.{inl, inr}
use mathlib.Core.Option.{Option, none, some}
use mathlib.Core.List.{List, [], ◌∷◌}
use native.Mathlib.Omega.{arith}
use xmpp_go.Prelude.Tests.{if◌then◌else◌}
use xmpp_go.Prelude.Equality.{Eq}
use xmpp_go.Prelude.Lists.{In}

abbrev pub Dict {ℓ} : Type ℓ → Type ℓ → Type ℓ
Dict K V = List (K × V)

module _ {ℓ} {K V : Type ℓ} ⦃e : Eq K⦄ where
  unfoldable pub get : Dict K V → K → Option V
  get [] k = none
  get ((j, v) ∷ d) k = if e.same j k then some v else get d k

  unfoldable pub put : Dict K V → K → V → Dict K V
  put [] k v = (k, v) ∷ []
  put ((j, w) ∷ d) k v = let rest = put d k v in if e.same j k then (k, v) ∷ d else (j, w) ∷ rest

  unfoldable pub remove : Dict K V → K → Dict K V
  remove [] k = []
  remove ((j, w) ∷ d) k = let rest = remove d k in if e.same j k then rest else (j, w) ∷ rest

  pub get-empty : (k : K) → get [] k ≡ none
  unfolding get
  get-empty k = refl

  pub get-put :
      (d : Dict K V) (k j : K) (v : V)
      → get (put d k v) j ≡ (if e.same k j then some v else get d j)
  unfolding get put
  get-put [] k j v = refl
  get-put ((i, w) ∷ d) k j v =
      ground (arith, get-put d k j v, e.same_iff k j, e.same_iff i k, e.same_iff i j)

  pub get-remove :
      (d : Dict K V) (k j : K) → get (remove d k) j ≡ (if e.same k j then none else get d j)
  unfolding get remove
  get-remove [] k j = ground arith
  get-remove ((i, w) ∷ d) k j =
      ground (arith, get-remove d k j, e.same_iff k j, e.same_iff i k, e.same_iff i j)

  -- No key occurs twice.
  abbrev pub IsDistinct : Dict K V → Type ℓ
  IsDistinct [] = Unit
  IsDistinct ((k, v) ∷ d) = (get d k ≡ none) × IsDistinct d

  pub put-IsDistinct : (d : Dict K V) (k : K) (v : V) → IsDistinct d → IsDistinct (put d k v)
  unfolding get put
  put-IsDistinct [] k v h = (refl, tt)
  put-IsDistinct ((i, w) ∷ d) k v h =
      ground (arith, put-IsDistinct d k v h.1, get-put d k i v, e.same_iff i k, e.same_iff k i)

  pub remove-IsDistinct : (d : Dict K V) (k : K) → IsDistinct d → IsDistinct (remove d k)
  unfolding get remove
  remove-IsDistinct [] k h = tt
  remove-IsDistinct ((i, w) ∷ d) k h =
      ground (arith, remove-IsDistinct d k h.1, get-remove d k i, e.same_iff i k)

module _ {ℓ} {K V : Type ℓ} where
  unfoldable pub values : Dict K V → List V
  values [] = []
  values ((k, v) ∷ d) = v ∷ values d

  unfoldable pub keys : Dict K V → List K
  keys [] = []
  keys ((k, v) ∷ d) = k ∷ keys d

module _ {K V : Type 0} ⦃e : Eq K⦄ where
  -- What a key finds is an entry.
  pub In-of_get : (d : Dict K V) (k : K) (v : V) → get d k ≡ some v → In (k, v) d
  unfolding get
  In-of_get [] k v h = cc
  In-of_get ((i, w) ∷ d) k v h = ground (arith, In-of_get d k v, e.same_iff i k)

  -- Where no key occurs twice, each entry is what its key finds.
  pub get_of_In : (d : Dict K V) (k : K) (v : V) → IsDistinct d → In (k, v) d → get d k ≡ some v
  unfolding get
  get_of_In [] k v s h = absurd h
  get_of_In ((i, w) ∷ d) k v s (inl p) = ground (arith, e.same_iff i k)
  get_of_In ((i, w) ∷ d) k v s (inr h) = ground (arith, get_of_In d k v s.1 h, e.same_iff i k)

  -- The listed values are those that keys find.
  pub In-values : (d : Dict K V) (v : V) → In v (values d) → (k : K) × In (k, v) d
  unfolding values
  In-values [] v h = absurd h
  In-values ((k, w) ∷ d) v (inl p) = (k, inl (ap (λ x. (k, x)) p))
  In-values ((k, w) ∷ d) v (inr h) = let (j, i) = In-values d v h in (j, inr i)

  pub values-In : (d : Dict K V) (k : K) (v : V) → In (k, v) d → In v (values d)
  unfolding values
  values-In [] k v h = absurd h
  values-In ((j, w) ∷ d) k v (inl p) = inl (ap (λ (x : K × V). x.1) p)
  values-In ((j, w) ∷ d) k v (inr h) = inr (values-In d k v h)

pub ruleset dict_laws = (get-empty, get-put, get-remove)
