-- ===== src/Prelude/Holds.antt =====
-- Maps whose entries all have a property of their key and value, each key once; maps of maps are
-- the same one level down.
use mathlib.Core.Path.{◌≡◌, subst}
use mathlib.Core.Option.{some}
use mathlib.Core.List.{[]}
use mathlib.Core.Logic.{inl, inr}
use native.Mathlib.Omega.{arith}
use xmpp_go.Prelude.Tests.{Bool-cases, Option-cases}
use xmpp_go.Prelude.Equality.{Eq}
use xmpp_go.Prelude.Dict.{
  Dict, get, put, remove, get-put, get-remove, get-empty, IsDistinct, put-IsDistinct,
  remove-IsDistinct,
}
use xmpp_go.Prelude.Nested.{inner, put_in, remove_in}

pub record Holds {K V : Type 0} ⦃e : Eq K⦄ (P : K → V → Type 0) (d : Dict K V) : Type 0 where
  pub distinct : IsDistinct d
  pub at : (k : K) (v : V) → get d k ≡ some v → P k v

module _ {K V : Type 0} ⦃e : Eq K⦄ {P : K → V → Type 0} where
  pub empty-Holds : Holds P []
  empty-Holds = record { distinct = tt; at = λ k v h. cc (get-empty {V = V} k) }

  pub put-Holds : {d : Dict K V} (k : K) (v : V) → P k v → Holds P d → Holds P (put d k v)
  put-Holds {d} k v p h = record {
    distinct = put-IsDistinct d k v h.distinct;
    at = λ j w q. elim (Bool-cases (e.same k j)) [
      | inl same ↦
          let found : v ≡ w = ground (arith, get-put d k j v) in
          subst (λ i. P i w) ((e.same_iff k j).0 same) (subst (P k) found p)
      | inr other ↦ h.at j w (ground (arith, get-put d k j v))
    ];
  }

  pub remove-Holds : {d : Dict K V} (k : K) → Holds P d → Holds P (remove d k)
  remove-Holds {d} k h = record {
    distinct = remove-IsDistinct d k h.distinct;
    at = λ j w q. h.at j w (ground (arith, get-remove d k j));
  }

module _ {J K V : Type 0} ⦃ej : Eq J⦄ ⦃ek : Eq K⦄ {P : J → K → V → Type 0} where
  pub inner-Holds :
      {d : Dict J (Dict K V)} (a : J) → Holds (λ i m. Holds (P i) m) d → Holds (P a) (inner d a)
  unfolding inner
  inner-Holds {d} a h = elim (Option-cases (get d a)) [
    | inl e ↦ rw e empty-Holds
    | inr (m, e) ↦ rw e (h.at a m e)
  ]

  pub put_in-Holds :
      {d : Dict J (Dict K V)} (a : J) (b : K) (v : V)
      → P a b v
      → Holds (λ i m. Holds (P i) m) d
      → Holds (λ i m. Holds (P i) m) (put_in d a b v)
  unfolding put_in
  put_in-Holds a b v p h = put-Holds a _ (put-Holds b v p (inner-Holds a h)) h

  pub remove_in-Holds :
      {d : Dict J (Dict K V)} (a : J) (b : K)
      → Holds (λ i m. Holds (P i) m) d
      → Holds (λ i m. Holds (P i) m) (remove_in d a b)
  unfolding remove_in
  remove_in-Holds {d} a b h = elim (Option-cases (get d a)) [
    | inl e ↦ rw (e, remove_in) h
    | inr (m, e) ↦ rw (e, remove_in) (put-Holds a _ (remove-Holds b (h.at a m e)) h)
  ]
