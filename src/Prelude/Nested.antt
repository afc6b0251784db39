-- ===== src/Prelude/Nested.antt =====
-- Go maps of maps, `m[a][b]`: reading through a missing inner map finds nothing, and a write makes
-- the inner map first.
use mathlib.Core.Path.{◌≡◌}
use mathlib.Core.Bool.{◌&&◌}
use mathlib.Core.Option.{Option, none, some}
use mathlib.Core.List.{[]}
use native.Mathlib.Omega.{arith}
use xmpp_go.Prelude.Tests.{if◌then◌else◌}
use xmpp_go.Prelude.Equality.{Eq}
use xmpp_go.Prelude.Dict.{Dict, get, put, remove, get-put, get-remove}

-- What a possibly nil inner map holds.
abbrev pub or_nil {ℓ} : {K V : Type ℓ} → Option (Dict K V) → Dict K V
or_nil none = []
or_nil (some m) = m

module _ {ℓ} {J K V : Type ℓ} ⦃ej : Eq J⦄ ⦃ek : Eq K⦄ where
  unfoldable pub inner : Dict J (Dict K V) → J → Dict K V
  inner d a = or_nil (get d a)

  unfoldable pub get_in : Dict J (Dict K V) → J → K → Option V
  get_in d a b = get (inner d a) b

  unfoldable pub put_in : Dict J (Dict K V) → J → K → V → Dict J (Dict K V)
  put_in d a b v = put d a (put (inner d a) b v)

  unfoldable pub remove_in : Dict J (Dict K V) → J → K → Dict J (Dict K V)
  remove_in d a b = elim (get d a) [ none ↦ d | some m ↦ put d a (remove m b) ]

  pub inner-put_in :
      (d : Dict J (Dict K V)) (a i : J) (b : K) (v : V)
      → inner (put_in d a b v) i ≡ (if ej.same a i then put (inner d a) b v else inner d i)
  unfolding inner put_in
  inner-put_in d a i b v = ground (arith, get-put d a i (put (or_nil (get d a)) b v))

  pub inner-remove_in :
      (d : Dict J (Dict K V)) (a i : J) (b : K)
      → inner (remove_in d a b) i ≡ (if ej.same a i then remove (inner d a) b else inner d i)
  unfolding inner remove_in remove
  inner-remove_in d a i b =
      ground (arith, get-put d a i (remove (or_nil (get d a)) b), ej.same_iff a i)

  pub get_in-put_in :
      (d : Dict J (Dict K V)) (a i : J) (b j : K) (v : V)
      → get_in (put_in d a b v) i j ≡ (if ej.same a i && ek.same b j then some v else get_in d i j)
  unfolding get_in
  get_in-put_in d a i b j v =
      ground (arith, inner-put_in d a i b v, get-put (inner d a) b j v, ej.same_iff a i)

  pub get_in-remove_in :
      (d : Dict J (Dict K V)) (a i : J) (b j : K)
      → get_in (remove_in d a b) i j ≡ (if ej.same a i && ek.same b j then none else get_in d i j)
  unfolding get_in
  get_in-remove_in d a i b j =
      ground (arith, inner-remove_in d a i b, get-remove (inner d a) b j, ej.same_iff a i)

pub ruleset nested_laws = (get_in-put_in, get_in-remove_in)
