-- ===== src/Prelude/Equality.antt =====
-- Go's `==` on comparable types: an interface with its law, and the instances that the code uses.
use Prim.Native.Nat.{ℕ}
use mathlib.Core.Path.{◌≡◌, refl}
use mathlib.Core.Logic.{◌↔◌}
use mathlib.Core.Bool.{Bool, true, false, ◌&&◌}
use mathlib.Core.List.{List, [], ◌∷◌}
use native.Mathlib.Omega.{arith}
use xmpp_go.Prelude.Tests.{eqb, eqb_iff}

-- A Boolean comparison that decides equality.
pub record Eq {ℓ} (K : Type ℓ) : Type ℓ where
  pub same : K → K → Bool
  pub same_iff : (j k : K) → (same j k ≡ true) ↔ (j ≡ k)

abbrev pub list_eqb : List ℕ → List ℕ → Bool
list_eqb [] [] = true
list_eqb [] (y ∷ ys) = false
list_eqb (x ∷ xs) [] = false
list_eqb (x ∷ xs) (y ∷ ys) = eqb x y && list_eqb xs ys

pub list_eqb_iff : (a b : List ℕ) → (list_eqb a b ≡ true) ↔ (a ≡ b)
list_eqb_iff [] [] = ground arith
list_eqb_iff [] (y ∷ ys) = ground arith
list_eqb_iff (x ∷ xs) [] = ground arith
list_eqb_iff (x ∷ xs) (y ∷ ys) = ground (arith, list_eqb_iff xs ys, eqb_iff x y)

instance abbrev pub list_eq : Eq (List ℕ)
list_eq = record { same = list_eqb; same_iff = list_eqb_iff }

module _ {ℓ} {A B : Type ℓ} ⦃ea : Eq A⦄ ⦃eb : Eq B⦄ where
  abbrev pub pair_eqb : A × B → A × B → Bool
  pair_eqb (a, b) (c, d) = ea.same a c && eb.same b d

  pub pair_eqb_iff : (p q : A × B) → (pair_eqb p q ≡ true) ↔ (p ≡ q)
  pair_eqb_iff (a, b) (c, d) = ground (arith, ea.same_iff a c, eb.same_iff b d)

instance abbrev pub pair_eq {ℓ} : {A B : Type ℓ} ⦃ea : Eq A⦄ ⦃eb : Eq B⦄ → Eq (A × B)
pair_eq = record { same = pair_eqb; same_iff = pair_eqb_iff }

instance abbrev pub nat_eq : Eq ℕ
nat_eq = record { same = eqb; same_iff = λ j k. eqb_iff j k }

infix 50 ◌==◌
abbrev pub ◌==◌ {ℓ} : {K : Type ℓ} ⦃e : Eq K⦄ → K → K → Bool
◌==◌ ⦃e⦄ = e.same

module _ {ℓ} {K : Type ℓ} ⦃e : Eq K⦄ where
  pub eq_iff : (j k : K) → ((j == k) ≡ true) ↔ (j ≡ k)
  eq_iff j k = e.same_iff j k

  pub eq_refl : (k : K) → (k == k) ≡ true
  eq_refl k = (e.same_iff k k).1 refl
