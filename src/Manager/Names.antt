-- ===== src/Manager/Names.antt =====
-- Lists of names: membership as a test, occurrences, and the bound on lists without repetition.
use xmpp_go.Prelude.{
  ℕ, suc, ◌+◌, ◌≤◌, ◌<◌, ◌≡◌, refl, Bool, true, false, List, [], ◌∷◌, ◌++◌, if◌then◌else◌, ◌||◌,
  ◌==◌, eq_iff, eq_refl, length, list_eq, arith, Bool-cases, inl, inr,
}
use xmpp_go.Prelude.Bytes.{Bytes}

unfoldable pub has : Bytes → List Bytes → Bool
has x [] = false
has x (y ∷ l) = x == y || has x l

unfoldable pub times : Bytes → List Bytes → ℕ
times x [] = 0
times x (y ∷ l) = let rest = times x l in if x == y then suc rest else rest

-- How many entries of a list are not in another.
unfoldable pub outside : List Bytes → List Bytes → ℕ
outside [] l = 0
outside (d ∷ ds) l = let rest = outside ds l in if has d l then rest else suc rest

abbrev pub Distinct : List Bytes → Type 0
Distinct [] = Unit
Distinct (x ∷ l) = (has x l ≡ false) × Distinct l

pub has-append : (x : Bytes) (a b : List Bytes) → has x (a ++ b) ≡ (has x a || has x b)
unfolding has
has-append x [] b = ground arith
has-append x (y ∷ a) b = ground (arith, has-append x a b)

pub times-has : (x : Bytes) (l : List Bytes) → 0 < times x l → has x l ≡ true
unfolding has times
times-has x [] h = absurd (omega arith)
times-has x (y ∷ l) h = ground (arith, times-has x l)

pub has-times : (x : Bytes) (l : List Bytes) → has x l ≡ true → 0 < times x l
unfolding has times
has-times x [] h = absurd (ground arith)
has-times x (y ∷ l) h = ground (arith, has-times x l)

pub times-append : (x : Bytes) (a b : List Bytes) → times x (a ++ b) ≡ times x a + times x b
unfolding times
times-append x [] b = omega arith
times-append x (y ∷ a) b = ground (arith, times-append x a b)

-- A name that is placed takes its occurrences out of those outside.
pub outside-append :
    (n : Bytes) (ds l : List Bytes)
    → has n l ≡ false
    → outside ds l ≡ outside ds (l ++ n ∷ []) + times n ds
unfolding outside times has
outside-append n [] l h = omega arith
outside-append n (d ∷ ds) l h =
    ground (arith, outside-append n ds l h, has-append d l (n ∷ []), eq_iff d n, eq_iff n d)

pub outside_nil : (ds : List Bytes) → outside ds [] ≡ length ds
unfolding outside has
outside_nil [] = refl
outside_nil (d ∷ ds) = omega (arith, outside_nil ds)

pub outside_none :
    (ds l : List Bytes) → outside ds l ≡ 0 → (d : Bytes) → has d ds ≡ true → has d l ≡ true
unfolding outside has
outside_none [] l h d k = absurd (ground arith)
outside_none (e ∷ ds) l h d k = elim (Bool-cases (has e l)) [
  | inl there ↦ elim (Bool-cases (d == e)) [
    | inl same ↦ let p = (eq_iff d e).0 same in rw p there
    | inr other ↦ outside_none ds l (ground arith) d (ground arith)
  ]
  | inr away ↦ absurd (ground arith)
]

pub outside_all :
    (ds l : List Bytes) → ((d : Bytes) → has d ds ≡ true → has d l ≡ true) → outside ds l ≡ 0
unfolding outside has
outside_all [] l h = refl
outside_all (e ∷ ds) l h =
    let first = h e (ground (arith, eq_refl e)) in
    let rest = outside_all ds l (λ d k. h d (ground arith)) in ground arith

pub Distinct-append_one :
    (l : List Bytes) (x : Bytes) → Distinct l → has x l ≡ false → Distinct (l ++ x ∷ [])
unfolding has
Distinct-append_one [] x h k = (refl, tt)
Distinct-append_one (y ∷ l) x h k = (
  ground (arith, has-append y l (x ∷ []), eq_iff x y, eq_iff y x),
  Distinct-append_one l x h.1 (ground arith),
)

pub Distinct-middle : (a b : List Bytes) (x : Bytes) → Distinct (a ++ x ∷ b) → has x a ≡ false
unfolding has
Distinct-middle [] b x h = refl
Distinct-middle (y ∷ a) b x h = ground (
  arith,
  Distinct-middle a b x h.1,
  has-append y a (x ∷ b),
  h.0,
  eq_iff x y,
  eq_iff y x,
  eq_refl x,
)

drop_one : Bytes → List Bytes → List Bytes
drop_one x [] = []
drop_one x (y ∷ l) = let rest = drop_one x l in if x == y then l else y ∷ rest

length-drop_one :
    (x : Bytes) (l : List Bytes) → has x l ≡ true → suc (length (drop_one x l)) ≡ length l
unfolding has drop_one
length-drop_one x [] h = absurd (ground arith)
length-drop_one x (y ∷ l) h = ground (arith, length-drop_one x l)

has-drop_one :
    (z x : Bytes) (l : List Bytes) → (z == x) ≡ false → has z l ≡ true → has z (drop_one x l) ≡ true
unfolding has drop_one
has-drop_one z x [] n h = absurd (ground arith)
has-drop_one z x (y ∷ l) n h =
    ground (arith, has-drop_one z x l n, eq_iff z y, eq_iff x y, eq_iff z x)

-- A list without repetition is no longer than a list that has all its names.
pub Distinct-length :
    (a b : List Bytes)
    → Distinct a
    → ((x : Bytes) → has x a ≡ true → has x b ≡ true)
    → length a ≤ length b
unfolding has
Distinct-length [] b h k = omega arith
Distinct-length (x ∷ a) b h k =
    let there = k x (ground (arith, eq_refl x)) in
    let rest =
      Distinct-length a (drop_one x b) h.1
        (λ z i. has-drop_one z x b (ground (arith, eq_iff z x)) (k z (ground arith))) in
    omega (arith, length-drop_one x b there)

-- A list without repetition that is as long as another that has all its names has the same names.
pub Distinct-covers :
    (a b : List Bytes)
    → Distinct a
    → ((x : Bytes) → has x a ≡ true → has x b ≡ true)
    → length b ≤ length a
    → (x : Bytes) → has x b ≡ true
    → has x a ≡ true
unfolding has
Distinct-covers a b s k n x h = elim (Bool-cases (has x a)) [
  | inl there ↦ there
  | inr away ↦
      let longer =
        Distinct-length (x ∷ a) b (away, s) (λ z i. ground (arith, k z, h, eq_iff z x)) in
      absurd (omega arith)
]
