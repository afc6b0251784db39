-- ===== src/Jid/Utf8.antt =====
-- `utf8.ValidString` and `range` over a valid string, of Go's standard library: a decoder that reads
-- one byte at a time.
use xmpp_go.Prelude.{
  ℕ, ◌+◌, ◌-◌, ◌*◌, ◌%◌, ◌≤◌, ◌≡◌, refl, Bool, true, false, Option, none, some, List, [], ◌∷◌,
  if◌then◌else◌, ◌&&◌, ltb, leb, eqb, all, arith, not, Option-cases,
}
use xmpp_go.Prelude.Bytes.{Bytes}
use mathlib.Core.Option
use mathlib.Core.Logic.{inl, inr}

-- How many bytes of the current rune are missing, the range of the next one, and the bits so far.
pub record Decoder : Type 0 where
  pub need : ℕ
  pub lo : ℕ
  pub hi : ℕ
  pub bits : ℕ

abbrev pub idle : Decoder
idle = record { need = 0; lo = 0x80; hi = 0xBF; bits = 0 }

abbrev pub wants : ℕ → ℕ → ℕ → ℕ → Decoder
wants need lo hi bits = record { need = need; lo = lo; hi = hi; bits = bits }

-- The first byte of a rune: the rune of an ASCII byte, or what has to follow.
unfoldable pub start : ℕ → Option (Decoder × Option ℕ)
start b =
    if ltb b 0x80
    then some (idle, some b)
    else if ltb b 0xC2
    then none
    else if ltb b 0xE0
    then some (wants 1 0x80 0xBF (b % 32), none)
    else if eqb b 0xE0
    then some (wants 2 0xA0 0xBF 0, none)
    else if eqb b 0xED
    then some (wants 2 0x80 0x9F 13, none)
    else if ltb b 0xF0
    then some (wants 2 0x80 0xBF (b % 16), none)
    else if eqb b 0xF0
    then some (wants 3 0x90 0xBF 0, none)
    else if ltb b 0xF4
    then some (wants 3 0x80 0xBF (b % 8), none)
    else if eqb b 0xF4
    then some (wants 3 0x80 0x8F 4, none)
    else none

-- A further byte of a rune, the last one with `more` at 0.
unfoldable pub continue : ℕ → Decoder → ℕ → Option (Decoder × Option ℕ)
continue more d b =
    let bits = d.bits * 64 + b % 64 in
    if leb d.lo b && leb b d.hi
    then (if eqb more 0 then some (idle, some bits) else some (wants more 0x80 0xBF bits, none))
    else none

unfoldable pub next : Decoder → ℕ → Option (Decoder × Option ℕ)
unfolding start continue
next d b = if eqb d.need 0 then start b else continue (d.need - 1) d b

abbrev pub emit : Option ℕ → List ℕ → List ℕ
emit none rs = rs
emit (some r) rs = r ∷ rs

-- The runes of a text, or none if it is not valid UTF-8.
unfoldable pub runes : Decoder → Bytes → Option (List ℕ)
unfolding next
runes d [] = if eqb d.need 0 then some [] else none
runes d (b ∷ s) = elim (next d b) [
  | none ↦ none
  | some (d', out) ↦ Option.map (emit out) (runes d' s)
]

unfoldable pub valid_string : Bytes → Bool
unfolding runes
valid_string s = elim (runes idle s) [ none ↦ false | some _ ↦ true ]

-- A byte that a rune still misses is not an ASCII byte.
abbrev pub IsSound : Decoder → Type 0
IsSound d = 0x80 ≤ d.lo

start-IsSound :
    (b : ℕ) (d : Decoder) (out : Option ℕ)
    → start b ≡ some (d, out)
    → IsSound d × (ltb b 0x80 ≡ true → out ≡ some b)
unfolding start
start-IsSound b d out h = ground arith

continue-IsSound :
    (more : ℕ) (d d' : Decoder) (b : ℕ) (out : Option ℕ)
    → IsSound d
    → continue more d b ≡ some (d', out)
    → IsSound d' × (ltb b 0x80 ≡ true → out ≡ some b)
unfolding continue
continue-IsSound more d d' b out i h = ground arith

next-IsSound :
    (d d' : Decoder) (b : ℕ) (out : Option ℕ)
    → IsSound d
    → next d b ≡ some (d', out)
    → IsSound d' × (ltb b 0x80 ≡ true → out ≡ some b)
unfolding next
next-IsSound d d' b out i h =
    ground (arith, start-IsSound b d' out, continue-IsSound (d.need - 1) d d' b out i)

abbrev Steps : Decoder → ℕ → Bytes → List ℕ → Type 0
Steps d b s rs =
    (d' : Decoder) × (out : Option ℕ) × (rest : List ℕ) × (next d b ≡ some (d', out))
    × (runes d' s ≡ some rest)
    × (rs ≡ emit out rest)

rest_runes :
    (d d' : Decoder) (b : ℕ) (s : Bytes) (out : Option ℕ) (rs : List ℕ)
    → next d b ≡ some (d', out)
    → Option.map (emit out) (runes d' s) ≡ some rs
    → Steps d b s rs
rest_runes d d' b s out rs e h = elim (Option-cases (runes d' s)) [
  | inl f ↦ absurd (ground arith)
  | inr (rest, f) ↦ (d', out, rest, e, f, ground arith)
]

runes-Steps :
    (d : Decoder) (b : ℕ) (s : Bytes) (rs : List ℕ) → runes d (b ∷ s) ≡ some rs → Steps d b s rs
unfolding runes
runes-Steps d b s rs h = elim (Option-cases (next d b)) [
  | inl e ↦ absurd (ground arith)
  | inr ((d', out), e) ↦ rest_runes d d' b s out rs e (ground arith)
]

-- An ASCII character that is none of the runes is none of the bytes.
pub runes-lacks :
    (c : ℕ) (d : Decoder) (s : Bytes) (rs : List ℕ)
    → ltb c 0x80 ≡ true
    → IsSound d
    → runes d s ≡ some rs
    → all (λ r. not (eqb r c)) rs ≡ true
    → all (λ b. not (eqb b c)) s ≡ true
unfolding runes
runes-lacks c d [] rs a i h p = refl
runes-lacks c d (b ∷ s) rs a i h p =
    let (d', out, rest, e, f, g) = runes-Steps d b s rs h in
    ground (arith, next-IsSound d d' b out i e, runes-lacks c d' s rest a)
