-- ===== src/Jid/Escape/Inverse.antt =====
-- Unescaping undoes escaping, and what escaping leaves.
use xmpp_go.Prelude.{
  ℕ, ◌≡◌, ◌⊎◌, inl, inr, refl, ap, sym, ◌∙◌, Bool, true, false, none, List, [], ◌∷◌, not, eqb,
  eqb_iff, all, arith, Bool-cases,
}
use xmpp_go.Prelude.Bytes.{Bytes}
use xmpp_go.Jid.Escape.{
  find_pair, replace, escape_pairs, unescape_pairs, escape_local, unescape_local,
}

-- The bytes that escaping replaces.
abbrev pub special : List ℕ
special = b'\\' ∷ b' ' ∷ 34 ∷ b'&' ∷ 39 ∷ b'/' ∷ b':' ∷ b'<' ∷ b'>' ∷ b'@' ∷ []

abbrev Plain : ℕ → List ℕ → Type 0
Plain c [] = Unit
Plain c (d ∷ ds) = (eqb d c ≡ false) × Plain c ds

abbrev OneOf : ℕ → List ℕ → Type 0
OneOf c [] = ⊥
OneOf c (d ∷ ds) = (c ≡ d) ⊎ OneOf c ds

special-cases : (c : ℕ) (ds : List ℕ) → OneOf c ds ⊎ Plain c ds
special-cases c [] = inr tt
special-cases c (d ∷ ds) = elim (Bool-cases (eqb d c)) [
  | inl e ↦ inl (inl (sym ((eqb_iff d c).0 e)))
  | inr e ↦ elim (special-cases c ds) [ inl o ↦ inl (inr o) | inr p ↦ inr (e, p) ]
]

escape-Plain : (c : ℕ) (s : Bytes) → Plain c special → find_pair escape_pairs (c ∷ s) ≡ none
unfolding find_pair
escape-Plain c s p = ground arith

unescape_plain : (c : ℕ) (s : Bytes) → eqb 92 c ≡ false → find_pair unescape_pairs (c ∷ s) ≡ none
unfolding find_pair
unescape_plain c s p = ground arith

-- A special byte and what follows it: the escaped text is read back as the byte.
unescape-special :
    (c : ℕ) (s : Bytes)
    → OneOf c special
    → replace unescape_pairs 0 (replace escape_pairs 0 (c ∷ s))
      ≡ c ∷ replace unescape_pairs 0 (replace escape_pairs 0 s)
unfolding replace
unescape-special c s (inl e) = rw e
unescape-special c s (inr (inl e)) = rw e
unescape-special c s (inr (inr (inl e))) = rw e
unescape-special c s (inr (inr (inr (inl e)))) = rw e
unescape-special c s (inr (inr (inr (inr (inl e))))) = rw e
unescape-special c s (inr (inr (inr (inr (inr (inl e)))))) = rw e
unescape-special c s (inr (inr (inr (inr (inr (inr (inl e))))))) = rw e
unescape-special c s (inr (inr (inr (inr (inr (inr (inr (inl e)))))))) = rw e
unescape-special c s (inr (inr (inr (inr (inr (inr (inr (inr (inl e))))))))) = rw e
unescape-special c s (inr (inr (inr (inr (inr (inr (inr (inr (inr (inl e)))))))))) = rw e
unescape-special c s (inr (inr (inr (inr (inr (inr (inr (inr (inr (inr o)))))))))) = absurd o

unescape-Plain :
    (c : ℕ) (s : Bytes)
    → Plain c special
    → replace unescape_pairs 0 (replace escape_pairs 0 (c ∷ s))
      ≡ c ∷ replace unescape_pairs 0 (replace escape_pairs 0 s)
unfolding replace
unescape-Plain c s p =
    rw (escape-Plain c s p, replace)
      (rw (unescape_plain c (replace escape_pairs 0 s) p.0, replace) refl)

replace_inverse : (s : Bytes) → replace unescape_pairs 0 (replace escape_pairs 0 s) ≡ s
replace_inverse [] = unfold replace in refl
replace_inverse (c ∷ s) = elim (special-cases c special) [
  | inl o ↦ unescape-special c s o ∙ ap (◌∷◌ c) (replace_inverse s)
  | inr p ↦ unescape-Plain c s p ∙ ap (◌∷◌ c) (replace_inverse s)
]

-- Unescaping an escaped localpart gives it back, whatever bytes it has.
pub unescape_local-escape_local : (s : Bytes) → unescape_local (escape_local s) ≡ s
unfolding unescape_local escape_local
unescape_local-escape_local s = replace_inverse s

-- A forbidden byte: special, and not the backslash that escaping writes.
abbrev pub forbidden : List ℕ
forbidden = b' ' ∷ 34 ∷ b'&' ∷ 39 ∷ b'/' ∷ b':' ∷ b'<' ∷ b'>' ∷ b'@' ∷ []

abbrev pub safe : ℕ → Bool
safe b = all (λ d. not (eqb d b)) forbidden

safe-Plain : (c : ℕ) → Plain c special → safe c ≡ true
safe-Plain c p = ground arith

escape-safe-special :
    (c : ℕ) (s : Bytes)
    → OneOf c special
    → all safe (replace escape_pairs 0 (c ∷ s)) ≡ all safe (replace escape_pairs 0 s)
unfolding replace
escape-safe-special c s (inl e) = rw e
escape-safe-special c s (inr (inl e)) = rw e
escape-safe-special c s (inr (inr (inl e))) = rw e
escape-safe-special c s (inr (inr (inr (inl e)))) = rw e
escape-safe-special c s (inr (inr (inr (inr (inl e))))) = rw e
escape-safe-special c s (inr (inr (inr (inr (inr (inl e)))))) = rw e
escape-safe-special c s (inr (inr (inr (inr (inr (inr (inl e))))))) = rw e
escape-safe-special c s (inr (inr (inr (inr (inr (inr (inr (inl e)))))))) = rw e
escape-safe-special c s (inr (inr (inr (inr (inr (inr (inr (inr (inl e))))))))) = rw e
escape-safe-special c s (inr (inr (inr (inr (inr (inr (inr (inr (inr (inl e)))))))))) = rw e
escape-safe-special c s (inr (inr (inr (inr (inr (inr (inr (inr (inr (inr o)))))))))) = absurd o

escape-safe : (s : Bytes) → all safe (replace escape_pairs 0 s) ≡ true
unfolding replace
escape-safe [] = refl
escape-safe (c ∷ s) = elim (special-cases c special) [
  | inl o ↦ escape-safe-special c s o ∙ escape-safe s
  | inr p ↦ rw (escape-Plain c s p, replace) (rw (safe-Plain c p, escape-safe s) refl)
]

-- An escaped localpart holds none of the characters that XEP-0106 forbids there: no space, quote,
-- ampersand, apostrophe, slash, colon, angle bracket or at sign.
pub escape_local-safe : (s : Bytes) → all safe (escape_local s) ≡ true
unfolding escape_local
escape_local-safe s = escape-safe s
