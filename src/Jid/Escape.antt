-- ===== src/Jid/Escape.antt =====
-- `EscapeLocal` and `UnescapeLocal` of jid/jid.go, over `strings.Replacer` of Go's standard library:
-- at each place the first pair whose old text stands there is replaced, without overlaps.
pub mod Inverse
use xmpp_go.Prelude.{
  ℕ, zero, suc, ◌-◌, Bool, true, false, Option, none, some, List, [], ◌∷◌, ◌++◌, if◌then◌else◌,
  ◌&&◌, eqb, length,
}
use xmpp_go.Prelude.Bytes.{Bytes, bytes}

abbrev pub is_prefix : Bytes → Bytes → Bool
is_prefix [] s = true
is_prefix (o ∷ old) [] = false
is_prefix (o ∷ old) (c ∷ s) = eqb o c && is_prefix old s

-- The first pair that fits: the length of its old text, and its new text.
unfoldable pub find_pair : List (Bytes × Bytes) → Bytes → Option (ℕ × Bytes)
find_pair [] s = none
find_pair ((old, new) ∷ pairs) s =
    let rest = find_pair pairs s in if is_prefix old s then some (length old, new) else rest

-- The number is how many bytes of the text a replacement has still to skip.
unfoldable pub replace : List (Bytes × Bytes) → ℕ → Bytes → Bytes
unfolding find_pair
replace pairs skip [] = []
replace pairs (suc skip) (c ∷ s) = replace pairs skip s
replace pairs zero (c ∷ s) = elim (find_pair pairs (c ∷ s)) [
  | none ↦ c ∷ replace pairs zero s
  | some (n, new) ↦ new ++ replace pairs (n - 1) s
]

abbrev pub escape_pairs : List (Bytes × Bytes)
escape_pairs =
    (b'\\' ∷ [], bytes "\\5c")
    ∷ (b' ' ∷ [], bytes "\\20")
    ∷ (34 ∷ [], bytes "\\22")
    ∷ (b'&' ∷ [], bytes "\\26")
    ∷ (39 ∷ [], bytes "\\27")
    ∷ (b'/' ∷ [], bytes "\\2f")
    ∷ (b':' ∷ [], bytes "\\3a")
    ∷ (b'<' ∷ [], bytes "\\3c")
    ∷ (b'>' ∷ [], bytes "\\3e")
    ∷ (b'@' ∷ [], bytes "\\40")
    ∷ []

abbrev pub unescape_pairs : List (Bytes × Bytes)
unescape_pairs =
    (bytes "\\20", b' ' ∷ [])
    ∷ (bytes "\\22", 34 ∷ [])
    ∷ (bytes "\\26", b'&' ∷ [])
    ∷ (bytes "\\27", 39 ∷ [])
    ∷ (bytes "\\2f", b'/' ∷ [])
    ∷ (bytes "\\3a", b':' ∷ [])
    ∷ (bytes "\\3c", b'<' ∷ [])
    ∷ (bytes "\\3e", b'>' ∷ [])
    ∷ (bytes "\\40", b'@' ∷ [])
    ∷ (bytes "\\5c", b'\\' ∷ [])
    ∷ []

unfoldable pub escape_local : Bytes → Bytes
unfolding replace
escape_local s = replace escape_pairs 0 s

unfoldable pub unescape_local : Bytes → Bytes
unfolding replace
unescape_local s = replace unescape_pairs 0 s
