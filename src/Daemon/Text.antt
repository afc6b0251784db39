-- ===== src/Daemon/Text.antt =====
-- The functions of Go's package strings that cmd/xmppd/stream.go calls, on the bytes of a text.
use xmpp_go.Prelude.{
  ℕ, zero, suc, ◌-◌, Option, none, some, List, [], ◌∷◌, ◌++◌, list_eq, if◌then◌else◌, leb, eqb,
  ◌&&◌, length,
}
use xmpp_go.Prelude.Bytes.{Bytes}

-- The UTF-8 forms of the characters of Unicode's White_Space.
abbrev pub white : List Bytes
white =
    (9 ∷ [])
    ∷ (10 ∷ [])
    ∷ (11 ∷ [])
    ∷ (12 ∷ [])
    ∷ (13 ∷ [])
    ∷ (32 ∷ [])
    ∷ (194 ∷ 133 ∷ [])
    ∷ (194 ∷ 160 ∷ [])
    ∷ (225 ∷ 154 ∷ 128 ∷ [])
    ∷ (226 ∷ 128 ∷ 128 ∷ [])
    ∷ (226 ∷ 128 ∷ 129 ∷ [])
    ∷ (226 ∷ 128 ∷ 130 ∷ [])
    ∷ (226 ∷ 128 ∷ 131 ∷ [])
    ∷ (226 ∷ 128 ∷ 132 ∷ [])
    ∷ (226 ∷ 128 ∷ 133 ∷ [])
    ∷ (226 ∷ 128 ∷ 134 ∷ [])
    ∷ (226 ∷ 128 ∷ 135 ∷ [])
    ∷ (226 ∷ 128 ∷ 136 ∷ [])
    ∷ (226 ∷ 128 ∷ 137 ∷ [])
    ∷ (226 ∷ 128 ∷ 138 ∷ [])
    ∷ (226 ∷ 128 ∷ 168 ∷ [])
    ∷ (226 ∷ 128 ∷ 169 ∷ [])
    ∷ (226 ∷ 128 ∷ 175 ∷ [])
    ∷ (226 ∷ 129 ∷ 159 ∷ [])
    ∷ (227 ∷ 128 ∷ 128 ∷ [])
    ∷ []

-- The text behind a prefix that it has.
abbrev pub behind : Bytes → Bytes → Option Bytes
behind [] s = some s
behind (b ∷ p) [] = none
behind (b ∷ p) (c ∷ s) = let rest = behind p s in if eqb b c then rest else none

-- The text behind the first of the prefixes that it has.
abbrev pub behind_any : List Bytes → Bytes → Option Bytes
behind_any [] s = none
behind_any (p ∷ ps) s =
    let rest = behind_any ps s in elim (behind p s) [ none ↦ rest | some t ↦ some t ]

-- The text without the prefixes, in at most so many rounds; each takes a byte, so the length serves.
unfoldable pub strip : ℕ → List Bytes → Bytes → Bytes
strip zero ps s = s
strip (suc rounds) ps s = elim (behind_any ps s) [ none ↦ s | some t ↦ strip rounds ps t ]

abbrev pub reversed : Bytes → Bytes
reversed [] = []
reversed (b ∷ s) = reversed s ++ b ∷ []

abbrev pub reversed_all : List Bytes → List Bytes
reversed_all [] = []
reversed_all (p ∷ ps) = reversed p ∷ reversed_all ps

-- `strings.TrimSpace`.
unfoldable pub trim_space : Bytes → Bytes
trim_space s =
    let t = strip (length s) white s in
    reversed (strip (length t) (reversed_all white) (reversed t))

-- `strings.ToUpper`, for the comparison with a text of the letters of PLAIN: of the characters
-- beyond ASCII only U+0131 becomes one of these, I.
abbrev pub capital : ℕ → ℕ
capital b = if leb b'a' b && leb b b'z' then b - 32 else b

abbrev pub upper : Bytes → Bytes
upper [] = []
upper (b ∷ []) = capital b ∷ []
upper (b ∷ c ∷ s) =
    let rest = upper s in
    let single = upper (c ∷ s) in if eqb b 196 && eqb c 177 then b'I' ∷ rest else capital b ∷ single
