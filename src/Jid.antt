-- ===== src/Jid.antt =====
-- jid/jid.go: JIDs, their parts, their text, and XEP-0106 escaping. A Go string is its list of bytes.
pub mod Utf8
pub mod Escape
pub mod Bounds
pub mod RoundTrip
pub mod Equality
use xmpp_go.Prelude.{
  ℕ, Bool, true, false, Option, none, some, List, [], ◌∷◌, ◌++◌, Result, ok, err, list_eq, ◌==◌,
  if◌then◌else◌, not, ◌&&◌, ◌||◌, length, ltb, eqb, all,
}
use xmpp_go.Prelude.Bytes.{Bytes}
use Utf8.{valid_string, runes, idle}

pub data JidError : Type 0 where
  empty_jid invalid_local invalid_domain too_long : JidError

pub record Jid : Type 0 where
  pub local : Bytes
  pub domain : Bytes
  pub resource : Bytes

abbrev pub max_part_len : ℕ
max_part_len = 1023

-- The body of the loops `for _, r := range s` in `validLocal` and `validDomain`.
abbrev pub plain : ℕ → Bool
plain r = not (eqb r b'@' || eqb r b'/')

-- No byte of the text is `c`.
abbrev pub lacks : ℕ → Bytes → Bool
lacks c = all (λ b. not (eqb b c))

abbrev pub all_plain : Option (List ℕ) → Bool
all_plain none = false
all_plain (some rs) = all plain rs

-- The runes of a text that is not valid UTF-8 are none, and no such text is accepted.
unfoldable pub valid_local : Bytes → Bool
valid_local s = if s == [] then true else all_plain (runes idle s)

abbrev pub starts_bracket : Bytes → Bool
starts_bracket [] = false
starts_bracket (c ∷ s) = eqb c b'['

abbrev pub ends_bracket : Bytes → Bool
ends_bracket [] = false
ends_bracket (c ∷ []) = eqb c b']'
ends_bracket (c ∷ d ∷ s) = ends_bracket (d ∷ s)

unfoldable pub valid_domain : Bytes → Bool
unfolding valid_string
valid_domain s =
    if s == []
    then false
    else if not (valid_string s)
    then false
    else if starts_bracket s && ends_bracket s
    then true
    else all_plain (runes idle s)

unfoldable pub new : Bytes → Bytes → Bytes → Result JidError Jid
unfolding valid_local valid_domain
new local domain resource =
    if domain == []
    then err invalid_domain
    else if ltb max_part_len (length local)
    then err too_long
    else if ltb max_part_len (length domain)
    then err too_long
    else if ltb max_part_len (length resource)
    then err too_long
    else if not (local == []) && not (valid_local local)
    then err invalid_local
    else if not (valid_domain domain)
    then err invalid_domain
    else ok (record { local = local; domain = domain; resource = resource })

-- The text before the first `c` and the text behind it: `strings.IndexByte` and the two slices.
unfoldable pub cut : ℕ → Bytes → Option (Bytes × Bytes)
cut c [] = none
cut c (b ∷ s) =
    let rest = cut c s in
    if eqb b c then some ([], s) else elim rest [ none ↦ none | some (x, y) ↦ some (b ∷ x, y) ]

-- What stands before the resource, and the resource.
unfoldable pub split_resource : Bytes → Bytes × Bytes
unfolding cut
split_resource s = elim (cut b'/' s) [ none ↦ (s, []) | some (x, y) ↦ (x, y) ]

-- The localpart and the domainpart.
unfoldable pub split_local : Bytes → Bytes × Bytes
unfolding cut
split_local s = elim (cut b'@' s) [ none ↦ ([], s) | some (x, y) ↦ (x, y) ]

unfoldable pub parse : Bytes → Result JidError Jid
unfolding split_resource split_local new
parse s =
    if s == []
    then err empty_jid
    else let parts = split_resource s in
      let names = split_local parts.0 in
      if names.1 == [] then err invalid_domain else new names.0 names.1 parts.1

unfoldable pub to_string : Jid → Bytes
to_string j =
    if j.domain == []
    then []
    else (if j.local == [] then [] else j.local ++ b'@' ∷ [])
      ++ (j.domain ++ (if j.resource == [] then [] else b'/' ∷ j.resource))

unfoldable pub bare : Jid → Jid
bare j = record { local = j.local; domain = j.domain; resource = [] }

unfoldable pub is_bare : Jid → Bool
is_bare j = j.resource == []

unfoldable pub is_full : Jid → Bool
is_full j = not (j.resource == [])

unfoldable pub is_domain_only : Jid → Bool
is_domain_only j = j.local == []

unfoldable pub is_zero : Jid → Bool
is_zero j = j.domain == []

unfoldable pub with_resource : Jid → Bytes → Jid
with_resource j resource = record { local = j.local; domain = j.domain; resource = resource }

unfoldable pub equal : Jid → Jid → Bool
equal j other = j.local == other.local && (j.domain == other.domain && j.resource == other.resource)

-- `UnmarshalText` writes the receiver only where the text parses.
unfoldable pub unmarshal_text : Jid → Bytes → Jid × Option JidError
unfolding parse
unmarshal_text j text = elim (parse text) [ ok parsed ↦ (parsed, none) | err e ↦ (j, some e) ]
