-- ===== src/Tests/Addresses.antt =====
-- JIDs with concrete texts.
use xmpp_go.Prelude.{◌≡◌, ◌≤◌, ◌↔◌, refl, true, ok, length, inr}
use xmpp_go.Prelude.Bytes.{Bytes, bytes}
use xmpp_go.Jid.{Jid, parse, to_string, equal}
use xmpp_go.Jid.Bounds.{IsAccepted, parse_bounds}
use xmpp_go.Jid.RoundTrip.{parse-to_string}
use xmpp_go.Jid.Equality.{equal_exact}
use xmpp_go.Jid.Escape.{escape_local, unescape_local}
use xmpp_go.Jid.Escape.Inverse.{unescape_local-escape_local}

abbrev text : Bytes
text = bytes "ann@example.org/home"

abbrev ann : Jid
ann = record { local = bytes "ann"; domain = bytes "example.org"; resource = bytes "home" }

ann-parse : parse text ≡ ok ann
unfolding parse
ann-parse = refl

parse-to_string_example : parse (to_string ann) ≡ ok ann
parse-to_string_example = parse-to_string text ann ann-parse (inr refl)

parse_bounds_example :
    IsAccepted ann.local ann.domain ann.resource × (length (to_string ann) ≤ 3071)
parse_bounds_example = parse_bounds text ann ann-parse

equal_exact_example :
    ((equal ann ann ≡ true) ↔ (ann ≡ ann))
    × ((equal ann ann ≡ true) ↔ (to_string ann ≡ to_string ann))
equal_exact_example = equal_exact text text ann ann ann-parse ann-parse (inr refl) (inr refl)

unescape_local-escape_local_example :
    unescape_local (escape_local (bytes "d'artagnan\\5c@x")) ≡ bytes "d'artagnan\\5c@x"
unescape_local-escape_local_example = unescape_local-escape_local (bytes "d'artagnan\\5c@x")
