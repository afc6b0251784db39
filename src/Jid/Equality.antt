-- ===== src/Jid/Equality.antt =====
-- `Equal` of jid/jid.go.
use xmpp_go.Prelude.{◌≡◌, ◌↔◌, sym, ap, ◌∙◌, true, ok, list_eq, eq_iff, arith}
use xmpp_go.Prelude.Bytes.{Bytes}
use xmpp_go.Jid.{Jid, parse, to_string, equal}
use xmpp_go.Jid.RoundTrip.{IsSplit, parse-to_string}
use xmpp_go.Prelude.{ok-injective}

-- Of two parsed JIDs, each with a localpart or with no `@` in its domainpart, `Equal` holds exactly if
-- they have the same three parts, and exactly if they print the same text.
pub equal_exact :
    (s t : Bytes) (j k : Jid)
    → parse s ≡ ok j
    → parse t ≡ ok k
    → IsSplit j.local j.domain
    → IsSplit k.local k.domain
    → ((equal j k ≡ true) ↔ (j ≡ k)) × ((equal j k ≡ true) ↔ (to_string j ≡ to_string k))
unfolding equal
equal_exact s t j k p q sj sk = (
  (same.0, same.1),
  (
    (λ h. ap to_string (same.0 h)),
    λ e.
        same.1
          (ok-injective (sym (parse-to_string s j p sj) ∙ ap parse e ∙ parse-to_string t k q sk)),
  ),
)
  where
    same : (equal j k ≡ true) ↔ (j ≡ k)
    same = (
      λ h.
          ground
            (arith, eq_iff j.local k.local, eq_iff j.domain k.domain, eq_iff j.resource k.resource),
      λ h.
          ground
            (arith, eq_iff j.local k.local, eq_iff j.domain k.domain, eq_iff j.resource k.resource),
    )
