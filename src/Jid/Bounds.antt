-- ===== src/Jid/Bounds.antt =====
-- What an accepted JID looks like.
use xmpp_go.Prelude.{
  ℕ, ◌+◌, ◌≤◌, ◌≡◌, ◌≢◌, inl, inr, refl, sym, subst, true, List, [], ◌∷◌, ok, list_eq, ◌==◌, eq_iff,
  not, length, length-append, eqb, all, arith, Bool-cases, Option-cases,
}
use xmpp_go.Prelude.Bytes.{Bytes}
use xmpp_go.Jid.{
  Jid, plain, lacks, all_plain, valid_local, new, split_resource, split_local, parse, to_string,
}
use xmpp_go.Jid.Utf8.{runes, idle, runes-lacks}

all-plain_lacks :
    (rs : List ℕ)
    → all plain rs ≡ true
    → (all (λ r. not (eqb r b'@')) rs ≡ true) × (all (λ r. not (eqb r b'/')) rs ≡ true)
all-plain_lacks [] h = (refl, refl)
all-plain_lacks (r ∷ rs) h = ground (arith, all-plain_lacks rs)

plain_text_lacks :
    (s : Bytes) → all_plain (runes idle s) ≡ true → (lacks b'@' s ≡ true) × (lacks b'/' s ≡ true)
plain_text_lacks s h = elim (Option-cases (runes idle s)) [
  | inl e ↦ absurd (ground arith)
  | inr (rs, e) ↦
      let (at, slash) = all-plain_lacks rs (ground arith) in
      (
        runes-lacks b'@' idle s rs refl (omega arith) e at,
        runes-lacks b'/' idle s rs refl (omega arith) e slash,
      )
]

pub valid_local-lacks :
    (s : Bytes) → valid_local s ≡ true → (lacks b'@' s ≡ true) × (lacks b'/' s ≡ true)
unfolding valid_local
valid_local-lacks [] h = (refl, refl)
valid_local-lacks (b ∷ s) h = plain_text_lacks (b ∷ s) h

-- The parts of a JID that `new` accepts.
pub record IsAccepted (local domain resource : Bytes) : Type 0 where
  pub has_domain : domain ≢ []
  pub local_fits : length local ≤ 1023
  pub domain_fits : length domain ≤ 1023
  pub resource_fits : length resource ≤ 1023
  pub local_at : lacks b'@' local ≡ true
  pub local_slash : lacks b'/' local ≡ true

new-valid_local :
    (l d r : Bytes) (j : Jid) → new l d r ≡ ok j → (lacks b'@' l ≡ true) × (lacks b'/' l ≡ true)
unfolding new
new-valid_local [] d r j h = (refl, refl)
new-valid_local (b ∷ l) d r j h = ground (arith, valid_local-lacks (b ∷ l))

pub new-ok :
    (l d r : Bytes) (j : Jid)
    → new l d r ≡ ok j
    → (j ≡ record { local = l; domain = d; resource = r }) × IsAccepted l d r
unfolding new
new-ok l d r j h = (
  ground arith,
  record {
    has_domain = λ e. ground (arith, eq_iff d []);
    local_fits = ground arith;
    domain_fits = ground arith;
    resource_fits = ground arith;
    local_at = (new-valid_local l d r j h).0;
    local_slash = (new-valid_local l d r j h).1;
  },
)

-- A JID is rebuilt from its own parts by the same checks.
pub new_self : (l d r : Bytes) (j : Jid) → new l d r ≡ ok j → new j.local j.domain j.resource ≡ ok j
new_self l d r j h =
    let e = (new-ok l d r j h).0 in
    subst (λ (k : Jid). new k.local k.domain k.resource ≡ ok j) (sym e) h

pub parse-new :
    (s : Bytes) (j : Jid)
    → parse s ≡ ok j
    → new
        (split_local (split_resource s).0).0
        (split_local (split_resource s).0).1
        (split_resource s).1
      ≡ ok j
unfolding parse
parse-new s j h = ground arith

length-to_string :
    (j : Jid) → length (to_string j) ≤ length j.local + length j.domain + length j.resource + 2
unfolding to_string
length-to_string j = elim (Bool-cases (j.domain == [])) [
  | inl e ↦ rw e (omega arith)
  | inr e ↦ rw e (grind (arith, length-append))
]

-- Whatever text is parsed, an accepted JID has a domain, each part has at most 1023 bytes, the
-- localpart holds neither `@` nor `/`, and its text has at most 3071 bytes.
pub parse_bounds :
    (s : Bytes) (j : Jid)
    → parse s ≡ ok j
    → IsAccepted j.local j.domain j.resource × (length (to_string j) ≤ 3071)
parse_bounds s j h =
    let a = (new-ok j.local j.domain j.resource j (new_self _ _ _ j (parse-new s j h))).1 in
    (a, omega (arith, length-to_string j, a.local_fits, a.domain_fits, a.resource_fits))
