-- ===== src/Jid/RoundTrip.antt =====
-- Parsing the text of a JID.
use xmpp_go.Prelude.{
  ℕ, ◌≤◌, ◌≡◌, ◌≢◌, ◌⊎◌, inl, inr, refl, sym, ap, subst, ◌∙◌, true, false, none, some, [], ◌∷◌,
  ◌++◌, ok, list_eq, ◌==◌, eq_iff, if◌then◌else◌, ◌&&◌, length, arith, Bool-cases, Option-cases,
}
use xmpp_go.Prelude.Bytes.{Bytes}
use xmpp_go.Jid.{
  Jid, lacks, new, cut, split_resource, split_local, parse, to_string, bare, with_resource,
}
use xmpp_go.Jid.Bounds.{IsAccepted, new-ok, new_self, parse-new}
use mathlib.Core.List.{append-nil, append_assoc}

pub cut-append : (c : ℕ) (x y : Bytes) → lacks c x ≡ true → cut c (x ++ c ∷ y) ≡ some (x, y)
unfolding cut
cut-append c [] y h = ground arith
cut-append c (b ∷ x) y h = ground (arith, cut-append c x y)

pub cut-none : (c : ℕ) (x : Bytes) → lacks c x ≡ true → cut c x ≡ none
unfolding cut
cut-none c [] h = refl
cut-none c (b ∷ x) h = ground (arith, cut-none c x)

pub lacks-append : (c : ℕ) (x y : Bytes) → lacks c (x ++ y) ≡ (lacks c x && lacks c y)
lacks-append c [] y = ground arith
lacks-append c (b ∷ x) y = ground (arith, lacks-append c x y)

cut_first :
    (c k : ℕ) (s x y : Bytes)
    → cut c s ≡ some (x, y)
    → lacks k s ≡ true
    → (lacks k x ≡ true) × (lacks k y ≡ true)
unfolding cut
cut_first c k [] x y e h = cc
cut_first c k (b ∷ s) x y e h = elim (Option-cases (cut c s)) [
  | inl f ↦ ground arith
  | inr ((u, v), f) ↦ ground (arith, cut_first c k s u v f)
]

cut-none-lacks : (c : ℕ) (s : Bytes) → cut c s ≡ none → lacks c s ≡ true
unfolding cut
cut-none-lacks c [] e = refl
cut-none-lacks c (b ∷ s) e = ground (arith, cut-none-lacks c s)

pub cut_before : (c : ℕ) (s x y : Bytes) → cut c s ≡ some (x, y) → lacks c x ≡ true
unfolding cut
cut_before c [] x y e = cc
cut_before c (b ∷ s) x y e = elim (Option-cases (cut c s)) [
  | inl f ↦ ground arith
  | inr ((u, v), f) ↦ ground (arith, cut_before c s u v f)
]

split_resource-lacks : (s : Bytes) → lacks b'/' (split_resource s).0 ≡ true
unfolding split_resource
split_resource-lacks s = elim (Option-cases (cut b'/' s)) [
  | inl e ↦ ground (arith, cut-none-lacks b'/' s)
  | inr ((x, y), e) ↦ ground (arith, cut_before b'/' s x y)
]

split_local-lacks : (s : Bytes) → lacks b'/' s ≡ true → lacks b'/' (split_local s).1 ≡ true
unfolding split_local
split_local-lacks s h = elim (Option-cases (cut b'@' s)) [
  | inl e ↦ ground arith
  | inr ((x, y), e) ↦ ground (arith, cut_first b'@' b'/' s x y)
]

-- The text before the resource, and the resource with its slash.
abbrev pub names : Bytes → Bytes → Bytes
names local domain = if local == [] then domain else local ++ (b'@' ∷ domain)

abbrev pub slashed : Bytes → Bytes
slashed resource = if resource == [] then [] else b'/' ∷ resource

pub to_string-names :
    (j : Jid) → j.domain ≢ [] → to_string j ≡ names j.local j.domain ++ slashed j.resource
unfolding to_string
to_string-names j d = elim (Bool-cases (j.local == [])) [
  | inl e ↦ ground (arith, eq_iff j.domain [])
  | inr e ↦ ground (
    arith,
    eq_iff j.domain [],
    append_assoc j.local (b'@' ∷ []) (j.domain ++ slashed j.resource),
    append_assoc j.local (b'@' ∷ j.domain) (slashed j.resource),
  )
]

pub names-lacks :
    (l d : Bytes) → lacks b'/' l ≡ true → lacks b'/' d ≡ true → lacks b'/' (names l d) ≡ true
names-lacks l d p q = ground (arith, lacks-append b'/' l (b'@' ∷ d))

pub split_resource-slashed :
    (n r : Bytes) → lacks b'/' n ≡ true → split_resource (n ++ slashed r) ≡ (n, r)
unfolding split_resource
split_resource-slashed n [] h = rw append-nil (ground (arith, cut-none b'/' n))
split_resource-slashed n (b ∷ r) h = ground (arith, cut-append b'/' n (b ∷ r))

-- A localpart that is there, or a domainpart without `@`, keeps the first `@` where it was written.
abbrev pub IsSplit : Bytes → Bytes → Type 0
IsSplit local domain = (local ≢ []) ⊎ (lacks b'@' domain ≡ true)

split_local-names :
    (l d : Bytes) → lacks b'@' l ≡ true → IsSplit l d → split_local (names l d) ≡ (l, d)
unfolding split_local
split_local-names [] d h (inl s) = absurd (s refl)
split_local-names [] d h (inr s) = ground (arith, cut-none b'@' d)
split_local-names (b ∷ l) d h s = ground (arith, cut-append b'@' (b ∷ l) d)

names-ne : (l d t : Bytes) → d ≢ [] → ((names l d ++ t) == []) ≡ false
names-ne [] [] t h = absurd (h refl)
names-ne [] (b ∷ d) t h = refl
names-ne (b ∷ l) d t h = refl

-- What `parse` reads in the text of a JID are the JID's own parts.
parse-to_string_parts :
    (j : Jid)
    → IsAccepted j.local j.domain j.resource
    → lacks b'/' j.domain ≡ true
    → IsSplit j.local j.domain
    → parse (to_string j) ≡ new j.local j.domain j.resource
unfolding parse
parse-to_string_parts j a slash s =
    let n = names j.local j.domain in
    let whole =
      split_resource-slashed n j.resource (names-lacks j.local j.domain a.local_slash slash) in
    let parts = split_local-names j.local j.domain a.local_at s in
    rw (to_string-names j a.has_domain) (
      ground (
        arith,
        names-ne j.local j.domain (slashed j.resource) a.has_domain,
        whole,
        parts,
        eq_iff j.domain [],
      ))

-- The text of a JID made by `new` parses back to it, if its domainpart holds neither `/` nor `@`
-- (which only a domainpart in brackets can).
pub parse-to_string-new :
    (l d r : Bytes) (j : Jid)
    → new l d r ≡ ok j
    → lacks b'/' d ≡ true
    → lacks b'@' d ≡ true
    → parse (to_string j) ≡ ok j
parse-to_string-new l d r j h slash at =
    let (e, a) = new-ok l d r j h in
    rw e (
      parse-to_string_parts (record { local = l; domain = d; resource = r }) a slash (inr at)
      ∙ h
      ∙ ap ok e)

parse_slash : (s : Bytes) (j : Jid) → parse s ≡ ok j → lacks b'/' j.domain ≡ true
parse_slash s j h =
    let (e, _) = new-ok _ _ _ j (parse-new s j h) in
    subst (λ (k : Jid). lacks b'/' k.domain ≡ true) (sym e)
      (split_local-lacks (split_resource s).0 (split_resource-lacks s))

-- The text of a parsed JID parses to the same JID, if the JID has a localpart or its domainpart
-- has no `@`.
pub parse-to_string :
    (s : Bytes) (j : Jid) → parse s ≡ ok j → IsSplit j.local j.domain → parse (to_string j) ≡ ok j
parse-to_string s j h split =
    let self = new_self _ _ _ j (parse-new s j h) in
    let a = (new-ok j.local j.domain j.resource j self).1 in
    parse-to_string_parts j a (parse_slash s j h) split ∙ self

new-with_resource :
    (l d r r' : Bytes) (j : Jid)
    → new l d r ≡ ok j
    → length r' ≤ 1023
    → new l d r' ≡ ok (record { local = l; domain = d; resource = r' })
unfolding new
new-with_resource l d r r' j h fits = ground arith

-- A parsed JID with a localpart, or with no `@` in its domainpart, keeps this under a change of
-- resource: the text of the JID with any resource of at most 1023 bytes, or with none, parses back.
pub parse-with_resource :
    (s r : Bytes) (j : Jid)
    → parse s ≡ ok j
    → IsSplit j.local j.domain
    → length r ≤ 1023
    → (parse (to_string (with_resource j r)) ≡ ok (with_resource j r))
      × (parse (to_string (bare j)) ≡ ok (bare j))
unfolding with_resource bare
parse-with_resource s r j h split fits = (renamed r fits, renamed [] (omega arith))
  where
    renamed :
        (t : Bytes)
        → length t ≤ 1023
        → parse (to_string (record { local = j.local; domain = j.domain; resource = t }))
          ≡ ok (record { local = j.local; domain = j.domain; resource = t })
    renamed t fits =
        let made = parse-new s j h in
        let k = record j { resource = t } in
        let self = new-with_resource j.local j.domain j.resource t j (new_self _ _ _ j made) fits in
        let a = (new-ok j.local j.domain t k self).1 in
        parse-to_string_parts k a (parse_slash s j h) split ∙ self
