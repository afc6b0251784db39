-- ===== src/Daemon/Router/Views.antt =====
-- The router's two maps agree: both are views of one map from full JIDs to sessions.
use xmpp_go.Prelude.{
  ℕ, ◌≡◌, ◌≢◌, ◌↔◌, ok, sym, ap, ◌∙◌, subst, Bool, true, false, none, some, [], ◌∷◌, In, list_eq,
  ◌==◌, eq_iff, if◌then◌else◌, not, ◌&&◌, arith, Option-cases, Bool-cases, inl, inr,
}
use xmpp_go.Prelude.Bytes.{Bytes}
use xmpp_go.Prelude.Dict.{
  Dict, get, put, remove, IsDistinct, get-put, get-remove, put-IsDistinct, remove-IsDistinct,
  In-of_get, get_of_In, In-values, values-In,
}
use xmpp_go.Prelude.Nested.{inner, inner-put_in}
use xmpp_go.Jid.{Jid, to_string, bare, is_zero, is_full, lacks, new, split_resource}
use xmpp_go.Jid.Bounds.{new-ok}
use xmpp_go.Jid.RoundTrip.{names, names-lacks, to_string-names, split_resource-slashed}
use mathlib.Core.List.{append-nil}
use xmpp_go.Daemon.Router.{Router, new_session_router, register, unregister, targets, drop_from}

-- The text in front of the resource.
abbrev pub front : Bytes → Bytes
front f = (split_resource f).0

-- The bare JID's text is read back from the text of the full one. Every JID that `jid.New` accepts
-- with a domain without a slash is such.
abbrev pub IsPlain : Jid → Type 0
IsPlain j = front (to_string j) ≡ to_string (bare j)

to_string-bare : (j : Jid) → j.domain ≢ [] → to_string (bare j) ≡ names j.local j.domain
unfolding bare
to_string-bare j d = to_string-names (bare j) d ∙ append-nil (names j.local j.domain)

pub new-IsPlain : (l d r : Bytes) (j : Jid) → new l d r ≡ ok j → lacks b'/' d ≡ true → IsPlain j
new-IsPlain l d r j h slash =
    let (same, a) = new-ok l d r j h in
    let clean : lacks b'/' (names j.local j.domain) ≡ true =
      subst (λ (k : Jid). lacks b'/' (names k.local k.domain) ≡ true) (sym same)
        (names-lacks l d a.local_slash slash) in
    let there : j.domain ≢ [] = subst (λ (k : Jid). k.domain ≢ []) (sym same) a.has_domain in
    ap front (to_string-names j there)
    ∙ ap (λ (p : Bytes × Bytes). p.0)
        (split_resource-slashed (names j.local j.domain) j.resource clean)
    ∙ sym (to_string-bare j there)

pub record Agrees (r : Router) : Type 0 where
  pub inner_distinct : (b : Bytes) → IsDistinct (inner r.by_bare b)
  pub to_bare :
      (f : Bytes) (s : ℕ) → get r.by_full f ≡ some s → get (inner r.by_bare (front f)) f ≡ some s
  pub to_full :
      (b f : Bytes) (s : ℕ)
      → get (inner r.by_bare b) f ≡ some s
      → (front f ≡ b) × (get r.by_full f ≡ some s)

pub new_session_router-Agrees : Agrees new_session_router
unfolding get inner
new_session_router-Agrees = record {
  inner_distinct = λ b. tt;
  to_bare = λ f s h. absurd (ground arith);
  to_full = λ b f s h. absurd (ground arith);
}

inner-drop_from :
    (d : Dict Bytes (Dict Bytes ℕ)) (b i : Bytes) (m : Dict Bytes ℕ)
    → inner (drop_from d b m) i ≡ (if b == i then m else inner d i)
unfolding inner
inner-drop_from d b i [] = ground (arith, get-remove d b i)
inner-drop_from d b i (x ∷ m) = ground (arith, get-put d b i (x ∷ m))

-- What a registration leaves under each full JID.
pub get-register :
    (r : Router) (j : Jid) (s : ℕ) (f : Bytes)
    → get (register r j s).by_full f
      ≡ (if not (to_string j == []) && to_string j == f then some s else get r.by_full f)
unfolding register
get-register r j s f = ground (arith, get-put r.by_full (to_string j) f s)

inner-register :
    (r : Router) (j : Jid) (s : ℕ) (b : Bytes)
    → inner (register r j s).by_bare b ≡ (
        if not (to_string j == []) && to_string (bare j) == b
        then put (inner r.by_bare b) (to_string j) s
        else inner r.by_bare b)
unfolding register
inner-register r j s b = ground (
  arith,
  inner-put_in r.by_bare (to_string (bare j)) b (to_string j) s,
  eq_iff (to_string (bare j)) b,
)

pub get-unregister :
    (r : Router) (j : Jid) (f : Bytes)
    → get (unregister r j).by_full f
      ≡ (if not (to_string j == []) && to_string j == f then none else get r.by_full f)
unfolding unregister
get-unregister r j f = ground (arith, get-remove r.by_full (to_string j) f)

inner-unregister :
    (r : Router) (j : Jid) (b : Bytes)
    → inner (unregister r j).by_bare b ≡ (
        if not (to_string j == []) && to_string (bare j) == b
        then remove (inner r.by_bare b) (to_string j)
        else inner r.by_bare b)
unfolding unregister inner remove
inner-unregister r j b = elim (Option-cases (get r.by_bare (to_string (bare j)))) [
  | inl e ↦ ground (arith, e, eq_iff (to_string (bare j)) b)
  | inr (m, e) ↦ ground (
    arith,
    e,
    inner-drop_from r.by_bare (to_string (bare j)) b (remove m (to_string j)),
    eq_iff (to_string (bare j)) b,
  )
]

if_IsDistinct :
    (c : Bool) (a b : Dict Bytes ℕ) → IsDistinct a → IsDistinct b → IsDistinct (if c then a else b)
if_IsDistinct true a b h k = h
if_IsDistinct false a b h k = k

pub register-Agrees :
    (r : Router) (j : Jid) (s : ℕ) → IsPlain j → Agrees r → Agrees (register r j s)
register-Agrees r j s p h = record {
  inner_distinct = λ b. subst IsDistinct (sym (inner-register r j s b)) (
      if_IsDistinct _ _ _ (put-IsDistinct (inner r.by_bare b) (to_string j) s (h.inner_distinct b))
        (h.inner_distinct b));
  to_bare = λ f t q. ground (
    arith,
    q,
    p,
    get-register r j s f,
    inner-register r j s (front f),
    h.to_bare f t,
    get-put (inner r.by_bare (front f)) (to_string j) f s,
    eq_iff (to_string j) f,
    eq_iff (to_string (bare j)) (front f),
  );
  to_full = λ b f t q. ground (
    arith,
    q,
    p,
    get-register r j s f,
    inner-register r j s b,
    h.to_full b f t,
    get-put (inner r.by_bare b) (to_string j) f s,
    eq_iff (to_string j) f,
    eq_iff (to_string (bare j)) b,
  );
}

pub unregister-Agrees : (r : Router) (j : Jid) → IsPlain j → Agrees r → Agrees (unregister r j)
unregister-Agrees r j p h = record {
  inner_distinct = λ b. subst IsDistinct (sym (inner-unregister r j b)) (
      if_IsDistinct _ _ _ (remove-IsDistinct (inner r.by_bare b) (to_string j) (h.inner_distinct b))
        (h.inner_distinct b));
  to_bare = λ f t q. ground (
    arith,
    q,
    p,
    get-unregister r j f,
    inner-unregister r j (front f),
    h.to_bare f t,
    get-remove (inner r.by_bare (front f)) (to_string j) f,
    eq_iff (to_string j) f,
    eq_iff (to_string (bare j)) (front f),
  );
  to_full = λ b f t q. ground (
    arith,
    q,
    p,
    get-unregister r j f,
    inner-unregister r j b,
    h.to_full b f t,
    get-remove (inner r.by_bare b) (to_string j) f,
    eq_iff (to_string j) f,
    eq_iff (to_string (bare j)) b,
  );
}

-- A stanza to a full JID has at most the session registered under it as its target; one to a bare
-- JID has exactly the sessions registered under a full JID of that account.
pub targets_lem :
    (r : Router) (to : Jid) (s : ℕ)
    → Agrees r
    → is_zero to ≡ false
    → In s (targets r to) ↔ (
        (f : Bytes) × (if is_full to then f ≡ to_string to else front f ≡ to_string (bare to))
        × (get r.by_full f ≡ some s))
unfolding targets
targets_lem r to s h z = elim (Bool-cases (is_full to)) [
  | inl full ↦ (
    λ i. (to_string to, ground arith, ground arith),
    λ (f, e, q). let same : f ≡ to_string to = ground arith in ground (arith, same),
  )
  | inr whole ↦ (
    λ i.
        let (f, j) = In-values (inner r.by_bare (to_string (bare to))) s (ground arith) in
        let found =
          get_of_In (inner r.by_bare (to_string (bare to))) f s
            (h.inner_distinct (to_string (bare to))) j in
        let (e, q) = h.to_full (to_string (bare to)) f s found in (f, ground (arith, e), q),
    λ (f, e, q).
        let there : front f ≡ to_string (bare to) = ground arith in
        let i = values-In (inner r.by_bare (front f)) f s (In-of_get _ f s (h.to_bare f s q)) in
        subst (In s) (ground (arith, there)) i,
  )
]
