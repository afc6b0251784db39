-- ===== src/Daemon/Router/Histories.antt =====
-- The `sessionRouter` of cmd/xmppd/stream.go over every history of its two writing methods, against
-- a function from the text of a full JID to a session.
use xmpp_go.Prelude.{
  ℕ, ◌≡◌, ◌↔◌, refl, sym, ◌∙◌, false, Option, none, some, List, [], ◌∷◌, In, list_eq, ◌==◌,
  if◌then◌else◌, not, ◌&&◌, arith,
}
use xmpp_go.Prelude.Bytes.{Bytes}
use xmpp_go.Prelude.Dict.{get, get-empty}
use xmpp_go.Jid.{Jid, to_string, bare, is_zero, is_full}
use xmpp_go.Daemon.Router.{Router, new_session_router, register, unregister, targets}
use xmpp_go.Daemon.Router.Views.{
  front, IsPlain, Agrees, new_session_router-Agrees, register-Agrees, unregister-Agrees,
  get-register, get-unregister, targets_lem,
}

-- A call of the router.
pub data Event : Type 0 where
  registers : Jid → ℕ → Event
  unregisters : Jid → Event

-- The router after the calls, the first of the list first.
unfoldable pub routed : List Event → Router → Router
routed [] r = r
routed (registers j s ∷ es) r = routed es (register r j s)
routed (unregisters j ∷ es) r = routed es (unregister r j)

-- The same calls on a function: which session was registered last under a text and has not left it.
abbrev pub changed : (Bytes → Option ℕ) → Jid → Option ℕ → Bytes → Option ℕ
changed h j w f = if not (to_string j == []) && to_string j == f then w else h f

unfoldable pub holder : List Event → (Bytes → Option ℕ) → Bytes → Option ℕ
holder [] h = h
holder (registers j s ∷ es) h = holder es (changed h j (some s))
holder (unregisters j ∷ es) h = holder es (changed h j none)

abbrev pub ArePlain : List Event → Type 0
ArePlain [] = Unit
ArePlain (registers j s ∷ es) = IsPlain j × ArePlain es
ArePlain (unregisters j ∷ es) = IsPlain j × ArePlain es

holder_same :
    (es : List Event) (h k : Bytes → Option ℕ)
    → ((f : Bytes) → h f ≡ k f)
    → (f : Bytes) → holder es h f ≡ holder es k f
unfolding holder
holder_same [] h k e f = e f
holder_same (registers j s ∷ es) h k e f =
    holder_same es (changed h j (some s)) (changed k j (some s)) (λ g. ground (arith, e g)) f
holder_same (unregisters j ∷ es) h k e f =
    holder_same es (changed h j none) (changed k j none) (λ g. ground (arith, e g)) f

routed-Agrees : (es : List Event) (r : Router) → ArePlain es → Agrees r → Agrees (routed es r)
unfolding routed
routed-Agrees [] r p h = h
routed-Agrees (registers j s ∷ es) r p h =
    routed-Agrees es (register r j s) p.1 (register-Agrees r j s p.0 h)
routed-Agrees (unregisters j ∷ es) r p h =
    routed-Agrees es (unregister r j) p.1 (unregister-Agrees r j p.0 h)

get-routed :
    (es : List Event) (r : Router) (f : Bytes)
    → get (routed es r).by_full f ≡ holder es (get r.by_full) f
unfolding routed holder
get-routed [] r f = refl
get-routed (registers j s ∷ es) r f =
    get-routed es (register r j s) f
    ∙ holder_same es (get (register r j s).by_full) (changed (get r.by_full) j (some s))
        (get-register r j s) f
get-routed (unregisters j ∷ es) r f =
    get-routed es (unregister r j) f
    ∙ holder_same es (get (unregister r j).by_full) (changed (get r.by_full) j none)
        (get-unregister r j) f

-- Whatever JIDs were registered and unregistered since the router was new, in any order, a stanza to
-- a JID has as its targets exactly the sessions that were registered last under the JID's own text
-- and have not been unregistered there since, or, if the JID has no resource, under a text with its
-- bare text in front of the resource. Of every JID of the history the bare text can be read back
-- from the full one, as it can where the domain has no slash; the JID of the stanza is not the zero
-- JID.
pub targets-routed :
    (es : List Event) (to : Jid) (s : ℕ)
    → ArePlain es
    → is_zero to ≡ false
    → In s (targets (routed es new_session_router) to) ↔ (
        (f : Bytes) × (if is_full to then f ≡ to_string to else front f ≡ to_string (bare to))
        × (holder es (λ g. none) f ≡ some s))
targets-routed es to s p z =
    let r = routed es new_session_router in
    let same = λ (f : Bytes).
      get-routed es new_session_router f
      ∙ holder_same es (get new_session_router.by_full) (λ g. none) (λ g. get-empty {V = ℕ} g) f in
    let seen =
      targets_lem r to s (routed-Agrees es new_session_router p new_session_router-Agrees) z in
    (
      λ i. let (f, e, q) = seen.0 i in (f, e, sym (same f) ∙ q),
      λ (f, e, q). seen.1 (f, e, same f ∙ q),
    )
