-- ===== src/Daemon/Stream/Deliveries.antt =====
-- The routing of cmd/xmppd/stream.go reaches ready sessions only.
use xmpp_go.Prelude.{
  ℕ, ◌≡◌, refl, subst, Bool, true, false, List, [], ◌∷◌, In, list_eq, nat_eq, if◌then◌else◌, eqb,
  not, ◌&&◌, arith, Bool-cases, inl, inr,
}
use xmpp_go.Jid.{Jid, is_zero}
use xmpp_go.Daemon.Router.{targets}
use xmpp_go.Daemon.Router.Views.{targets_lem}
use xmpp_go.Daemon.World.{World, Out, send, deliver, deliver_iq}
use xmpp_go.Daemon.Stream.{Config}
use xmpp_go.Daemon.Stream.Safety.{Safe, is_routed, send-Safe, send-sessions}

-- One turn of the delivering loops.
abbrev pub next : World → ℕ → Out → ℕ → World
next w i o d = if eqb d i then w else (send w i d o).0

pub next-sessions : (w : World) (i d : ℕ) (o : Out) → (next w i o d).sessions ≡ w.sessions
next-sessions w i d o = ground (arith, send-sessions w i d o)

module _ {cfg : Config} where
  next-Safe :
      (w : World) (i d : ℕ) (o : Out)
      → (w.sessions i).state.ready ≡ true
      → (w.sessions d).state.ready ≡ true
      → is_routed o ≡ true
      → Safe cfg w
      → Safe cfg (next w i o d)
  next-Safe w i d o r k p h = elim (Bool-cases (eqb d i)) [
    | inl same ↦ rw same h
    | inr other ↦ rw other (send-Safe w i d o (ground (arith, r, k, p)) h)
  ]

  pub deliver-Safe :
      (w : World) (i : ℕ) (o : Out) (dsts : List ℕ)
      → (w.sessions i).state.ready ≡ true
      → is_routed o ≡ true
      → ((d : ℕ) → In d dsts → (w.sessions d).state.ready ≡ true)
      → Safe cfg w
      → Safe cfg (deliver w i o dsts)
  unfolding deliver
  deliver-Safe w i o [] r p k h = h
  deliver-Safe w i o (d ∷ dsts) r p k h =
      let same = next-sessions w i d o in
      deliver-Safe (next w i o d) i o dsts (rw same r) p (λ e j. rw same (k e (inr j)))
        (next-Safe w i d o r (k d (inl refl)) p h)

  pub deliver_iq-Safe :
      (w : World) (i : ℕ) (o : Out) (full : Bool) (dsts : List ℕ)
      → (w.sessions i).state.ready ≡ true
      → is_routed o ≡ true
      → ((d : ℕ) → In d dsts → (w.sessions d).state.ready ≡ true)
      → Safe cfg w
      → Safe cfg (deliver_iq w i o full dsts)
  unfolding deliver_iq
  deliver_iq-Safe w i o full [] r p k h = h
  deliver_iq-Safe w i o full (d ∷ dsts) r p k h =
      let same = next-sessions w i d o in
      let first = next-Safe w i d o r (k d (inl refl)) p h in
      if_World (not (eqb d i) && full) (next w i o d) (deliver_iq (next w i o d) i o full dsts)
        first
        (deliver_iq-Safe (next w i o d) i o full dsts (rw same r) p (λ e j. rw same (k e (inr j)))
          first)
    where
      if_World : (b : Bool) (x y : World) → Safe cfg x → Safe cfg y → Safe cfg (if b then x else y)
      if_World true x y u v = u
      if_World false x y u v = v

  -- The targets of a routed stanza are ready.
  pub targets-ready :
      (w : World) (to : Jid) (d : ℕ)
      → Safe cfg w
      → In d (targets w.router to)
      → (w.sessions d).state.ready ≡ true
  unfolding targets
  targets-ready w to d h j = elim (Bool-cases (is_zero to)) [
    | inl zero ↦ absurd (subst (In d) {y = []} (ground (arith, zero)) j)
    | inr some_jid ↦
        let (f, e, q) = (targets_lem w.router to d h.agrees some_jid).0 j in
        h.registered_ready f d q
  ]
