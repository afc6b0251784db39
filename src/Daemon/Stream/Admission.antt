-- ===== src/Daemon/Stream/Admission.antt =====
-- When a session of cmd/xmppd/stream.go becomes authenticated, over the steps of the server.
use xmpp_go.Prelude.{
  ℕ, ◌≡◌, refl, sym, ap, subst, ◌∙◌, ◌⊎◌, Bool, true, false, eqb, arith, inl, inr,
}
use xmpp_go.Prelude.{Bool-cases, eqb_iff, if◌then◌else◌}
use xmpp_go.Prelude.Bytes.{Bytes}
use xmpp_go.Daemon.World.{World, ended, set_state}
use xmpp_go.Daemon.Stream.{
  Config, Decoders, Inputs, Element, start_session, end_session, serve, on_element,
}
use xmpp_go.Daemon.Stream.Credentials.{Admitted}
use xmpp_go.Daemon.Stream.Login.{AsBefore, on_element-AsBefore}
use xmpp_go.Daemon.Stream.Reach.{Step, connects, reads, loses}

-- Connecting authenticates no session.
start_session-same :
    (cfg : Config) (w : World) (i j : ℕ) (secure : Bool) (peer : Bytes)
    → ((start_session cfg w i secure peer).sessions j).state.authenticated
      ≡ (w.sessions j).state.authenticated
unfolding start_session set_state
start_session-same cfg w i j secure peer = ground (arith, eqb_iff i j, eqb_iff i i)

module _ (d : Decoders) (cfg : Config) (w : World) (i : ℕ) (e : Element) (j : ℕ) where
  end_session-AsBefore :
      (v : World) → AsBefore d cfg w i e j v → AsBefore d cfg w i e j (end_session v i)
  unfolding end_session
  end_session-AsBefore v h = elim (Bool-cases (eqb i j)) [
    | inr different ↦ rw different h
    | inl own ↦ rw own (ended_of ((eqb_iff i j).0 own) h)
  ]
    where
      ended_of :
          i ≡ j
          → AsBefore d cfg w i e j v
          → ((v.sessions i).state.authenticated ≡ (w.sessions j).state.authenticated)
            ⊎ ((i ≡ j)
                × Admitted d cfg w.store e
                    (record (v.sessions i) { phase = ended; connected = false }))
      ended_of p (inl same) = inl (ap (λ k. (v.sessions k).state.authenticated) p ∙ same)
      ended_of p (inr (_, s)) =
          let t = subst (λ k. Admitted d cfg w.store e (v.sessions k)) (sym p) s in
          inr (
            p,
            record {
              accounts = t.accounts;
              password = t.password;
              presented = t.presented;
              stored = t.stored;
              checked = t.checked;
              own_name = t.own_name;
              own_domain = t.own_domain;
            },
          )

  -- A round of the loop.
  serve-AsBefore : (inputs : Inputs) → AsBefore d cfg w i e j (serve d cfg inputs w i e)
  unfolding serve
  serve-AsBefore inputs =
      let r = on_element d cfg inputs w i e in
      let h = on_element-AsBefore d cfg w i e j inputs e refl in
      if_World r.1 r.0 (end_session r.0 i) h (end_session-AsBefore r.0 h)
    where
      if_World :
          (b : Bool) (x y : World)
          → AsBefore d cfg w i e j x
          → AsBefore d cfg w i e j y
          → AsBefore d cfg w i e j (if b then x else y)
      if_World true x y u v = u
      if_World false x y u v = v

module _ {d : Decoders} {cfg : Config} where
  -- In whatever step of the server a session becomes authenticated, it is the session that reads an
  -- element in that step, and the element is an `auth` by the mechanism PLAIN that decodes to a name
  -- and a password with which the store's password check accepts that account. The session's user is
  -- that name without the spaces around it, and its address has that name at the server's domain.
  pub Step-Admitted :
      (v w : World) (j : ℕ)
      → Step d cfg v w
      → (v.sessions j).state.authenticated ≡ false
      → (w.sessions j).state.authenticated ≡ true
      → (inputs : Inputs) × (e : Element) × (w ≡ serve d cfg inputs v j e)
        × Admitted d cfg v.store e (w.sessions j)
  Step-Admitted v w j (connects _ i secure peer free) before after =
      absurd (ground (arith, start_session-same cfg v i j secure peer, before, after))
  Step-Admitted v w j (loses _ i) before after = absurd (ground (arith, before, after, eqb_iff i j))
  Step-Admitted v w j (reads inputs _ i e busy) before after =
      elim (serve-AsBefore d cfg v i e j inputs) [
        | inl same ↦ absurd (ground (arith, same, before, after))
        | inr (own, admitted) ↦ (inputs, e, ap (λ k. serve d cfg inputs v k e) own, admitted)
      ]
