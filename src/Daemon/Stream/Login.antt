-- ===== src/Daemon/Stream/Login.antt =====
-- When a session of cmd/xmppd/stream.go becomes authenticated.
use xmpp_go.Prelude.{
  ℕ, ◌≡◌, ◌⊎◌, refl, sym, ap, subst, ◌∙◌, Bool, true, false, some, List, [], ◌∷◌, list_eq, nat_eq,
  ◌==◌, eq_iff, if◌then◌else◌, eqb, eqb_iff, not, ◌&&◌, ◌||◌, arith, inl, inr, Bool-cases,
}
use xmpp_go.Prelude.Bytes.{Bytes, bytes}
use xmpp_go.Jid.{Jid, is_zero, is_full, is_domain_only, to_string}
use xmpp_go.Jid
use xmpp_go.Jid.Bounds.{new-ok}
use xmpp_go.Storage.Memory.Users.{authenticate}
use xmpp_go.Stanza.{Iq, Message, Presence}
use xmpp_go.Daemon.Router.{targets, register}
use xmpp_go.Daemon.Registration.{handle}
use xmpp_go.Daemon.Text.{trim_space, upper}
use xmpp_go.Daemon.World.{
  set_state, Session, World, Out, set_session, send, deliver, deliver_iq, route_message,
  route_presence, route_iq, refuse_request, is_request, stream_start, tls_proceed, sasl_success,
  sasl_failure,
}
use xmpp_go.Daemon.Stream.{
  Config, Decoders, Inputs, Element, stream_open, start_tls, other, broken, auth_element,
  message_element, presence_element, iq_element, flag_secure, flag_authenticated, flag_bound_ready,
  handle_stream_open, handle_start_tls, plain_parts, check_password, handle_sasl_auth, bind_of,
  bound_user, handle_bind_iq, register_account, handle_iq, handle_message, handle_presence,
  on_element, sasl_fails, not_authorized,
}
use xmpp_go.Daemon.Stream.Branches.{if_at, option_at, result_at, checked_at, and_then_at}
use xmpp_go.Daemon.Stream.Credentials.{Credentials, Admitted, plain_parts-joined}
use xmpp_go.Daemon.Stream.Safety.{send-sessions}
use xmpp_go.Daemon.Stream.Deliveries.{next, next-sessions}

module _ (d : Decoders) (cfg : Config) (w : World) (i : ℕ) (e : Element) (j : ℕ) where
  -- A session is authenticated as it was, or it is the one that reads the element, and admitted.
  abbrev pub AsBefore : World → Type 0
  AsBefore v =
      ((v.sessions j).state.authenticated ≡ (w.sessions j).state.authenticated)
      ⊎ ((i ≡ j) × Admitted d cfg w.store e (v.sessions j))

  sessions-AsBefore : (v u : World) → u.sessions ≡ v.sessions → AsBefore v → AsBefore u
  sessions-AsBefore v u same h =
      subst
        (λ (s : ℕ → Session).
          ((s j).state.authenticated ≡ (w.sessions j).state.authenticated)
          ⊎ ((i ≡ j) × Admitted d cfg w.store e (s j)))
        (sym same) h

  send-AsBefore : (v : World) (k dst : ℕ) (o : Out) → AsBefore v → AsBefore (send v k dst o).0
  send-AsBefore v k dst o h = sessions-AsBefore v (send v k dst o).0 (send-sessions v k dst o) h

  self-AsBefore : AsBefore w
  self-AsBefore = inl refl

  deliver-AsBefore :
      (v : World) (o : Out) (dsts : List ℕ) → AsBefore v → AsBefore (deliver v i o dsts)
  unfolding deliver
  deliver-AsBefore v o [] h = h
  deliver-AsBefore v o (x ∷ dsts) h =
      deliver-AsBefore (next v i o x) o dsts
        (sessions-AsBefore v (next v i o x) (next-sessions v i x o) h)

  deliver_iq-AsBefore :
      (v : World) (o : Out) (full : Bool) (dsts : List ℕ)
      → AsBefore v
      → AsBefore (deliver_iq v i o full dsts)
  unfolding deliver_iq
  deliver_iq-AsBefore v o full [] h = h
  deliver_iq-AsBefore v o full (x ∷ dsts) h =
      let first = sessions-AsBefore v (next v i o x) (next-sessions v i x o) h in
      if_World (not (eqb x i) && full) _ _ first
        (deliver_iq-AsBefore (next v i o x) o full dsts first)
    where
      if_World : (b : Bool) (x y : World) → AsBefore x → AsBefore y → AsBefore (if b then x else y)
      if_World true x y u v = u
      if_World false x y u v = v

  refuse_request-AsBefore :
      (v : World) (iq : Iq) (a b c : Bytes) → AsBefore v → AsBefore (refuse_request v i iq a b c).0
  unfolding refuse_request
  refuse_request-AsBefore v iq a b c h =
      if_at AsBefore (is_request iq) _ _ (λ e. send-AsBefore v i i _ h) (λ e. h)

  route_iq-AsBefore : (v : World) (iq : Iq) → AsBefore v → AsBefore (route_iq v i iq).0
  unfolding route_iq
  route_iq-AsBefore v iq h =
      if_at AsBefore (is_zero iq.header.to || is_domain_only iq.header.to) _ _
        (λ e. refuse_request-AsBefore v iq _ _ _ h)
        (λ e.
          if_at AsBefore (targets v.router iq.header.to == []) _ _
            (λ f. refuse_request-AsBefore v _ _ _ _ h)
            (λ f. deliver_iq-AsBefore v _ (is_full iq.header.to) (targets v.router iq.header.to) h))

  route_message-AsBefore :
      (v : World) (msg : Message) → AsBefore v → AsBefore (route_message v i msg)
  unfolding route_message
  route_message-AsBefore v msg h = deliver-AsBefore v _ (targets v.router msg.header.to) h

  -- Flags other than `authenticated` leave it, on the session itself.
  set_session-AsBefore :
      (v : World) (s : Session)
      → s.state.authenticated ≡ (w.sessions i).state.authenticated
      → AsBefore v
      → AsBefore (set_session v i s)
  set_session-AsBefore v s same h = elim (Bool-cases (eqb i j)) [
    | inl own ↦ inl (ground (arith, own, (eqb_iff i j).0 own, same))
    | inr different ↦ rw different h
  ]

  route_presence-AsBefore :
      (v : World) (pres : Presence) → AsBefore v → AsBefore (route_presence v i pres)
  unfolding route_presence
  route_presence-AsBefore v pres h = elim (Bool-cases (is_zero pres.header.to)) [
    | inl zero ↦ rw (route_presence, zero) h
    | inr there ↦
        rw (route_presence, there) (deliver-AsBefore v _ (targets v.router pres.header.to) h)
  ]

  handle_stream_open-AsBefore : AsBefore (handle_stream_open cfg w i).0
  unfolding handle_stream_open
  handle_stream_open-AsBefore =
      result_at AsBefore (Jid.new [] cfg.domain []) _ _ self-AsBefore (λ from f.
        and_then_at AsBefore (send w i i (stream_start (to_string from))) _
          (send-AsBefore w i i _ self-AsBefore)
          (λ k. send-AsBefore (send w i i (stream_start (to_string from))).0 i i _ k))

  handle_start_tls-AsBefore : (inputs : Inputs) → AsBefore (handle_start_tls cfg inputs w i).0
  unfolding handle_start_tls set_state
  handle_start_tls-AsBefore inputs =
      let v = (send w i i tls_proceed).0 in
      if_at AsBefore (not cfg.has_tls || (w.sessions i).state.secure) _ _
        (λ e. send-AsBefore w i i _ self-AsBefore)
        (λ e.
          and_then_at AsBefore (send w i i tls_proceed) _ (send-AsBefore w i i _ self-AsBefore)
            (λ k.
              if_at AsBefore inputs.handshake _ _
                (λ f.
                  set_session-AsBefore v
                    (record (v.sessions i) { state = set_state (v.sessions i).state flag_secure })
                    (ground (
                      arith,
                      ap (λ (s : ℕ → Session). (s i).state.authenticated)
                          (send-sessions w i i tls_proceed),
                    ))
                    k)
                (λ f. k)))

  check_password-AsBefore :
      (username password : Bytes)
      → Credentials d e username password
      → AsBefore (check_password cfg w i username password).0
  unfolding check_password sasl_fails set_state
  check_password-AsBefore username password shown =
      let fails = λ (c : Bytes). send-AsBefore w i i (sasl_failure c) self-AsBefore in
      option_at AsBefore w.store _ _ (λ f. fails _)
        (λ s f.
          checked_at AsBefore (authenticate s username password) _ _ _ (fails _) (fails _) (λ q.
            result_at AsBefore (Jid.new username cfg.domain []) _ _ (fails _) (λ own k.
              let (same, _) = new-ok username cfg.domain [] own k in
              let new = record (w.sessions i) {
                authenticated_user = username;
                remote = own;
                state = set_state (w.sessions i).state flag_authenticated;
              } in
              let admitted : Admitted d cfg w.store e new = record {
                accounts = s;
                password = password;
                presented = shown;
                stored = f;
                checked = q;
                own_name = ap (λ (x : Jid). x.local) same;
                own_domain = ap (λ (x : Jid). x.domain) same;
              } in
              send-AsBefore (set_session w i new) i i sasl_success (elim (Bool-cases (eqb i j)) [
                | inl mine ↦ rw mine (inr ((eqb_iff i j).0 mine, admitted))
                | inr different ↦ rw different (inl refl)
              ]))))

  handle_sasl_auth-AsBefore :
      (mechanism value : Bytes)
      → e ≡ auth_element mechanism value
      → AsBefore (handle_sasl_auth d cfg w i mechanism value).0
  unfolding handle_sasl_auth sasl_fails
  handle_sasl_auth-AsBefore mechanism value read =
      let fails = λ (c : Bytes). send-AsBefore w i i (sasl_failure c) self-AsBefore in
      if_at AsBefore (w.sessions i).state.authenticated _ _ (λ f. fails _)
        (λ f.
          if_at AsBefore (not (upper (trim_space mechanism) == bytes "PLAIN")) _ _ (λ g. fails _)
            (λ g.
              option_at AsBefore (d.decode_base64 (trim_space value)) _ _ (λ k. fails _)
                (λ payload k.
                  option_at AsBefore (plain_parts payload) _ _ (λ l. fails _)
                    (λ (text, password) l.
                      let (authzid, joined, a, b) = plain_parts-joined payload text password l in
                      if_at AsBefore (trim_space text == []) _ _ (λ m. fails _)
                        (λ m. check_password-AsBefore (trim_space text) password (record {
                          mechanism = mechanism;
                          value = value;
                          authzid = authzid;
                          text = text;
                          element = read;
                          plain =
                              ground
                                (arith, g, eq_iff (upper (trim_space mechanism)) (bytes "PLAIN"));
                          decoded = k ∙ ap (λ p. some p) joined;
                          first_part = a;
                          second_part = b;
                          trimmed = refl;
                        }))))))

  handle_bind_iq-AsBefore :
      (inputs : Inputs) (iq : Iq) (asked : Bytes)
      → AsBefore (handle_bind_iq cfg inputs w i iq asked).0
  unfolding handle_bind_iq set_state not_authorized
  handle_bind_iq-AsBefore inputs iq asked =
      let old = w.sessions i in
      let username = bound_user old in
      let resource = if trim_space asked == [] then inputs.random_resource else trim_space asked in
      if_at AsBefore (not old.state.authenticated) _ _ (λ k. send-AsBefore w i i _ self-AsBefore)
        (λ k.
          if_at AsBefore (username == []) _ _ (λ f. send-AsBefore w i i _ self-AsBefore)
            (λ f.
              result_at AsBefore (Jid.new username cfg.domain resource) _ _
                (send-AsBefore w i i _ self-AsBefore)
                (λ full g.
                  let v =
                    set_session w i (record old {
                      remote = full;
                      state = set_state old.state flag_bound_ready;
                    }) in
                  let u = record v { router = register v.router full i } in
                  send-AsBefore u i i _ (
                    sessions-AsBefore v u refl (
                      set_session-AsBefore w
                        (record old { remote = full; state = set_state old.state flag_bound_ready })
                        (ground arith) self-AsBefore)))))

  register_account-AsBefore :
      (inputs : Inputs) (iq : Iq) → AsBefore (register_account d cfg inputs w i iq).0
  unfolding register_account
  register_account-AsBefore inputs iq =
      let old = w.sessions i in
      let r =
        handle d.codec cfg.registration_config w.store old.limiter old.peer iq inputs.now
          inputs.later inputs.made in
      let v = set_session w i (record old { limiter = r.0.1 }) in
      let u = record v { store = r.0.0 } in
      let h =
        sessions-AsBefore v u refl
          (set_session-AsBefore w (record old { limiter = r.0.1 }) refl self-AsBefore) in
      option_at AsBefore r.1 _ _ (λ f. h) (λ a f. send-AsBefore u i i _ h)

  handle_iq-AsBefore : (inputs : Inputs) (iq : Iq) → AsBefore (handle_iq d cfg inputs w i iq).0
  unfolding handle_iq
  handle_iq-AsBefore inputs iq =
      let v = (register_account d cfg inputs w i iq).0 in
      option_at AsBefore (bind_of d iq) _ _
        (λ f.
          and_then_at AsBefore (register_account d cfg inputs w i iq) _
            (register_account-AsBefore inputs iq)
            (λ k.
              if_at AsBefore (not (v.sessions i).state.ready) _ _
                (λ g. refuse_request-AsBefore v iq _ _ _ k) (λ g. route_iq-AsBefore v iq k)))
        (λ asked f. handle_bind_iq-AsBefore inputs iq asked)

  pub on_element-AsBefore :
      (inputs : Inputs) (x : Element) → e ≡ x → AsBefore (on_element d cfg inputs w i x).0
  unfolding on_element handle_message handle_presence
  on_element-AsBefore inputs stream_open read = handle_stream_open-AsBefore
  on_element-AsBefore inputs start_tls read = handle_start_tls-AsBefore inputs
  on_element-AsBefore inputs other read = self-AsBefore
  on_element-AsBefore inputs broken read = self-AsBefore
  on_element-AsBefore inputs (auth_element mechanism value) read =
      handle_sasl_auth-AsBefore mechanism value read
  on_element-AsBefore inputs (message_element msg) read =
      if_at AsBefore (not (w.sessions i).state.ready) _ _ (λ f. self-AsBefore)
        (λ f. route_message-AsBefore w msg self-AsBefore)
  on_element-AsBefore inputs (presence_element pres) read =
      if_at AsBefore (not (w.sessions i).state.ready) _ _ (λ f. self-AsBefore)
        (λ f. route_presence-AsBefore w pres self-AsBefore)
  on_element-AsBefore inputs (iq_element q) read = handle_iq-AsBefore inputs q
