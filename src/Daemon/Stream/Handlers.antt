-- ===== src/Daemon/Stream/Handlers.antt =====
-- Each handler of cmd/xmppd/stream.go keeps what holds at all times.
use xmpp_go.Prelude.{
  ℕ, ◌≡◌, refl, ap, true, ok, [], list_eq, nat_eq, ◌==◌, if◌then◌else◌, not, ◌||◌, arith,
  Bool-cases, inl, inr,
}
use xmpp_go.Prelude.Bytes.{Bytes, bytes}
use xmpp_go.Jid.{Jid, is_zero, is_full, is_domain_only, to_string, lacks}
use xmpp_go.Jid
use xmpp_go.Jid.Bounds.{new-ok}
use xmpp_go.Storage.Memory.Users.{authenticate}
use xmpp_go.Stanza.{Iq, Message, Presence}
use xmpp_go.Daemon.Router.{targets}
use xmpp_go.Daemon.Router.Views.{new-IsPlain}
use xmpp_go.Daemon.Registration.{handle}
use xmpp_go.Daemon.Text.{trim_space, upper}
use xmpp_go.Daemon.World.{
  SessionState, set_state, World, set_session, send, route_message, route_presence, route_iq,
  refuse_request, is_request, stream_start, features, tls_proceed, sasl_success,
}
use xmpp_go.Daemon.Stream.{
  Config, Decoders, Inputs, Element, stream_open, start_tls, other, broken, auth_element,
  message_element, presence_element, iq_element, features_of, flag_secure, flag_authenticated,
  flag_bound_ready, with_flags, handle_stream_open, handle_start_tls, plain_parts, check_password,
  handle_sasl_auth, bind_of, bound_user, handle_bind_iq, register_account, handle_iq,
  handle_message, handle_presence, on_element, sasl_fails, not_authorized,
}
use xmpp_go.Daemon.Stream.Branches.{checked_at}
use xmpp_go.Daemon.Stream.Safety.{
  Safe, Keeps, if_Keeps, option_Keeps, result_Keeps, and_then-Keeps, set_session-Safe,
  set_store-Safe, register-Safe, own-Safe,
}
use xmpp_go.Daemon.Stream.Deliveries.{deliver-Safe, deliver_iq-Safe, targets-ready}

domain-new : (l d r : Bytes) (j : Jid) → Jid.new l d r ≡ ok j → j.domain ≡ d
domain-new l d r j e = ap (λ (k : Jid). k.domain) (new-ok l d r j e).0

module _ {cfg : Config} where
  route_message-Safe :
      (w : World) (i : ℕ) (msg : Message)
      → (w.sessions i).state.ready ≡ true
      → Safe cfg w
      → Safe cfg (route_message w i msg)
  unfolding route_message
  route_message-Safe w i msg r h =
      deliver-Safe w i _ (targets w.router msg.header.to) r refl
        (λ d j. targets-ready w msg.header.to d h j) h

  route_presence-Safe :
      (w : World) (i : ℕ) (pres : Presence)
      → (w.sessions i).state.ready ≡ true
      → Safe cfg w
      → Safe cfg (route_presence w i pres)
  unfolding route_presence
  route_presence-Safe w i pres r h = elim (Bool-cases (is_zero pres.header.to)) [
    | inl zero ↦ rw (route_presence, zero) h
    | inr there ↦
        rw (route_presence, there)
          (deliver-Safe w i _ (targets w.router pres.header.to) r refl
            (λ d j. targets-ready w pres.header.to d h j) h)
  ]

  refuse_request-Safe :
      (w : World) (i : ℕ) (iq : Iq) (a b c : Bytes)
      → Safe cfg w
      → Keeps cfg (refuse_request w i iq a b c)
  unfolding refuse_request
  refuse_request-Safe w i iq a b c h =
      if_Keeps (is_request iq) _ _ (λ e. own-Safe w i _ refl h) (λ e. h)

  route_iq-Safe :
      (w : World) (i : ℕ) (iq : Iq)
      → (w.sessions i).state.ready ≡ true
      → Safe cfg w
      → Keeps cfg (route_iq w i iq)
  unfolding route_iq
  route_iq-Safe w i iq r h =
      if_Keeps (is_zero iq.header.to || is_domain_only iq.header.to) _ _
        (λ e. refuse_request-Safe w i iq _ _ _ h)
        (λ e.
          if_Keeps (targets w.router iq.header.to == []) _ _
            (λ f. refuse_request-Safe w i _ _ _ _ h)
            (λ f.
              deliver_iq-Safe w i _ (is_full iq.header.to) (targets w.router iq.header.to) r refl
                (λ d j. targets-ready w iq.header.to d h j) h))

  -- Flags may be added where they make no session ready.
  pub with_flags-Safe : (w : World) (i : ℕ) → Safe cfg w → Safe cfg (with_flags w i flag_secure)
  unfolding set_state
  with_flags-Safe w i h =
      let old = h.session i in
      set_session-Safe w i
        (record (w.sessions i) { state = set_state (w.sessions i).state flag_secure })
        (record {
          ready_authenticated = λ r. ground (arith, r, old.ready_authenticated);
          own_domain = λ a. old.own_domain (ground (arith, a));
          plain = old.plain;
        })
        (λ r. ground (arith, r)) h

  handle_stream_open-Safe :
      (w : World) (i : ℕ) → Safe cfg w → Keeps cfg (handle_stream_open cfg w i)
  unfolding handle_stream_open
  handle_stream_open-Safe w i h = result_Keeps (Jid.new [] cfg.domain []) _ _ h (λ from e.
      and_then-Keeps (send w i i (stream_start (to_string from))) _ (own-Safe w i _ refl h) (λ k.
        own-Safe (send w i i (stream_start (to_string from))).0 i
          (features
            (features_of cfg ((send w i i (stream_start (to_string from))).0.sessions i).state))
          refl k))

  handle_start_tls-Safe :
      (inputs : Inputs) (w : World) (i : ℕ)
      → Safe cfg w
      → Keeps cfg (handle_start_tls cfg inputs w i)
  unfolding handle_start_tls
  handle_start_tls-Safe inputs w i h =
      if_Keeps (not cfg.has_tls || (w.sessions i).state.secure) _ _ (λ e. own-Safe w i _ refl h)
        (λ e.
          and_then-Keeps (send w i i tls_proceed) _ (own-Safe w i _ refl h)
            (λ k. if_Keeps inputs.handshake _ _ (λ f. with_flags-Safe _ i k) (λ f. k)))

  sasl_fails-Safe : (w : World) (i : ℕ) (c : Bytes) → Safe cfg w → Keeps cfg (sasl_fails w i c)
  unfolding sasl_fails
  sasl_fails-Safe w i c h = own-Safe w i _ refl h

  not_authorized-Safe :
      (w : World) (i : ℕ) (iq : Iq) (text : Bytes)
      → Safe cfg w
      → Keeps cfg (not_authorized w i iq text)
  unfolding not_authorized
  not_authorized-Safe w i iq text h = own-Safe w i _ refl h

  -- A session of the server's domain that takes a new address and new flags.
  addressed-Safe :
      (w : World) (i : ℕ) (l r user : Bytes) (j : Jid) (f : SessionState)
      → lacks b'/' cfg.domain ≡ true
      → Jid.new l cfg.domain r ≡ ok j
      → ((set_state (w.sessions i).state f).ready ≡ true
          → (set_state (w.sessions i).state f).authenticated ≡ true)
      → Safe cfg w
      → Safe cfg (
          set_session w i (record (w.sessions i) {
            authenticated_user = user;
            remote = j;
            state = set_state (w.sessions i).state f;
          }))
  unfolding set_state
  addressed-Safe w i l r user j f slash e a h =
      set_session-Safe w i
        (record (w.sessions i) {
          authenticated_user = user;
          remote = j;
          state = set_state (w.sessions i).state f;
        })
        (record {
          ready_authenticated = a;
          own_domain = λ k. domain-new l cfg.domain r j e;
          plain = new-IsPlain l cfg.domain r j e slash;
        })
        (λ k. ground (arith, k)) h

  check_password-Safe :
      (w : World) (i : ℕ) (username password : Bytes)
      → lacks b'/' cfg.domain ≡ true
      → Safe cfg w
      → Keeps cfg (check_password cfg w i username password)
  unfolding check_password set_state
  check_password-Safe w i username password slash h =
      let fails = λ (c : Bytes). sasl_fails-Safe w i c h in
      option_Keeps w.store _ _ (λ e. fails _)
        (λ s e.
          checked_at (Safe cfg) (authenticate s username password) _ _ _ (fails _) (fails _) (λ q.
            result_Keeps (Jid.new username cfg.domain []) _ _ (fails _) (λ j k.
              own-Safe _ i sasl_success refl (
                addressed-Safe w i username [] username j flag_authenticated slash k
                  (λ r. ground (arith)) h))))

  handle_sasl_auth-Safe :
      (d : Decoders) (w : World) (i : ℕ) (mechanism value : Bytes)
      → lacks b'/' cfg.domain ≡ true
      → Safe cfg w
      → Keeps cfg (handle_sasl_auth d cfg w i mechanism value)
  unfolding handle_sasl_auth
  handle_sasl_auth-Safe d w i mechanism value slash h =
      let fails = λ (c : Bytes). sasl_fails-Safe w i c h in
      if_Keeps (w.sessions i).state.authenticated _ _ (λ e. fails _)
        (λ e.
          if_Keeps (not (upper (trim_space mechanism) == bytes "PLAIN")) _ _ (λ f. fails _)
            (λ f.
              option_Keeps (d.decode_base64 (trim_space value)) _ _ (λ g. fails _)
                (λ payload g.
                  option_Keeps (plain_parts payload) _ _ (λ k. fails _)
                    (λ (name, password) k.
                      if_Keeps (trim_space name == []) _ _ (λ l. fails _)
                        (λ l. check_password-Safe w i (trim_space name) password slash h)))))

  handle_bind_iq-Safe :
      (inputs : Inputs) (w : World) (i : ℕ) (iq : Iq) (asked : Bytes)
      → lacks b'/' cfg.domain ≡ true
      → Safe cfg w
      → Keeps cfg (handle_bind_iq cfg inputs w i iq asked)
  unfolding handle_bind_iq set_state
  handle_bind_iq-Safe inputs w i iq asked slash h =
      let old = w.sessions i in
      let username = bound_user old in
      let resource = if trim_space asked == [] then inputs.random_resource else trim_space asked in
      if_Keeps (not old.state.authenticated) _ _ (λ e. not_authorized-Safe w i iq _ h)
        (λ e.
          if_Keeps (username == []) _ _ (λ f. not_authorized-Safe w i iq _ h)
            (λ f.
              result_Keeps (Jid.new username cfg.domain resource) _ _ (own-Safe w i _ refl h)
                (λ full g. own-Safe _ i _ refl (
                  register-Safe _ i full (new-IsPlain username cfg.domain resource full g slash)
                    (ground arith)
                    (addressed-Safe w i username resource old.authenticated_user full
                      flag_bound_ready slash g (λ r. ground (arith, e)) h)))))

  register_account-Safe :
      (d : Decoders) (inputs : Inputs) (w : World) (i : ℕ) (iq : Iq)
      → Safe cfg w
      → Keeps cfg (register_account d cfg inputs w i iq)
  unfolding register_account
  register_account-Safe d inputs w i iq h =
      let old = w.sessions i in
      let r =
        handle d.codec cfg.registration_config w.store old.limiter old.peer iq inputs.now
          inputs.later inputs.made in
      let same = h.session i in
      let v = set_store-Safe (set_session w i (record old { limiter = r.0.1 })) r.0.0 (
        set_session-Safe w i (record old { limiter = r.0.1 })
          (record {
            ready_authenticated = same.ready_authenticated;
            own_domain = same.own_domain;
            plain = same.plain;
          })
          (λ k. k) h) in
      option_Keeps r.1 _ _ (λ e. v) (λ a e. own-Safe _ i _ refl v)

  handle_iq-Safe :
      (d : Decoders) (inputs : Inputs) (w : World) (i : ℕ) (iq : Iq)
      → lacks b'/' cfg.domain ≡ true
      → Safe cfg w
      → Keeps cfg (handle_iq d cfg inputs w i iq)
  unfolding handle_iq
  handle_iq-Safe d inputs w i iq slash h =
      option_Keeps (bind_of d iq) _ _
        (λ e.
          and_then-Keeps (register_account d cfg inputs w i iq) _
            (register_account-Safe d inputs w i iq h)
            (λ k.
              let v = (register_account d cfg inputs w i iq).0 in
              if_Keeps (not (v.sessions i).state.ready) _ _
                (λ f. refuse_request-Safe _ i iq _ _ _ k)
                (λ f. route_iq-Safe v i iq (ground arith) k)))
        (λ asked e. handle_bind_iq-Safe inputs w i iq asked slash h)

  -- A round of the loop of `serveStream` keeps the server safe, on every element.
  pub on_element-Safe :
      (d : Decoders) (inputs : Inputs) (w : World) (i : ℕ) (e : Element)
      → lacks b'/' cfg.domain ≡ true
      → Safe cfg w
      → Keeps cfg (on_element d cfg inputs w i e)
  unfolding on_element handle_message handle_presence
  on_element-Safe d inputs w i stream_open slash h = handle_stream_open-Safe w i h
  on_element-Safe d inputs w i start_tls slash h = handle_start_tls-Safe inputs w i h
  on_element-Safe d inputs w i other slash h = h
  on_element-Safe d inputs w i broken slash h = h
  on_element-Safe d inputs w i (auth_element mechanism value) slash h =
      handle_sasl_auth-Safe d w i mechanism value slash h
  on_element-Safe d inputs w i (message_element msg) slash h =
      if_Keeps (not (w.sessions i).state.ready) _ _ (λ e. h)
        (λ e. route_message-Safe w i msg (ground arith) h)
  on_element-Safe d inputs w i (presence_element pres) slash h =
      if_Keeps (not (w.sessions i).state.ready) _ _ (λ e. h)
        (λ e. route_presence-Safe w i pres (ground arith) h)
  on_element-Safe d inputs w i (iq_element q) slash h = handle_iq-Safe d inputs w i q slash h
