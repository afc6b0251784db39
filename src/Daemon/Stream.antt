-- ===== src/Daemon/Stream.antt =====
-- cmd/xmppd/stream.go: what the server does with each element that a session reads. Decoding,
-- randomness, the clock and the TLS handshake are parameters; a handler returns whether the loop of
-- `serveStream` goes on, which it does not behind an error.
pub mod Branches
pub mod Safety
pub mod Deliveries
pub mod Handlers
pub mod Reach
pub mod Credentials
pub mod Login
pub mod Admission
use xmpp_go.Prelude.{
  ℕ, Bool, true, false, Option, none, some, ok, err, List, [], ◌∷◌, list_eq, ◌==◌, if◌then◌else◌,
  not, ◌&&◌, ◌||◌,
}
use xmpp_go.Prelude.Bytes.{Bytes, bytes}
use xmpp_go.Jid.{Jid, cut, to_string}
use xmpp_go.Jid
use xmpp_go.Storage.Memory.Users.{authenticate}
use xmpp_go.Stanza.{Iq, Message, Presence, new_stanza_error, error_iq, result_iq, iq_set}
use xmpp_go.Daemon.Router.{register, unregister}
use xmpp_go.Daemon.Limiter.{new_rate_limiter}
use xmpp_go.Daemon.Forms.{RegistrationConfig, registration_closed}
use xmpp_go.Daemon.Registration.{Codec, handle}
use xmpp_go.Daemon.Text.{trim_space, upper}
use xmpp_go.Daemon.World.{
  SessionState, no_flags, set_state, Session, World, serving, ended, Feature, starttls, bind,
  registration, mechanisms, stream_start, features, tls_proceed, tls_failure, sasl_success,
  sasl_failure, answer, iq_reply, bind_result, set_session, send, route_message, route_presence,
  route_iq, refuse_request,
}

-- The start tags that `serveStream` tells apart, decoded. Of a broken element, and at the end of the
-- stream, the reader returns an error.
pub data Element : Type 0 where
  stream_open start_tls other broken : Element
  auth_element : Bytes → Bytes → Element
  message_element : Message → Element
  presence_element : Presence → Element
  iq_element : Iq → Element

pub record Config : Type 0 where
  pub domain : Bytes
  pub has_tls : Bool
  pub rate_limit : ℕ
  pub rate_window : ℕ
  pub registration_config : RegistrationConfig

-- What the library decodes: base64 text, and a bind request's resource if the payload is one.
pub record Decoders : Type 0 where
  pub codec : Codec
  pub decode_base64 : Bytes → Option Bytes
  pub decode_bind : Bytes → Option Bytes

-- What a step takes from outside: the random resource, the clock and the TLS handshake.
pub record Inputs : Type 0 where
  pub random_resource : Bytes
  pub now : ℕ
  pub later : ℕ
  pub made : ℕ
  pub handshake : Bool

-- `writeStreamFeatures`.
unfoldable pub features_of : Config → SessionState → List Feature
features_of cfg s =
    let is_open = not (cfg.registration_config.policy == registration_closed) in
    if not s.secure && cfg.has_tls
    then starttls ∷ (if is_open then registration ∷ [] else [])
    else if not s.authenticated
    then mechanisms (bytes "PLAIN" ∷ []) ∷ (if is_open then registration ∷ [] else [])
    else if not s.bound
    then bind ∷ []
    else []

-- Two writes in order; the second only if the first returned no error.
unfoldable pub and_then : World × Bool → (World → World × Bool) → World × Bool
and_then r k = if r.1 then k r.0 else r

abbrev pub flag_secure : SessionState
flag_secure = record no_flags { secure = true }

abbrev pub flag_authenticated : SessionState
flag_authenticated = record no_flags { authenticated = true }

abbrev pub flag_bound_ready : SessionState
flag_bound_ready = record no_flags { bound = true; ready = true }

abbrev pub with_flags : World → ℕ → SessionState → World
with_flags w i f =
    set_session w i (record (w.sessions i) { state = set_state (w.sessions i).state f })

unfoldable pub handle_stream_open : Config → World → ℕ → World × Bool
handle_stream_open cfg w i = elim (Jid.new [] cfg.domain []) [
  | err _ ↦ (w, false)
  | ok from ↦
      and_then (send w i i (stream_start (to_string from)))
        (λ v. send v i i (features (features_of cfg (v.sessions i).state)))
]

unfoldable pub handle_start_tls : Config → Inputs → World → ℕ → World × Bool
handle_start_tls cfg inputs w i =
    if not cfg.has_tls || (w.sessions i).state.secure
    then send w i i tls_failure
    else and_then (send w i i tls_proceed)
        (λ v. if inputs.handshake then (with_flags v i flag_secure, true) else (v, false))

-- The user name and the password of a PLAIN message: the second and third of the parts that the
-- first two zero bytes make.
unfoldable pub plain_parts : Bytes → Option (Bytes × Bytes)
plain_parts payload = elim (cut 0 payload) [ none ↦ none | some (authzid, rest) ↦ cut 0 rest ]

unfoldable pub sasl_fails : World → ℕ → Bytes → World × Bool
sasl_fails w i condition = send w i i (sasl_failure condition)

-- `handleSASLAuth` from the user name and the password on; a password check that returns an error
-- is no wrong password.
unfoldable pub check_password : Config → World → ℕ → Bytes → Bytes → World × Bool
check_password cfg w i username password = elim w.store [
  | none ↦ sasl_fails w i (bytes "temporary-auth-failure")
  | some s ↦ elim (authenticate s username password) [
    | err _ ↦ sasl_fails w i (bytes "temporary-auth-failure")
    | ok false ↦ sasl_fails w i (bytes "not-authorized")
    | ok true ↦ elim (Jid.new username cfg.domain []) [
      | err _ ↦ sasl_fails w i (bytes "not-authorized")
      | ok j ↦
          let old = w.sessions i in
          let v = set_session w i (record old {
            authenticated_user = username;
            remote = j;
            state = set_state old.state flag_authenticated;
          }) in
          send v i i sasl_success
    ]
  ]
]

unfoldable pub handle_sasl_auth : Decoders → Config → World → ℕ → Bytes → Bytes → World × Bool
handle_sasl_auth d cfg w i mechanism value =
    if (w.sessions i).state.authenticated
    then sasl_fails w i (bytes "not-authorized")
    else if not (upper (trim_space mechanism) == bytes "PLAIN")
    then sasl_fails w i (bytes "invalid-mechanism")
    else elim (d.decode_base64 (trim_space value)) [
      | none ↦ sasl_fails w i (bytes "malformed-request")
      | some payload ↦ elim (plain_parts payload) [
        | none ↦ sasl_fails w i (bytes "malformed-request")
        | some (name, password) ↦
            if trim_space name == []
            then sasl_fails w i (bytes "malformed-request")
            else check_password cfg w i (trim_space name) password
      ]
    ]

unfoldable pub bind_of : Decoders → Iq → Option Bytes
bind_of d iq =
    if not (iq.header.stanza_type == iq_set) || iq.query == [] then none else d.decode_bind iq.query

unfoldable pub not_authorized : World → ℕ → Iq → Bytes → World × Bool
not_authorized w i iq text =
    send w i i
      (iq_reply (error_iq iq (new_stanza_error (bytes "auth") (bytes "not-authorized") text)))

-- The user that `handleBindIQ` binds.
unfoldable pub bound_user : Session → Bytes
bound_user s =
    let username = trim_space s.authenticated_user in
    if username == [] then trim_space s.remote.local else username

unfoldable pub handle_bind_iq : Config → Inputs → World → ℕ → Iq → Bytes → World × Bool
handle_bind_iq cfg inputs w i iq asked =
    let old = w.sessions i in
    let username = bound_user old in
    let resource = if trim_space asked == [] then inputs.random_resource else trim_space asked in
    if not old.state.authenticated
    then not_authorized w i iq (bytes "not authenticated")
    else if username == []
    then not_authorized w i iq (bytes "not authenticated")
    else elim (Jid.new username cfg.domain resource) [
      | err _ ↦ send w i i (
          iq_reply (
            error_iq iq
              (new_stanza_error (bytes "modify") (bytes "jid-malformed") (bytes "invalid jid"))))
      | ok full ↦
          let v =
            set_session w i
              (record old { remote = full; state = set_state old.state flag_bound_ready }) in
          let u = record v { router = register v.router full i } in
          send u i i (bind_result (result_iq iq) (to_string full))
    ]

-- The registration handler's part of `handleIQ`: its answer is sent, and where that gives no error
-- `handleIQ` goes on.
unfoldable pub register_account : Decoders → Config → Inputs → World → ℕ → Iq → World × Bool
register_account d cfg inputs w i iq =
    let old = w.sessions i in
    let h =
      handle d.codec cfg.registration_config w.store old.limiter old.peer iq inputs.now inputs.later
        inputs.made in
    let v = record (set_session w i (record old { limiter = h.0.1 })) { store = h.0.0 } in
    elim h.1 [ none ↦ (v, true) | some a ↦ send v i i (answer a) ]

unfoldable pub handle_iq : Decoders → Config → Inputs → World → ℕ → Iq → World × Bool
handle_iq d cfg inputs w i iq = elim (bind_of d iq) [
  | some asked ↦ handle_bind_iq cfg inputs w i iq asked
  | none ↦ and_then (register_account d cfg inputs w i iq) (λ v.
      if not (v.sessions i).state.ready
      then refuse_request v i iq (bytes "auth") (bytes "not-authorized")
          (bytes "authenticate and bind first")
      else route_iq v i iq)
]

unfoldable pub handle_message : World → ℕ → Message → World × Bool
handle_message w i msg =
    if not (w.sessions i).state.ready then (w, true) else (route_message w i msg, true)

unfoldable pub handle_presence : World → ℕ → Presence → World × Bool
handle_presence w i pres =
    if not (w.sessions i).state.ready then (w, true) else (route_presence w i pres, true)

-- One round of the loop of `serveStream`.
unfoldable pub on_element : Decoders → Config → Inputs → World → ℕ → Element → World × Bool
on_element d cfg inputs w i stream_open = handle_stream_open cfg w i
on_element d cfg inputs w i start_tls = handle_start_tls cfg inputs w i
on_element d cfg inputs w i other = (w, true)
on_element d cfg inputs w i broken = (w, false)
on_element d cfg inputs w i (auth_element mechanism value) =
    handle_sasl_auth d cfg w i mechanism value
on_element d cfg inputs w i (message_element msg) = handle_message w i msg
on_element d cfg inputs w i (presence_element pres) = handle_presence w i pres
on_element d cfg inputs w i (iq_element q) = handle_iq d cfg inputs w i q

-- `serveSession` up to its loop; each session has a limiter of its own.
unfoldable pub start_session : Config → World → ℕ → Bool → Bytes → World
start_session cfg w i secure peer =
    let started = record (w.sessions i) {
      phase = serving;
      connected = true;
      peer = peer;
      limiter = new_rate_limiter cfg.rate_limit cfg.rate_window;
    } in
    let v = set_session w i started in if secure then with_flags v i flag_secure else v

-- The end of `serveSession`: its deferred call, and the connection is closed behind it.
unfoldable pub end_session : World → ℕ → World
end_session w i =
    record (set_session w i (record (w.sessions i) { phase = ended; connected = false })) {
      router = unregister w.router (w.sessions i).remote;
    }

-- A round of a session, which ends where the loop returns.
unfoldable pub serve : Decoders → Config → Inputs → World → ℕ → Element → World
serve d cfg inputs w i e =
    let r = on_element d cfg inputs w i e in if r.1 then r.0 else end_session r.0 i
