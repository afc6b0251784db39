-- ===== src/Daemon/Registration.antt =====
-- cmd/xmppd/registration.go: the handler of in-band registration over the in-memory backend, whose
-- UserExists reports no error. Reading XML, writing a form as XML and hashing a password are
-- parameters. A handler sends at most one IQ, to the session that asked.
pub mod Accounts
use xmpp_go.Prelude.{
  ℕ, Bool, true, false, Option, none, some, ok, err, List, [], ◌∷◌, list_eq, ◌==◌, or_zero,
  if◌then◌else◌, not, ◌&&◌, ◌||◌,
}
use xmpp_go.Prelude.Bytes.{Bytes, bytes}
use xmpp_go.Prelude.Dict.{Dict, get, put}
use xmpp_go.Storage.Model.{User, user_exists}
use xmpp_go.Storage.Memory.State.{Store}
use xmpp_go.Storage.Memory.Users.{create_user, delete_user, user_exists?, authenticate}
use xmpp_go.Stanza.{Iq, new_stanza_error, result_iq, error_iq, iq_get, iq_set}
use xmpp_go.Daemon.Forms.{
  RegistrationConfig, DataForm, registration_closed, registration_invite, registration_admin,
  data_form_of,
}
use xmpp_go.Daemon.Limiter.{RateLimiter, allow}

-- What the handler reads of plugins/register's `Query`, and what it answers with.
pub record Query : Type 0 where
  pub space : Bytes
  pub username : Bytes
  pub password : Bytes
  pub email : Bytes
  pub remove : Bool
  pub form : Option Bytes

-- The answers: an IQ without a payload, the account's form, and `registered`.
pub data Answer : Type 0 where
  plain : Iq → Answer
  form_sent : Iq → Bytes → Option Bytes → Answer
  registered : Iq → Answer

-- The first values of the fields of a form, which replace those of the same name.
unfoldable pub put_fields : Dict Bytes Bytes → List (Bytes × List Bytes) → Dict Bytes Bytes
put_fields d [] = d
put_fields d ((var, []) ∷ fields) = put_fields d fields
put_fields d ((var, v ∷ values) ∷ fields) = put_fields (put d var v) fields

abbrev pub put_text : Dict Bytes Bytes → Bytes → Bytes → Dict Bytes Bytes
put_text d name value = if value == [] then d else put d name value

abbrev pub field : Dict Bytes Bytes → Bytes → Bytes
field d name = or_zero [] (get d name)

abbrev pub holds : List Bytes → Bytes → Bool
holds [] token = false
holds (t ∷ tokens) token = t == token || holds tokens token

-- An empty set holds no token.
unfoldable pub is_token_allowed : List Bytes → Bytes → Bool
is_token_allowed tokens token = holds tokens token

abbrev pub refuse : Iq → Bytes → Bytes → Bytes → Answer
refuse iq error_type condition text =
    plain (error_iq iq (new_stanza_error error_type condition text))

-- What a request leaves: the accounts and the answer.
abbrev pub Handled : Type 0
Handled = Store × Answer

-- The password is kept as it is beside what SCRAM needs.
unfoldable pub new_user : Bytes → Bytes → ℕ → Bytes → Bytes → Bytes → User
new_user username password iterations salt stored_key server_key = record {
  username = username;
  password = password;
  salt = salt;
  iterations = iterations;
  server_key = server_key;
  stored_key = stored_key;
  created_at = 0;
  updated_at = 0;
}

-- What the library reads and computes for the handler.
pub record Codec : Type 0 where
  pub decode_query : Bytes → Option Query
  pub decode_form : Bytes → Option (List (Bytes × List Bytes))
  pub marshal_form : DataForm → Bytes
  -- The salt, the stored key and the server key.
  pub hash_password : Bytes → ℕ → Option (Bytes × Bytes × Bytes)

module _ (codec : Codec) (cfg : RegistrationConfig) where
  unfoldable pub handle_get : Iq → Answer
  handle_get iq =
      if cfg.policy == registration_closed
      then refuse iq (bytes "cancel") (bytes "service-unavailable") (bytes "registration disabled")
      else form_sent (result_iq iq) cfg.instructions
          (if cfg.data_form then some (codec.marshal_form (data_form_of cfg)) else none)

  unfoldable pub extract_fields : Query → Dict Bytes Bytes
  extract_fields q =
      let named =
        put_text
          (put_text (put_text [] (bytes "username") q.username) (bytes "password") q.password)
          (bytes "email") q.email in
      elim q.form [
        | none ↦ named
        | some f ↦ elim (codec.decode_form f) [
          | none ↦ named
          | some fields ↦ put_fields named fields
        ]
      ]

  unfoldable pub handle_remove : Store → Iq → Dict Bytes Bytes → Handled
  handle_remove s iq fields =
      let username = field fields (bytes "username") in
      let password = field fields (bytes "password") in
      if username == [] || password == []
      then (
        s,
        refuse iq (bytes "modify") (bytes "bad-request") (bytes "username and password required"),
      )
      else elim (authenticate s username password) [
        | err _ ↦
            (s, refuse iq (bytes "auth") (bytes "not-authorized") (bytes "authentication failed"))
        | ok false ↦
            (s, refuse iq (bytes "auth") (bytes "not-authorized") (bytes "authentication failed"))
        | ok true ↦
            let w = delete_user s username in
            elim w.1 [
              | some _ ↦ (
                w.0,
                refuse iq (bytes "wait") (bytes "internal-server-error")
                    (bytes "user delete failed"),
              )
              | none ↦ (w.0, registered (result_iq iq))
            ]
      ]

  -- The last part of `handleSet`: a new account.
  unfoldable pub handle_create : Store → Iq → Dict Bytes Bytes → ℕ → Handled
  handle_create s iq fields now =
      let username = field fields (bytes "username") in
      let password = field fields (bytes "password") in
      if username == [] || password == []
      then (
        s,
        refuse iq (bytes "modify") (bytes "bad-request") (bytes "username and password required"),
      )
      else if user_exists? s username
      then (s, refuse iq (bytes "cancel") (bytes "conflict") (bytes "user already exists"))
      else elim (codec.hash_password password cfg.iterations) [
        | none ↦ (
          s,
          refuse iq (bytes "wait") (bytes "internal-server-error")
              (bytes "password hashing failed"),
        )
        | some (salt, stored_key, server_key) ↦
            let w =
              create_user s (new_user username password cfg.iterations salt stored_key server_key)
                now in
            elim w.1 [
              | none ↦ (w.0, registered (result_iq iq))
              | some user_exists ↦
                  (w.0, refuse iq (bytes "cancel") (bytes "conflict") (bytes "user already exists"))
              | some _ ↦ (
                w.0,
                refuse iq (bytes "wait") (bytes "internal-server-error")
                    (bytes "user create failed"),
              )
            ]
      ]

  -- The token that the policy asks for is there.
  unfoldable pub is_admitted : Dict Bytes Bytes → Bool
  is_admitted fields =
      if cfg.policy == registration_invite
      then is_token_allowed cfg.invites (
          if field fields (bytes "invite") == []
          then field fields (bytes "token")
          else field fields (bytes "invite"))
      else if cfg.policy == registration_admin
      then is_token_allowed cfg.admin_tokens (field fields (bytes "admin_token"))
      else true

  unfoldable pub handle_set : Option Store → Iq → Query → ℕ → Option Store × Answer
  handle_set none iq q now = (
    none,
    if cfg.policy == registration_closed
        then refuse iq (bytes "cancel") (bytes "service-unavailable")
            (bytes "registration disabled")
        else refuse iq (bytes "cancel") (bytes "service-unavailable")
            (bytes "registration unavailable"),
  )
  handle_set (some s) iq q now =
      let fields = extract_fields q in
      if cfg.policy == registration_closed
      then (
        some s,
        refuse iq (bytes "cancel") (bytes "service-unavailable") (bytes "registration disabled"),
      )
      else if not (is_admitted fields)
      then (
        some s,
        refuse iq (bytes "auth") (bytes "not-allowed") (
            if cfg.policy == registration_invite
            then bytes "invalid invite"
            else bytes "admin token required"),
      )
      else let h = if q.remove then handle_remove s iq fields else handle_create s iq fields now in
        (some h.0, h.1)

  -- The register query of a request, if it is one.
  unfoldable pub query_of : Iq → Option Query
  query_of iq =
      if not (iq.header.stanza_type == iq_get) && not (iq.header.stanza_type == iq_set)
      then none
      else if iq.query == []
      then none
      else elim (codec.decode_query iq.query) [
        | none ↦ none
        | some q ↦ if q.space == bytes "jabber:iq:register" then some q else none
      ]

  -- `Handle`, for a peer with the given key; `now`, `later` and `made` are its readings of the clock.
  unfoldable pub handle :
      Option Store
      → RateLimiter
      → Bytes
      → Iq
      → ℕ
      → ℕ
      → ℕ
      → (Option Store × RateLimiter) × Option Answer
  handle s limiter peer iq now later made = elim (query_of iq) [
    | none ↦ ((s, limiter), none)
    | some q ↦
        let a = allow limiter peer now later in
        if not a.1
        then (
          (s, a.0),
          some (
              refuse iq (bytes "wait") (bytes "resource-constraint") (bytes "rate limit exceeded")),
        )
        else if iq.header.stanza_type == iq_get
        then ((s, a.0), some (handle_get iq))
        else let h = handle_set s iq q made in ((h.0, a.0), some h.1)
  ]
