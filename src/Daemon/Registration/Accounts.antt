-- ===== src/Daemon/Registration/Accounts.antt =====
-- Which accounts a registration request can make or delete, and when it changes none.
use xmpp_go.Prelude.{
  ℕ, ◌≡◌, Bool, true, false, Option, none, some, ok, err, list_eq, ◌==◌, eq_iff, eq_refl,
  if◌then◌else◌, or_zero, arith, Option-cases, Bool-cases, inl, inr,
}
use xmpp_go.Prelude.Bytes.{Bytes, bytes}
use xmpp_go.Prelude.Dict.{Dict, get-put, get-remove}
use xmpp_go.Storage.Model.{not_found}
use xmpp_go.Storage.Memory.State.{Store}
use xmpp_go.Storage.Memory.Users.{create_user, delete_user, user_exists?, authenticate, get_user}
use xmpp_go.Stanza.{Iq}
use xmpp_go.Daemon.Limiter.{RateLimiter}
use xmpp_go.Daemon.Forms.{RegistrationConfig, registration_closed}
use xmpp_go.Daemon.Registration.{
  Codec, Query, Answer, registered, plain, form_sent, handle, handle_set, handle_create,
  handle_remove, is_admitted, field, extract_fields, query_of, new_user, handle_get,
}

abbrev pub is_registered : Answer → Bool
is_registered (registered r) = true
is_registered (plain r) = false
is_registered (form_sent r i f) = false

abbrev pub answered : Option Answer → Bool
answered none = false
answered (some a) = is_registered a

module _ (codec : Codec) (cfg : RegistrationConfig) where
  handle_create-registered :
      (s : Store) (iq : Iq) (fields : Dict Bytes Bytes) (now : ℕ) (name : Bytes)
      → let h = handle_create codec cfg s iq fields now in
        let username = field fields (bytes "username") in
        is_registered h.1 ≡ true
        → (user_exists? s username ≡ false)
          × (authenticate h.0 username (field fields (bytes "password")) ≡ ok true)
          × (get_user h.0 name
              ≡ (if username == name then get_user h.0 username else get_user s name))
  unfolding handle_create create_user user_exists? authenticate get_user new_user
  handle_create-registered s iq fields now name h =
      let u = field fields (bytes "username") in
      let p = field fields (bytes "password") in
      elim (Option-cases (codec.hash_password p cfg.iterations)) [
        | inl e ↦ absurd (ground arith)
        | inr ((salt, stored, server), e) ↦
            let user = record (new_user u p cfg.iterations salt stored server) {
              created_at = now;
              updated_at = now;
            } in
            ground (
              arith,
              e,
              get-put s.users u u user,
              get-put s.users u name user,
              eq_refl u,
              eq_refl p,
              eq_iff u name,
            )
      ]

  handle_create-unchanged :
      (s : Store) (iq : Iq) (fields : Dict Bytes Bytes) (now : ℕ)
      → let h = handle_create codec cfg s iq fields now in is_registered h.1 ≡ false → h.0 ≡ s
  unfolding handle_create create_user user_exists?
  handle_create-unchanged s iq fields now h = ground arith

  handle_remove-registered :
      (s : Store) (iq : Iq) (fields : Dict Bytes Bytes) (name : Bytes)
      → let h = handle_remove codec cfg s iq fields in
        let username = field fields (bytes "username") in
        is_registered h.1 ≡ true
        → (authenticate s username (field fields (bytes "password")) ≡ ok true)
          × (get_user h.0 name ≡ (if username == name then err not_found else get_user s name))
  unfolding handle_remove delete_user get_user
  handle_remove-registered s iq fields name h =
      ground (arith, get-remove s.users (field fields (bytes "username")) name)

  handle_remove-unchanged :
      (s : Store) (iq : Iq) (fields : Dict Bytes Bytes)
      → let h = handle_remove codec cfg s iq fields in is_registered h.1 ≡ false → h.0 ≡ s
  unfolding handle_remove delete_user
  handle_remove-unchanged s iq fields h = ground arith

  -- The fields of a request.
  abbrev pub name_of : Query → Bytes
  name_of q = field (extract_fields codec cfg q) (bytes "username")

  abbrev pub password_of : Query → Bytes
  password_of q = field (extract_fields codec cfg q) (bytes "password")

  -- A set request that is answered with `registered` was admitted by the policy, which is not
  -- `closed`. If it asks for a removal, its password was that of the account and the account is
  -- gone; otherwise the name had no account and its password now opens it. No other account changes.
  pub handle_set-registered :
      (s : Store) (iq : Iq) (q : Query) (now : ℕ) (name : Bytes)
      → let h = handle_set codec cfg (some s) iq q now in
        let s' = or_zero s h.0 in
        is_registered h.1 ≡ true
        → ((cfg.policy == registration_closed) ≡ false)
          × (is_admitted codec cfg (extract_fields codec cfg q) ≡ true)
          × (if q.remove
              then (authenticate s (name_of q) (password_of q) ≡ ok true)
                × (get_user s' (name_of q) ≡ err not_found)
              else (user_exists? s (name_of q) ≡ false)
                × (authenticate s' (name_of q) (password_of q) ≡ ok true))
          × (get_user s' name ≡ (if name_of q == name then get_user s' name else get_user s name))
  unfolding handle_set
  handle_set-registered s iq q now name h =
      let fields = extract_fields codec cfg q in
      elim (Bool-cases q.remove) [
        | inl gone ↦
            let done : is_registered (handle_remove codec cfg s iq fields).1 ≡ true =
              ground (arith, gone) in
            let (a, b) = handle_remove-registered s iq fields name done in
            let (_, c) = handle_remove-registered s iq fields (name_of q) done in
            (
              ground arith,
              ground arith,
              ground (arith, gone, a, c, eq_refl (name_of q)),
              ground (arith, gone, b),
            )
        | inr new ↦
            let done : is_registered (handle_create codec cfg s iq fields now).1 ≡ true =
              ground (arith, new) in
            let (a, b, c) = handle_create-registered s iq fields now name done in
            (ground arith, ground arith, ground (arith, new, a, b), ground (arith, new, c))
      ]

  -- A request changes the accounts only if it is answered with `registered`: none that is refused,
  -- limited, malformed or a get does.
  pub handle-unchanged :
      (s : Option Store) (limiter : RateLimiter) (peer : Bytes) (iq : Iq) (now later made : ℕ)
      → let h = handle codec cfg s limiter peer iq now later made in
        answered h.1 ≡ false → h.0.0 ≡ s
  unfolding handle handle_set handle_get
  handle-unchanged none limiter peer iq now later made h = ground arith
  handle-unchanged (some s) limiter peer iq now later made h =
      elim (Option-cases (query_of codec cfg iq)) [
        | inl e ↦ ground (arith, e)
        | inr (q, e) ↦
            let fields = extract_fields codec cfg q in
            ground (
              arith,
              e,
              handle_create-unchanged s iq fields made,
              handle_remove-unchanged s iq fields,
            )
      ]
