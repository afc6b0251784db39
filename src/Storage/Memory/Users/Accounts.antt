-- ===== src/Storage/Memory/Users/Accounts.antt =====
-- Accounts of the in-memory backend: creation, replacement, deletion and password checks.
use xmpp_go.Prelude.{
  ◌⊎◌, ℕ, ◌≡◌, ◌↔◌, inl, inr, true, none, some, ok, err, list_eq, ◌==◌, eq_iff, eq_refl,
  if◌then◌else◌, not, ◌&&◌, arith, Option-cases,
}
use xmpp_go.Prelude.Bytes.{Bytes}
use xmpp_go.Prelude.Dict.{get, get-put, get-remove}
use xmpp_go.Storage.Model.{not_found, user_exists, auth_failed, User}
use xmpp_go.Storage.Memory.State.{Store}
use xmpp_go.Storage.Memory.Users.{
  create_user, get_user, update_user, delete_user, user_exists?, authenticate,
}

-- What creating an account leaves for a reader of each name: a fresh name is created with both
-- times set to the time of the call, a taken one is refused with `user_exists` and keeps its
-- account, and no other account changes.
pub get_user-create_user :
    (s : Store) (u : User) (now : ℕ) (name : Bytes)
    → (get_user (create_user s u now).0 name ≡ (
        if u.username == name && not (user_exists? s name)
        then ok (record u { created_at = now; updated_at = now })
        else get_user s name))
      × ((create_user s u now).1 ≡ (if user_exists? s u.username then some user_exists else none))
unfolding get_user create_user user_exists?
get_user-create_user s u now name = (
  ground (
    arith,
    eq_iff u.username name,
    get-put s.users u.username name (record u { created_at = now; updated_at = now }),
  ),
  ground arith,
)

-- An update of a known account replaces all but the account's name, with the time of the call; of
-- an unknown one it changes nothing and reports `not_found`.
pub get_user-update_user :
    (s : Store) (u : User) (now : ℕ) (name : Bytes)
    → (get_user (update_user s u now).0 name ≡ (
        if u.username == name && user_exists? s name
        then ok (record u { updated_at = now })
        else get_user s name))
      × ((update_user s u now).1 ≡ (if user_exists? s u.username then none else some not_found))
unfolding get_user update_user user_exists?
get_user-update_user s u now name = (
  ground (
    arith,
    eq_iff u.username name,
    get-put s.users u.username name (record u { updated_at = now }),
  ),
  ground arith,
)

-- A password check accepts exactly the stored password of an existing account, and otherwise
-- reports `auth_failed`, without telling an unknown name from a wrong password.
pub authenticate_exact :
    (s : Store) (name password : Bytes)
    → ((authenticate s name password ≡ ok true)
        ↔ ((u : User) × (get_user s name ≡ ok u) × (u.password ≡ password)))
      × ((authenticate s name password ≡ ok true)
          ⊎ (authenticate s name password ≡ err auth_failed))
unfolding authenticate get_user
authenticate_exact s name password =
    ((accepted, λ (u, p, q). ground (arith, eq_iff u.password password)), ground arith)
  where
    accepted :
        authenticate s name password ≡ ok true
        → (u : User) × (get_user s name ≡ ok u) × (u.password ≡ password)
    accepted h = elim (Option-cases (get s.users name)) [
      | inl e ↦ absurd (ground arith)
      | inr (u, e) ↦ (u, ground arith, ground (arith, eq_iff u.password password))
    ]

-- After a successful deletion the name has no account and no password opens it; the accounts
-- under other names stay. Deleting an unknown name changes nothing.
pub delete_user_lem :
    (s : Store) (name other password : Bytes)
    → let (s', e) = delete_user s name in
      (get_user s' other ≡ (if name == other then err not_found else get_user s other))
      × (e ≡ (if user_exists? s name then none else some not_found))
      × (authenticate s' name password ≡ err auth_failed)
unfolding delete_user get_user user_exists? authenticate
delete_user_lem s name other password = (
  ground (arith, eq_iff name other, get-remove s.users name other),
  ground arith,
  ground (arith, eq_refl name, get-remove s.users name name),
)
