-- ===== src/Storage/Memory/Users.antt =====
-- The UserStore methods of storage/memory/memory.go.
pub mod Accounts
use xmpp_go.Prelude.{
  ℕ, Bool, true, false, none, some, ok, err, or_fail, ◌==◌, list_eq, if◌then◌else◌, not,
}
use xmpp_go.Prelude.Bytes.{Bytes}
use xmpp_go.Prelude.Dict.{get, put, remove}
use xmpp_go.Storage.Model.{not_found, user_exists, auth_failed, Read, User}
use xmpp_go.Storage.Memory.State.{Store, Write, done, fails}

unfoldable pub create_user : Store → User → ℕ → Write
create_user s user now = elim (get s.users user.username) [
  | some _ ↦ fails s user_exists
  | none ↦ done (record s {
    users = put s.users user.username (record user { created_at = now; updated_at = now });
  })
]

unfoldable pub get_user : Store → Bytes → Read User
get_user s username = or_fail not_found (get s.users username)

unfoldable pub update_user : Store → User → ℕ → Write
update_user s user now = elim (get s.users user.username) [
  | none ↦ fails s not_found
  | some _ ↦
      done (record s { users = put s.users user.username (record user { updated_at = now }) })
]

unfoldable pub delete_user : Store → Bytes → Write
delete_user s username = elim (get s.users username) [
  | none ↦ fails s not_found
  | some _ ↦ done (record s { users = remove s.users username })
]

unfoldable pub user_exists? : Store → Bytes → Bool
user_exists? s username = elim (get s.users username) [ none ↦ false | some _ ↦ true ]

unfoldable pub authenticate : Store → Bytes → Bytes → Read Bool
authenticate s username password = elim (get s.users username) [
  | none ↦ err auth_failed
  | some u ↦ if not (u.password == password) then err auth_failed else ok true
]
