-- ===== src/Storage/File/Users.antt =====
-- The UserStore methods of storage/file/file.go.
use xmpp_go.Prelude.{ℕ, Bool, true, none, some, Result, ok, err, ◌==◌, list_eq, if◌then◌else◌, not}
use xmpp_go.Prelude.Bytes.{Bytes}
use xmpp_go.Prelude.Dict.{remove}
use xmpp_go.Storage.Model.{not_found, user_exists, auth_failed, User}
use xmpp_go.Storage.File.Disk.{
  Disk, Formats, FileError, FileWrite, storage_error, json_file, read_json, write_json, exists,
}

module _ (f : Formats) where
  unfoldable pub create_user : Disk → User → ℕ → FileWrite
  create_user d user now =
      if exists d.users (json_file user.username) then (d, some (storage_error user_exists)) else (
        record d {
          users =
              write_json f.user d.users (json_file user.username)
                (record user { created_at = now; updated_at = now });
        },
        none,
      )

  unfoldable pub get_user : Disk → Bytes → Result FileError User
  get_user d username = read_json f.user d.users (json_file username)

  unfoldable pub update_user : Disk → User → ℕ → FileWrite
  update_user d user now =
      if not (exists d.users (json_file user.username))
      then (d, some (storage_error not_found))
      else (
        record d {
          users =
              write_json f.user d.users (json_file user.username)
                (record user { updated_at = now });
        },
        none,
      )

  unfoldable pub authenticate : Disk → Bytes → Bytes → Result FileError Bool
  authenticate d username password = elim (read_json f.user d.users (json_file username)) [
    | err _ ↦ err (storage_error auth_failed)
    | ok u ↦ if not (u.password == password) then err (storage_error auth_failed) else ok true
  ]

unfoldable pub delete_user : Disk → Bytes → FileWrite
delete_user d username =
    if not (exists d.users (json_file username))
    then (d, some (storage_error not_found))
    else (record d { users = remove d.users (json_file username) }, none)

unfoldable pub user_exists? : Disk → Bytes → Bool
user_exists? d username = exists d.users (json_file username)
