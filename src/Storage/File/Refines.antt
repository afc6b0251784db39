-- ===== src/Storage/File/Refines.antt =====
-- The accounts of the file backend, storage/file/file.go, against those of the in-memory backend.
pub mod Rosters
use xmpp_go.Prelude.{
  ℕ, ◌≡◌, ◌<◌, refl, Option, none, some, Result, ok, err, list_eq, arith, Option-cases, inl, inr,
}
use xmpp_go.Prelude.Bytes.{Bytes}
use xmpp_go.Prelude.Dict.{get}
use xmpp_go.Storage.Model.{StorageError, Read, User}
use xmpp_go.Storage.Memory.State.{Store, Write}
use xmpp_go.Storage.Memory.Users as MemoryUsers
use xmpp_go.Storage.File.Disk.{Disk, Formats, FileError, FileWrite, storage_error}
use xmpp_go.Storage.File.Documented.{IsWritableUser, last_time, ReadsBack}
use xmpp_go.Storage.File.Users as FileUsers
use xmpp_go.Storage.File.Tables.{
  IsSafe, Shows, read_json-Shows, exists-Shows, put-Shows, remove-Shows,
}

-- The result of the in-memory backend, with the errors of the other.
abbrev pub as_file : {A : Type 0} → Read A → Result FileError A
as_file (ok a) = ok a
as_file (err e) = err (storage_error e)

abbrev pub as_error : Option StorageError → Option FileError
as_error none = none
as_error (some e) = some (storage_error e)

module _ (f : Formats) where
  -- The two writes report the same and leave the same accounts.
  abbrev pub SameUsers : FileWrite → Write → Type 0
  SameUsers a b = Shows f.user IsWritableUser a.0.users b.0.users × (a.1 ≡ as_error b.1)

  create_user_same :
      (d : Disk) (s : Store) (user : User) (now : ℕ)
      → Shows f.user IsWritableUser d.users s.users
      → IsSafe user.username
      → IsWritableUser user
      → now < last_time
      → SameUsers (FileUsers.create_user f d user now) (MemoryUsers.create_user s user now)
  unfolding FileUsers.create_user MemoryUsers.create_user
  create_user_same d s user now h t w b = elim (Option-cases (get s.users user.username)) [
    | inl e ↦
        rw
          (
            FileUsers.create_user,
            MemoryUsers.create_user,
            exists-Shows f.user IsWritableUser d.users s.users user.username h t,
            e,
          )
          (
            put-Shows f.user IsWritableUser d.users s.users user.username
                (record user { created_at = now; updated_at = now }) t
                (record {
                  username = w.username;
                  password = w.password;
                  salt = w.salt;
                  server_key = w.server_key;
                  stored_key = w.stored_key;
                  iterations = w.iterations;
                  created = b;
                  updated = b;
                })
                h,
            refl,
          )
    | inr (u, e) ↦
        rw
          (
            FileUsers.create_user,
            MemoryUsers.create_user,
            exists-Shows f.user IsWritableUser d.users s.users user.username h t,
            e,
          )
          (h, refl)
  ]

  update_user_same :
      (d : Disk) (s : Store) (user : User) (now : ℕ)
      → Shows f.user IsWritableUser d.users s.users
      → IsSafe user.username
      → IsWritableUser user
      → now < last_time
      → SameUsers (FileUsers.update_user f d user now) (MemoryUsers.update_user s user now)
  unfolding FileUsers.update_user MemoryUsers.update_user
  update_user_same d s user now h t w b = elim (Option-cases (get s.users user.username)) [
    | inl e ↦
        rw
          (
            FileUsers.update_user,
            MemoryUsers.update_user,
            exists-Shows f.user IsWritableUser d.users s.users user.username h t,
            e,
          )
          (h, refl)
    | inr (u, e) ↦
        rw
          (
            FileUsers.update_user,
            MemoryUsers.update_user,
            exists-Shows f.user IsWritableUser d.users s.users user.username h t,
            e,
          )
          (
            put-Shows f.user IsWritableUser d.users s.users user.username
                (record user { updated_at = now }) t
                (record {
                  username = w.username;
                  password = w.password;
                  salt = w.salt;
                  server_key = w.server_key;
                  stored_key = w.stored_key;
                  iterations = w.iterations;
                  created = w.created;
                  updated = b;
                })
                h,
            refl,
          )
  ]

  delete_user_same :
      (d : Disk) (s : Store) (name : Bytes)
      → Shows f.user IsWritableUser d.users s.users
      → IsSafe name
      → SameUsers (FileUsers.delete_user d name) (MemoryUsers.delete_user s name)
  unfolding FileUsers.delete_user MemoryUsers.delete_user
  delete_user_same d s name h t = elim (Option-cases (get s.users name)) [
    | inl e ↦
        rw
          (
            FileUsers.delete_user,
            MemoryUsers.delete_user,
            exists-Shows f.user IsWritableUser d.users s.users name h t,
            e,
          )
          (h, refl)
    | inr (u, e) ↦
        rw
          (
            FileUsers.delete_user,
            MemoryUsers.delete_user,
            exists-Shows f.user IsWritableUser d.users s.users name h t,
            e,
          )
          (remove-Shows f.user IsWritableUser d.users s.users name t h, refl)
  ]

  -- The accounts of the file backend are those of the in-memory backend, for names without the
  -- characters that file names replace, and for accounts whose strings are valid UTF-8, whose
  -- iteration count fits an `int64` and whose times, the clock's too, are before the year 9999, which
  -- are what a JSON file reads back: where the user files show the accounts of a store, every method
  -- returns the same value or error on both, and after every write the files show the accounts of
  -- the store again.
  pub users_refined :
      (d : Disk) (s : Store) (user : User) (now : ℕ) (name password : Bytes)
      → ReadsBack f.user IsWritableUser
      → Shows f.user IsWritableUser d.users s.users
      → IsSafe user.username
      → IsWritableUser user
      → now < last_time
      → IsSafe name
      → (FileUsers.get_user f d name ≡ as_file (MemoryUsers.get_user s name))
        × (FileUsers.user_exists? d name ≡ MemoryUsers.user_exists? s name)
        × (FileUsers.authenticate f d name password
            ≡ as_file (MemoryUsers.authenticate s name password))
        × SameUsers (FileUsers.create_user f d user now) (MemoryUsers.create_user s user now)
        × SameUsers (FileUsers.update_user f d user now) (MemoryUsers.update_user s user now)
        × SameUsers (FileUsers.delete_user d name) (MemoryUsers.delete_user s name)
  unfolding FileUsers.get_user MemoryUsers.get_user FileUsers.user_exists? MemoryUsers.user_exists?
      FileUsers.authenticate MemoryUsers.authenticate
  users_refined d s user now name password x h t w b n =
      let r = read_json-Shows f.user IsWritableUser d.users s.users name x h n in
      let e = exists-Shows f.user IsWritableUser d.users s.users name h n in
      (
        ground (arith, r),
        ground (arith, e),
        ground (arith, r),
        create_user_same d s user now h t w b,
        update_user_same d s user now h t w b,
        delete_user_same d s name h n,
      )
