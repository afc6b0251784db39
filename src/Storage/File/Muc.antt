-- ===== src/Storage/File/Muc.antt =====
-- The MUCRoomStore methods of storage/file/file.go.
use xmpp_go.Prelude.{none, some, List, [], ◌∷◌, Result, ok, err, list_eq, if◌then◌else◌, not}
use xmpp_go.Prelude.Bytes.{Bytes}
use xmpp_go.Prelude.Dict.{Dict, get, put, remove, values}
use xmpp_go.Storage.Model.{not_found, user_exists, MucRoom, MucAffiliation}
use xmpp_go.Storage.File.Disk.{
  Disk, Formats, FileError, FileWrite, storage_error, json_file, read_json, write_json, load_map,
  exists,
}

module _ (f : Formats) where
  unfoldable pub create_room : Disk → MucRoom → FileWrite
  create_room d room =
      if exists d.muc_rooms (json_file room.room_jid)
      then (d, some (storage_error user_exists))
      else (
        record d { muc_rooms = write_json f.room d.muc_rooms (json_file room.room_jid) room },
        none,
      )

  unfoldable pub get_room : Disk → Bytes → Result FileError MucRoom
  get_room d room_jid = read_json f.room d.muc_rooms (json_file room_jid)

  unfoldable pub update_room : Disk → MucRoom → FileWrite
  update_room d room =
      if not (exists d.muc_rooms (json_file room.room_jid))
      then (d, some (storage_error not_found))
      else (
        record d { muc_rooms = write_json f.room d.muc_rooms (json_file room.room_jid) room },
        none,
      )

  -- The files that are rooms; others are passed over.
  unfoldable pub read_rooms : List Bytes → List MucRoom
  read_rooms [] = []
  read_rooms (content ∷ contents) =
      let rest = read_rooms contents in
      elim (f.room.decode content) [ none ↦ rest | some room ↦ room ∷ rest ]

  unfoldable pub list_rooms : Disk → List MucRoom
  list_rooms d = read_rooms (values d.muc_rooms)

  unfoldable pub load_affs : Disk → Bytes → Result FileError (Dict Bytes MucAffiliation)
  load_affs d room_jid = load_map f.affiliations d.muc_affiliations (json_file room_jid)

  unfoldable pub save_affs : Disk → Bytes → Dict Bytes MucAffiliation → FileWrite
  save_affs d room_jid affs = (
    record d {
      muc_affiliations = write_json f.affiliations d.muc_affiliations (json_file room_jid) affs;
    },
    none,
  )

  unfoldable pub set_affiliation : Disk → MucAffiliation → FileWrite
  set_affiliation d aff = elim (load_affs d aff.room_jid) [
    | err e ↦ (d, some e)
    | ok affs ↦ save_affs d aff.room_jid (put affs aff.user_jid aff)
  ]

  unfoldable pub get_affiliation : Disk → Bytes → Bytes → Result FileError MucAffiliation
  get_affiliation d room_jid user_jid = elim (load_affs d room_jid) [
    | err e ↦ err e
    | ok affs ↦ elim (get affs user_jid) [
      | none ↦ err (storage_error not_found)
      | some aff ↦ ok aff
    ]
  ]

  unfoldable pub get_affiliations : Disk → Bytes → Result FileError (List MucAffiliation)
  get_affiliations d room_jid = elim (load_affs d room_jid) [
    | err e ↦ err e
    | ok affs ↦ ok (values affs)
  ]

  unfoldable pub remove_affiliation : Disk → Bytes → Bytes → FileWrite
  remove_affiliation d room_jid user_jid = elim (load_affs d room_jid) [
    | err e ↦ (d, some e)
    | ok affs ↦ save_affs d room_jid (remove affs user_jid)
  ]

unfoldable pub delete_room : Disk → Bytes → FileWrite
delete_room d room_jid =
    if not (exists d.muc_rooms (json_file room_jid)) then (d, some (storage_error not_found)) else (
      record d {
        muc_affiliations = remove d.muc_affiliations (json_file room_jid);
        muc_rooms = remove d.muc_rooms (json_file room_jid);
      },
      none,
    )
