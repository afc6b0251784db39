-- ===== src/Storage/File/Roster.antt =====
-- The RosterStore methods of storage/file/file.go.
use xmpp_go.Prelude.{none, some, List, Result, ok, err, [], list_eq}
use xmpp_go.Prelude.Bytes.{Bytes}
use xmpp_go.Prelude.Dict.{Dict, get, put, remove, values}
use xmpp_go.Storage.Model.{not_found, RosterItem}
use xmpp_go.Storage.File.Disk.{
  Disk, Formats, FileError, FileWrite, storage_error, json_file, read_json, write_json, load_map,
}

module _ (f : Formats) where
  unfoldable pub load_roster : Disk → Bytes → Result FileError (Dict Bytes RosterItem)
  load_roster d user_jid = load_map f.roster_file d.roster (json_file user_jid)

  unfoldable pub save_roster : Disk → Bytes → Dict Bytes RosterItem → FileWrite
  save_roster d user_jid items =
      (record d { roster = write_json f.roster_file d.roster (json_file user_jid) items }, none)

  unfoldable pub upsert_roster_item : Disk → RosterItem → FileWrite
  upsert_roster_item d item = elim (load_roster d item.user_jid) [
    | err e ↦ (d, some e)
    | ok items ↦ save_roster d item.user_jid (put items item.contact_jid item)
  ]

  unfoldable pub get_roster_item : Disk → Bytes → Bytes → Result FileError RosterItem
  get_roster_item d user_jid contact_jid = elim (load_roster d user_jid) [
    | err e ↦ err e
    | ok items ↦ elim (get items contact_jid) [
      | none ↦ err (storage_error not_found)
      | some item ↦ ok item
    ]
  ]

  unfoldable pub get_roster_items : Disk → Bytes → Result FileError (List RosterItem)
  get_roster_items d user_jid = elim (load_roster d user_jid) [
    | err e ↦ err e
    | ok items ↦ ok (values items)
  ]

  unfoldable pub delete_roster_item : Disk → Bytes → Bytes → FileWrite
  delete_roster_item d user_jid contact_jid = elim (load_roster d user_jid) [
    | err e ↦ (d, some e)
    | ok items ↦ elim (get items contact_jid) [
      | none ↦ (d, some (storage_error not_found))
      | some _ ↦ save_roster d user_jid (remove items contact_jid)
    ]
  ]

  unfoldable pub get_roster_version : Disk → Bytes → Result FileError Bytes
  get_roster_version d user_jid =
      elim (read_json f.version d.roster_versions (json_file user_jid)) [
        | ok v ↦ ok v
        | err (storage_error not_found) ↦ ok []
        | err e ↦ err e
      ]

  unfoldable pub set_roster_version : Disk → Bytes → Bytes → FileWrite
  set_roster_version d user_jid version = (
    record d {
      roster_versions = write_json f.version d.roster_versions (json_file user_jid) version;
    },
    none,
  )
