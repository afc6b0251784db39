-- ===== src/Storage/File/Bookmarks.antt =====
-- The BookmarkStore methods of storage/file/file.go.
use xmpp_go.Prelude.{none, some, List, Result, ok, err, list_eq}
use xmpp_go.Prelude.Bytes.{Bytes}
use xmpp_go.Prelude.Dict.{Dict, get, put, remove, values}
use xmpp_go.Storage.Model.{not_found, Bookmark}
use xmpp_go.Storage.File.Disk.{
  Disk, Formats, FileError, FileWrite, storage_error, json_file, write_json, load_map,
}

module _ (f : Formats) where
  unfoldable pub load_bookmarks : Disk → Bytes → Result FileError (Dict Bytes Bookmark)
  load_bookmarks d user_jid = load_map f.bookmarks_file d.bookmarks (json_file user_jid)

  unfoldable pub save_bookmarks : Disk → Bytes → Dict Bytes Bookmark → FileWrite
  save_bookmarks d user_jid bms = (
    record d { bookmarks = write_json f.bookmarks_file d.bookmarks (json_file user_jid) bms },
    none,
  )

  unfoldable pub set_bookmark : Disk → Bookmark → FileWrite
  set_bookmark d bm = elim (load_bookmarks d bm.user_jid) [
    | err e ↦ (d, some e)
    | ok bms ↦ save_bookmarks d bm.user_jid (put bms bm.room_jid bm)
  ]

  unfoldable pub get_bookmark : Disk → Bytes → Bytes → Result FileError Bookmark
  get_bookmark d user_jid room_jid = elim (load_bookmarks d user_jid) [
    | err e ↦ err e
    | ok bms ↦ elim (get bms room_jid) [ none ↦ err (storage_error not_found) | some bm ↦ ok bm ]
  ]

  unfoldable pub get_bookmarks : Disk → Bytes → Result FileError (List Bookmark)
  get_bookmarks d user_jid = elim (load_bookmarks d user_jid) [
    | err e ↦ err e
    | ok bms ↦ ok (values bms)
  ]

  unfoldable pub delete_bookmark : Disk → Bytes → Bytes → FileWrite
  delete_bookmark d user_jid room_jid = elim (load_bookmarks d user_jid) [
    | err e ↦ (d, some e)
    | ok bms ↦ elim (get bms room_jid) [
      | none ↦ (d, some (storage_error not_found))
      | some _ ↦ save_bookmarks d user_jid (remove bms room_jid)
    ]
  ]
