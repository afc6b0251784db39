-- ===== src/Storage/File/Blocking.antt =====
-- The BlockingStore methods of storage/file/file.go.
use xmpp_go.Prelude.{Bool, true, false, none, some, List, Result, ok, err, or_zero, list_eq}
use xmpp_go.Prelude.Bytes.{Bytes}
use xmpp_go.Prelude.Dict.{Dict, get, put, remove, keys}
use xmpp_go.Storage.File.Disk.{Disk, Formats, FileError, FileWrite, json_file, write_json, load_map}

module _ (f : Formats) where
  unfoldable pub load_blocked : Disk → Bytes → Result FileError (Dict Bytes Bool)
  load_blocked d user_jid = load_map f.blocked d.blocking (json_file user_jid)

  unfoldable pub save_blocked : Disk → Bytes → Dict Bytes Bool → FileWrite
  save_blocked d user_jid blocked =
      (record d { blocking = write_json f.blocked d.blocking (json_file user_jid) blocked }, none)

  unfoldable pub block_jid : Disk → Bytes → Bytes → FileWrite
  block_jid d user_jid blocked_jid = elim (load_blocked d user_jid) [
    | err e ↦ (d, some e)
    | ok blocked ↦ save_blocked d user_jid (put blocked blocked_jid true)
  ]

  unfoldable pub unblock_jid : Disk → Bytes → Bytes → FileWrite
  unblock_jid d user_jid blocked_jid = elim (load_blocked d user_jid) [
    | err e ↦ (d, some e)
    | ok blocked ↦ save_blocked d user_jid (remove blocked blocked_jid)
  ]

  unfoldable pub is_blocked : Disk → Bytes → Bytes → Result FileError Bool
  is_blocked d user_jid blocked_jid = elim (load_blocked d user_jid) [
    | err e ↦ err e
    | ok blocked ↦ ok (or_zero false (get blocked blocked_jid))
  ]

  unfoldable pub get_blocked_jids : Disk → Bytes → Result FileError (List Bytes)
  get_blocked_jids d user_jid = elim (load_blocked d user_jid) [
    | err e ↦ err e
    | ok blocked ↦ ok (keys blocked)
  ]
