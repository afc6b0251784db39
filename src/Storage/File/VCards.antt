-- ===== src/Storage/File/VCards.antt =====
-- The VCardStore methods of storage/file/file.go, whose files are not JSON.
use xmpp_go.Prelude.{none, some, ◌++◌, Result, ok, err, list_eq, if◌then◌else◌, not}
use xmpp_go.Prelude.Bytes.{Bytes, bytes}
use xmpp_go.Prelude.Dict.{get, put, remove}
use xmpp_go.Storage.Model.{not_found}
use xmpp_go.Storage.File.Disk.{Disk, FileError, FileWrite, storage_error, safe_file_name, exists}

unfoldable pub xml_file : Bytes → Bytes
xml_file name = safe_file_name name ++ bytes ".xml"

unfoldable pub set_vcard : Disk → Bytes → Bytes → FileWrite
set_vcard d user_jid content =
    (record d { vcards = put d.vcards (xml_file user_jid) content }, none)

unfoldable pub get_vcard : Disk → Bytes → Result FileError Bytes
get_vcard d user_jid = elim (get d.vcards (xml_file user_jid)) [
  | none ↦ err (storage_error not_found)
  | some content ↦ ok content
]

unfoldable pub delete_vcard : Disk → Bytes → FileWrite
delete_vcard d user_jid =
    if not (exists d.vcards (xml_file user_jid))
    then (d, some (storage_error not_found))
    else (record d { vcards = remove d.vcards (xml_file user_jid) }, none)
