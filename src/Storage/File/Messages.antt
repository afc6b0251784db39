-- ===== src/Storage/File/Messages.antt =====
-- The OfflineStore and MAMStore methods of storage/file/file.go.
use xmpp_go.Prelude.{
  ℕ, none, some, List, [], ◌∷◌, ◌++◌, Result, ok, err, list_eq, ◌==◌, if◌then◌else◌, not, length,
  leb, take,
}
use xmpp_go.Prelude.Bytes.{Bytes}
use xmpp_go.Prelude.Dict.{remove}
use xmpp_go.Storage.Model.{OfflineMessage, ArchivedMessage}
use xmpp_go.Storage.Memory.Offline.{stamp_offline}
use xmpp_go.Storage.Memory.Archive.{
  MamQuery, MamResult, scan, max_of, first_id, last_id, stamp_message, identify, next_counter,
}
use xmpp_go.Storage.File.Disk.{
  Disk, Formats, FileError, FileWrite, json_file, write_json, load_list, exists,
}

module _ (f : Formats) where
  unfoldable pub load_offline : Disk → Bytes → Result FileError (List OfflineMessage)
  load_offline d user_jid = load_list f.offline_messages d.offline (json_file user_jid)

  unfoldable pub store_offline_message : Disk → OfflineMessage → ℕ → FileWrite
  store_offline_message d msg now = elim (load_offline d msg.user_jid) [
    | err e ↦ (d, some e)
    | ok msgs ↦ (
      record d {
        offline =
            write_json f.offline_messages d.offline (json_file msg.user_jid)
              (msgs ++ stamp_offline msg now ∷ []);
      },
      none,
    )
  ]

  unfoldable pub get_offline_messages : Disk → Bytes → Result FileError (List OfflineMessage)
  get_offline_messages d user_jid = load_offline d user_jid

  unfoldable pub count_offline_messages : Disk → Bytes → Result FileError ℕ
  count_offline_messages d user_jid = elim (load_offline d user_jid) [
    | err e ↦ err e
    | ok msgs ↦ ok (length msgs)
  ]

  unfoldable pub load_mam : Disk → Bytes → Result FileError (List ArchivedMessage)
  load_mam d user_jid = load_list f.archived_messages d.mam (json_file user_jid)

  unfoldable pub archive_message : Disk → ArchivedMessage → ℕ → FileWrite
  archive_message d msg now = elim (load_mam d msg.user_jid) [
    | err e ↦ (d, some e)
    | ok msgs ↦
        let cp = stamp_message msg now in
        let counter = next_counter d.mam_counter in
        (
          record d {
            mam_counter = if cp.id == [] then counter else d.mam_counter;
            mam =
                write_json f.archived_messages d.mam (json_file msg.user_jid)
                  (msgs ++ identify cp counter ∷ []);
          },
          none,
        )
  ]

  -- The filters and the loop are those of the in-memory backend.
  unfoldable pub query_messages : Disk → MamQuery → Result FileError MamResult
  query_messages d q = elim (load_mam d q.user_jid) [
    | err e ↦ err e
    | ok msgs ↦
        let filtered = scan q (q.after_id == []) msgs in
        let page = take (max_of q) filtered in
        ok (record {
          messages = page;
          complete = leb (length filtered) (max_of q);
          first = first_id page;
          last = last_id page;
          count = length page;
        })
  ]

unfoldable pub delete_offline_messages : Disk → Bytes → FileWrite
delete_offline_messages d user_jid =
    if not (exists d.offline (json_file user_jid))
    then (d, none)
    else (record d { offline = remove d.offline (json_file user_jid) }, none)

unfoldable pub delete_message_archive : Disk → Bytes → FileWrite
delete_message_archive d user_jid =
    if not (exists d.mam (json_file user_jid))
    then (d, none)
    else (record d { mam = remove d.mam (json_file user_jid) }, none)
