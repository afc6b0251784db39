-- ===== src/Storage/Memory/Keyed/Calls.antt =====
-- Every call of the in-memory backend keeps its entities under their own keys.
use xmpp_go.Prelude.{
  ℕ, ◌≡◌, inl, inr, refl, true, List, [], ◌∷◌, ◌++◌, or_zero, list_eq, arith, Option-cases,
}
use xmpp_go.Prelude.Bytes.{Bytes}
use xmpp_go.Prelude.Dict.{get, remove}
use xmpp_go.Storage.Model.{User, RosterItem, OfflineMessage, ArchivedMessage}
use xmpp_go.Storage.Memory.State.{Store}
use xmpp_go.Storage.Memory.Users.{create_user, update_user, delete_user}
use xmpp_go.Storage.Memory.Roster.{upsert_roster_item, delete_roster_item}
use xmpp_go.Storage.Memory.Blocking.{block_jid, unblock_jid}
use xmpp_go.Storage.Memory.Offline.{stamp_offline, store_offline_message, delete_offline_messages}
use xmpp_go.Storage.Memory.Archive.{
  stamp_message, identify, next_counter, archive_message, delete_message_archive,
}
use xmpp_go.Prelude.Holds.{empty-Holds, put-Holds, remove-Holds, put_in-Holds, remove_in-Holds}
use xmpp_go.Storage.Memory.State.{init}
use xmpp_go.Storage.Memory.Keyed.{IsKeyed, SentTo, ArchivedFor}

pub init-IsKeyed : (s : Store) → IsKeyed (init s)
unfolding init
init-IsKeyed s = record {
  users = empty-Holds;
  roster_items = empty-Holds;
  blocked = empty-Holds;
  offline_msgs = empty-Holds;
  mam_messages = empty-Holds;
  muc_rooms = empty-Holds;
  muc_affiliations = empty-Holds;
  pubsub_nodes = empty-Holds;
  pubsub_items = empty-Holds;
  pubsub_subscriptions = empty-Holds;
  bookmarks = empty-Holds;
}

pub create_user-IsKeyed :
    {s : Store} (u : User) (now : ℕ) → IsKeyed s → IsKeyed (create_user s u now).0
unfolding create_user
create_user-IsKeyed {s} u now h = elim (Option-cases (get s.users u.username)) [
  | inl e ↦
      rw (e, create_user)
        (assumption
          (put-Holds u.username (record u { created_at = now; updated_at = now }) refl h.users))
  | inr (_, e) ↦ rw (e, create_user) h
]

pub update_user-IsKeyed :
    {s : Store} (u : User) (now : ℕ) → IsKeyed s → IsKeyed (update_user s u now).0
unfolding update_user
update_user-IsKeyed {s} u now h = elim (Option-cases (get s.users u.username)) [
  | inl e ↦ rw (e, update_user) h
  | inr (_, e) ↦
      rw (e, update_user)
        (assumption (put-Holds u.username (record u { updated_at = now }) refl h.users))
]

pub delete_user-IsKeyed : {s : Store} (name : Bytes) → IsKeyed s → IsKeyed (delete_user s name).0
unfolding delete_user
delete_user-IsKeyed {s} name h = elim (Option-cases (get s.users name)) [
  | inl e ↦ rw (e, delete_user) h
  | inr (_, e) ↦ rw (e, delete_user) (assumption (remove-Holds name h.users))
]

pub upsert_roster_item-IsKeyed :
    {s : Store} (i : RosterItem) → IsKeyed s → IsKeyed (upsert_roster_item s i).0
unfolding upsert_roster_item
upsert_roster_item-IsKeyed {s} i h =
    (assumption (put_in-Holds i.user_jid i.contact_jid i (refl, refl) h.roster_items))

pub delete_roster_item-IsKeyed :
    {s : Store} (user : Bytes) (contact : Bytes)
    → IsKeyed s
    → IsKeyed (delete_roster_item s user contact).0
unfolding delete_roster_item
delete_roster_item-IsKeyed {s} user contact h = elim (Option-cases (get s.roster_items user)) [
  | inl e ↦ rw (e, delete_roster_item) h
  | inr (m, e) ↦ elim (Option-cases (get m contact)) [
    | inl e' ↦ rw (e, e', delete_roster_item) h
    | inr (_, e') ↦
        rw (e, e', delete_roster_item)
          (assumption (
            put-Holds user (remove m contact) (remove-Holds contact (h.roster_items.at user m e))
              h.roster_items))
  ]
]

pub block_jid-IsKeyed :
    {s : Store} (user : Bytes) (jid : Bytes) → IsKeyed s → IsKeyed (block_jid s user jid).0
unfolding block_jid
block_jid-IsKeyed {s} user jid h = (assumption (put_in-Holds user jid true refl h.blocked))

pub unblock_jid-IsKeyed :
    {s : Store} (user : Bytes) (jid : Bytes) → IsKeyed s → IsKeyed (unblock_jid s user jid).0
unfolding unblock_jid
unblock_jid-IsKeyed {s} user jid h = (assumption (remove_in-Holds user jid h.blocked))

SentTo-append :
    (user : Bytes) (l : List OfflineMessage) (m : OfflineMessage)
    → SentTo user l
    → m.user_jid ≡ user
    → SentTo user (l ++ m ∷ [])
SentTo-append user [] m h e = (e, tt)
SentTo-append user (x ∷ l) m h e = (h.0, SentTo-append user l m h.1 e)

ArchivedFor-append :
    (user : Bytes) (l : List ArchivedMessage) (m : ArchivedMessage)
    → ArchivedFor user l
    → m.user_jid ≡ user
    → ArchivedFor user (l ++ m ∷ [])
ArchivedFor-append user [] m h e = (e, tt)
ArchivedFor-append user (x ∷ l) m h e = (h.0, ArchivedFor-append user l m h.1 e)

-- The list under a key, or the empty one of a missing key.
found-SentTo :
    {s : Store} (user : Bytes) → IsKeyed s → SentTo user (or_zero [] (get s.offline_msgs user))
found-SentTo {s} user h = elim (Option-cases (get s.offline_msgs user)) [
  | inl e ↦ rw e tt
  | inr (l, e) ↦ rw e (h.offline_msgs.at user l e)
]

found-ArchivedFor :
    {s : Store} (user : Bytes) → IsKeyed s → ArchivedFor user (or_zero [] (get s.mam_messages user))
found-ArchivedFor {s} user h = elim (Option-cases (get s.mam_messages user)) [
  | inl e ↦ rw e tt
  | inr (l, e) ↦ rw e (h.mam_messages.at user l e)
]

pub store_offline_message-IsKeyed :
    {s : Store} (m : OfflineMessage) (now : ℕ)
    → IsKeyed s
    → IsKeyed (store_offline_message s m now).0
unfolding store_offline_message
store_offline_message-IsKeyed {s} m now h =
    (assumption (
      put-Holds m.user_jid (or_zero [] (get s.offline_msgs m.user_jid) ++ stamp_offline m now ∷ [])
        (SentTo-append m.user_jid _ (stamp_offline m now) (found-SentTo m.user_jid h)
          (ground arith))
        h.offline_msgs))

pub delete_offline_messages-IsKeyed :
    {s : Store} (user : Bytes) → IsKeyed s → IsKeyed (delete_offline_messages s user).0
unfolding delete_offline_messages
delete_offline_messages-IsKeyed {s} user h = (assumption (remove-Holds user h.offline_msgs))

pub archive_message-IsKeyed :
    {s : Store} (m : ArchivedMessage) (now : ℕ) → IsKeyed s → IsKeyed (archive_message s m now).0
unfolding archive_message
archive_message-IsKeyed {s} m now h =
    (assumption (
      put-Holds m.user_jid _
        (ArchivedFor-append m.user_jid _
          (identify (stamp_message m now) (next_counter s.mam_id_counter))
          (found-ArchivedFor m.user_jid h) (ground arith))
        h.mam_messages))

pub delete_message_archive-IsKeyed :
    {s : Store} (user : Bytes) → IsKeyed s → IsKeyed (delete_message_archive s user).0
unfolding delete_message_archive
delete_message_archive-IsKeyed {s} user h = (assumption (remove-Holds user h.mam_messages))
