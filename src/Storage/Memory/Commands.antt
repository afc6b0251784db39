-- ===== src/Storage/Memory/Commands.antt =====
-- The calls that change a store, as one type, and runs of them.
use xmpp_go.Prelude.{ℕ, List, [], ◌∷◌}
use xmpp_go.Prelude.Bytes.{Bytes}
use xmpp_go.Storage.Model.{
  User, RosterItem, OfflineMessage, ArchivedMessage, MucRoom, MucAffiliation, PubSubNode,
  PubSubItem, PubSubSubscription, Bookmark,
}
use xmpp_go.Storage.Memory.State.{Store, init}
use xmpp_go.Storage.Memory.Users
use xmpp_go.Storage.Memory.Roster
use xmpp_go.Storage.Memory.Blocking
use xmpp_go.Storage.Memory.VCards
use xmpp_go.Storage.Memory.Offline
use xmpp_go.Storage.Memory.Archive
use xmpp_go.Storage.Memory.Muc
use xmpp_go.Storage.Memory.PubSub
use xmpp_go.Storage.Memory.Bookmarks

pub data Command : Type 0 where
  initialize : Command
  create_user update_user : User → ℕ → Command
  delete_user : Bytes → Command
  upsert_roster_item : RosterItem → Command
  delete_roster_item set_roster_version : Bytes → Bytes → Command
  block_jid unblock_jid : Bytes → Bytes → Command
  set_vcard : Bytes → Bytes → Command
  delete_vcard : Bytes → Command
  store_offline_message : OfflineMessage → ℕ → Command
  delete_offline_messages : Bytes → Command
  archive_message : ArchivedMessage → ℕ → Command
  delete_message_archive : Bytes → Command
  create_room update_room : MucRoom → Command
  delete_room : Bytes → Command
  set_affiliation : MucAffiliation → Command
  remove_affiliation : Bytes → Bytes → Command
  create_node : PubSubNode → Command
  delete_node : Bytes → Bytes → Command
  upsert_item : PubSubItem → ℕ → Command
  delete_item : Bytes → Bytes → Bytes → Command
  subscribe : PubSubSubscription → Command
  unsubscribe : Bytes → Bytes → Bytes → Command
  set_bookmark : Bookmark → Command
  delete_bookmark : Bytes → Bytes → Command

-- The store that a call leaves, whether or not it reports an error.
unfoldable pub step : Store → Command → Store
step s initialize = init s
step s (create_user u now) = (Users.create_user s u now).0
step s (update_user u now) = (Users.update_user s u now).0
step s (delete_user name) = (Users.delete_user s name).0
step s (upsert_roster_item i) = (Roster.upsert_roster_item s i).0
step s (delete_roster_item u c) = (Roster.delete_roster_item s u c).0
step s (set_roster_version u v) = (Roster.set_roster_version s u v).0
step s (block_jid u j) = (Blocking.block_jid s u j).0
step s (unblock_jid u j) = (Blocking.unblock_jid s u j).0
step s (set_vcard u c) = (VCards.set_vcard s u c).0
step s (delete_vcard u) = (VCards.delete_vcard s u).0
step s (store_offline_message m now) = (Offline.store_offline_message s m now).0
step s (delete_offline_messages u) = (Offline.delete_offline_messages s u).0
step s (archive_message m now) = (Archive.archive_message s m now).0
step s (delete_message_archive u) = (Archive.delete_message_archive s u).0
step s (create_room r) = (Muc.create_room s r).0
step s (update_room r) = (Muc.update_room s r).0
step s (delete_room r) = (Muc.delete_room s r).0
step s (set_affiliation a) = (Muc.set_affiliation s a).0
step s (remove_affiliation r u) = (Muc.remove_affiliation s r u).0
step s (create_node n) = (PubSub.create_node s n).0
step s (delete_node h n) = (PubSub.delete_node s h n).0
step s (upsert_item i now) = (PubSub.upsert_item s i now).0
step s (delete_item h n i) = (PubSub.delete_item s h n i).0
step s (subscribe sub) = (PubSub.subscribe s sub).0
step s (unsubscribe h n j) = (PubSub.unsubscribe s h n j).0
step s (set_bookmark b) = (Bookmarks.set_bookmark s b).0
step s (delete_bookmark u r) = (Bookmarks.delete_bookmark s u r).0

unfoldable pub run : Store → List Command → Store
run s [] = s
run s (c ∷ cs) = run (step s c) cs
