-- ===== src/Tests/Files.antt =====
-- The file backend with concrete names on an empty disk.
use xmpp_go.Prelude.{◌≡◌, refl, none, [], list_eq, arith}
use xmpp_go.Prelude.Bytes.{bytes}
use xmpp_go.Prelude.Dict.{get}
use xmpp_go.Storage.Model.{User, RosterItem, PubSubNode}
use xmpp_go.Storage.Memory.State.{new}
use xmpp_go.Storage.Memory.Users as MemoryUsers
use xmpp_go.Storage.Memory.Roster as MemoryRoster
use xmpp_go.Storage.File.Disk.{Disk, safe_file_name}
use xmpp_go.Storage.File.Users as FileUsers
use xmpp_go.Storage.File.Roster as FileRoster
use xmpp_go.Storage.File.Tables.{IsSafe, Shows}
use xmpp_go.Storage.File.Documented.{IsWritableUser}
use xmpp_go.Jid.Utf8.{valid_string, runes}
use xmpp_go.Storage.File.Refines.{as_file, SameUsers, users_refined}
use xmpp_go.Tests.Formats.{formats, user-ReadsBack}

abbrev no_files : Disk
no_files = record {
  users = [];
  roster = [];
  roster_versions = [];
  blocking = [];
  vcards = [];
  offline = [];
  mam = [];
  muc_rooms = [];
  muc_affiliations = [];
  pubsub_nodes = [];
  pubsub_items = [];
  pubsub_subscriptions = [];
  bookmarks = [];
  mam_counter = 0;
}

no_files-Shows : Shows formats.user IsWritableUser no_files.users new.users
unfolding get
no_files-Shows name s = (refl, λ v e. absurd (ground arith))

ann-IsSafe : IsSafe (bytes "ann")
unfolding safe_file_name
ann-IsSafe = refl

abbrev ann : User
ann = record {
  username = bytes "ann";
  password = bytes "secret";
  salt = [];
  iterations = 4096;
  server_key = [];
  stored_key = [];
  created_at = 0;
  updated_at = 0;
}

ann-IsWritableUser : IsWritableUser ann
unfolding valid_string runes
ann-IsWritableUser = record {
  username = refl;
  password = refl;
  salt = refl;
  server_key = refl;
  stored_key = refl;
  iterations = omega arith;
  created = omega arith;
  updated = omega arith;
}

users_refined_example :
    (FileUsers.get_user formats no_files (bytes "ann")
      ≡ as_file (MemoryUsers.get_user new (bytes "ann")))
    × (FileUsers.user_exists? no_files (bytes "ann") ≡ MemoryUsers.user_exists? new (bytes "ann"))
    × (FileUsers.authenticate formats no_files (bytes "ann") (bytes "x")
        ≡ as_file (MemoryUsers.authenticate new (bytes "ann") (bytes "x")))
    × SameUsers formats
        (FileUsers.create_user formats no_files ann 3)
        (MemoryUsers.create_user new ann 3)
    × SameUsers formats
        (FileUsers.update_user formats no_files ann 3)
        (MemoryUsers.update_user new ann 3)
    × SameUsers formats
        (FileUsers.delete_user no_files (bytes "ann"))
        (MemoryUsers.delete_user new (bytes "ann"))
users_refined_example =
    users_refined formats no_files new ann 3 (bytes "ann") (bytes "x") user-ReadsBack no_files-Shows
      ann-IsSafe ann-IsWritableUser (omega arith) ann-IsSafe

abbrev friend : RosterItem
friend = record {
  user_jid = bytes "ann";
  contact_jid = bytes "bob@example.org";
  name = bytes "Bob";
  subscription = bytes "both";
  ask = [];
  groups = [];
}

abbrev news : PubSubNode
news = record {
  host = bytes "pub_sub";
  node_id = bytes "news";
  name = [];
  node_type = [];
  config = none;
  creator = bytes "ann";
}

abbrev sub_news : PubSubNode
sub_news = record news { host = bytes "pub"; node_id = bytes "sub_news" }
