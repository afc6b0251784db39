-- ===== src/Tests/Data.antt =====
-- Entities, a run of calls, and a store.
use xmpp_go.Prelude.{true, false, none, List, [], ◌∷◌, list_eq}
use xmpp_go.Prelude.Bytes.{Bytes, bytes}
use xmpp_go.Storage.Model.{
  User, RosterItem, ArchivedMessage, MucRoom, MucAffiliation, PubSubNode, PubSubItem, Bookmark,
}
use xmpp_go.Storage.Memory.State.{Store, new}
use xmpp_go.Storage.Memory.Commands.{Command, run}
use xmpp_go.Storage.Memory.Archive.{MamQuery}

abbrev pub ann : Bytes
ann = bytes "ann"

abbrev pub room : Bytes
room = bytes "hall@muc"

abbrev pub host : Bytes
host = bytes "pubsub"

abbrev pub node : Bytes
node = bytes "news"

abbrev pub account : User
account = record {
  username = ann;
  password = bytes "pw";
  salt = [];
  iterations = 0;
  server_key = [];
  stored_key = [];
  created_at = 0;
  updated_at = 0;
}

abbrev pub contact : RosterItem
contact = record {
  user_jid = ann;
  contact_jid = bytes "bob";
  name = [];
  subscription = [];
  ask = [];
  groups = [];
}

abbrev pub hall : MucRoom
hall = record {
  room_jid = room;
  name = [];
  description = [];
  subject = [];
  password = [];
  is_public = true;
  persistent = false;
  max_users = 0;
}

abbrev pub owner : MucAffiliation
owner = record { room_jid = room; user_jid = ann; affiliation = bytes "owner"; reason = [] }

abbrev pub news : PubSubNode
news = record {
  host = host;
  node_id = node;
  name = [];
  node_type = [];
  config = none;
  creator = ann;
}

abbrev pub item : PubSubItem
item = record {
  host = host;
  node_id = node;
  item_id = bytes "i";
  publisher = ann;
  payload = [];
  created_at = 0;
}

abbrev pub bookmark : Bookmark
bookmark = record {
  user_jid = ann;
  room_jid = room;
  name = [];
  nick = [];
  password = [];
  autojoin = true;
}

abbrev pub message : Bytes → ArchivedMessage
message id = record {
  id = id;
  user_jid = ann;
  with_jid = bytes "bob";
  from_jid = ann;
  payload = [];
  created_at = 5;
}

abbrev pub calls : List Command
calls =
    Command.create_user account 3
    ∷ Command.upsert_roster_item contact
    ∷ Command.create_room hall
    ∷ Command.set_affiliation owner
    ∷ Command.create_node news
    ∷ Command.upsert_item item 4
    ∷ Command.set_bookmark bookmark
    ∷ Command.block_jid ann (bytes "eve")
    ∷ Command.archive_message (message (bytes "a")) 5
    ∷ Command.archive_message (message []) 6
    ∷ Command.archive_message (message (bytes "c")) 7
    ∷ []

abbrev pub store : Store
store = run new calls

abbrev pub query : MamQuery
query = record {
  user_jid = ann;
  with_jid = bytes "bob";
  start = 0;
  end = 0;
  after_id = [];
  before_id = [];
  limit = 1;
}

-- A store that holds an archive of three messages, a room with its owner, and a node.
abbrev pub filled : Store
filled = record new {
  mam_messages = (ann, message (bytes "a") ∷ message (bytes "b") ∷ message (bytes "c") ∷ []) ∷ [];
  muc_rooms = (room, hall) ∷ [];
  muc_affiliations = (room, (ann, owner) ∷ []) ∷ [];
  pubsub_nodes = (host, (node, news) ∷ []) ∷ [];
  pubsub_items = (host, (node, (bytes "i", item) ∷ []) ∷ []) ∷ [];
}
