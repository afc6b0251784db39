-- ===== src/Storage/Memory/State.antt =====
-- The `Store` struct of storage/memory/memory.go and its initialisation. Each operation of the
-- package holds the mutex from its first line to its return, so a step is a whole operation.
-- Entities are copied on the way in and out, so a stored value is shared with no caller.
use xmpp_go.Prelude.{ℕ, Bool, List, [], Option, none, some}
use xmpp_go.Prelude.Bytes.{Bytes}
use xmpp_go.Prelude.Dict.{Dict}
use xmpp_go.Storage.Model.{
  StorageError, User, RosterItem, OfflineMessage, ArchivedMessage, MucRoom, MucAffiliation,
  PubSubNode, PubSubItem, PubSubSubscription, Bookmark,
}

-- A Go map used as a set, `map[string]bool`, keeps its Boolean values.
pub record Store : Type 0 where
  pub users : Dict Bytes User
  pub roster_items : Dict Bytes (Dict Bytes RosterItem)
  pub roster_versions : Dict Bytes Bytes
  pub blocked : Dict Bytes (Dict Bytes Bool)
  pub vcards : Dict Bytes Bytes
  pub offline_msgs : Dict Bytes (List OfflineMessage)
  pub mam_messages : Dict Bytes (List ArchivedMessage)
  pub mam_id_counter : ℕ
  pub muc_rooms : Dict Bytes MucRoom
  pub muc_affiliations : Dict Bytes (Dict Bytes MucAffiliation)
  pub pubsub_nodes : Dict Bytes (Dict Bytes PubSubNode)
  pub pubsub_items : Dict Bytes (Dict Bytes (Dict Bytes PubSubItem))
  pub pubsub_subscriptions : Dict Bytes (Dict Bytes (Dict Bytes PubSubSubscription))
  pub bookmarks : Dict Bytes (Dict Bytes Bookmark)

-- `initLocked` makes every map anew and leaves `mamIDCounter` alone.
unfoldable pub init : Store → Store
init s = record s {
  users = [];
  roster_items = [];
  roster_versions = [];
  blocked = [];
  vcards = [];
  offline_msgs = [];
  mam_messages = [];
  muc_rooms = [];
  muc_affiliations = [];
  pubsub_nodes = [];
  pubsub_items = [];
  pubsub_subscriptions = [];
  bookmarks = [];
}

-- `New`: the zero store, initialised.
abbrev pub new : Store
new = record {
  users = [];
  roster_items = [];
  roster_versions = [];
  blocked = [];
  vcards = [];
  offline_msgs = [];
  mam_messages = [];
  mam_id_counter = 0;
  muc_rooms = [];
  muc_affiliations = [];
  pubsub_nodes = [];
  pubsub_items = [];
  pubsub_subscriptions = [];
  bookmarks = [];
}

-- A write returns the store that it leaves and the error that it reports, if any.
abbrev pub Write : Type 0
Write = Store × Option StorageError

abbrev pub done : Store → Write
done s = (s, none)

abbrev pub fails : Store → StorageError → Write
fails s e = (s, some e)
