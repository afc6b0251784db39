-- ===== src/Storage/Model.antt =====
-- The types of package storage: storage/{storage,user,roster,mam,muc,pubsub,offline,bookmarks}.go.
-- A string or byte slice is its list of bytes. A `time.Time` is a number of nanoseconds counted
-- from Go's zero time, so `IsZero` is `== 0`; the `int` fields that no operation computes with are
-- natural numbers.
use xmpp_go.Prelude.{ℕ, Bool, Option, List, Result}
use xmpp_go.Prelude.Bytes.{Bytes}
use xmpp_go.Prelude.Dict.{Dict}

-- The sentinel errors of storage.go.
pub data StorageError : Type 0 where
  not_found user_exists auth_failed : StorageError

-- What a read returns.
abbrev pub Read : Type 0 → Type 0
Read A = Result StorageError A

pub record User : Type 0 where
  pub username : Bytes
  pub password : Bytes
  pub salt : Bytes
  pub iterations : ℕ
  pub server_key : Bytes
  pub stored_key : Bytes
  pub created_at : ℕ
  pub updated_at : ℕ

pub record RosterItem : Type 0 where
  pub user_jid : Bytes
  pub contact_jid : Bytes
  pub name : Bytes
  pub subscription : Bytes
  pub ask : Bytes
  pub groups : List Bytes

pub record OfflineMessage : Type 0 where
  pub id : Bytes
  pub user_jid : Bytes
  pub from_jid : Bytes
  pub payload : Bytes
  pub created_at : ℕ

pub record ArchivedMessage : Type 0 where
  pub id : Bytes
  pub user_jid : Bytes
  pub with_jid : Bytes
  pub from_jid : Bytes
  pub payload : Bytes
  pub created_at : ℕ

pub record MucRoom : Type 0 where
  pub room_jid : Bytes
  pub name : Bytes
  pub description : Bytes
  pub subject : Bytes
  pub password : Bytes
  pub is_public : Bool
  pub persistent : Bool
  pub max_users : ℕ

pub record MucAffiliation : Type 0 where
  pub room_jid : Bytes
  pub user_jid : Bytes
  pub affiliation : Bytes
  pub reason : Bytes

-- `config` is none for a nil map.
pub record PubSubNode : Type 0 where
  pub host : Bytes
  pub node_id : Bytes
  pub name : Bytes
  pub node_type : Bytes
  pub config : Option (Dict Bytes Bytes)
  pub creator : Bytes

pub record PubSubItem : Type 0 where
  pub host : Bytes
  pub node_id : Bytes
  pub item_id : Bytes
  pub publisher : Bytes
  pub payload : Bytes
  pub created_at : ℕ

pub record PubSubSubscription : Type 0 where
  pub host : Bytes
  pub node_id : Bytes
  pub jid : Bytes
  pub sub_id : Bytes
  pub state : Bytes

pub record Bookmark : Type 0 where
  pub user_jid : Bytes
  pub room_jid : Bytes
  pub name : Bytes
  pub nick : Bytes
  pub password : Bytes
  pub autojoin : Bool
