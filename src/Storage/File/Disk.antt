-- ===== src/Storage/File/Disk.antt =====
-- The folders and the helpers of storage/file/file.go. A folder maps the names of its files to their
-- contents; the folders are there, as Init leaves them, and the disk neither fails nor fills up. JSON
-- is a parameter.
use xmpp_go.Prelude.{
  ℕ, Bool, true, false, Option, none, some, List, [], ◌∷◌, ◌++◌, Result, ok, err, list_eq,
  if◌then◌else◌, eqb, ◌||◌,
}
use xmpp_go.Prelude.Bytes.{Bytes, bytes}
use xmpp_go.Prelude.Dict.{Dict, get, put}
use xmpp_go.Storage.Model.{
  StorageError, not_found, User, RosterItem, MucRoom, MucAffiliation, Bookmark, OfflineMessage,
  ArchivedMessage, PubSubNode, PubSubItem, PubSubSubscription,
}

pub record Disk : Type 0 where
  pub users : Dict Bytes Bytes
  pub roster : Dict Bytes Bytes
  pub roster_versions : Dict Bytes Bytes
  pub blocking : Dict Bytes Bytes
  pub vcards : Dict Bytes Bytes
  pub offline : Dict Bytes Bytes
  pub mam : Dict Bytes Bytes
  pub muc_rooms : Dict Bytes Bytes
  pub muc_affiliations : Dict Bytes Bytes
  pub pubsub_nodes : Dict Bytes Bytes
  pub pubsub_items : Dict Bytes Bytes
  pub pubsub_subscriptions : Dict Bytes Bytes
  pub bookmarks : Dict Bytes Bytes
  -- The package's `mamCounter`, the bits of an `int64`.
  pub mam_counter : ℕ

-- How package encoding/json writes and reads a type.
pub record Json (A : Type 0) : Type 0 where
  pub encode : A → Bytes
  pub decode : Bytes → Option A

pub record Formats : Type 0 where
  pub user : Json User
  pub roster_file : Json (Dict Bytes RosterItem)
  pub version : Json Bytes
  pub blocked : Json (Dict Bytes Bool)
  pub offline_messages : Json (List OfflineMessage)
  pub archived_messages : Json (List ArchivedMessage)
  pub room : Json MucRoom
  pub affiliations : Json (Dict Bytes MucAffiliation)
  pub node : Json PubSubNode
  pub items : Json (Dict Bytes PubSubItem)
  pub subscriptions : Json (Dict Bytes PubSubSubscription)
  pub bookmarks_file : Json (Dict Bytes Bookmark)

-- The errors of the storage package, and that of a file that is not JSON of the type.
pub data FileError : Type 0 where
  storage_error : StorageError → FileError
  unreadable : FileError

abbrev pub FileWrite : Type 0
FileWrite = Disk × Option FileError

-- The characters that `safeFileName` replaces.
abbrev pub problematic : ℕ → Bool
problematic c =
    eqb c b'/'
    || (eqb c b'\\'
        || (eqb c b':'
            || (eqb c b'*'
                || (eqb c b'?' || (eqb c b'"' || (eqb c b'<' || (eqb c b'>' || eqb c b'|')))))))

unfoldable pub safe_file_name : Bytes → Bytes
safe_file_name [] = []
safe_file_name (c ∷ name) =
    let rest = safe_file_name name in if problematic c then b'_' ∷ rest else c ∷ rest

unfoldable pub json_file : Bytes → Bytes
json_file name = safe_file_name name ++ bytes ".json"

module _ {A : Type 0} where
  unfoldable pub read_json : Json A → Dict Bytes Bytes → Bytes → Result FileError A
  read_json j folder file = elim (get folder file) [
    | none ↦ err (storage_error not_found)
    | some content ↦ elim (j.decode content) [ none ↦ err unreadable | some v ↦ ok v ]
  ]

  unfoldable pub write_json : Json A → Dict Bytes Bytes → Bytes → A → Dict Bytes Bytes
  write_json j folder file v = put folder file (j.encode v)

  -- The loaders of maps: a missing file is an empty map.
  unfoldable pub load_map :
      Json (Dict Bytes A) → Dict Bytes Bytes → Bytes → Result FileError (Dict Bytes A)
  load_map j folder file = elim (get folder file) [
    | none ↦ ok []
    | some content ↦ elim (j.decode content) [ none ↦ err unreadable | some m ↦ ok m ]
  ]

-- The loaders of lists of messages: a missing file is no messages.
unfoldable pub load_list :
    {A : Type 0} → Json (List A) → Dict Bytes Bytes → Bytes → Result FileError (List A)
load_list j folder file = elim (get folder file) [
  | none ↦ ok []
  | some content ↦ elim (j.decode content) [ none ↦ err unreadable | some l ↦ ok l ]
]

unfoldable pub exists : Dict Bytes Bytes → Bytes → Bool
exists folder file = elim (get folder file) [ none ↦ false | some _ ↦ true ]
