-- ===== src/Storage/File/PubSub.antt =====
-- The PubSubStore methods of storage/file/file.go. A folder lists its files in the order of the map.
use xmpp_go.Prelude.{
  ℕ, Bool, true, false, none, some, List, [], ◌∷◌, ◌++◌, Result, ok, err, list_eq, if◌then◌else◌,
  eqb, not,
}
use xmpp_go.Prelude.Bytes.{Bytes, bytes}
use xmpp_go.Prelude.Dict.{Dict, get, put, remove, values}
use xmpp_go.Storage.Model.{not_found, user_exists, PubSubNode, PubSubItem, PubSubSubscription}
use xmpp_go.Storage.Memory.PubSub.{stamp_item, sort_by_time}
use xmpp_go.Storage.File.Disk.{
  Disk, Formats, FileError, FileWrite, storage_error, safe_file_name, read_json, write_json,
  load_map, exists,
}

-- The prefix of the files of a host, and the file of a node.
unfoldable pub host_prefix : Bytes → Bytes
host_prefix host = safe_file_name host ++ bytes "_"

unfoldable pub node_file : Bytes → Bytes → Bytes
node_file host node_id =
    safe_file_name host ++ (bytes "_" ++ (safe_file_name node_id ++ bytes ".json"))

-- The name is longer than the prefix that it begins with.
unfoldable pub has_prefix : Bytes → Bytes → Bool
has_prefix [] [] = false
has_prefix [] (c ∷ name) = true
has_prefix (b ∷ prefix) [] = false
has_prefix (b ∷ prefix) (c ∷ name) =
    let rest = has_prefix prefix name in if eqb b c then rest else false

unfoldable pub delete_node : Disk → Bytes → Bytes → FileWrite
delete_node d host node_id =
    if not (exists d.pubsub_nodes (node_file host node_id))
    then (d, some (storage_error not_found))
    else (
      record d {
        pubsub_items = remove d.pubsub_items (node_file host node_id);
        pubsub_subscriptions = remove d.pubsub_subscriptions (node_file host node_id);
        pubsub_nodes = remove d.pubsub_nodes (node_file host node_id);
      },
      none,
    )

module _ (f : Formats) where
  unfoldable pub create_node : Disk → PubSubNode → FileWrite
  create_node d node =
      if exists d.pubsub_nodes (node_file node.host node.node_id)
      then (d, some (storage_error user_exists))
      else (
        record d {
          pubsub_nodes = write_json f.node d.pubsub_nodes (node_file node.host node.node_id) node;
        },
        none,
      )

  unfoldable pub get_node : Disk → Bytes → Bytes → Result FileError PubSubNode
  get_node d host node_id = read_json f.node d.pubsub_nodes (node_file host node_id)

  unfoldable pub read_nodes : Bytes → Dict Bytes Bytes → List PubSubNode
  read_nodes prefix [] = []
  read_nodes prefix ((name, content) ∷ files) =
      let rest = read_nodes prefix files in
      if has_prefix prefix name
      then elim (f.node.decode content) [ none ↦ rest | some node ↦ node ∷ rest ]
      else rest

  unfoldable pub list_nodes : Disk → Bytes → List PubSubNode
  list_nodes d host = read_nodes (host_prefix host) d.pubsub_nodes

  unfoldable pub load_pubsub_items : Disk → Bytes → Bytes → Result FileError (Dict Bytes PubSubItem)
  load_pubsub_items d host node_id = load_map f.items d.pubsub_items (node_file host node_id)

  unfoldable pub save_pubsub_items : Disk → Bytes → Bytes → Dict Bytes PubSubItem → FileWrite
  save_pubsub_items d host node_id items = (
    record d { pubsub_items = write_json f.items d.pubsub_items (node_file host node_id) items },
    none,
  )

  unfoldable pub upsert_item : Disk → PubSubItem → ℕ → FileWrite
  upsert_item d item now = elim (load_pubsub_items d item.host item.node_id) [
    | err e ↦ (d, some e)
    | ok items ↦
        save_pubsub_items d item.host item.node_id (put items item.item_id (stamp_item item now))
  ]

  unfoldable pub get_item : Disk → Bytes → Bytes → Bytes → Result FileError PubSubItem
  get_item d host node_id item_id = elim (load_pubsub_items d host node_id) [
    | err e ↦ err e
    | ok items ↦ elim (get items item_id) [
      | none ↦ err (storage_error not_found)
      | some item ↦ ok item
    ]
  ]

  unfoldable pub get_items : Disk → Bytes → Bytes → Result FileError (List PubSubItem)
  get_items d host node_id = elim (load_pubsub_items d host node_id) [
    | err e ↦ err e
    | ok items ↦ ok (sort_by_time (values items))
  ]

  unfoldable pub delete_item : Disk → Bytes → Bytes → Bytes → FileWrite
  delete_item d host node_id item_id = elim (load_pubsub_items d host node_id) [
    | err e ↦ (d, some e)
    | ok items ↦ elim (get items item_id) [
      | none ↦ (d, some (storage_error not_found))
      | some _ ↦ save_pubsub_items d host node_id (remove items item_id)
    ]
  ]

  unfoldable pub load_pubsub_subs :
      Disk → Bytes → Bytes → Result FileError (Dict Bytes PubSubSubscription)
  load_pubsub_subs d host node_id =
      load_map f.subscriptions d.pubsub_subscriptions (node_file host node_id)

  unfoldable pub save_pubsub_subs : Disk → Bytes → Bytes → Dict Bytes PubSubSubscription → FileWrite
  save_pubsub_subs d host node_id subs = (
    record d {
      pubsub_subscriptions =
          write_json f.subscriptions d.pubsub_subscriptions (node_file host node_id) subs;
    },
    none,
  )

  unfoldable pub subscribe : Disk → PubSubSubscription → FileWrite
  subscribe d sub = elim (load_pubsub_subs d sub.host sub.node_id) [
    | err e ↦ (d, some e)
    | ok subs ↦ save_pubsub_subs d sub.host sub.node_id (put subs sub.jid sub)
  ]

  unfoldable pub unsubscribe : Disk → Bytes → Bytes → Bytes → FileWrite
  unsubscribe d host node_id jid = elim (load_pubsub_subs d host node_id) [
    | err e ↦ (d, some e)
    | ok subs ↦ save_pubsub_subs d host node_id (remove subs jid)
  ]

  unfoldable pub get_subscription :
      Disk → Bytes → Bytes → Bytes → Result FileError PubSubSubscription
  get_subscription d host node_id jid = elim (load_pubsub_subs d host node_id) [
    | err e ↦ err e
    | ok subs ↦ elim (get subs jid) [ none ↦ err (storage_error not_found) | some sub ↦ ok sub ]
  ]

  unfoldable pub get_subscriptions :
      Disk → Bytes → Bytes → Result FileError (List PubSubSubscription)
  get_subscriptions d host node_id = elim (load_pubsub_subs d host node_id) [
    | err e ↦ err e
    | ok subs ↦ ok (values subs)
  ]

  unfoldable pub read_subs : Bytes → Bytes → Dict Bytes Bytes → List PubSubSubscription
  read_subs prefix jid [] = []
  read_subs prefix jid ((name, content) ∷ files) =
      let rest = read_subs prefix jid files in
      if has_prefix prefix name
      then elim (f.subscriptions.decode content) [
        | none ↦ rest
        | some subs ↦ elim (get subs jid) [ none ↦ rest | some sub ↦ sub ∷ rest ]
      ]
      else rest

  unfoldable pub get_user_subscriptions : Disk → Bytes → Bytes → List PubSubSubscription
  get_user_subscriptions d host jid = read_subs (host_prefix host) jid d.pubsub_subscriptions
