-- ===== src/Storage/Memory/PubSub/Cascade.antt =====
-- Destroying a node.
use xmpp_go.Prelude.{
  ℕ, ◌≡◌, refl, none, ok, err, or_fail, list_eq, ◌==◌, eq_iff, if◌then◌else◌, ◌&&◌, arith, eqb,
}
use xmpp_go.Prelude.Bytes.{Bytes}
use xmpp_go.Prelude.Dict.{get, put, get-put, get-empty}
use xmpp_go.Prelude.Nested.{inner, get_in, remove_in, or_nil, get_in-put_in, get_in-remove_in}
use xmpp_go.Storage.Model.{not_found, PubSubNode, PubSubItem, PubSubSubscription}
use xmpp_go.Storage.Memory.State.{Store, done}
use xmpp_go.Storage.Memory.PubSub.{get_node, delete_node, upsert_item, get_item, get_subscription}

pub get_node_lem :
    (s : Store) (host node : Bytes)
    → get_node s host node ≡ or_fail not_found (get_in s.pubsub_nodes host node)
unfolding get_node get_in inner get
get_node_lem s host node = ground arith

pub get_item_lem :
    (s : Store) (host node item : Bytes)
    → get_item s host node item
      ≡ or_fail not_found (get (or_nil (get_in s.pubsub_items host node)) item)
unfolding get_item get_in inner get
get_item_lem s host node item = ground arith

pub get_subscription_lem :
    (s : Store) (host node jid : Bytes)
    → get_subscription s host node jid
      ≡ or_fail not_found (get (or_nil (get_in s.pubsub_subscriptions host node)) jid)
unfolding get_subscription get_in inner get
get_subscription_lem s host node jid = ground arith

-- The store without a node, its items and its subscriptions.
abbrev without_node : Store → Bytes → Bytes → Store
without_node s host node = record s {
  pubsub_nodes = remove_in s.pubsub_nodes host node;
  pubsub_items = remove_in s.pubsub_items host node;
  pubsub_subscriptions = remove_in s.pubsub_subscriptions host node;
}

delete_node_lem :
    (s : Store) (host node : Bytes) (n : PubSubNode)
    → get_node s host node ≡ ok n
    → delete_node s host node ≡ done (without_node s host node)
unfolding get_node delete_node remove_in
delete_node_lem s host node n h = ground arith

-- Deleting a node that exists removes it with all of its items and subscriptions, and leaves the
-- nodes, items and subscriptions of every other node of every host.
pub delete_node_cascades :
    (s : Store) (host node host' node' key : Bytes) (n : PubSubNode)
    → get_node s host node ≡ ok n
    → let (s', e) = delete_node s host node in
      let gone = host == host' && node == node' in
      (e ≡ none)
      × (get_node s' host' node' ≡ (if gone then err not_found else get_node s host' node'))
      × (get_item s' host' node' key ≡ (if gone then err not_found else get_item s host' node' key))
      × (get_subscription s' host' node' key
          ≡ (if gone then err not_found else get_subscription s host' node' key))
delete_node_cascades s host node host' node' key n h = rw (delete_node_lem s host node n h) (
  refl,
  ground (
    arith,
    get_node_lem (without_node s host node) host' node',
    get_node_lem s host' node',
    get_in-remove_in s.pubsub_nodes host host' node node',
  ),
  ground (
    arith,
    get_item_lem (without_node s host node) host' node' key,
    get_item_lem s host' node' key,
    get_in-remove_in s.pubsub_items host host' node node',
    get-empty {V = PubSubItem} key,
  ),
  ground (
    arith,
    get_subscription_lem (without_node s host node) host' node' key,
    get_subscription_lem s host' node' key,
    get_in-remove_in s.pubsub_subscriptions host host' node node',
    get-empty {V = PubSubSubscription} key,
  ),
)

-- A published item is read back, with the time of the call where it carried none, under its own
-- host, node and identifier, and publishing it changes no other item.
pub get_item-upsert_item :
    (s : Store) (i : PubSubItem) (now : ℕ) (host node item : Bytes)
    → get_item (upsert_item s i now).0 host node item ≡ (
        if i.host == host && (i.node_id == node && i.item_id == item)
        then ok (if eqb i.created_at 0 then record i { created_at = now } else i)
        else get_item s host node item)
unfolding upsert_item get
get_item-upsert_item s i now host node item = ground (
  arith,
  get_item_lem s host node item,
  get_item_lem (upsert_item s i now).0 host node item,
  eq_iff i.host host,
  eq_iff i.node_id node,
  get_in-put_in s.pubsub_items i.host host i.node_id node (
      put (or_nil (get_in s.pubsub_items i.host i.node_id)) i.item_id
        (if eqb i.created_at 0 then record i { created_at = now } else i)),
  get-put (or_nil (get_in s.pubsub_items i.host i.node_id)) i.item_id item
      (if eqb i.created_at 0 then record i { created_at = now } else i),
)
