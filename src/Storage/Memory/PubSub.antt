-- ===== src/Storage/Memory/PubSub.antt =====
-- The PubSubStore methods of storage/memory/memory.go. `sort.Slice` is an insertion sort here: it
-- leaves the order of equal times open, and the model keeps one such order.
pub mod Cascade
pub mod Order
use xmpp_go.Prelude.{ℕ, none, some, List, [], ◌∷◌, err, or_fail, list_eq, if◌then◌else◌, ltb, eqb}
use xmpp_go.Prelude.Bytes.{Bytes}
use xmpp_go.Prelude.Dict.{Dict, get, put, remove, values}
use xmpp_go.Prelude.Nested.{inner, get_in, put_in, remove_in, or_nil}
use xmpp_go.Storage.Model.{not_found, user_exists, Read, PubSubNode, PubSubItem, PubSubSubscription}
use xmpp_go.Storage.Memory.State.{Store, Write, done, fails}

unfoldable pub create_node : Store → PubSubNode → Write
create_node s node = elim (get_in s.pubsub_nodes node.host node.node_id) [
  | some _ ↦ fails s user_exists
  | none ↦ done (record s { pubsub_nodes = put_in s.pubsub_nodes node.host node.node_id node })
]

unfoldable pub get_node : Store → Bytes → Bytes → Read PubSubNode
get_node s host node_id = elim (get s.pubsub_nodes host) [
  | none ↦ err not_found
  | some nodes ↦ or_fail not_found (get nodes node_id)
]

unfoldable pub delete_node : Store → Bytes → Bytes → Write
delete_node s host node_id = elim (get s.pubsub_nodes host) [
  | none ↦ fails s not_found
  | some nodes ↦ elim (get nodes node_id) [
    | none ↦ fails s not_found
    | some _ ↦ done (record s {
      pubsub_nodes = put s.pubsub_nodes host (remove nodes node_id);
      pubsub_items = remove_in s.pubsub_items host node_id;
      pubsub_subscriptions = remove_in s.pubsub_subscriptions host node_id;
    })
  ]
]

unfoldable pub list_nodes : Store → Bytes → List PubSubNode
list_nodes s host = values (inner s.pubsub_nodes host)

-- An item without a time gets the time of the call.
abbrev pub stamp_item : PubSubItem → ℕ → PubSubItem
stamp_item item now = if eqb item.created_at 0 then record item { created_at = now } else item

unfoldable pub upsert_item : Store → PubSubItem → ℕ → Write
upsert_item s item now = done (record s {
  pubsub_items = put_in s.pubsub_items item.host item.node_id (
      put (or_nil (get_in s.pubsub_items item.host item.node_id)) item.item_id
        (stamp_item item now));
})

unfoldable pub get_item : Store → Bytes → Bytes → Bytes → Read PubSubItem
get_item s host node_id item_id = elim (get s.pubsub_items host) [
  | none ↦ err not_found
  | some host_items ↦ elim (get host_items node_id) [
    | none ↦ err not_found
    | some node_items ↦ or_fail not_found (get node_items item_id)
  ]
]

unfoldable pub insert_by_time : PubSubItem → List PubSubItem → List PubSubItem
insert_by_time i [] = i ∷ []
insert_by_time i (j ∷ l) =
    let rest = insert_by_time i l in if ltb j.created_at i.created_at then j ∷ rest else i ∷ j ∷ l

unfoldable pub sort_by_time : List PubSubItem → List PubSubItem
unfolding insert_by_time
sort_by_time [] = []
sort_by_time (i ∷ l) = insert_by_time i (sort_by_time l)

unfoldable pub get_items : Store → Bytes → Bytes → List PubSubItem
unfolding sort_by_time
get_items s host node_id = elim (get s.pubsub_items host) [
  | none ↦ []
  | some host_items ↦ sort_by_time (values (inner host_items node_id))
]

unfoldable pub delete_item : Store → Bytes → Bytes → Bytes → Write
delete_item s host node_id item_id = elim (get s.pubsub_items host) [
  | none ↦ fails s not_found
  | some host_items ↦ elim (get host_items node_id) [
    | none ↦ fails s not_found
    | some node_items ↦ elim (get node_items item_id) [
      | none ↦ fails s not_found
      | some _ ↦ done (record s {
        pubsub_items = put s.pubsub_items host (put host_items node_id (remove node_items item_id));
      })
    ]
  ]
]

unfoldable pub subscribe : Store → PubSubSubscription → Write
subscribe s sub = done (record s {
  pubsub_subscriptions =
      put_in s.pubsub_subscriptions sub.host sub.node_id
        (put (or_nil (get_in s.pubsub_subscriptions sub.host sub.node_id)) sub.jid sub);
})

unfoldable pub unsubscribe : Store → Bytes → Bytes → Bytes → Write
unsubscribe s host node_id jid = elim (get s.pubsub_subscriptions host) [
  | none ↦ done s
  | some host_subs ↦ elim (get host_subs node_id) [
    | none ↦ done s
    | some node_subs ↦ done (record s {
      pubsub_subscriptions =
          put s.pubsub_subscriptions host (put host_subs node_id (remove node_subs jid));
    })
  ]
]

unfoldable pub get_subscription : Store → Bytes → Bytes → Bytes → Read PubSubSubscription
get_subscription s host node_id jid = elim (get s.pubsub_subscriptions host) [
  | none ↦ err not_found
  | some host_subs ↦ elim (get host_subs node_id) [
    | none ↦ err not_found
    | some node_subs ↦ or_fail not_found (get node_subs jid)
  ]
]

unfoldable pub get_subscriptions : Store → Bytes → Bytes → List PubSubSubscription
get_subscriptions s host node_id = elim (get s.pubsub_subscriptions host) [
  | none ↦ []
  | some host_subs ↦ values (inner host_subs node_id)
]

-- The subscription of `jid` in each node of a host, where it has one.
unfoldable pub collect_subscriptions :
    List (Dict Bytes PubSubSubscription) → Bytes → List PubSubSubscription
collect_subscriptions [] jid = []
collect_subscriptions (node_subs ∷ rest) jid =
    let found = collect_subscriptions rest jid in
    elim (get node_subs jid) [ none ↦ found | some sub ↦ sub ∷ found ]

unfoldable pub get_user_subscriptions : Store → Bytes → Bytes → List PubSubSubscription
unfolding collect_subscriptions
get_user_subscriptions s host jid = elim (get s.pubsub_subscriptions host) [
  | none ↦ []
  | some host_subs ↦ collect_subscriptions (values host_subs) jid
]
