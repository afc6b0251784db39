-- ===== src/Storage/Memory/Keyed/Services.antt =====
-- The calls on rooms, nodes and bookmarks keep the entities under their own keys.
use xmpp_go.Prelude.{ℕ, inl, inr, refl, list_eq, arith, Option-cases}
use xmpp_go.Prelude.Bytes.{Bytes}
use xmpp_go.Prelude.Dict.{get, remove}
use xmpp_go.Prelude.Nested.{inner, get_in}
use xmpp_go.Storage.Model.{
  MucRoom, MucAffiliation, PubSubNode, PubSubItem, PubSubSubscription, Bookmark,
}
use xmpp_go.Storage.Memory.State.{Store}
use xmpp_go.Storage.Memory.Muc.{
  create_room, update_room, delete_room, set_affiliation, remove_affiliation,
}
use xmpp_go.Storage.Memory.PubSub.{
  stamp_item, create_node, delete_node, upsert_item, delete_item, subscribe, unsubscribe,
}
use xmpp_go.Storage.Memory.Bookmarks.{set_bookmark, delete_bookmark}
use xmpp_go.Prelude.Holds.{put-Holds, remove-Holds, inner-Holds, put_in-Holds, remove_in-Holds}
use xmpp_go.Storage.Memory.Keyed.{IsKeyed}

pub create_room-IsKeyed : {s : Store} (r : MucRoom) → IsKeyed s → IsKeyed (create_room s r).0
unfolding create_room
create_room-IsKeyed {s} r h = elim (Option-cases (get s.muc_rooms r.room_jid)) [
  | inl e ↦ rw (e, create_room) (assumption (put-Holds r.room_jid r refl h.muc_rooms))
  | inr (_, e) ↦ rw (e, create_room) h
]

pub update_room-IsKeyed : {s : Store} (r : MucRoom) → IsKeyed s → IsKeyed (update_room s r).0
unfolding update_room
update_room-IsKeyed {s} r h = elim (Option-cases (get s.muc_rooms r.room_jid)) [
  | inl e ↦ rw (e, update_room) h
  | inr (_, e) ↦ rw (e, update_room) (assumption (put-Holds r.room_jid r refl h.muc_rooms))
]

pub delete_room-IsKeyed : {s : Store} (room : Bytes) → IsKeyed s → IsKeyed (delete_room s room).0
unfolding delete_room
delete_room-IsKeyed {s} room h = elim (Option-cases (get s.muc_rooms room)) [
  | inl e ↦ rw (e, delete_room) h
  | inr (_, e) ↦
      rw (e, delete_room)
        (assumption (remove-Holds room h.muc_rooms, remove-Holds room h.muc_affiliations))
]

pub set_affiliation-IsKeyed :
    {s : Store} (a : MucAffiliation) → IsKeyed s → IsKeyed (set_affiliation s a).0
unfolding set_affiliation
set_affiliation-IsKeyed {s} a h =
    (assumption (put_in-Holds a.room_jid a.user_jid a (refl, refl) h.muc_affiliations))

pub remove_affiliation-IsKeyed :
    {s : Store} (room : Bytes) (user : Bytes)
    → IsKeyed s
    → IsKeyed (remove_affiliation s room user).0
unfolding remove_affiliation
remove_affiliation-IsKeyed {s} room user h =
    (assumption (remove_in-Holds room user h.muc_affiliations))

pub create_node-IsKeyed : {s : Store} (n : PubSubNode) → IsKeyed s → IsKeyed (create_node s n).0
unfolding create_node
create_node-IsKeyed {s} n h = elim (Option-cases (get_in s.pubsub_nodes n.host n.node_id)) [
  | inl e ↦
      rw (e, create_node) (assumption (put_in-Holds n.host n.node_id n (refl, refl) h.pubsub_nodes))
  | inr (_, e) ↦ rw (e, create_node) h
]

pub delete_node-IsKeyed :
    {s : Store} (host : Bytes) (node : Bytes) → IsKeyed s → IsKeyed (delete_node s host node).0
unfolding delete_node
delete_node-IsKeyed {s} host node h = elim (Option-cases (get s.pubsub_nodes host)) [
  | inl e ↦ rw (e, delete_node) h
  | inr (m, e) ↦ elim (Option-cases (get m node)) [
    | inl e' ↦ rw (e, e', delete_node) h
    | inr (_, e') ↦
        rw (e, e', delete_node)
          (assumption (
            put-Holds host (remove m node) (remove-Holds node (h.pubsub_nodes.at host m e))
                h.pubsub_nodes,
            remove_in-Holds host node h.pubsub_items,
            remove_in-Holds host node h.pubsub_subscriptions,
          ))
  ]
]

pub upsert_item-IsKeyed :
    {s : Store} (i : PubSubItem) (now : ℕ) → IsKeyed s → IsKeyed (upsert_item s i now).0
unfolding upsert_item inner get_in
upsert_item-IsKeyed {s} i now h =
    (assumption (
      put_in-Holds i.host i.node_id _
        (put-Holds i.item_id (stamp_item i now) (ground arith, ground arith, ground arith)
          (inner-Holds i.node_id (inner-Holds i.host h.pubsub_items)))
        h.pubsub_items))

pub delete_item-IsKeyed :
    {s : Store} (host node key : Bytes) → IsKeyed s → IsKeyed (delete_item s host node key).0
unfolding delete_item
delete_item-IsKeyed {s} host node key h = elim (Option-cases (get s.pubsub_items host)) [
  | inl e ↦ rw (e, delete_item) h
  | inr (m, e) ↦ elim (Option-cases (get m node)) [
    | inl e' ↦ rw (e, e', delete_item) h
    | inr (l, e') ↦
        let kept = h.pubsub_items.at host m e in
        let less =
          put-Holds host _ (put-Holds node _ (remove-Holds key (kept.at node l e')) kept)
            h.pubsub_items in
        elim (Option-cases (get l key)) [
          | inl f ↦ rw (e, e', f, delete_item) h
          | inr (_, f) ↦ rw (e, e', f, delete_item) (assumption (less))
        ]
  ]
]

pub subscribe-IsKeyed :
    {s : Store} (sub : PubSubSubscription) → IsKeyed s → IsKeyed (subscribe s sub).0
unfolding subscribe inner get_in
subscribe-IsKeyed {s} sub h =
    (assumption (
      put_in-Holds sub.host sub.node_id _
        (put-Holds sub.jid sub (refl, refl, refl)
          (inner-Holds sub.node_id (inner-Holds sub.host h.pubsub_subscriptions)))
        h.pubsub_subscriptions))

pub unsubscribe-IsKeyed :
    {s : Store} (host node key : Bytes) → IsKeyed s → IsKeyed (unsubscribe s host node key).0
unfolding unsubscribe
unsubscribe-IsKeyed {s} host node key h = elim (Option-cases (get s.pubsub_subscriptions host)) [
  | inl e ↦ rw (e, unsubscribe) h
  | inr (m, e) ↦ elim (Option-cases (get m node)) [
    | inl e' ↦ rw (e, e', unsubscribe) h
    | inr (l, e') ↦
        let kept = h.pubsub_subscriptions.at host m e in
        let less =
          put-Holds host _ (put-Holds node _ (remove-Holds key (kept.at node l e')) kept)
            h.pubsub_subscriptions in
        rw (e, e', unsubscribe) (assumption (less))
  ]
]

pub set_bookmark-IsKeyed : {s : Store} (b : Bookmark) → IsKeyed s → IsKeyed (set_bookmark s b).0
unfolding set_bookmark
set_bookmark-IsKeyed {s} b h =
    (assumption (put_in-Holds b.user_jid b.room_jid b (refl, refl) h.bookmarks))

pub delete_bookmark-IsKeyed :
    {s : Store} (user : Bytes) (room : Bytes) → IsKeyed s → IsKeyed (delete_bookmark s user room).0
unfolding delete_bookmark
delete_bookmark-IsKeyed {s} user room h = elim (Option-cases (get s.bookmarks user)) [
  | inl e ↦ rw (e, delete_bookmark) h
  | inr (m, e) ↦ elim (Option-cases (get m room)) [
    | inl e' ↦ rw (e, e', delete_bookmark) h
    | inr (_, e') ↦
        rw (e, e', delete_bookmark)
          (assumption (
            put-Holds user (remove m room) (remove-Holds room (h.bookmarks.at user m e))
              h.bookmarks))
  ]
]
