-- ===== src/Tests/Storage.antt =====
-- A store after concrete calls.
use xmpp_go.Prelude.{
  ◌⊎◌, ◌≡◌, ◌≢◌, ◌≤◌, ◌↔◌, refl, true, false, none, [], ok, err, arith, length, take, In, ◌==◌,
  eq_iff, list_eq,
}
use xmpp_go.Prelude.Bytes.{Bytes, bytes}
use xmpp_go.Prelude.Dict.{get}
use xmpp_go.Storage.Model.{User, not_found, auth_failed}
use xmpp_go.Storage.Memory.Users.{get_user, authenticate}
use xmpp_go.Storage.Memory.Users.Accounts.{authenticate_exact}
use xmpp_go.Storage.Memory.Muc
use xmpp_go.Storage.Memory.Muc.{get_room, get_affiliation, get_affiliations, list_rooms}
use xmpp_go.Storage.Memory.Muc.Cascade.{delete_room_cascades}
use xmpp_go.Storage.Memory.PubSub
use xmpp_go.Storage.Memory.PubSub.{get_node, get_item, get_items, get_subscription, list_nodes}
use xmpp_go.Storage.Memory.PubSub.Cascade.{delete_node_cascades}
use xmpp_go.Storage.Memory.Archive.{query_messages, first_id, last_id, max_of, passes}
use xmpp_go.Storage.Memory.Archive.Selection.{query_messages_exact, selected, window, keep}
use xmpp_go.Storage.Memory.Archive.Paging.{fetch, fetch-selected, ArchiveHasIds}
use xmpp_go.Storage.Memory.Roster.{get_roster_item, get_roster_items}
use xmpp_go.Storage.Memory.Bookmarks.{get_bookmark, get_bookmarks}
use xmpp_go.Storage.Memory.Keyed.{IsKeyed}
use xmpp_go.Storage.Memory.Keyed.Histories.{run-new-IsKeyed}
use xmpp_go.Storage.Memory.Keyed.Listings.{listings_exact}
use xmpp_go.Tests.Data.{
  ann, room, host, node, contact, hall, owner, news, bookmark, calls, store, query, filled,
}

run-new-IsKeyed_example : IsKeyed store
run-new-IsKeyed_example = run-new-IsKeyed calls

listings_exact_example :
    (In contact (get_roster_items store ann)
      ↔ (get_roster_item store ann (bytes "bob") ≡ ok contact))
    × (In bookmark (get_bookmarks store ann) ↔ (get_bookmark store ann room ≡ ok bookmark))
    × (In owner (get_affiliations store ann) ↔ (get_affiliation store ann ann ≡ ok owner))
    × (In news (list_nodes store ann) ↔ (get_node store ann node ≡ ok news))
    × (In hall (list_rooms store) ↔ (get_room store room ≡ ok hall))
listings_exact_example =
    listings_exact store ann contact bookmark owner news hall (run-new-IsKeyed calls)

query_messages_exact_example :
    let r = query_messages store query in
    (r.messages ≡ take (max_of query) (selected store query))
    × ((r.complete ≡ true) ↔ (r.messages ≡ selected store query))
    × (r.count ≡ length r.messages)
    × (r.count ≤ max_of query)
    × (r.first ≡ first_id r.messages)
    × (r.last ≡ last_id r.messages)
query_messages_exact_example = query_messages_exact store query

differs : (a b : Bytes) → (a == b) ≡ false → a ≢ b
differs a b h = λ e. ground (arith, eq_iff a b)

filled-ArchiveHasIds : ArchiveHasIds filled query
unfolding get
filled-ArchiveHasIds = (
  differs _ _ refl,
  (
    (differs _ _ refl, (differs _ _ refl, tt)),
    (differs _ _ refl, ((differs _ _ refl, tt), (differs _ _ refl, (tt, tt)))),
  ),
)

fetch-selected_example : fetch 9 filled query ≡ selected filled query
unfolding get window keep passes
fetch-selected_example = fetch-selected 9 filled query filled-ArchiveHasIds (omega arith)

delete_node_cascades_example :
    let (s', e) = PubSub.delete_node filled host node in
    (e ≡ none)
    × (get_node s' host node ≡ err not_found)
    × (get_item s' host node (bytes "i") ≡ err not_found)
    × (get_subscription s' host node (bytes "i") ≡ err not_found)
unfolding get get_node get_room
delete_node_cascades_example = delete_node_cascades filled host node host node (bytes "i") news refl

authenticate_exact_example :
    ((authenticate store ann (bytes "pw") ≡ ok true)
      ↔ ((u : User) × (get_user store ann ≡ ok u) × (u.password ≡ bytes "pw")))
    × ((authenticate store ann (bytes "pw") ≡ ok true)
        ⊎ (authenticate store ann (bytes "pw") ≡ err auth_failed))
authenticate_exact_example = authenticate_exact store ann (bytes "pw")

delete_room_cascades_example :
    let (s', e) = Muc.delete_room filled room in
    (e ≡ none)
    × (get_room s' room ≡ err not_found)
    × (get_affiliation s' room ann ≡ err not_found)
    × (get_affiliations s' room ≡ [])
unfolding get get_room
delete_room_cascades_example = delete_room_cascades filled room room ann hall refl
