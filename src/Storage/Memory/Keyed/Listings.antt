-- ===== src/Storage/Memory/Keyed/Listings.antt =====
-- What the listing calls return, entity by entity, in a store that holds its entities under their
-- own keys.
use xmpp_go.Prelude.{
  ◌≡◌, ◌↔◌, refl, sym, subst, Option, none, some, ok, or_fail, list_eq, arith, In,
}
use xmpp_go.Prelude.Bytes.{Bytes}
use xmpp_go.Prelude.Dict.{Dict, get, values}
use xmpp_go.Prelude.Nested.{inner, get_in}
use xmpp_go.Storage.Model.{
  not_found, Read, RosterItem, MucRoom, MucAffiliation, PubSubNode, Bookmark,
}
use xmpp_go.Storage.Memory.State.{Store}
use xmpp_go.Prelude.Dict.{In-values, values-In, In-of_get, get_of_In}
use xmpp_go.Prelude.Holds.{Holds, inner-Holds}
use xmpp_go.Storage.Memory.Keyed.{IsKeyed}
use xmpp_go.Storage.Memory.Roster.{get_roster_item, get_roster_items}
use xmpp_go.Storage.Memory.Muc.{get_room, list_rooms, get_affiliation, get_affiliations}
use xmpp_go.Storage.Memory.Muc.Cascade.{get_affiliation_lem}
use xmpp_go.Storage.Memory.PubSub.{get_node, list_nodes}
use xmpp_go.Storage.Memory.PubSub.Cascade.{get_node_lem}
use xmpp_go.Storage.Memory.Bookmarks.{get_bookmark, get_bookmarks}

-- A value is listed exactly if its own key finds it.
listed_iff :
    {V : Type 0} {P : Bytes → V → Type 0} (key : V → Bytes) (d : Dict Bytes V) (v : V)
    → ((k : Bytes) → P k v → key v ≡ k)
    → Holds P d
    → In v (values d) ↔ (get d (key v) ≡ some v)
listed_iff {V} key d v keyed h = (there, λ e. values-In d (key v) v (In-of_get d (key v) v e))
  where
    there : In v (values d) → get d (key v) ≡ some v
    there i =
        let (k, e) = In-values d v i in
        let found = get_of_In d k v h.distinct e in
        subst (λ j. get d j ≡ some v) (sym (keyed k (h.at k v found))) found

-- A read reports a missing value as an error and any other as it is.
or_fail_iff : {A : Type 0} (o : Option A) (a : A) → (or_fail not_found o ≡ ok a) ↔ (o ≡ some a)
or_fail_iff none a = ground arith
or_fail_iff (some b) a = ground arith

iff_trans : {A B C : Type 0} → A ↔ B → B ↔ C → A ↔ C
iff_trans f g = (λ a. g.0 (f.0 a), λ c. f.1 (g.1 c))

iff_sym : {A B : Type 0} → A ↔ B → B ↔ A
iff_sym f = (f.1, f.0)

-- The same through a read whose result is `or_fail` of the lookup.
read_iff :
    {V : Type 0} {P : Bytes → V → Type 0} (key : V → Bytes) (d : Dict Bytes V) (v : V) (r : Read V)
    → r ≡ or_fail not_found (get d (key v))
    → ((k : Bytes) → P k v → key v ≡ k)
    → Holds P d
    → In v (values d) ↔ (r ≡ ok v)
read_iff key d v r e keyed h =
    rw e (iff_trans (listed_iff key d v keyed h) (iff_sym (or_fail_iff (get d (key v)) v)))

get_roster_item_lem :
    (s : Store) (user contact : Bytes)
    → get_roster_item s user contact ≡ or_fail not_found (get_in s.roster_items user contact)
unfolding get_roster_item get_in inner get
get_roster_item_lem s user contact = ground arith

get_bookmark_lem :
    (s : Store) (user room : Bytes)
    → get_bookmark s user room ≡ or_fail not_found (get_in s.bookmarks user room)
unfolding get_bookmark get_in inner get
get_bookmark_lem s user room = ground arith

-- In a store that holds its entities under their own keys, each listing call returns exactly the
-- entities that the corresponding single read returns: the roster items and bookmarks of a user, the
-- affiliations of a room, the nodes of a host, and all rooms.
pub listings_exact :
    (s : Store) (owner : Bytes) (i : RosterItem) (b : Bookmark) (a : MucAffiliation)
    (n : PubSubNode) (r : MucRoom)
    → IsKeyed s
    → (In i (get_roster_items s owner) ↔ (get_roster_item s owner i.contact_jid ≡ ok i))
      × (In b (get_bookmarks s owner) ↔ (get_bookmark s owner b.room_jid ≡ ok b))
      × (In a (get_affiliations s owner) ↔ (get_affiliation s owner a.user_jid ≡ ok a))
      × (In n (list_nodes s owner) ↔ (get_node s owner n.node_id ≡ ok n))
      × (In r (list_rooms s) ↔ (get_room s r.room_jid ≡ ok r))
unfolding get_roster_items get_bookmarks get_affiliations list_nodes list_rooms get_room get_in
listings_exact s owner i b a n r h = (
  read_iff (λ x. x.contact_jid) _ i _ (get_roster_item_lem s owner i.contact_jid) (λ k p. p.1)
      (inner-Holds owner h.roster_items),
  read_iff (λ x. x.room_jid) _ b _ (get_bookmark_lem s owner b.room_jid) (λ k p. p.1)
      (inner-Holds owner h.bookmarks),
  read_iff (λ x. x.user_jid) _ a _ (get_affiliation_lem s owner a.user_jid) (λ k p. p.1)
      (inner-Holds owner h.muc_affiliations),
  read_iff (λ x. x.node_id) _ n _ (get_node_lem s owner n.node_id) (λ k p. p.1)
      (inner-Holds owner h.pubsub_nodes),
  read_iff (λ x. x.room_jid) _ r _ refl (λ k p. p) h.muc_rooms,
)
