-- ===== src/Storage/Memory/Keyed.antt =====
-- The invariant of the in-memory backend: every entity is stored under the keys that its own fields
-- name, no two under the same keys; the lists of messages are stored under the user they name.
pub mod Calls
pub mod Histories
pub mod Listings
pub mod Services
use xmpp_go.Prelude.{◌≡◌, Bool, true, List, [], ◌∷◌, list_eq}
use xmpp_go.Prelude.Bytes.{Bytes}
use xmpp_go.Storage.Model.{
  User, RosterItem, OfflineMessage, ArchivedMessage, MucRoom, MucAffiliation, PubSubNode,
  PubSubItem, PubSubSubscription, Bookmark,
}
use xmpp_go.Storage.Memory.State.{Store}
use xmpp_go.Prelude.Holds.{Holds}

-- The user whose address each message of a list carries.
abbrev pub SentTo : Bytes → List OfflineMessage → Type 0
SentTo user [] = Unit
SentTo user (m ∷ l) = (m.user_jid ≡ user) × SentTo user l

abbrev pub ArchivedFor : Bytes → List ArchivedMessage → Type 0
ArchivedFor user [] = Unit
ArchivedFor user (m ∷ l) = (m.user_jid ≡ user) × ArchivedFor user l

pub record IsKeyed (s : Store) : Type 0 where
  pub users : Holds (λ name (u : User). u.username ≡ name) s.users
  pub roster_items :
      Holds
        (λ user m.
          Holds (λ contact (i : RosterItem). (i.user_jid ≡ user) × (i.contact_jid ≡ contact)) m)
        s.roster_items
  pub blocked : Holds (λ user m. Holds (λ (jid : Bytes) (b : Bool). b ≡ true) m) s.blocked
  pub offline_msgs : Holds SentTo s.offline_msgs
  pub mam_messages : Holds ArchivedFor s.mam_messages
  pub muc_rooms : Holds (λ room (r : MucRoom). r.room_jid ≡ room) s.muc_rooms
  pub muc_affiliations :
      Holds
        (λ room m. Holds (λ user (a : MucAffiliation). (a.room_jid ≡ room) × (a.user_jid ≡ user)) m)
        s.muc_affiliations
  pub pubsub_nodes :
      Holds
        (λ host m. Holds (λ node (n : PubSubNode). (n.host ≡ host) × (n.node_id ≡ node)) m)
        s.pubsub_nodes
  pub pubsub_items :
      Holds
        (λ host m.
          Holds
            (λ node l.
              Holds
                (λ item (i : PubSubItem). (i.host ≡ host) × (i.node_id ≡ node) × (i.item_id ≡ item))
                l)
            m)
        s.pubsub_items
  pub pubsub_subscriptions :
      Holds
        (λ host m.
          Holds
            (λ node l.
              Holds
                (λ jid (i : PubSubSubscription).
                  (i.host ≡ host) × (i.node_id ≡ node) × (i.jid ≡ jid))
                l)
            m)
        s.pubsub_subscriptions
  pub bookmarks :
      Holds
        (λ user m. Holds (λ room (b : Bookmark). (b.user_jid ≡ user) × (b.room_jid ≡ room)) m)
        s.bookmarks
