-- ===== src/Storage/Memory/Keyed/Histories.antt =====
-- The invariant over every history of calls, and what it makes of the listings.
use xmpp_go.Prelude.{inl, inr, List, [], ◌∷◌, list_eq, Option-cases}
use xmpp_go.Prelude.Bytes.{Bytes}
use xmpp_go.Prelude.Dict.{get}
use xmpp_go.Storage.Memory.State.{Store}
use xmpp_go.Storage.Memory.State.{new, init}
use xmpp_go.Storage.Memory.Commands.{Command, step, run}
use xmpp_go.Storage.Memory.Keyed.{IsKeyed}
use xmpp_go.Storage.Memory.Keyed.Calls
use xmpp_go.Storage.Memory.Keyed.Services
use xmpp_go.Storage.Memory.Roster.{set_roster_version}
use xmpp_go.Storage.Memory.VCards.{set_vcard, delete_vcard}

vcard-IsKeyed : {s : Store} (user : Bytes) → IsKeyed s → IsKeyed (delete_vcard s user).0
unfolding delete_vcard
vcard-IsKeyed {s} user h = elim (Option-cases (get s.vcards user)) [
  | inl e ↦ rw (e, delete_vcard) h
  | inr (_, e) ↦ rw (e, delete_vcard) (assumption (h))
]

step-IsKeyed : {s : Store} (c : Command) → IsKeyed s → IsKeyed (step s c)
unfolding step set_roster_version set_vcard
step-IsKeyed {s} Command.initialize h = Calls.init-IsKeyed s
step-IsKeyed (Command.set_roster_version u v) h = (assumption (h))
step-IsKeyed (Command.set_vcard u c) h = (assumption (h))
step-IsKeyed (Command.delete_vcard u) h = vcard-IsKeyed u h
step-IsKeyed (Command.create_user a b) h = Calls.create_user-IsKeyed a b h
step-IsKeyed (Command.update_user a b) h = Calls.update_user-IsKeyed a b h
step-IsKeyed (Command.delete_user a) h = Calls.delete_user-IsKeyed a h
step-IsKeyed (Command.upsert_roster_item a) h = Calls.upsert_roster_item-IsKeyed a h
step-IsKeyed (Command.delete_roster_item a b) h = Calls.delete_roster_item-IsKeyed a b h
step-IsKeyed (Command.block_jid a b) h = Calls.block_jid-IsKeyed a b h
step-IsKeyed (Command.unblock_jid a b) h = Calls.unblock_jid-IsKeyed a b h
step-IsKeyed (Command.store_offline_message a b) h = Calls.store_offline_message-IsKeyed a b h
step-IsKeyed (Command.delete_offline_messages a) h = Calls.delete_offline_messages-IsKeyed a h
step-IsKeyed (Command.archive_message a b) h = Calls.archive_message-IsKeyed a b h
step-IsKeyed (Command.delete_message_archive a) h = Calls.delete_message_archive-IsKeyed a h
step-IsKeyed (Command.create_room a) h = Services.create_room-IsKeyed a h
step-IsKeyed (Command.update_room a) h = Services.update_room-IsKeyed a h
step-IsKeyed (Command.delete_room a) h = Services.delete_room-IsKeyed a h
step-IsKeyed (Command.set_affiliation a) h = Services.set_affiliation-IsKeyed a h
step-IsKeyed (Command.remove_affiliation a b) h = Services.remove_affiliation-IsKeyed a b h
step-IsKeyed (Command.create_node a) h = Services.create_node-IsKeyed a h
step-IsKeyed (Command.delete_node a b) h = Services.delete_node-IsKeyed a b h
step-IsKeyed (Command.upsert_item a b) h = Services.upsert_item-IsKeyed a b h
step-IsKeyed (Command.delete_item a b c) h = Services.delete_item-IsKeyed a b c h
step-IsKeyed (Command.subscribe a) h = Services.subscribe-IsKeyed a h
step-IsKeyed (Command.unsubscribe a b c) h = Services.unsubscribe-IsKeyed a b c h
step-IsKeyed (Command.set_bookmark a) h = Services.set_bookmark-IsKeyed a h
step-IsKeyed (Command.delete_bookmark a b) h = Services.delete_bookmark-IsKeyed a b h

new-IsKeyed : IsKeyed new
unfolding init
new-IsKeyed = Calls.init-IsKeyed new

run-IsKeyed : (s : Store) (cs : List Command) → IsKeyed s → IsKeyed (run s cs)
unfolding run
run-IsKeyed s [] h = h
run-IsKeyed s (c ∷ cs) h = run-IsKeyed (step s c) cs (step-IsKeyed c h)

-- Whatever calls are made of a new store, and whichever of them fail, every user, roster item, room,
-- affiliation, node, item, subscription and bookmark is stored under the keys that its own fields
-- name, and no two under the same keys; every block is stored with the value true and no address
-- twice for a user; every list of offline or archived messages is stored under the user that each of
-- its messages names, one list for a user.
pub run-new-IsKeyed : (cs : List Command) → IsKeyed (run new cs)
run-new-IsKeyed cs = run-IsKeyed new cs new-IsKeyed
