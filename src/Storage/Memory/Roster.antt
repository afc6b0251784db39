-- ===== src/Storage/Memory/Roster.antt =====
-- The RosterStore methods of storage/memory/memory.go.
use xmpp_go.Prelude.{none, some, List, [], err, or_fail, or_zero, list_eq}
use xmpp_go.Prelude.Bytes.{Bytes}
use xmpp_go.Prelude.Dict.{get, put, remove, values}
use xmpp_go.Prelude.Nested.{inner, put_in}
use xmpp_go.Storage.Model.{not_found, Read, RosterItem}
use xmpp_go.Storage.Memory.State.{Store, Write, done, fails}

unfoldable pub upsert_roster_item : Store → RosterItem → Write
upsert_roster_item s item =
    done (record s { roster_items = put_in s.roster_items item.user_jid item.contact_jid item })

unfoldable pub get_roster_item : Store → Bytes → Bytes → Read RosterItem
get_roster_item s user_jid contact_jid = elim (get s.roster_items user_jid) [
  | none ↦ err not_found
  | some items ↦ or_fail not_found (get items contact_jid)
]

unfoldable pub get_roster_items : Store → Bytes → List RosterItem
get_roster_items s user_jid = values (inner s.roster_items user_jid)

unfoldable pub delete_roster_item : Store → Bytes → Bytes → Write
delete_roster_item s user_jid contact_jid = elim (get s.roster_items user_jid) [
  | none ↦ fails s not_found
  | some items ↦ elim (get items contact_jid) [
    | none ↦ fails s not_found
    | some _ ↦
        done (record s { roster_items = put s.roster_items user_jid (remove items contact_jid) })
  ]
]

-- A missing version reads as the empty string.
unfoldable pub get_roster_version : Store → Bytes → Bytes
get_roster_version s user_jid = or_zero [] (get s.roster_versions user_jid)

unfoldable pub set_roster_version : Store → Bytes → Bytes → Write
set_roster_version s user_jid version =
    done (record s { roster_versions = put s.roster_versions user_jid version })
