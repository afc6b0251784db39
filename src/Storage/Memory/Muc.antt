-- ===== src/Storage/Memory/Muc.antt =====
-- The MUCRoomStore methods of storage/memory/memory.go.
pub mod Cascade
use xmpp_go.Prelude.{none, some, List, err, or_fail, list_eq}
use xmpp_go.Prelude.Bytes.{Bytes}
use xmpp_go.Prelude.Dict.{get, put, remove, values}
use xmpp_go.Prelude.Nested.{inner, put_in, remove_in}
use xmpp_go.Storage.Model.{not_found, user_exists, Read, MucRoom, MucAffiliation}
use xmpp_go.Storage.Memory.State.{Store, Write, done, fails}

unfoldable pub create_room : Store → MucRoom → Write
create_room s room = elim (get s.muc_rooms room.room_jid) [
  | some _ ↦ fails s user_exists
  | none ↦ done (record s { muc_rooms = put s.muc_rooms room.room_jid room })
]

unfoldable pub get_room : Store → Bytes → Read MucRoom
get_room s room_jid = or_fail not_found (get s.muc_rooms room_jid)

unfoldable pub update_room : Store → MucRoom → Write
update_room s room = elim (get s.muc_rooms room.room_jid) [
  | none ↦ fails s not_found
  | some _ ↦ done (record s { muc_rooms = put s.muc_rooms room.room_jid room })
]

unfoldable pub delete_room : Store → Bytes → Write
delete_room s room_jid = elim (get s.muc_rooms room_jid) [
  | none ↦ fails s not_found
  | some _ ↦ done (record s {
    muc_rooms = remove s.muc_rooms room_jid;
    muc_affiliations = remove s.muc_affiliations room_jid;
  })
]

unfoldable pub list_rooms : Store → List MucRoom
list_rooms s = values s.muc_rooms

unfoldable pub set_affiliation : Store → MucAffiliation → Write
set_affiliation s aff =
    done (record s { muc_affiliations = put_in s.muc_affiliations aff.room_jid aff.user_jid aff })

unfoldable pub get_affiliation : Store → Bytes → Bytes → Read MucAffiliation
get_affiliation s room_jid user_jid = elim (get s.muc_affiliations room_jid) [
  | none ↦ err not_found
  | some affs ↦ or_fail not_found (get affs user_jid)
]

unfoldable pub get_affiliations : Store → Bytes → List MucAffiliation
get_affiliations s room_jid = values (inner s.muc_affiliations room_jid)

unfoldable pub remove_affiliation : Store → Bytes → Bytes → Write
remove_affiliation s room_jid user_jid =
    done (record s { muc_affiliations = remove_in s.muc_affiliations room_jid user_jid })
