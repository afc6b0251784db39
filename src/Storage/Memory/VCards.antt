-- ===== src/Storage/Memory/VCards.antt =====
-- The VCardStore methods of storage/memory/memory.go.
use xmpp_go.Prelude.{none, some, or_fail, list_eq}
use xmpp_go.Prelude.Bytes.{Bytes}
use xmpp_go.Prelude.Dict.{get, put, remove}
use xmpp_go.Storage.Model.{not_found, Read}
use xmpp_go.Storage.Memory.State.{Store, Write, done, fails}

unfoldable pub set_vcard : Store → Bytes → Bytes → Write
set_vcard s user_jid card = done (record s { vcards = put s.vcards user_jid card })

unfoldable pub get_vcard : Store → Bytes → Read Bytes
get_vcard s user_jid = or_fail not_found (get s.vcards user_jid)

unfoldable pub delete_vcard : Store → Bytes → Write
delete_vcard s user_jid = elim (get s.vcards user_jid) [
  | none ↦ fails s not_found
  | some _ ↦ done (record s { vcards = remove s.vcards user_jid })
]
