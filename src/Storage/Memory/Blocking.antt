-- ===== src/Storage/Memory/Blocking.antt =====
-- The BlockingStore methods of storage/memory/memory.go.
pub mod Lists
use xmpp_go.Prelude.{Bool, true, false, none, some, List, or_zero, list_eq}
use xmpp_go.Prelude.Bytes.{Bytes}
use xmpp_go.Prelude.Dict.{get, keys}
use xmpp_go.Prelude.Nested.{inner, put_in, remove_in}
use xmpp_go.Storage.Memory.State.{Store, Write, done}

unfoldable pub block_jid : Store → Bytes → Bytes → Write
block_jid s user_jid blocked_jid =
    done (record s { blocked = put_in s.blocked user_jid blocked_jid true })

unfoldable pub unblock_jid : Store → Bytes → Bytes → Write
unblock_jid s user_jid blocked_jid =
    done (record s { blocked = remove_in s.blocked user_jid blocked_jid })

-- A key that a `map[string]bool` lacks reads as false.
unfoldable pub is_blocked : Store → Bytes → Bytes → Bool
is_blocked s user_jid blocked_jid = elim (get s.blocked user_jid) [
  | none ↦ false
  | some m ↦ or_zero false (get m blocked_jid)
]

unfoldable pub get_blocked_jids : Store → Bytes → List Bytes
get_blocked_jids s user_jid = keys (inner s.blocked user_jid)
