-- ===== src/Storage/Memory/Offline.antt =====
-- The OfflineStore methods of storage/memory/memory.go. The time of the call is an argument.
use xmpp_go.Prelude.{ℕ, List, [], ◌∷◌, ◌++◌, or_zero, list_eq, if◌then◌else◌, length, eqb}
use xmpp_go.Prelude.Bytes.{Bytes}
use xmpp_go.Prelude.Dict.{get, put, remove}
use xmpp_go.Storage.Model.{OfflineMessage}
use xmpp_go.Storage.Memory.State.{Store, Write, done}

-- A message without a time gets the time of the call.
abbrev pub stamp_offline : OfflineMessage → ℕ → OfflineMessage
stamp_offline msg now = if eqb msg.created_at 0 then record msg { created_at = now } else msg

unfoldable pub store_offline_message : Store → OfflineMessage → ℕ → Write
store_offline_message s msg now = done (record s {
  offline_msgs =
      put s.offline_msgs msg.user_jid
        (or_zero [] (get s.offline_msgs msg.user_jid) ++ stamp_offline msg now ∷ []);
})

unfoldable pub get_offline_messages : Store → Bytes → List OfflineMessage
get_offline_messages s user_jid = or_zero [] (get s.offline_msgs user_jid)

unfoldable pub delete_offline_messages : Store → Bytes → Write
delete_offline_messages s user_jid =
    done (record s { offline_msgs = remove s.offline_msgs user_jid })

unfoldable pub count_offline_messages : Store → Bytes → ℕ
unfolding get_offline_messages
count_offline_messages s user_jid = length (get_offline_messages s user_jid)
