-- ===== src/Storage/Memory/Blocking/Lists.antt =====
-- What blocking and unblocking leave for `IsBlocked`.
use xmpp_go.Prelude.{◌≡◌, true, false, or_zero, list_eq, ◌==◌, if◌then◌else◌, ◌&&◌, arith}
use xmpp_go.Prelude.Bytes.{Bytes}
use xmpp_go.Prelude.Dict.{get}
use xmpp_go.Prelude.Nested.{inner, get_in, put_in, remove_in, get_in-put_in, get_in-remove_in}
use xmpp_go.Storage.Memory.State.{Store}
use xmpp_go.Storage.Memory.Blocking.{block_jid, unblock_jid, is_blocked}

pub is_blocked_lem :
    (s : Store) (user jid : Bytes)
    → is_blocked s user jid ≡ or_zero false (get_in s.blocked user jid)
unfolding is_blocked get_in inner get
is_blocked_lem s user jid = ground arith

-- Blocking an address makes exactly that address blocked for exactly that user, and unblocking it
-- takes that back, whatever the lists held before.
pub blocking_exact :
    (s : Store) (user jid user' jid' : Bytes)
    → (is_blocked (block_jid s user jid).0 user' jid'
        ≡ (if user == user' && jid == jid' then true else is_blocked s user' jid'))
      × (is_blocked (unblock_jid s user jid).0 user' jid'
          ≡ (if user == user' && jid == jid' then false else is_blocked s user' jid'))
unfolding block_jid unblock_jid
blocking_exact s user jid user' jid' = (
  ground (
    arith,
    is_blocked_lem s user' jid',
    is_blocked_lem (record s { blocked = put_in s.blocked user jid true }) user' jid',
    get_in-put_in s.blocked user user' jid jid' true,
  ),
  ground (
    arith,
    is_blocked_lem s user' jid',
    is_blocked_lem (record s { blocked = remove_in s.blocked user jid }) user' jid',
    get_in-remove_in s.blocked user user' jid jid',
  ),
)
