-- ===== src/Sm.antt =====
-- plugins/sm/sm.go: XEP-0198 stream management, the counters and the queue of unacknowledged stanzas.
-- The counters are `uint32`. Calls are taken one after the other, as the mutex and the atomic
-- counters make each of them.
pub mod Acks
use xmpp_go.Prelude.{
  ℕ, ◌+◌, ◌-◌, ◌%◌, ◌^◌, List, [], ◌∷◌, ◌++◌, if◌then◌else◌, ◌&&◌, length, drop, ltb, leb,
}
use xmpp_go.Prelude.Bytes.{Bytes}

abbrev pub u32 : ℕ
u32 = 2 ^ 32

-- The state of `Plugin`, less the parameters that `Initialize` keeps.
pub record Plugin : Type 0 where
  pub inbound : ℕ
  pub outbound : ℕ
  pub queue : List Bytes
  pub id : Bytes

abbrev pub new : Plugin
new = record { inbound = 0; outbound = 0; queue = []; id = [] }

unfoldable pub increment_inbound : Plugin → Plugin
increment_inbound p = record p { inbound = (p.inbound + 1) % u32 }

unfoldable pub increment_outbound : Plugin → Plugin
increment_outbound p = record p { outbound = (p.outbound + 1) % u32 }

unfoldable pub enqueue : Bytes → Plugin → Plugin
enqueue stanza p = record p { queue = p.queue ++ stanza ∷ [] }

-- The number of the last stanza before the queue, `outbound - uint32(len(queue))` modulo 2^32.
unfoldable pub base : Plugin → ℕ
base p = (p.outbound + u32 - length p.queue % u32) % u32

-- The difference `diff` is an `int`: where it is not positive the code does nothing, so it is the
-- truncated one here.
unfoldable pub ack : ℕ → Plugin → Plugin
unfolding base
ack h p =
    let diff = h - base p in
    if ltb 0 diff && leb diff (length p.queue) then record p { queue = drop diff p.queue } else p

unfoldable pub set_id : Bytes → Plugin → Plugin
set_id id p = record p { id = id }
