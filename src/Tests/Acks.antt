-- ===== src/Tests/Acks.antt =====
-- Stream management with concrete counters.
use xmpp_go.Prelude.{
  ℕ, ◌≡◌, refl, List, [], ◌∷◌, ◌-◌, ◌%◌, zero, suc, length, length-drop, drop, arith,
}
use xmpp_go.Prelude.Bytes.{Bytes, bytes}
use xmpp_go.Sm.{Plugin, u32, new, ack, enqueue, increment_outbound}
use xmpp_go.Sm.Acks.{Tracks, send, new-Tracks, send-Tracks, ack-Tracks, ack_wrapped_ignored}

abbrev one : Bytes
one = bytes "<message/>"

abbrev two : Bytes
two = bytes "<iq/>"

both-Tracks : Tracks (one ∷ two ∷ []) 0 (send two (send one new))
unfolding send enqueue increment_outbound
both-Tracks =
    send-Tracks two (one ∷ []) 0 (send one new) (send-Tracks one [] 0 new new-Tracks (omega arith))
      (omega arith)

ack-Tracks_example : Tracks (one ∷ two ∷ []) 1 (ack 1 (send two (send one new)))
ack-Tracks_example =
    ack-Tracks (one ∷ two ∷ []) 0 1 (send two (send one new)) both-Tracks (omega arith) refl

many : ℕ → List Bytes
many zero = []
many (suc n) = one ∷ many n

length-many : (n : ℕ) → length (many n) ≡ n
unfolding many
length-many zero = refl
length-many (suc n) = omega (arith, length-many n)

-- All but the last of 2^32 stanzas are acknowledged, and the counter is at 0 again.
wrapped : Plugin
wrapped = record { inbound = 0; outbound = 0; queue = drop (u32 - 1) (many u32); id = [] }

wrapped-Tracks : Tracks (many u32) (u32 - 1) wrapped
unfolding wrapped
wrapped-Tracks = record {
  known = omega (arith, length-many u32);
  counted = omega (arith, length-many u32);
  queued = refl;
  short = omega (arith, length-many u32, length-drop (u32 - 1) (many u32));
}

ack_wrapped_ignored_example : ack (u32 % u32) wrapped ≡ wrapped
ack_wrapped_ignored_example =
    ack_wrapped_ignored (many u32) (u32 - 1) u32 wrapped wrapped-Tracks
      (omega (arith, length-many u32)) (omega arith) (omega arith)
