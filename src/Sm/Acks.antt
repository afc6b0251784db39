-- ===== src/Sm/Acks.antt =====
-- The queue against the stanzas that were sent: it holds what is not acknowledged.
use xmpp_go.Prelude.{
  ℕ, zero, suc, ◌+◌, ◌-◌, ◌/◌, ◌%◌, max, ◌≤◌, ◌<◌, ◌≡◌, refl, sym, ap, ◌∙◌, true, false, List, [],
  ◌∷◌, ◌++◌, length, length-append, length-drop, drop, drop-drop, ltb, leb, arith, Bool-cases,
  leb→le, le→leb, inl, inr,
}
use xmpp_go.Prelude.Bytes.{Bytes}
use xmpp_go.Sm.{Plugin, u32, new, enqueue, increment_outbound, base, ack}

-- A stanza is sent by queueing it and counting it.
unfoldable pub send : Bytes → Plugin → Plugin
send stanza p = increment_outbound (enqueue stanza p)

-- All stanzas sent so far, and how many of them are acknowledged: the queue holds the others.
pub record Tracks (sent : List Bytes) (acked : ℕ) (p : Plugin) : Type 0 where
  pub known : acked ≤ length sent
  pub counted : p.outbound ≡ length sent % u32
  pub queued : p.queue ≡ drop acked sent
  pub short : length p.queue < u32

drop-append_le {ℓ} :
    {A : Type ℓ} (n : ℕ) (xs ys : List A) → n ≤ length xs → drop n (xs ++ ys) ≡ drop n xs ++ ys
drop-append_le zero xs ys h = refl
drop-append_le (suc n) [] ys h = absurd (omega arith)
drop-append_le (suc n) (x ∷ xs) ys h = drop-append_le n xs ys (omega arith)

leb-false : (a b : ℕ) → leb a b ≡ false → b < a
leb-false a b h = ground arith

lt→ltb : (a b : ℕ) → a < b → ltb a b ≡ true
lt→ltb a b h = ground arith

pub new-Tracks : Tracks [] 0 new
new-Tracks = record {
  known = omega arith;
  counted = omega arith;
  queued = refl;
  short = omega arith;
}

-- Sending a stanza adds it to the history, unacknowledged.
pub send-Tracks :
    (stanza : Bytes) (sent : List Bytes) (acked : ℕ) (p : Plugin)
    → Tracks sent acked p
    → length p.queue + 1 < u32
    → Tracks (sent ++ stanza ∷ []) acked (send stanza p)
unfolding send enqueue increment_outbound
send-Tracks stanza sent acked p t room = record {
  known = omega (arith, t.known, length-append sent (stanza ∷ []));
  counted = omega (arith, t.counted, length-append sent (stanza ∷ []));
  queued =
      ap (λ q. q ++ stanza ∷ []) t.queued ∙ sym (drop-append_le acked sent (stanza ∷ []) t.known);
  short = omega (arith, length-append p.queue (stanza ∷ []));
}

base-Tracks :
    (sent : List Bytes) (acked : ℕ) (p : Plugin) → Tracks sent acked p → base p ≡ acked % u32
unfolding base
base-Tracks sent acked p t =
    omega (arith, t.known, t.counted, t.short, ap length t.queued, length-drop acked sent)

-- An acknowledgement of the first `h` stanzas sent drops exactly those from the queue, and a repeated
-- or old one changes nothing, as long as the counter has not wrapped since the last acknowledged
-- stanza.
pub ack-Tracks :
    (sent : List Bytes) (acked h : ℕ) (p : Plugin)
    → Tracks sent acked p
    → h ≤ length sent
    → acked / u32 ≡ h / u32
    → Tracks sent (max acked h) (ack (h % u32) p)
unfolding ack
ack-Tracks sent acked h p t le same =
    let b = base-Tracks sent acked p t in
    let known = t.known in
    let size : length p.queue ≡ length sent - acked = ap length t.queued ∙ length-drop acked sent in
    elim (Bool-cases (leb h acked)) [
      | inl old ↦
          let none_new : h % u32 - base p ≡ 0 = omega (arith, leb→le h acked old) in
          let stays : max acked h ≡ acked = omega (arith, leb→le h acked old) in
          rw (none_new, stays) t
      | inr newer ↦
          let later : acked < h = leb-false h acked newer in
          let gained : h % u32 - base p ≡ h - acked = omega arith in
          let inside : leb (h - acked) (length p.queue) ≡ true = le→leb _ _ (omega arith) in
          let some_new : ltb 0 (h - acked) ≡ true = lt→ltb _ _ (omega arith) in
          let moves : max acked h ≡ h = omega arith in
          let whole : acked + (h - acked) ≡ h = omega arith in
          rw (gained, some_new, inside, moves)
            (record {
              known = le;
              counted = t.counted;
              queued =
                  ap (drop (h - acked)) t.queued
                  ∙ drop-drop acked (h - acked) sent
                  ∙ ap (λ k. drop k sent) whole;
              short = omega (arith, length-drop (h - acked) p.queue, t.short);
            })
    ]

-- Once the counter has wrapped behind the last acknowledged stanza, an acknowledgement of newer
-- stanzas is ignored: the queue keeps every stanza that the peer has confirmed.
pub ack_wrapped_ignored :
    (sent : List Bytes) (acked h : ℕ) (p : Plugin)
    → Tracks sent acked p
    → h ≤ length sent
    → acked < u32
    → u32 ≤ h
    → ack (h % u32) p ≡ p
unfolding ack
ack_wrapped_ignored sent acked h p t le before after =
    let size : length p.queue ≡ length sent - acked = ap length t.queued ∙ length-drop acked sent in
    let short = t.short in
    let gained : h % u32 - base p ≡ 0 = omega (arith, base-Tracks sent acked p t) in rw gained refl
