-- ===== src/Omemo/Ratchet/Delivery.antt =====
-- Messages between two sides in step that arrive out of order.
use xmpp_go.Prelude.{
  ℕ, ◌+◌, ◌-◌, ◌%◌, ◌≤◌, ◌<◌, ◌≡◌, sym, ap, subst, ◌∙◌, none, some, List, ◌∷◌, ◌++◌, Result, ok,
  length, nat_eq, list_eq, pair_eq, arith, length-append,
}
use xmpp_go.Prelude.Bytes.{Bytes}
use xmpp_go.Prelude.Dict.{get}
use xmpp_go.Omemo.Primitives.{OmemoError, Primitives, Documented, message_key, next_chain_key}
use xmpp_go.Omemo.Ratchet.{
  RatchetState, RatchetHeader, max_skipped_keys, u32, slice, copy_32, ratchet_encrypt,
  ratchet_decrypt,
}
use xmpp_go.Omemo.Ratchet.Skip.{chain_at, IsSkipped}
use xmpp_go.Omemo.Ratchet.Steps.{
  sealed, send_many, send_many_lem, decrypt_kept, decrypt_ahead, encrypt_lem,
}

-- The two sides of one direction: the sender `a` and the receiver `b` are at the same key and
-- number of one chain, and `b` has kept no key of a later number.
pub record InStep (c : Primitives) (ck : Bytes) (a b : RatchetState) : Type 0 where
  pub sending : a.cks ≡ some ck
  pub receiving : b.ckr ≡ some ck
  pub key : b.dhr ≡ some (c.public a.dhs)
  pub number : a.ns ≡ b.nr
  pub none_kept : (n : ℕ) → b.nr ≤ n → get b.mk_skipped (copy_32 (c.public a.dhs), n) ≡ none

-- The key of a message passed over is found under its header.
late_kept :
    (c : Primitives) (ck : Bytes) (rounds i : ℕ) (s t : RatchetState) (h : RatchetHeader)
    (pub_key : Bytes)
    → IsSkipped c ck rounds s t
    → s.dhr ≡ some pub_key
    → h.dh_pub ≡ pub_key
    → h.n ≡ s.nr + i
    → i < rounds
    → get t.mk_skipped (copy_32 h.dh_pub, h.n) ≡ some (message_key c (chain_at c i ck))
late_kept c ck rounds i s t h pub_key skipped key same number lt =
    let first = skipped.kept i lt in
    let named =
      subst
        (λ d.
          get t.mk_skipped (copy_32 (slice d), s.nr + i) ≡ some (message_key c (chain_at c i ck)))
        key first in
    subst (λ d. get t.mk_skipped (copy_32 d, h.n) ≡ some (message_key c (chain_at c i ck)))
      (sym same)
      (subst (λ n. get t.mk_skipped (copy_32 pub_key, n) ≡ some (message_key c (chain_at c i ck)))
        (sym number) named)

module _ (c : Primitives) (doc : Documented c) where
  -- What a side has sent as its message behind `l`.
  sent_lem :
      (l : List (Bytes × Bytes)) (ck nonce plaintext ct : Bytes) (h : RatchetHeader)
      (s : RatchetState)
      → s.cks ≡ some ck
      → s.ns + length l < u32
      → (ratchet_encrypt c nonce plaintext (send_many c l s)).1 ≡ ok (h, ct)
      → (h.n ≡ s.ns + length l)
        × (h.dh_pub ≡ c.public s.dhs)
        × (ct ≡ sealed c (chain_at c (length l) ck) nonce plaintext)
  sent_lem l ck nonce plaintext ct h s e b p =
      let (cks, ns, dhs, pn) = send_many_lem c doc l ck s e b in
      let k = chain_at c (length l) ck in
      let q =
        sym p
        ∙ ap (λ (r : RatchetState × Result OmemoError (RatchetHeader × Bytes)). r.1)
            (encrypt_lem c doc k nonce plaintext (send_many c l s) cks) in
      (ground arith, ground arith, ground arith)

  -- The receiver may get a message before an earlier one: both are decrypted. The sender has sent
  -- `earlier`, then the first plaintext, then `between`, then the second; the receiver, in step with
  -- it at the start, gets the second message and then the first. Both nonces have 12 bytes, the
  -- messages passed over and the keys kept already are at most 1000 together, and the receiver's
  -- number is more than 1000 below 2^32.
  pub out_of_order :
      (ck : Bytes) (a b : RatchetState) (earlier between : List (Bytes × Bytes))
      (nonce1 plaintext1 ct1 nonce2 plaintext2 ct2 fresh1 fresh2 : Bytes) (h1 h2 : RatchetHeader)
      → InStep c ck a b
      → length nonce1 ≡ 12
      → length nonce2 ≡ 12
      → b.nr + max_skipped_keys < u32
      → length b.mk_skipped + (length earlier + 1 + length between) ≤ max_skipped_keys
      → (ratchet_encrypt c nonce1 plaintext1 (send_many c earlier a)).1 ≡ ok (h1, ct1)
      → (ratchet_encrypt c nonce2 plaintext2
          (send_many c (earlier ++ ((nonce1, plaintext1) ∷ between)) a)).1
        ≡ ok (h2, ct2)
      → let (b', got2) = ratchet_decrypt c fresh2 h2 ct2 b in
        (got2 ≡ ok plaintext2) × ((ratchet_decrypt c fresh1 h1 ct1 b').1 ≡ ok plaintext1)
  out_of_order ck a b earlier between n1 p1 ct1 n2 p2 ct2 f1 f2 h1 h2 st l1 l2 room fits e1 e2 =
      let all = earlier ++ ((n1, p1) ∷ between) in
      let size = length-append earlier ((n1, p1) ∷ between) in
      let k1 = chain_at c (length earlier) ck in
      let k2 = chain_at c (length all) ck in
      let (num1, pub1, text1) =
        sent_lem earlier ck n1 p1 ct1 h1 a st.sending (omega (arith, st.number)) e1 in
      let (num2, pub2, text2) =
        sent_lem all ck n2 p2 ct2 h2 a st.sending (omega (arith, st.number, size)) e2 in
      let gap : h2.n - b.nr ≡ length all = omega (arith, st.number, num2) in
      let key2 : b.dhr ≡ some h2.dh_pub = st.key ∙ ap some (sym pub2) in
      let (t, got, skipped) =
        decrypt_ahead c doc ck n2 p2 f2 h2 b l2 st.receiving key2 room
          (omega (arith, st.number, num2)) (omega (arith, gap, size))
          (rw pub2 (st.none_kept h2.n (omega (arith, st.number, num2)))) in
      let moved = record t {
        ckr = some (next_chain_key c (chain_at c (h2.n - b.nr) ck));
        nr = (t.nr + 1) % u32;
      } in
      let whole : ratchet_decrypt c f2 h2 ct2 b ≡ (moved, ok p2) =
        ap (λ x. ratchet_decrypt c f2 h2 x b)
          (text2 ∙ ap (λ n. sealed c (chain_at c n ck) n2 p2) (sym gap))
        ∙ got in
      let there : h1.n ≡ b.nr + length earlier = omega (arith, st.number, num1) in
      let kept =
        late_kept c ck (h2.n - b.nr) (length earlier) b t h1 (c.public a.dhs) skipped st.key pub1
          there (omega (arith, gap, size)) in
      (
        ap (λ (r : RatchetState × Result OmemoError Bytes). r.1) whole,
        ap (λ (r : RatchetState × Result OmemoError Bytes). (ratchet_decrypt c f1 h1 ct1 r.0).1)
              whole
            ∙ ap (λ (r : RatchetState × Result OmemoError Bytes). r.1)
                (ap (λ x. ratchet_decrypt c f1 h1 x moved) text1
                  ∙ decrypt_kept c doc k1 n1 p1 f1 h1 moved l1 kept),
      )
