-- ===== src/Omemo/Ratchet/Steps.antt =====
-- One call of the ratchet at a time, where nothing fails: sending, and receiving in order, ahead of
-- order or late.
use xmpp_go.Prelude.{
  ◌+◌, ◌-◌, ◌%◌, ◌≤◌, ◌<◌, ◌≡◌, refl, ◌∙◌, none, some, List, [], ◌∷◌, ◌++◌, ok, length, nat_eq,
  list_eq, pair_eq, eq_refl, arith, length-append,
}
use xmpp_go.Prelude.Bytes.{Bytes}
use xmpp_go.Prelude.Dict.{get, remove}
use xmpp_go.Omemo.Primitives.{
  Primitives, Documented, message_key, next_chain_key, aes_gcm_encrypt, decrypt_with_nonce,
}
use xmpp_go.Omemo.Ratchet.{
  RatchetState, RatchetHeader, max_skipped_keys, u32, copy_32, ratchet_encrypt, skip_message_keys,
  turn, take_message, receive, ratchet_decrypt,
}
use xmpp_go.Prelude.{take-append, drop-append}
use xmpp_go.Omemo.Ratchet.Skip.{chain_at, IsSkipped, skip_message_keys-IsSkipped}

-- The ciphertext of a plaintext under the message key of a chain key.
abbrev pub sealed : Primitives → Bytes → Bytes → Bytes → Bytes
sealed c ck nonce plaintext = nonce ++ c.seal (message_key c ck) nonce plaintext

module _ (c : Primitives) where
  pub untried :
      (fresh ciphertext : Bytes) (header : RatchetHeader) (s : RatchetState)
      → get s.mk_skipped (copy_32 header.dh_pub, header.n) ≡ none
      → ratchet_decrypt c fresh header ciphertext s ≡ receive c fresh header ciphertext s
  unfolding ratchet_decrypt
  untried fresh ciphertext header s e = ground arith

  pub same_key :
      (fresh ciphertext : Bytes) (header : RatchetHeader) (s t : RatchetState)
      → s.dhr ≡ some header.dh_pub
      → skip_message_keys c header.n s ≡ (t, none)
      → receive c fresh header ciphertext s ≡ take_message c ciphertext t
  unfolding receive turn
  same_key fresh ciphertext header s t d p = ground (arith, eq_refl header.dh_pub)

module _ (c : Primitives) (doc : Documented c) where
  pub message_key_size : (ck : Bytes) → length (message_key c ck) ≡ 32
  unfolding message_key
  message_key_size ck = doc.hmac_size ck (1 ∷ [])

  pub decrypt-sealed :
      (ck nonce plaintext : Bytes)
      → length nonce ≡ 12
      → decrypt_with_nonce c (message_key c ck) (sealed c ck nonce plaintext) ≡ ok plaintext
  unfolding decrypt_with_nonce
  decrypt-sealed ck nonce plaintext h =
      let box = c.seal (message_key c ck) nonce plaintext in
      rw (take-append 12 nonce box h, drop-append 12 nonce box h)
        (ground (
          arith,
          length-append nonce box,
          message_key_size ck,
          doc.unseal_seal (message_key c ck) nonce plaintext (message_key_size ck) h,
        ))

  pub encrypt_lem :
      (ck nonce plaintext : Bytes) (s : RatchetState)
      → s.cks ≡ some ck
      → ratchet_encrypt c nonce plaintext s ≡ (
        record s { cks = some (next_chain_key c ck); ns = (s.ns + 1) % u32 },
        ok (record { dh_pub = c.public s.dhs; n = s.ns; pn = s.pn }, sealed c ck nonce plaintext),
      )
  unfolding ratchet_encrypt aes_gcm_encrypt
  encrypt_lem ck nonce plaintext s e = rw e (ground (arith, message_key_size ck))

  -- A key that is kept decrypts its message, whatever has happened to the chain since.
  pub decrypt_kept :
      (ck nonce plaintext fresh : Bytes) (header : RatchetHeader) (s : RatchetState)
      → length nonce ≡ 12
      → get s.mk_skipped (copy_32 header.dh_pub, header.n) ≡ some (message_key c ck)
      → ratchet_decrypt c fresh header (sealed c ck nonce plaintext) s ≡ (
        record s { mk_skipped = remove s.mk_skipped (copy_32 header.dh_pub, header.n) },
        ok plaintext,
      )
  unfolding ratchet_decrypt
  decrypt_kept ck nonce plaintext fresh header s h e =
      ground (arith, decrypt-sealed ck nonce plaintext h)

  pub take_sealed :
      (ck nonce plaintext : Bytes) (t : RatchetState)
      → length nonce ≡ 12
      → t.ckr ≡ some ck
      → take_message c (sealed c ck nonce plaintext) t
        ≡ (record t { ckr = some (next_chain_key c ck); nr = (t.nr + 1) % u32 }, ok plaintext)
  unfolding take_message
  take_sealed ck nonce plaintext t h e = ground (arith, decrypt-sealed ck nonce plaintext h)

  -- The next message of the chain that is being received, or one some messages ahead of it: it is
  -- decrypted, and the keys of those passed over are kept.
  pub decrypt_ahead :
      (ck nonce plaintext fresh : Bytes) (header : RatchetHeader) (s : RatchetState)
      → length nonce ≡ 12
      → s.ckr ≡ some ck
      → s.dhr ≡ some header.dh_pub
      → s.nr + max_skipped_keys < u32
      → s.nr ≤ header.n
      → length s.mk_skipped + (header.n - s.nr) ≤ max_skipped_keys
      → get s.mk_skipped (copy_32 header.dh_pub, header.n) ≡ none
      → (t : RatchetState) × (ratchet_decrypt c fresh header
            (sealed c (chain_at c (header.n - s.nr) ck) nonce plaintext)
            s
          ≡ (
            record t {
              ckr = some (next_chain_key c (chain_at c (header.n - s.nr) ck));
              nr = (t.nr + 1) % u32;
            },
            ok plaintext,
          ))
        × IsSkipped c ck (header.n - s.nr) s t
  decrypt_ahead ck nonce plaintext fresh header s h e d b le fits new =
      let (t, p, k) = skip_message_keys-IsSkipped c ck header.n s e b le fits in
      let text = sealed c (chain_at c (header.n - s.nr) ck) nonce plaintext in
      (
        t,
        untried c fresh text header s new
            ∙ same_key c fresh text header s t d p
            ∙ take_sealed (chain_at c (header.n - s.nr) ck) nonce plaintext t h k.ckr,
        k,
      )

-- The state after a side has sent some messages, each a nonce and a plaintext.
unfoldable pub send_many : Primitives → List (Bytes × Bytes) → RatchetState → RatchetState
send_many c [] s = s
send_many c ((nonce, plaintext) ∷ l) s = send_many c l (ratchet_encrypt c nonce plaintext s).0

module _ (c : Primitives) (doc : Documented c) where
  -- Each message sent moves the sending chain on by one key and one number.
  pub send_many_lem :
      (l : List (Bytes × Bytes)) (ck : Bytes) (s : RatchetState)
      → s.cks ≡ some ck
      → s.ns + length l < u32
      → let t = send_many c l s in
        (t.cks ≡ some (chain_at c (length l) ck))
        × (t.ns ≡ s.ns + length l)
        × (t.dhs ≡ s.dhs)
        × (t.pn ≡ s.pn)
  unfolding send_many chain_at
  send_many_lem [] ck s e b = (e, omega arith, refl, refl)
  send_many_lem ((nonce, plaintext) ∷ l) ck s e b =
      let t = record s { cks = some (next_chain_key c ck); ns = (s.ns + 1) % u32 } in
      let (cks, ns, dhs, pn) = send_many_lem l (next_chain_key c ck) t refl (omega arith) in
      rw (encrypt_lem c doc ck nonce plaintext s e, send_many) (cks, omega (arith, ns), dhs, pn)
