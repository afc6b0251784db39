-- ===== src/Omemo/Ratchet/Faults.antt =====
-- What the ratchet accepts or loses that the Double Ratchet algorithm would not, and the bound on the
-- keys that it keeps.
use xmpp_go.Prelude.{
  ℕ, zero, suc, ◌+◌, ◌-◌, ◌%◌, ◌≤◌, ◌<◌, ◌≡◌, refl, ap, ◌∙◌, inl, inr, Option, none, some, List, [],
  ◌∷◌, Result, ok, length, ltb, nat_eq, list_eq, pair_eq, arith, Bool-cases, Option-cases,
}
use xmpp_go.Prelude.Bytes.{Bytes}
use xmpp_go.Prelude.Dict.{get, get-empty}
use xmpp_go.Omemo.Primitives.{
  OmemoError, Primitives, Documented, message_key, next_chain_key, aes_gcm_encrypt,
  decrypt_with_nonce,
}
use xmpp_go.Omemo.Ratchet.{
  RatchetState, RatchetHeader, max_skipped_keys, u32, slice, copy_32, init_ratchet_as_bob,
  init_ratchet_as_alice, ratchet_encrypt, skip_one, skip_loop, skip_message_keys, take_message,
  ratchet_decrypt,
}
use xmpp_go.Prelude.{max}
use xmpp_go.Omemo.Ratchet.Skip.{length-put}
use xmpp_go.Omemo.Ratchet.Steps.{
  sealed, decrypt-sealed, message_key_size, untried, same_key, send_many,
}

-- How many keys a step may leave: at most 1000 or as many as before where it succeeds, and one more
-- where it is stopped.
abbrev pub IsBounded : RatchetState → RatchetState × Option OmemoError → Type 0
IsBounded s (t, none) = length t.mk_skipped ≤ max (length s.mk_skipped) 1000
IsBounded s (t, some e) = length t.mk_skipped ≤ max (length s.mk_skipped) 1000 + 1

IsBounded-mono :
    (s s' : RatchetState) (r : RatchetState × Option OmemoError)
    → length s'.mk_skipped ≤ 1000
    → IsBounded s' r
    → IsBounded s r
IsBounded-mono s s' (t, none) h b = omega arith
IsBounded-mono s s' (t, some e) h b = omega arith

module _ (c : Primitives) where
  skip_loop-IsBounded : (rounds : ℕ) (s : RatchetState) → IsBounded s (skip_loop c rounds s)
  unfolding skip_loop
  skip_loop-IsBounded zero s = omega arith
  skip_loop-IsBounded (suc rounds) s =
      let size =
        length-put s.mk_skipped (copy_32 (slice s.dhr), s.nr) (message_key c (slice s.ckr)) in
      elim (Bool-cases (ltb max_skipped_keys (length (skip_one c s).mk_skipped))) [
        | inl stop ↦ rw (stop, skip_loop) (omega arith)
        | inr go ↦
            rw (go, skip_loop)
              (IsBounded-mono s (skip_one c s) (skip_loop c rounds (skip_one c s)) (ground arith)
                (skip_loop-IsBounded rounds (skip_one c s)))
      ]

  -- However far a header asks to skip, the state keeps at most 1000 keys, or as many as before if
  -- those were more; a refused request leaves at most one key more than that.
  pub skip_message_keys-IsBounded :
      (until : ℕ) (s : RatchetState) → IsBounded s (skip_message_keys c until s)
  unfolding skip_message_keys
  skip_message_keys-IsBounded until s = elim (Option-cases s.ckr) [
    | inl e ↦ rw (e, skip_message_keys) (omega arith)
    | inr (ck, e) ↦ elim (Bool-cases (ltb ((s.nr + max_skipped_keys) % u32) until)) [
      | inl far ↦ simp (e, far, skip_message_keys) (omega arith)
      | inr near ↦ simp (e, near, skip_message_keys) (skip_loop-IsBounded (until - s.nr) s)
    ]
  ]

  no_skip :
      (ck : Bytes) (until : ℕ) (s : RatchetState)
      → s.ckr ≡ some ck
      → until ≤ s.nr
      → s.nr + max_skipped_keys < u32
      → skip_message_keys c until s ≡ (s, none)
  unfolding skip_message_keys skip_loop
  no_skip ck until s e old room =
      let none_left : until - s.nr ≡ 0 = omega arith in
      ground (arith, ap (λ n. skip_loop c n s) none_left)

  stale_message :
      (ck fresh ct : Bytes) (h : RatchetHeader) (s : RatchetState)
      → s.ckr ≡ some ck
      → s.dhr ≡ some h.dh_pub
      → h.n ≤ s.nr
      → s.nr + max_skipped_keys < u32
      → get s.mk_skipped (copy_32 h.dh_pub, h.n) ≡ none
      → ratchet_decrypt c fresh h ct s ≡ (
        record s { ckr = some (next_chain_key c ck); nr = s.nr + 1 },
        decrypt_with_nonce c (message_key c ck) ct,
      )
  unfolding take_message
  stale_message ck fresh ct h s e d old room kept =
      untried c fresh ct h s kept
      ∙ same_key c fresh ct h s s d (no_skip ck h.n s e old room)
      ∙ ground arith

  -- A message of the current chain whose number is not ahead and whose key is not kept, a replay or
  -- a forgery, moves the chain on whether or not it decrypts, so that the key of the message really
  -- due is lost: that message is then tried under the key of its successor. The number of the message
  -- due is below 2^32 - 1001, and its key is not kept either.
  pub stale_message_loses_next :
      (ck fresh ct fresh' ct' : Bytes) (h due : RatchetHeader) (s : RatchetState)
      → s.ckr ≡ some ck
      → s.dhr ≡ some h.dh_pub
      → due.dh_pub ≡ h.dh_pub
      → h.n ≤ s.nr
      → due.n ≡ s.nr
      → s.nr + 1 + max_skipped_keys < u32
      → get s.mk_skipped (copy_32 h.dh_pub, h.n) ≡ none
      → get s.mk_skipped (copy_32 h.dh_pub, s.nr) ≡ none
      → let s' = (ratchet_decrypt c fresh h ct s).0 in
        (s' ≡ record s { ckr = some (next_chain_key c ck); nr = s.nr + 1 })
        × ((ratchet_decrypt c fresh' due ct' s').1
            ≡ decrypt_with_nonce c (message_key c (next_chain_key c ck)) ct')
  stale_message_loses_next ck fresh ct fresh' ct' h due s e d key old number room kept kept' =
      let moved = record s { ckr = some (next_chain_key c ck); nr = s.nr + 1 } in
      let first = stale_message ck fresh ct h s e d old (omega arith) kept in
      let still : get s.mk_skipped (copy_32 due.dh_pub, due.n) ≡ none = rw (key, number) kept' in
      let second =
        stale_message (next_chain_key c ck) fresh' ct' due moved refl (rw key d) (omega arith)
          (omega arith) still in
      (
        ap (λ (r : RatchetState × Result OmemoError Bytes). r.0) first,
        ap
              (λ (r : RatchetState × Result OmemoError Bytes).
                (ratchet_decrypt c fresh' due ct' r.0).1)
              first
            ∙ ap (λ (r : RatchetState × Result OmemoError Bytes). r.1) second,
      )

  idle_skip :
      (until : ℕ) (s : RatchetState) → s.ckr ≡ none → skip_message_keys c until s ≡ (s, none)
  unfolding skip_message_keys
  idle_skip until s e = ground arith

  alice_parts :
      (secret spk fresh : Bytes) (a : RatchetState)
      → init_ratchet_as_alice c secret spk fresh ≡ ok a
      → (a.dhr ≡ some spk) × (a.ckr ≡ none) × (a.mk_skipped ≡ [])
  unfolding init_ratchet_as_alice
  alice_parts secret spk fresh a e = ground arith

  unkeyed_take :
      (ct : Bytes) (s : RatchetState) (r : Result OmemoError Bytes)
      → s.ckr ≡ none
      → decrypt_with_nonce c (message_key c []) ct ≡ r
      → (take_message c ct s).1 ≡ r
  unfolding take_message
  unkeyed_take ct s r e p = rw e p

  unkeyed_encrypt :
      (doc : Documented c) (secret spk nonce text : Bytes)
      → (ratchet_encrypt c nonce text (init_ratchet_as_bob secret spk)).1
        ≡ ok (record { dh_pub = c.public spk; n = 0; pn = 0 }, sealed c [] nonce text)
  unfolding ratchet_encrypt init_ratchet_as_bob aes_gcm_encrypt
  unkeyed_encrypt doc secret spk nonce text = ground (arith, message_key_size c doc [])

  encrypt_keeps :
      (nonce text : Bytes) (s : RatchetState)
      → let t = (ratchet_encrypt c nonce text s).0 in
        (t.dhr ≡ s.dhr) × (t.ckr ≡ s.ckr) × (t.mk_skipped ≡ s.mk_skipped)
  unfolding ratchet_encrypt
  encrypt_keeps nonce text s = ground arith

  -- Sending leaves the receiving side.
  send_many_keeps :
      (l : List (Bytes × Bytes)) (s : RatchetState)
      → let t = send_many c l s in (t.dhr ≡ s.dhr) × (t.ckr ≡ s.ckr) × (t.mk_skipped ≡ s.mk_skipped)
  unfolding send_many
  send_many_keeps [] s = (refl, refl, refl)
  send_many_keeps ((nonce, text) ∷ l) s =
      let (d, k, m) = encrypt_keeps nonce text s in
      let (d', k', m') = send_many_keeps l (ratchet_encrypt c nonce text s).0 in
      (d' ∙ d, k' ∙ k, m' ∙ m)

  -- The state that Alice starts with holds no receiving chain, however many messages she sends, and
  -- until she receives one it takes a message under the key of an empty chain as genuine: whoever
  -- knows Bob's public pre-key can make one, with no secret at all, and Alice accepts its text. Bob's
  -- starting state, in turn, encrypts a first message under that key if it sends before it has
  -- received anything. Nonces have 12 bytes.
  pub empty_chain_accepted :
      (doc : Documented c) (secret spk fresh fresh' nonce text : Bytes) (a : RatchetState)
      (l : List (Bytes × Bytes)) (h : RatchetHeader)
      → length nonce ≡ 12
      → init_ratchet_as_alice c secret (c.public spk) fresh ≡ ok a
      → h.dh_pub ≡ c.public spk
      → ((send_many c l a).ckr ≡ none)
        × ((ratchet_decrypt c fresh' h (sealed c [] nonce text) (send_many c l a)).1 ≡ ok text)
        × ((ratchet_encrypt c nonce text (init_ratchet_as_bob secret spk)).1
            ≡ ok (record { dh_pub = c.public spk; n = 0; pn = 0 }, sealed c [] nonce text))
  empty_chain_accepted doc secret spk fresh fresh' nonce text a l h size made key =
      let (d, none_yet, empty) = alice_parts secret (c.public spk) fresh a made in
      let s = send_many c l a in
      let (d', k', m') = send_many_keeps l a in
      let text_in = sealed c [] nonce text in
      let opened = decrypt-sealed c doc [] nonce text size in
      let none_left : s.ckr ≡ none = k' ∙ none_yet in
      (
        none_left,
        ap (λ (r : RatchetState × Result OmemoError Bytes). r.1)
              (untried c fresh' text_in h s
                  (rw (m', empty) (get-empty {V = Bytes} (copy_32 h.dh_pub, h.n)))
                ∙ same_key c fresh' text_in h s s (rw (key, d') d) (idle_skip h.n s none_left))
            ∙ unkeyed_take text_in s (ok text) none_left opened,
        unkeyed_encrypt doc secret spk nonce text,
      )
