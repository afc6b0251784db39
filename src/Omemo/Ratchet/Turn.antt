-- ===== src/Omemo/Ratchet/Turn.antt =====
-- A turn of the ratchet to a new key where nothing fails, and the first message of the new chain.
use xmpp_go.Prelude.{
  ℕ, ◌≡◌, refl, sym, ap, ◌∙◌, true, none, some, [], Result, ok, length, take, drop, nat_eq, list_eq,
  pair_eq, arith,
}
use xmpp_go.Prelude.Bytes.{Bytes, bytes}
use xmpp_go.Prelude.Dict.{get-empty}
use xmpp_go.Omemo.Primitives.{OmemoError, Primitives, Documented, next_chain_key, root_kdf}
use xmpp_go.Omemo.Ratchet.{
  RatchetState, RatchetHeader, zeros, copy_32, init_ratchet_as_alice, ratchet_encrypt, skip_loop,
  skip_message_keys, dh_ratchet_step, is_new_key, turn, take_message, receive, ratchet_decrypt,
}
use xmpp_go.Prelude.{take-append}
use xmpp_go.Omemo.Ratchet.Steps.{sealed, encrypt_lem, untried, take_sealed}

copy_32_lem : (b : Bytes) → length b ≡ 32 → copy_32 b ≡ b
unfolding copy_32
copy_32_lem b h = take-append 32 b (zeros 32) h

module _ (c : Primitives) where
  -- A whole turn to a new key, where each exchange and derivation succeeds.
  dh_ratchet_step_lem :
      (fresh dhr z rk ckr z' rk' cks : Bytes) (s : RatchetState)
      → length dhr ≡ 32
      → c.ecdh s.dhs dhr ≡ some z
      → root_kdf c s.rk z ≡ some (rk, ckr)
      → c.ecdh fresh dhr ≡ some z'
      → root_kdf c rk z' ≡ some (rk', cks)
      → dh_ratchet_step c fresh dhr s ≡ (
        record s {
          pn = s.ns;
          ns = 0;
          nr = 0;
          dhr = some dhr;
          rk = rk';
          ckr = some ckr;
          dhs = fresh;
          cks = some cks;
        },
        none,
      )
  unfolding dh_ratchet_step
  dh_ratchet_step_lem fresh dhr z rk ckr z' rk' cks s l e1 k1 e2 k2 =
      ground (arith, copy_32_lem dhr l)

  -- The first message of a new chain at a side that is not receiving yet.
  receive_first :
      (fresh ciphertext ck : Bytes) (h : RatchetHeader) (s t : RatchetState)
      → is_new_key s.dhr h.dh_pub ≡ true
      → s.ckr ≡ none
      → h.n ≡ 0
      → dh_ratchet_step c fresh h.dh_pub s ≡ (t, none)
      → t.ckr ≡ some ck
      → t.nr ≡ 0
      → receive c fresh h ciphertext s ≡ take_message c ciphertext t
  unfolding receive turn skip_loop skip_message_keys
  receive_first fresh ciphertext ck h s t new none_yet first step chain zero_yet = ground arith

pub root_kdf_lem :
    (c : Primitives) (doc : Documented c) (rk z : Bytes)
    → (rk' : Bytes) × (ck : Bytes) × (root_kdf c rk z ≡ some (rk', ck))
unfolding root_kdf
root_kdf_lem c doc rk z =
    let (out, e, l) = doc.hkdf_size rk z (bytes "OMEMO Root Chain") in
    (take 32 out, drop 32 out, rw (e, root_kdf))

-- Alice's state, spelled out.
pub alice_lem :
    (c : Primitives) (secret spk fresh z rk ck : Bytes)
    → c.ecdh fresh spk ≡ some z
    → root_kdf c secret z ≡ some (rk, ck)
    → init_ratchet_as_alice c secret spk fresh
      ≡ ok (record {
        dhs = fresh;
        dhr = some spk;
        rk = rk;
        cks = some ck;
        ckr = none;
        ns = 0;
        nr = 0;
        pn = 0;
        mk_skipped = [];
      })
unfolding init_ratchet_as_alice
alice_lem c secret spk fresh z rk ck e k = ground arith

-- A state that receives nothing yet and keeps no key decrypts the first message of a new chain, and
-- is left at the second key of that chain.
pub decrypt_first :
    (c : Primitives) (doc : Documented c) (fresh dhr z rk ckr z' rk' cks nonce plaintext : Bytes)
    (h : RatchetHeader) (s : RatchetState)
    → length dhr ≡ 32
    → c.ecdh s.dhs dhr ≡ some z
    → root_kdf c s.rk z ≡ some (rk, ckr)
    → c.ecdh fresh dhr ≡ some z'
    → root_kdf c rk z' ≡ some (rk', cks)
    → is_new_key s.dhr dhr ≡ true
    → s.ckr ≡ none
    → s.mk_skipped ≡ []
    → h.n ≡ 0
    → h.dh_pub ≡ dhr
    → length nonce ≡ 12
    → ratchet_decrypt c fresh h (sealed c ckr nonce plaintext) s ≡ (
      record s {
        pn = s.ns;
        ns = 0;
        nr = 1;
        dhr = some dhr;
        rk = rk';
        ckr = some (next_chain_key c ckr);
        dhs = fresh;
        cks = some cks;
      },
      ok plaintext,
    )
decrypt_first c doc fresh dhr z rk ckr z' rk' cks nonce plaintext h s l e1 k1 e2 k2 new none_yet
      empty first key nl =
    let text = sealed c ckr nonce plaintext in
    let t = record s {
      pn = s.ns;
      ns = 0;
      nr = 0;
      dhr = some dhr;
      rk = rk';
      ckr = some ckr;
      dhs = fresh;
      cks = some cks;
    } in
    untried c fresh text h s (rw empty (get-empty {V = Bytes} (copy_32 h.dh_pub, h.n)))
    ∙ receive_first c fresh text ckr h s t (rw key new) none_yet first
        (rw key (dh_ratchet_step_lem c fresh dhr z rk ckr z' rk' cks s l e1 k1 e2 k2)) refl refl
    ∙ take_sealed c doc ckr nonce plaintext t nl refl

abbrev pub alice_state : Bytes → Bytes → Bytes → Bytes → ℕ → RatchetState
alice_state dhs dhr rk ck ns = record {
  dhs = dhs;
  dhr = some dhr;
  rk = rk;
  cks = some ck;
  ckr = none;
  ns = ns;
  nr = 0;
  pn = 0;
  mk_skipped = [];
}

-- The first message of a side with a fresh sending chain: its header and ciphertext.
pub first_sent :
    (c : Primitives) (doc : Documented c) (ck nonce text ct : Bytes) (h : RatchetHeader)
    (s : RatchetState)
    → s.cks ≡ some ck
    → (ratchet_encrypt c nonce text s).1 ≡ ok (h, ct)
    → (h.n ≡ s.ns) × (h.dh_pub ≡ c.public s.dhs) × (ct ≡ sealed c ck nonce text)
first_sent c doc ck nonce text ct h s e p =
    let q =
      sym p
      ∙ ap (λ (r : RatchetState × Result OmemoError (RatchetHeader × Bytes)). r.1)
          (encrypt_lem c doc ck nonce text s e) in
    (ground arith, ground arith, ground arith)
