-- ===== src/Omemo/Ratchet/Handshake.antt =====
-- The first messages of a session: both sides derive the same chains.
use xmpp_go.Prelude.{
  ◌≡◌, refl, sym, ap, ◌∙◌, false, some, [], Result, ok, length, nat_eq, list_eq, pair_eq, ◌==◌,
}
use xmpp_go.Prelude.Bytes.{Bytes}
use xmpp_go.Omemo.Primitives.{OmemoError, Primitives, Documented, next_chain_key, root_kdf}
use xmpp_go.Omemo.Ratchet.{
  RatchetState, RatchetHeader, init_ratchet_as_bob, init_ratchet_as_alice, ratchet_encrypt,
  ratchet_decrypt,
}
use xmpp_go.Prelude.{ok-injective}
use xmpp_go.Omemo.Ratchet.Steps.{encrypt_lem}
use xmpp_go.Omemo.Ratchet.Turn.{root_kdf_lem, alice_lem, decrypt_first, alice_state, first_sent}

-- Both directions, where every exchange and derivation is given by its result.
module _ (c : Primitives) (doc : Documented c)
    (secret spk fa fb fa' z rk ck z' rk' ck' z2 rk2 ck2 nonce text ct nonce' text' ct' : Bytes)
    (h h' : RatchetHeader) (la : length fa ≡ 32) (lb : length fb ≡ 32) (ln : length nonce ≡ 12)
    (ln' : length nonce' ≡ 12) (differ : (c.public fb == c.public spk) ≡ false)
    (zb : c.ecdh spk (c.public fa) ≡ some z) (k : root_kdf c secret z ≡ some (rk, ck))
    (zb' : c.ecdh fb (c.public fa) ≡ some z') (za' : c.ecdh fa (c.public fb) ≡ some z')
    (k' : root_kdf c rk z' ≡ some (rk', ck')) (zc : c.ecdh fa' (c.public fb) ≡ some z2)
    (k2 : root_kdf c rk' z2 ≡ some (rk2, ck2)) where
  abbrev alice : RatchetState
  alice = alice_state fa (c.public spk) rk ck 0

  abbrev bob : RatchetState
  bob = record {
    dhs = fb;
    dhr = some (c.public fa);
    rk = rk';
    cks = some ck';
    ckr = some (next_chain_key c ck);
    ns = 0;
    nr = 1;
    pn = 0;
    mk_skipped = [];
  }

  bob_decrypts :
      (ratchet_encrypt c nonce text alice).1 ≡ ok (h, ct)
      → ratchet_decrypt c fb h ct (init_ratchet_as_bob secret spk) ≡ (bob, ok text)
  unfolding init_ratchet_as_bob
  bob_decrypts e =
      let (n, pub_key, text_eq) = first_sent c doc ck nonce text ct h alice refl e in
      ap (λ x. ratchet_decrypt c fb h x (init_ratchet_as_bob secret spk)) text_eq
      ∙ decrypt_first c doc fb (c.public fa) z rk ck z' rk' ck' nonce text h
          (init_ratchet_as_bob secret spk) (doc.public_size fa la) zb k zb' k' refl refl refl n
          pub_key ln

  alice_decrypts :
      (ratchet_encrypt c nonce' text' bob).1 ≡ ok (h', ct')
      → (ratchet_decrypt c fa' h' ct' (ratchet_encrypt c nonce text alice).0).1 ≡ ok text'
  alice_decrypts e =
      let (n, pub_key, text_eq) = first_sent c doc ck' nonce' text' ct' h' bob refl e in
      let later = alice_state fa (c.public spk) rk (next_chain_key c ck) 1 in
      let moved : (ratchet_encrypt c nonce text alice).0 ≡ later =
        ap (λ (r : RatchetState × Result OmemoError (RatchetHeader × Bytes)). r.0)
          (encrypt_lem c doc ck nonce text alice refl) in
      rw (moved, text_eq)
        (ap (λ (r : RatchetState × Result OmemoError Bytes). r.1)
          (decrypt_first c doc fa' (c.public fb) z' rk' ck' z2 rk2 ck2 nonce' text' h' later
            (doc.public_size fb lb) za' k' zc k2 (rw differ refl) refl refl n pub_key ln'))

  delivered :
      (a : RatchetState)
      → a ≡ alice
      → (ratchet_encrypt c nonce text a).1 ≡ ok (h, ct)
      → (ratchet_encrypt c nonce' text'
          (ratchet_decrypt c fb h ct (init_ratchet_as_bob secret spk)).0).1
        ≡ ok (h', ct')
      → ((ratchet_decrypt c fb h ct (init_ratchet_as_bob secret spk)).1 ≡ ok text)
        × ((ratchet_decrypt c fa' h' ct' (ratchet_encrypt c nonce text a).0).1 ≡ ok text')
  delivered a is_alice e1 e2 =
      let e1' = ap (λ (s : RatchetState). (ratchet_encrypt c nonce text s).1) (sym is_alice) ∙ e1 in
      let got = bob_decrypts e1' in
      let e2' =
        ap (λ (r : RatchetState × Result OmemoError Bytes). (ratchet_encrypt c nonce' text' r.0).1)
          (sym got)
        ∙ e2 in
      (
        ap (λ (r : RatchetState × Result OmemoError Bytes). r.1) got,
        rw is_alice (alice_decrypts e2'),
      )

-- With a shared secret and Bob's signed pre-key, Alice's first message is decrypted by Bob, and
-- Bob's reply to it is decrypted by Alice, over both turns of the ratchet. Private keys have 32
-- bytes and nonces 12, and Bob's new public key differs from his signed pre-key.
pub first_messages_delivered :
    (c : Primitives) (doc : Documented c)
    (secret spk fresh_a fresh_b fresh_a' nonce text nonce' text' ct ct' : Bytes) (a : RatchetState)
    (h h' : RatchetHeader)
    → length spk ≡ 32
    → length fresh_a ≡ 32
    → length fresh_b ≡ 32
    → length fresh_a' ≡ 32
    → length nonce ≡ 12
    → length nonce' ≡ 12
    → (c.public fresh_b == c.public spk) ≡ false
    → init_ratchet_as_alice c secret (c.public spk) fresh_a ≡ ok a
    → (ratchet_encrypt c nonce text a).1 ≡ ok (h, ct)
    → let (b, got) = ratchet_decrypt c fresh_b h ct (init_ratchet_as_bob secret spk) in
      (ratchet_encrypt c nonce' text' b).1 ≡ ok (h', ct')
      → (got ≡ ok text)
        × ((ratchet_decrypt c fresh_a' h' ct' (ratchet_encrypt c nonce text a).0).1 ≡ ok text')
first_messages_delivered c doc secret spk fa fb fa' n x n' x' ct ct' a h h' ls la lb la' ln ln' new
      made e1 e2 =
    let (z, za, zb) = doc.agree fa spk la ls in
    let (z', zb', za') = doc.agree fb fa lb la in
    let (z2, zc, _) = doc.agree fa' fb la' lb in
    let (rk, ck, k) = root_kdf_lem c doc secret z in
    let (rk', ck', k') = root_kdf_lem c doc rk z' in
    let (rk2, ck2, k2) = root_kdf_lem c doc rk' z2 in
    delivered c doc secret spk fa fb fa' z rk ck z' rk' ck' z2 rk2 ck2 n x ct n' x' ct' h h' la lb
      ln ln' new zb k zb' za' k' zc k2 a
      (ok-injective (sym made ∙ alice_lem c secret (c.public spk) fa z rk ck za k)) e1 e2
