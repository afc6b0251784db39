-- ===== src/Tests/Ratchet.antt =====
-- The ratchet with concrete keys and messages.
use xmpp_go.Prelude.{true, ℕ, ◌≡◌, refl, none, some, List, [], ◌∷◌, ok, arith, ◌&&◌, not}
use xmpp_go.Prelude.Bytes.{Bytes, bytes}
use xmpp_go.Prelude.Dict.{get}
use xmpp_go.Omemo.Primitives.{
  message_key, next_chain_key, aes_gcm_encrypt, root_kdf, decrypt_with_nonce,
}
use xmpp_go.Omemo.Ratchet.{
  RatchetState, RatchetHeader, copy_32, zeros, init_ratchet_as_alice, init_ratchet_as_bob,
  ratchet_encrypt, ratchet_decrypt, skip_message_keys, skip_loop,
}
use xmpp_go.Omemo.Ratchet.Steps.{send_many, sealed}
use xmpp_go.Omemo.Ratchet.Delivery.{InStep, out_of_order}
use xmpp_go.Omemo.Ratchet.Handshake.{first_messages_delivered}
use xmpp_go.Omemo.Ratchet.Faults.{
  IsBounded, skip_message_keys-IsBounded, stale_message_loses_next, empty_chain_accepted,
}
use xmpp_go.Omemo.Session.{Session, PendingPreKey, is_pending, encrypt}
use xmpp_go.Omemo.Session.Pending.{Call, encrypts, after, heard, pending_until_reply}
use xmpp_go.Tests.Crypto.{toy, toy-Documented, mix}

abbrev spk : Bytes
spk = 5 ∷ zeros 31

abbrev fresh_a : Bytes
fresh_a = 6 ∷ zeros 31

abbrev fresh_b : Bytes
fresh_b = 7 ∷ zeros 31

abbrev secret : Bytes
secret = 9 ∷ zeros 31

abbrev nonce : Bytes
nonce = 8 ∷ zeros 11

abbrev sender : RatchetState
sender = record {
  dhs = fresh_a;
  dhr = some spk;
  rk = secret;
  cks = some secret;
  ckr = none;
  ns = 2;
  nr = 0;
  pn = 0;
  mk_skipped = [];
}

abbrev receiver : RatchetState
receiver = record {
  dhs = fresh_b;
  dhr = some fresh_a;
  rk = secret;
  cks = some spk;
  ckr = some secret;
  ns = 0;
  nr = 2;
  pn = 0;
  mk_skipped = [];
}

abbrev header : Bytes → ℕ → RatchetHeader
header key n = record { dh_pub = key; n = n; pn = 0 }

in_step : InStep toy secret sender receiver
unfolding get
in_step = record {
  sending = refl;
  receiving = refl;
  key = refl;
  number = refl;
  none_kept = λ n h. refl;
}

out_of_order_example :
    let key2 = next_chain_key toy (next_chain_key toy secret) in
    let (b, got2) =
      ratchet_decrypt toy fresh_b
        (header fresh_a 4)
        (sealed toy key2 nonce (bytes "two"))
        receiver in
    (got2 ≡ ok (bytes "two"))
    × ((ratchet_decrypt toy fresh_b
          (header fresh_a 3)
          (sealed toy (next_chain_key toy secret) nonce (bytes "one"))
          b).1
        ≡ ok (bytes "one"))
unfolding send_many ratchet_encrypt aes_gcm_encrypt message_key next_chain_key
out_of_order_example =
    out_of_order toy toy-Documented secret sender receiver ((nonce, bytes "zero") ∷ []) [] nonce
      (bytes "one") (sealed toy (next_chain_key toy secret) nonce (bytes "one")) nonce (bytes "two")
      (sealed toy (next_chain_key toy (next_chain_key toy secret)) nonce (bytes "two")) fresh_b
      fresh_b (header fresh_a 3) (header fresh_a 4) in_step refl refl (omega arith) (omega arith)
      refl refl

abbrev alice : RatchetState
alice = record {
  dhs = fresh_a;
  dhr = some spk;
  rk = 0x0b ∷ zeros 31;
  cks = some (9 ∷ zeros 31);
  ckr = none;
  ns = 0;
  nr = 0;
  pn = 0;
  mk_skipped = [];
}

first_messages_delivered_example :
    let a = record alice { rk = mix fresh_a spk; cks = some secret } in
    let (b, got) =
      ratchet_decrypt toy fresh_b
        (header fresh_a 0)
        (sealed toy secret nonce (bytes "hi"))
        (init_ratchet_as_bob secret spk) in
    (got ≡ ok (bytes "hi"))
    × ((ratchet_decrypt toy fresh_a
          (header fresh_b 0)
          (sealed toy (mix fresh_a spk) nonce (bytes "yes"))
          (ratchet_encrypt toy nonce (bytes "hi") a).0).1
        ≡ ok (bytes "yes"))
unfolding init_ratchet_as_alice init_ratchet_as_bob ratchet_encrypt ratchet_decrypt aes_gcm_encrypt
    root_kdf mix message_key get skip_loop copy_32
first_messages_delivered_example =
    first_messages_delivered toy toy-Documented secret spk fresh_a fresh_b fresh_a nonce
      (bytes "hi") nonce (bytes "yes") (sealed toy secret nonce (bytes "hi"))
      (sealed toy (mix fresh_a spk) nonce (bytes "yes"))
      (record alice { rk = mix fresh_a spk; cks = some secret }) (header fresh_a 0)
      (header fresh_b 0) refl refl refl refl refl refl refl refl refl refl

stale_message_loses_next_example :
    let s' = (ratchet_decrypt toy fresh_b (header fresh_a 1) [] receiver).0 in
    (s' ≡ record receiver { ckr = some (next_chain_key toy secret); nr = 3 })
    × ((ratchet_decrypt toy fresh_b (header fresh_a 2) [] s').1
        ≡ decrypt_with_nonce toy (message_key toy (next_chain_key toy secret)) [])
unfolding get
stale_message_loses_next_example =
    stale_message_loses_next toy secret fresh_b [] fresh_b [] (header fresh_a 1) (header fresh_a 2)
      receiver refl refl refl (omega arith) refl (omega arith) refl refl

skip_message_keys-IsBounded_example : IsBounded receiver (skip_message_keys toy 5000 receiver)
skip_message_keys-IsBounded_example = skip_message_keys-IsBounded toy 5000 receiver

empty_chain_accepted_example :
    let a = record alice { rk = mix fresh_a spk; cks = some secret } in
    let sent = send_many toy ((nonce, bytes "hi") ∷ []) a in
    (sent.ckr ≡ none)
    × ((ratchet_decrypt toy fresh_b (header spk 7) (sealed toy [] nonce (bytes "forged")) sent).1
        ≡ ok (bytes "forged"))
    × ((ratchet_encrypt toy nonce (bytes "forged") (init_ratchet_as_bob secret spk)).1
        ≡ ok (header spk 0, sealed toy [] nonce (bytes "forged")))
unfolding init_ratchet_as_alice root_kdf mix
empty_chain_accepted_example =
    empty_chain_accepted toy toy-Documented secret spk fresh_a fresh_b nonce (bytes "forged")
      (record alice { rk = mix fresh_a spk; cks = some secret }) ((nonce, bytes "hi") ∷ [])
      (header spk 7) refl refl refl

abbrev part : PendingPreKey
part = record { pre_key_id = none; signed_pre_key_id = 1; ephemeral_pub_key = fresh_a }

abbrev first : Session
first = record { ratchet = sender; remote_identity = spk; pending_pre_key = some part }

abbrev one_call : List Call
one_call = encrypts nonce (bytes "hi") ∷ []

second_sent :
    (encrypt toy nonce (bytes "you") (after toy one_call first)).1
    ≡ ok (header fresh_a 3, sealed toy (next_chain_key toy secret) nonce (bytes "you"), true)
unfolding after encrypt ratchet_encrypt aes_gcm_encrypt message_key next_chain_key
second_sent = refl

pending_until_reply_example :
    true ≡ (is_pending first.pending_pre_key && not (heard toy one_call first))
pending_until_reply_example =
    pending_until_reply toy one_call nonce (bytes "you")
      (sealed toy (next_chain_key toy secret) nonce (bytes "you")) (header fresh_a 3) true first
      second_sent
