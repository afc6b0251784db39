-- ===== src/Omemo/Session.antt =====
-- crypto/omemo/session.go: a ratchet with the identity of the other side and the pre-key part of the
-- first messages, over the ratchet and its encoding. The two constructors go through X3DH and are
-- not modelled.
pub mod Codec
pub mod Pending
use xmpp_go.Prelude.{
  ℕ, Bool, true, false, Option, none, some, [], ◌∷◌, ◌++◌, Result, ok, err, if◌then◌else◌, length,
  ltb, eqb, take, drop,
}
use xmpp_go.Prelude.Bytes.{Bytes}
use xmpp_go.Omemo.Primitives.{OmemoError, invalid_message, Primitives}
use xmpp_go.Omemo.Ratchet.{RatchetHeader, RatchetState, ratchet_encrypt, ratchet_decrypt}
use xmpp_go.Omemo.Wire.{put_uint32, uint32, marshal_ratchet, unmarshal_ratchet}

pub record PendingPreKey : Type 0 where
  pub pre_key_id : Option ℕ
  pub signed_pre_key_id : ℕ
  pub ephemeral_pub_key : Bytes

pub record Session : Type 0 where
  pub ratchet : RatchetState
  pub remote_identity : Bytes
  pub pending_pre_key : Option PendingPreKey

abbrev pub is_pending : Option PendingPreKey → Bool
is_pending none = false
is_pending (some _) = true

-- With the nonce that is drawn. The flag says whether the message is a pre-key message.
unfoldable pub encrypt :
    Primitives
    → Bytes
    → Bytes
    → Session
    → Session × Result OmemoError (RatchetHeader × Bytes × Bool)
encrypt c nonce plaintext s =
    let sent = ratchet_encrypt c nonce plaintext s.ratchet in
    let s' = record s { ratchet = sent.0 } in
    elim sent.1 [
      | err e ↦ (s', err e)
      | ok (header, ciphertext) ↦ (s', ok (header, ciphertext, is_pending s.pending_pre_key))
    ]

-- With the key pair that a turn of the ratchet would generate.
unfoldable pub decrypt :
    Primitives → Bytes → RatchetHeader → Bytes → Session → Session × Result OmemoError Bytes
decrypt c fresh header ciphertext s =
    let got = ratchet_decrypt c fresh header ciphertext s.ratchet in
    elim got.1 [
      | err e ↦ (record s { ratchet = got.0 }, err e)
      | ok plaintext ↦ (record s { ratchet = got.0; pending_pre_key = none }, ok plaintext)
    ]

unfoldable pub write_pre_key_id : Option ℕ → Bytes
write_pre_key_id none = 0 ∷ []
write_pre_key_id (some id) = 1 ∷ put_uint32 id

unfoldable pub write_pending : Option PendingPreKey → Bytes
write_pending none = 0 ∷ []
write_pending (some p) =
    1 ∷ (write_pre_key_id p.pre_key_id ++ (put_uint32 p.signed_pre_key_id ++ p.ephemeral_pub_key))

unfoldable pub marshal_session : Session → Bytes
marshal_session s =
    s.remote_identity ++ (write_pending s.pending_pre_key ++ marshal_ratchet s.ratchet)

-- How decoding ends: in a panic for an index out of range, with an error, or with a value.
pub data Loading (A : Type 0) : Type 0 where
  panics : Loading A
  refuses : OmemoError → Loading A
  loads : A → Loading A

-- The zero value of the ratchet.
abbrev pub blank : RatchetState
blank = record {
  dhs = [];
  dhr = none;
  rk = [];
  cks = none;
  ckr = none;
  ns = 0;
  nr = 0;
  pn = 0;
  mk_skipped = [];
}

unfoldable pub load_ratchet : Bytes → Option PendingPreKey → Bytes → Loading Session
load_ratchet remote pending rest = elim (unmarshal_ratchet blank rest) [
  | err e ↦ refuses e
  | ok r ↦ loads (record { ratchet = r; remote_identity = remote; pending_pre_key = pending })
]

-- The signed pre-key's number and the ephemeral key, then the ratchet.
unfoldable pub load_keys : Bytes → Option ℕ → Bytes → Loading Session
load_keys remote id rest =
    if ltb (length rest) 4
    then refuses invalid_message
    else if ltb (length rest) 36
    then refuses invalid_message
    else load_ratchet remote
        (some (record {
          pre_key_id = id;
          signed_pre_key_id = uint32 (take 4 rest);
          ephemeral_pub_key = take 32 (drop 4 rest);
        }))
        (drop 36 rest)

-- The pre-key part, from the flag of the one-time key, which is read without a test.
unfoldable pub load_pending : Bytes → Bytes → Loading Session
load_pending remote [] = panics
load_pending remote (flag ∷ rest) =
    if eqb flag 1
    then (if ltb (length rest) 4
        then refuses invalid_message
        else load_keys remote (some (uint32 (take 4 rest))) (drop 4 rest))
    else load_keys remote none rest

-- From the flag of the pre-key part; without one the receiver's own is kept.
unfoldable pub load_flag : Bytes → Option PendingPreKey → Bytes → Loading Session
load_flag remote pending [] = panics
load_flag remote pending (flag ∷ rest) =
    if eqb flag 1 then load_pending remote rest else load_ratchet remote pending rest

-- `pending` is the pre-key part that the receiver has.
unfoldable pub unmarshal_session : Option PendingPreKey → Bytes → Loading Session
unmarshal_session pending data_ =
    if ltb (length data_) 33
    then refuses invalid_message
    else load_flag (take 32 data_) pending (drop 32 data_)
