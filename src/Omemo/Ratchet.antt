-- ===== src/Omemo/Ratchet.antt =====
-- crypto/omemo/ratchet.go: the Double Ratchet. A nil slice is none. An operation returns the state
-- that it leaves, also where it fails, since the source writes to the state as it goes. Key
-- generation and nonces do not fail (package crypto/rand) and are arguments.
pub mod Skip
pub mod Steps
pub mod Turn
pub mod Delivery
pub mod Handshake
pub mod Faults
use xmpp_go.Prelude.{
  ℕ, zero, suc, ◌+◌, ◌-◌, ◌%◌, ◌^◌, Bool, true, Option, none, some, [], ◌∷◌, ◌++◌, Result, ok, err,
  if◌then◌else◌, not, length, ltb, take, nat_eq, list_eq, pair_eq, ◌==◌, or_zero,
}
use xmpp_go.Prelude.Bytes.{Bytes}
use xmpp_go.Prelude.Dict.{Dict, get, put, remove}
use xmpp_go.Omemo.Primitives.{
  OmemoError, invalid_message, skipped_key_limit, failed, Primitives, message_key, next_chain_key,
  root_kdf, aes_gcm_encrypt, decrypt_with_nonce,
}

abbrev pub max_skipped_keys : ℕ
max_skipped_keys = 1000

abbrev pub u32 : ℕ
u32 = 2 ^ 32

-- A ratchet public key and a message number.
abbrev pub SkippedKey : Type 0
SkippedKey = Bytes × ℕ

pub record RatchetHeader : Type 0 where
  pub dh_pub : Bytes
  pub n : ℕ
  pub pn : ℕ

pub record RatchetState : Type 0 where
  pub dhs : Bytes
  pub dhr : Option Bytes
  pub rk : Bytes
  pub cks : Option Bytes
  pub ckr : Option Bytes
  pub ns : ℕ
  pub nr : ℕ
  pub pn : ℕ
  pub mk_skipped : Dict SkippedKey Bytes

-- The bytes of a slice that may be nil.
abbrev pub slice : Option Bytes → Bytes
slice = or_zero []

abbrev pub zeros : ℕ → Bytes
zeros zero = []
zeros (suc n) = 0 ∷ zeros n

-- `copy` into an array of 32 bytes.
unfoldable pub copy_32 : Bytes → Bytes
copy_32 b = take 32 (b ++ zeros 32)

-- What follows a step that may fail.
abbrev pub and_then {ℓ} :
    {A : Type ℓ}
    → RatchetState × Option OmemoError
    → (RatchetState → A)
    → (RatchetState → OmemoError → A)
    → A
and_then (s, none) go stop = go s
and_then (s, some e) go stop = stop s e

unfoldable pub init_ratchet_as_bob : Bytes → Bytes → RatchetState
init_ratchet_as_bob shared_secret local_spk = record {
  dhs = local_spk;
  dhr = none;
  rk = shared_secret;
  cks = none;
  ckr = none;
  ns = 0;
  nr = 0;
  pn = 0;
  mk_skipped = [];
}

-- Whether a header shows a new key.
abbrev pub is_new_key : Option Bytes → Bytes → Bool
is_new_key none dh_pub = true
is_new_key (some dhr) dh_pub = not (dh_pub == dhr)

module _ (c : Primitives) where
  -- `fresh` is the key pair that is generated.
  unfoldable pub init_ratchet_as_alice : Bytes → Bytes → Bytes → Result OmemoError RatchetState
  init_ratchet_as_alice shared_secret remote_spk fresh = elim (c.ecdh fresh remote_spk) [
    | none ↦ err failed
    | some dh_out ↦ elim (root_kdf c shared_secret dh_out) [
      | none ↦ err failed
      | some (rk, cks) ↦ ok (record {
        dhs = fresh;
        dhr = some remote_spk;
        rk = rk;
        cks = some cks;
        ckr = none;
        ns = 0;
        nr = 0;
        pn = 0;
        mk_skipped = [];
      })
    ]
  ]

  unfoldable pub ratchet_encrypt :
      Bytes → Bytes → RatchetState → RatchetState × Result OmemoError (RatchetHeader × Bytes)
  ratchet_encrypt nonce plaintext s =
      let s' = record s { cks = some (next_chain_key c (slice s.cks)); ns = (s.ns + 1) % u32 } in
      let header : RatchetHeader = record { dh_pub = c.public s.dhs; n = s.ns; pn = s.pn } in
      elim (aes_gcm_encrypt c (message_key c (slice s.cks)) nonce plaintext) [
        | err e ↦ (s', err e)
        | ok ciphertext ↦ (s', ok (header, nonce ++ ciphertext))
      ]

  unfoldable pub try_skipped_keys :
      RatchetHeader → Bytes → RatchetState → RatchetState × Result OmemoError Bytes
  try_skipped_keys header ciphertext s =
      let k : SkippedKey = (copy_32 header.dh_pub, header.n) in
      elim (get s.mk_skipped k) [
        | none ↦ (s, err invalid_message)
        | some mk ↦
            (record s { mk_skipped = remove s.mk_skipped k }, decrypt_with_nonce c mk ciphertext)
      ]

  -- One round of the loop of `skipMessageKeys`, but for its check.
  unfoldable pub skip_one : RatchetState → RatchetState
  skip_one s = record s {
    ckr = some (next_chain_key c (slice s.ckr));
    mk_skipped = put s.mk_skipped (copy_32 (slice s.dhr), s.nr) (message_key c (slice s.ckr));
    nr = (s.nr + 1) % u32;
  }

  -- The loop with the rounds that are left.
  unfoldable pub skip_loop : ℕ → RatchetState → RatchetState × Option OmemoError
  unfolding skip_one
  skip_loop zero s = (s, none)
  skip_loop (suc rounds) s =
      let s' = skip_one s in
      let rest = skip_loop rounds s' in
      if ltb max_skipped_keys (length s'.mk_skipped) then (s', some skipped_key_limit) else rest

  unfoldable pub skip_message_keys : ℕ → RatchetState → RatchetState × Option OmemoError
  skip_message_keys until s = elim s.ckr [
    | none ↦ (s, none)
    | some _ ↦
        if ltb ((s.nr + max_skipped_keys) % u32) until
        then (s, some skipped_key_limit)
        else skip_loop (until - s.nr) s
  ]

  unfoldable pub dh_ratchet_step : Bytes → Bytes → RatchetState → RatchetState × Option OmemoError
  dh_ratchet_step fresh new_dhr s =
      let dhr = copy_32 new_dhr in
      let s1 = record s { pn = s.ns; ns = 0; nr = 0; dhr = some dhr } in
      elim (c.ecdh s.dhs dhr) [
        | none ↦ (s1, some failed)
        | some dh_out ↦ elim (root_kdf c s.rk dh_out) [
          | none ↦ (s1, some failed)
          | some (rk, ckr) ↦
              let s2 = record s1 { rk = rk; ckr = some ckr; dhs = fresh } in
              elim (c.ecdh fresh dhr) [
                | none ↦ (s2, some failed)
                | some dh_out' ↦ elim (root_kdf c rk dh_out') [
                  | none ↦ (s2, some failed)
                  | some (rk', cks) ↦ (record s2 { rk = rk'; cks = some cks }, none)
                ]
              ]
        ]
      ]

  -- Step 2 of `RatchetDecrypt`: the turn to a new key.
  unfoldable pub turn : Bytes → RatchetHeader → RatchetState → RatchetState × Option OmemoError
  unfolding skip_message_keys dh_ratchet_step
  turn fresh header s =
      if is_new_key s.dhr header.dh_pub
      then and_then (skip_message_keys header.pn s) (dh_ratchet_step fresh header.dh_pub)
          (λ s' e. (s', some e))
      else (s, none)

  -- Step 4: the next message key of the receiving chain.
  unfoldable pub take_message : Bytes → RatchetState → RatchetState × Result OmemoError Bytes
  take_message ciphertext s = (
    record s { ckr = some (next_chain_key c (slice s.ckr)); nr = (s.nr + 1) % u32 },
    decrypt_with_nonce c (message_key c (slice s.ckr)) ciphertext,
  )

  -- Steps 2 to 4.
  unfoldable pub receive :
      Bytes → RatchetHeader → Bytes → RatchetState → RatchetState × Result OmemoError Bytes
  unfolding turn skip_message_keys take_message
  receive fresh header ciphertext s =
      and_then (turn fresh header s)
        (λ s1.
          and_then (skip_message_keys header.n s1) (take_message ciphertext) (λ s2 e. (s2, err e)))
        (λ s1 e. (s1, err e))

  unfoldable pub ratchet_decrypt :
      Bytes → RatchetHeader → Bytes → RatchetState → RatchetState × Result OmemoError Bytes
  unfolding try_skipped_keys receive
  ratchet_decrypt fresh header ciphertext s =
      let tried = try_skipped_keys header ciphertext s in
      elim tried.1 [
        | ok plaintext ↦ (tried.0, ok plaintext)
        | err _ ↦ receive fresh header ciphertext tried.0
      ]
