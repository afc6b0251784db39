-- ===== src/Omemo/Primitives.antt =====
-- The cryptography that crypto/omemo calls (HMAC, HKDF, X25519 and AES-GCM are not in the repository),
-- and the wrappers of kdf.go, keys.go and aes_gcm.go around it. Random bytes are arguments of the
-- calls that draw them.
use xmpp_go.Prelude.{
  ℕ, ◌≡◌, Option, none, some, [], ◌∷◌, Result, ok, err, if◌then◌else◌, not, length, eqb, ltb, take,
  drop, or_fail,
}
use xmpp_go.Prelude.Bytes.{Bytes, bytes}

-- The errors of errors.go that these files return; any error of a called package is `failed`.
pub data OmemoError : Type 0 where
  invalid_message invalid_key_length skipped_key_limit failed : OmemoError

-- HMAC-SHA-256 of a key and a message; HKDF of a salt, a secret, an info and a length; the public key
-- of a private one; the X25519 exchange; and AES-GCM under a key and a nonce.
pub record Primitives : Type 0 where
  pub hmac : Bytes → Bytes → Bytes
  pub hkdf : Bytes → Bytes → Bytes → ℕ → Option Bytes
  pub public : Bytes → Bytes
  pub ecdh : Bytes → Bytes → Option Bytes
  pub seal : Bytes → Bytes → Bytes → Bytes
  pub unseal : Bytes → Bytes → Bytes → Option Bytes

-- What the packages document: sizes, that both sides of an exchange agree, and that decryption undoes
-- encryption under one key and nonce.
pub record Documented (c : Primitives) : Type 0 where
  pub hmac_size : (k m : Bytes) → length (c.hmac k m) ≡ 32
  pub hkdf_size :
      (salt secret info : Bytes)
      → (out : Bytes) × (c.hkdf salt secret info 64 ≡ some out) × (length out ≡ 64)
  pub public_size : (a : Bytes) → length a ≡ 32 → length (c.public a) ≡ 32
  pub agree :
      (a b : Bytes)
      → length a ≡ 32
      → length b ≡ 32
      → (z : Bytes) × (c.ecdh a (c.public b) ≡ some z) × (c.ecdh b (c.public a) ≡ some z)
  pub unseal_seal :
      (k n p : Bytes) → length k ≡ 32 → length n ≡ 12 → c.unseal k n (c.seal k n p) ≡ some p

abbrev pub aes_key_size : ℕ
aes_key_size = 32

abbrev pub aes_nonce_size : ℕ
aes_nonce_size = 12

module _ (c : Primitives) where
  -- `chainKDF`: the message key and the next chain key.
  unfoldable pub message_key : Bytes → Bytes
  message_key ck = c.hmac ck (1 ∷ [])

  unfoldable pub next_chain_key : Bytes → Bytes
  next_chain_key ck = c.hmac ck (2 ∷ [])

  -- `rootKDF`: the new root key and a chain key.
  unfoldable pub root_kdf : Bytes → Bytes → Option (Bytes × Bytes)
  root_kdf root_key dh_output = elim (c.hkdf root_key dh_output (bytes "OMEMO Root Chain") 64) [
    | none ↦ none
    | some out ↦ some (take 32 out, drop 32 out)
  ]

  -- `aesGCMEncrypt` with the nonce that it draws.
  unfoldable pub aes_gcm_encrypt : Bytes → Bytes → Bytes → Result OmemoError Bytes
  aes_gcm_encrypt key nonce plaintext =
      if not (eqb (length key) aes_key_size)
      then err invalid_key_length
      else ok (c.seal key nonce plaintext)

  unfoldable pub aes_gcm_decrypt : Bytes → Bytes → Bytes → Result OmemoError Bytes
  aes_gcm_decrypt key nonce ciphertext =
      if not (eqb (length key) aes_key_size)
      then err invalid_key_length
      else if not (eqb (length nonce) aes_nonce_size)
      then err invalid_message
      else or_fail invalid_message (c.unseal key nonce ciphertext)

  -- `decryptWithNonce` of ratchet.go: the nonce stands in front of the ciphertext.
  unfoldable pub decrypt_with_nonce : Bytes → Bytes → Result OmemoError Bytes
  unfolding aes_gcm_decrypt
  decrypt_with_nonce mk data_ =
      if ltb (length data_) aes_nonce_size
      then err invalid_message
      else aes_gcm_decrypt mk (take aes_nonce_size data_) (drop aes_nonce_size data_)
