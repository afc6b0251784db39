-- ===== src/Omemo/Session/Pending.antt =====
-- How long the messages of a session carry the pre-key part.
use xmpp_go.Prelude.{
  ◌≡◌, refl, ap, ◌∙◌, Bool, true, false, none, List, [], ◌∷◌, Result, ok, err, if◌then◌else◌, ◌&&◌,
  ◌||◌, not, arith, Bool-cases, inl, inr,
}
use xmpp_go.Prelude.Bytes.{Bytes}
use xmpp_go.Omemo.Primitives.{Primitives}
use xmpp_go.Omemo.Ratchet.{RatchetHeader}
use xmpp_go.Omemo.Session.{Session, is_pending, encrypt, decrypt}

-- A call of a session: of Encrypt with a nonce and a plaintext, or of Decrypt with a fresh key, a
-- header and a ciphertext.
pub data Call : Type 0 where
  encrypts : Bytes → Bytes → Call
  decrypts : Bytes → RatchetHeader → Bytes → Call

abbrev pub is_ok : {E A : Type 0} → Result E A → Bool
is_ok (ok _) = true
is_ok (err _) = false

module _ (c : Primitives) where
  -- The session after the calls, the first of the list first.
  unfoldable pub after : List Call → Session → Session
  after [] s = s
  after (encrypts nonce text ∷ calls) s = after calls (encrypt c nonce text s).0
  after (decrypts fresh h ct ∷ calls) s = after calls (decrypt c fresh h ct s).0

  -- Whether one of the calls decrypted a message.
  unfoldable pub heard : List Call → Session → Bool
  heard [] s = false
  heard (encrypts nonce text ∷ calls) s = heard calls (encrypt c nonce text s).0
  heard (decrypts fresh h ct ∷ calls) s =
      is_ok (decrypt c fresh h ct s).1 || heard calls (decrypt c fresh h ct s).0

  encrypt-pending :
      (nonce text : Bytes) (s : Session)
      → (encrypt c nonce text s).0.pending_pre_key ≡ s.pending_pre_key
  unfolding encrypt
  encrypt-pending nonce text s = ground arith

  decrypt-pending :
      (fresh : Bytes) (h : RatchetHeader) (ct : Bytes) (s : Session)
      → (decrypt c fresh h ct s).0.pending_pre_key
        ≡ (if is_ok (decrypt c fresh h ct s).1 then none else s.pending_pre_key)
  unfolding decrypt
  decrypt-pending fresh h ct s = ground arith

  after-pending :
      (calls : List Call) (s : Session)
      → (after calls s).pending_pre_key ≡ (if heard calls s then none else s.pending_pre_key)
  unfolding after heard
  after-pending [] s = refl
  after-pending (encrypts nonce text ∷ calls) s =
      ground (arith, after-pending calls (encrypt c nonce text s).0, encrypt-pending nonce text s)
  after-pending (decrypts fresh h ct ∷ calls) s =
      ground (arith, after-pending calls (decrypt c fresh h ct s).0, decrypt-pending fresh h ct s)

  sent_flag :
      (nonce text sent : Bytes) (header : RatchetHeader) (flag : Bool) (s : Session)
      → (encrypt c nonce text s).1 ≡ ok (header, sent, flag)
      → flag ≡ is_pending s.pending_pre_key
  unfolding encrypt
  sent_flag nonce text sent header flag s e = ground arith

  -- After any calls of Encrypt and Decrypt, in any order, and whichever of them failed, a message that
  -- the session sends is marked as a pre-key message exactly if the session had the part in the
  -- beginning and none of the calls has decrypted a message.
  pub pending_until_reply :
      (calls : List Call) (nonce text sent : Bytes) (header : RatchetHeader) (flag : Bool)
      (s : Session)
      → (encrypt c nonce text (after calls s)).1 ≡ ok (header, sent, flag)
      → flag ≡ (is_pending s.pending_pre_key && not (heard calls s))
  pending_until_reply calls nonce text sent header flag s e =
      let now = sent_flag nonce text sent header flag (after calls s) e in
      let kept = now ∙ ap is_pending (after-pending calls s) in
      elim (Bool-cases (heard calls s)) [
        | inl some_heard ↦ ground (arith, some_heard, kept)
        | inr none_heard ↦ ground (arith, none_heard, kept)
      ]
