-- ===== src/Omemo/Session/Codec.antt =====
-- Sessions are read back as written; which data make the decoder panic.
use mathlib.Core.List.{append_assoc}
use xmpp_go.Prelude.{
  ℕ, ◌≤◌, ◌<◌, ◌^◌, ◌≡◌, ◌≢◌, ◌↔◌, refl, sym, ap, ◌∙◌, false, Option, none, some, [], ◌∷◌, ◌++◌,
  length, ltb, take, drop, length-append, length-drop, take-append, drop-append, drop-drop, arith,
  Bool-cases, inl, inr,
}
use xmpp_go.Prelude.Bytes.{Bytes}
use xmpp_go.Omemo.Ratchet.{RatchetState}
use xmpp_go.Omemo.Wire.{put_uint32, uint32, marshal_ratchet}
use xmpp_go.Omemo.Wire.RoundTrip.{uint32-put_uint32, length-put_uint32}
use xmpp_go.Omemo.Wire.State.{IsStored, unmarshal_ratchet-marshal_ratchet}
use xmpp_go.Omemo.Session.{
  Session, PendingPreKey, panics, loads, blank, write_pre_key_id, write_pending, marshal_session,
  load_ratchet, load_keys, load_pending, load_flag, unmarshal_session,
}

load_ratchet-marshal :
    (remote : Bytes) (pending : Option PendingPreKey) (r : RatchetState)
    → IsStored r
    → load_ratchet remote pending (marshal_ratchet r)
      ≡ loads (record { ratchet = r; remote_identity = remote; pending_pre_key = pending })
unfolding load_ratchet
load_ratchet-marshal remote pending r h =
    rw (load_ratchet, unmarshal_ratchet-marshal_ratchet r blank h refl) refl

not_shorter : (m n : ℕ) → n ≤ m → ltb m n ≡ false
not_shorter m n h = ground arith

abbrev pub IsNumber : Option ℕ → Type 0
IsNumber none = Unit
IsNumber (some id) = id < 2 ^ 32

some_flag : (p : Option PendingPreKey) (r : Bytes) → 0 < length (write_pending p ++ r)
unfolding write_pending
some_flag none r = omega arith
some_flag (some p) r = omega arith

load_keys_lem :
    (remote n key rest : Bytes) (id : Option ℕ)
    → length n ≡ 4
    → length key ≡ 32
    → load_keys remote id (n ++ (key ++ rest))
      ≡ load_ratchet remote
          (some (record { pre_key_id = id; signed_pre_key_id = uint32 n; ephemeral_pub_key = key }))
          rest
unfolding load_keys load_ratchet
load_keys_lem remote n key rest id ln lk =
    let data_ = n ++ (key ++ rest) in
    let size = length-append n (key ++ rest) in
    let size' = length-append key rest in
    let long : ltb (length data_) 4 ≡ false = not_shorter (length data_) 4 (omega arith) in
    let longer : ltb (length data_) 36 ≡ false = not_shorter (length data_) 36 (omega arith) in
    let behind : drop 4 data_ ≡ key ++ rest = drop-append 4 n (key ++ rest) ln in
    let last : drop 36 data_ ≡ rest =
      sym (drop-drop 4 32 data_) ∙ ap (drop 32) behind ∙ drop-append 32 key rest lk in
    rw
      (
        load_keys,
        long,
        longer,
        last,
        behind,
        take-append 4 n (key ++ rest) ln,
        take-append 32 key rest lk,
      )
      refl

-- What a pre-key part is: numbers of 32 bits and a key of 32 bytes.
abbrev pub IsPart : Option PendingPreKey → Type 0
IsPart none = Unit
IsPart (some p) =
    IsNumber p.pre_key_id × (p.signed_pre_key_id < 2 ^ 32) × (length p.ephemeral_pub_key ≡ 32)

load_keys-write :
    (remote rest key : Bytes) (id : Option ℕ) (spk : ℕ)
    → spk < 2 ^ 32
    → length key ≡ 32
    → load_keys remote id ((put_uint32 spk ++ key) ++ rest)
      ≡ load_ratchet remote
          (some (record { pre_key_id = id; signed_pre_key_id = spk; ephemeral_pub_key = key }))
          rest
load_keys-write remote rest key id spk b l =
    ap (load_keys remote id) (append_assoc (put_uint32 spk) key rest)
    ∙ load_keys_lem remote (put_uint32 spk) key rest id (length-put_uint32 spk) l
    ∙ ap
        (λ n.
          load_ratchet remote
            (some (record { pre_key_id = id; signed_pre_key_id = n; ephemeral_pub_key = key }))
            rest)
        (uint32-put_uint32 spk b)

load_pending-write :
    (remote rest key : Bytes) (id : Option ℕ) (spk : ℕ)
    → IsNumber id
    → spk < 2 ^ 32
    → length key ≡ 32
    → load_pending remote (write_pre_key_id id ++ ((put_uint32 spk ++ key) ++ rest))
      ≡ load_ratchet remote
          (some (record { pre_key_id = id; signed_pre_key_id = spk; ephemeral_pub_key = key }))
          rest
unfolding load_pending write_pre_key_id
load_pending-write remote rest key none spk i b l = load_keys-write remote rest key none spk b l
load_pending-write remote rest key (some id) spk i b l =
    let tail = (put_uint32 spk ++ key) ++ rest in
    let size = length-put_uint32 id in
    let long : ltb (length (put_uint32 id ++ tail)) 4 ≡ false =
      not_shorter _ 4 (omega (arith, size, length-append (put_uint32 id) tail)) in
    rw
      (
        long,
        take-append 4 (put_uint32 id) tail size,
        drop-append 4 (put_uint32 id) tail size,
        uint32-put_uint32 id i,
      )
      (load_keys-write remote rest key (some id) spk b l)

load_flag-write :
    (remote : Bytes) (pending : Option PendingPreKey) (r : RatchetState)
    → IsPart pending
    → IsStored r
    → load_flag remote none (write_pending pending ++ marshal_ratchet r)
      ≡ loads (record { ratchet = r; remote_identity = remote; pending_pre_key = pending })
unfolding load_flag write_pending
load_flag-write remote none r h k = load_ratchet-marshal remote none r k
load_flag-write remote (some p) r h k =
    rw
      (append_assoc (write_pre_key_id p.pre_key_id)
        (put_uint32 p.signed_pre_key_id ++ p.ephemeral_pub_key) (marshal_ratchet r))
      (load_pending-write remote (marshal_ratchet r) p.ephemeral_pub_key p.pre_key_id
          p.signed_pre_key_id h.0 h.1 h.2
        ∙ load_ratchet-marshal remote (some p) r k)

-- A session with keys of 32 bytes and numbers of 32 bits is read back exactly as it was written, by a
-- session that has no pre-key part.
pub unmarshal_session-marshal_session :
    (s : Session)
    → length s.remote_identity ≡ 32
    → IsPart s.pending_pre_key
    → IsStored s.ratchet
    → unmarshal_session none (marshal_session s) ≡ loads s
unfolding marshal_session unmarshal_session
unmarshal_session-marshal_session s l h k =
    let rest = write_pending s.pending_pre_key ++ marshal_ratchet s.ratchet in
    let long : ltb (length (s.remote_identity ++ rest)) 33 ≡ false = not_shorter _ 33 (
      omega (
        arith,
        l,
        length-append s.remote_identity rest,
        some_flag s.pending_pre_key (marshal_ratchet s.ratchet),
      )) in
    rw
      (
        unmarshal_session,
        long,
        take-append 32 s.remote_identity rest l,
        drop-append 32 s.remote_identity rest l,
      )
      (load_flag-write s.remote_identity s.pending_pre_key s.ratchet h k)

load_ratchet_returns :
    (remote rest : Bytes) (pending : Option PendingPreKey)
    → load_ratchet remote pending rest ≢ panics
unfolding load_ratchet
load_ratchet_returns remote rest pending = ground arith

load_keys_returns : (remote rest : Bytes) (id : Option ℕ) → load_keys remote id rest ≢ panics
unfolding load_keys
load_keys_returns remote rest id =
    let p : PendingPreKey = record {
      pre_key_id = id;
      signed_pre_key_id = uint32 (take 4 rest);
      ephemeral_pub_key = take 32 (drop 4 rest);
    } in
    elim (Bool-cases (ltb (length rest) 4)) [
      | inl e ↦ rw (e, load_keys) (λ q. cc)
      | inr e ↦ elim (Bool-cases (ltb (length rest) 36)) [
        | inl f ↦ rw (e, f, load_keys) (λ q. cc)
        | inr f ↦ rw (e, f, load_keys) (load_ratchet_returns remote (drop 36 rest) (some p))
      ]
    ]

load_flag-panics :
    (remote : Bytes) (pending : Option PendingPreKey) (b : Bytes)
    → 0 < length b
    → (load_flag remote pending b ≡ panics) ↔ (b ≡ 1 ∷ [])
unfolding load_flag load_pending
load_flag-panics remote pending [] h = absurd (omega arith)
load_flag-panics remote pending (flag ∷ []) h =
    ground (arith, load_ratchet_returns remote [] pending)
load_flag-panics remote pending (flag ∷ x ∷ b) h = ground (
  arith,
  load_ratchet_returns remote (x ∷ b) pending,
  load_keys_returns remote (drop 4 b) (some (uint32 (take 4 b))),
  load_keys_returns remote b none,
)

-- Decoding panics on exactly the data of 33 bytes that end in the flag of a pre-key part.
pub unmarshal_session-panics :
    (pending : Option PendingPreKey) (data_ : Bytes)
    → (unmarshal_session pending data_ ≡ panics) ↔ ((length data_ ≡ 33) × (drop 32 data_ ≡ 1 ∷ []))
unfolding unmarshal_session
unmarshal_session-panics pending data_ = elim (Bool-cases (ltb (length data_) 33)) [
  | inl short ↦ ground (arith, length-drop 32 data_)
  | inr long ↦
      let behind = drop 32 data_ in
      let some_left : 0 < length behind = ground (arith, length-drop 32 data_) in
      let (there, back) = load_flag-panics (take 32 data_) pending behind some_left in
      rw (long, unmarshal_session)
        (
          λ e. (omega (arith, ap length (there e), length-drop 32 data_, some_left), there e),
          λ (l, e). back e,
        )
]
