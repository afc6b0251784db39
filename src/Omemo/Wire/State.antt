-- ===== src/Omemo/Wire/State.antt =====
-- The whole ratchet state is read back as it was written.
use mathlib.Core.List.{append-nil}
use xmpp_go.Prelude.{
  ℕ, zero, suc, ◌%◌, ◌^◌, ◌≤◌, ◌<◌, ◌≡◌, refl, sym, ap, ◌∙◌, false, Option, none, some, List, [],
  ◌∷◌, ◌++◌, ok, length, drop, take-append, drop-append, list_eq, nat_eq, pair_eq, arith, ◌==◌,
  eq_iff,
}
use xmpp_go.Prelude.Bytes.{Bytes}
use xmpp_go.Prelude.Dict.{Dict, get, put, IsDistinct}
use xmpp_go.Omemo.Ratchet.{RatchetState, SkippedKey, zeros}
use xmpp_go.Omemo.Wire.{
  put_uint32, write_optional_key, write_skipped, marshal_ratchet, read_into, read_byte, read_key,
  read_optional_key, read_remote_key, read_skipped, unmarshal_ratchet,
}
use xmpp_go.Omemo.Wire.RoundTrip.{uint32-put_uint32, length-put_uint32}

drop_all : (n : ℕ) (b : Bytes) → length b ≤ n → drop n b ≡ []
drop_all zero [] h = refl
drop_all zero (x ∷ b) h = absurd (omega arith)
drop_all (suc n) [] h = refl
drop_all (suc n) (x ∷ b) h = drop_all n b (omega arith)

-- A slice is filled by the data in front.
read_into_lem :
    (old b r : Bytes) → length b ≡ length old → 0 < length old → read_into old (b ++ r) ≡ ok (b, r)
unfolding read_into
read_into_lem old [] r e p = absurd (omega arith)
read_into_lem old (x ∷ b) r e p =
    rw
      (
        take-append (length old) (x ∷ b) r e,
        drop-append (length old) (x ∷ b) r e,
        drop_all (suc (length b)) old (omega arith),
        append-nil b,
      )
      refl

read_number :
    (old r : Bytes) (n : ℕ)
    → length old ≡ 4
    → read_into old (put_uint32 n ++ r) ≡ ok (put_uint32 n, r)
read_number old r n e =
    read_into_lem old (put_uint32 n) r (omega (arith, length-put_uint32 n)) (omega arith)

read_32 : (b r : Bytes) → length b ≡ 32 → read_into (zeros 32) (b ++ r) ≡ ok (b, r)
read_32 b r e = read_into_lem (zeros 32) b r e (omega arith)

-- A nil key or one of 32 bytes.
abbrev pub IsOptionalKey : Option Bytes → Type 0
IsOptionalKey none = Unit
IsOptionalKey (some key) = length key ≡ 32

read_key_lem : (b r : Bytes) → length b ≡ 32 → read_key (b ++ r) ≡ ok (some b, r)
unfolding read_key
read_key_lem b r e = rw (read_32 b r e) refl

read_optional_key-write :
    (key : Option Bytes) (r : Bytes)
    → IsOptionalKey key
    → read_optional_key (write_optional_key key ++ r) ≡ ok (key, r)
unfolding read_optional_key write_optional_key read_byte
read_optional_key-write none r h = refl
read_optional_key-write (some key) r h = read_key_lem key r h

read_remote_key-write :
    (key : Option Bytes) (r : Bytes)
    → IsOptionalKey key
    → read_remote_key none (write_optional_key key ++ r) ≡ ok (key, r)
unfolding read_remote_key write_optional_key read_byte
read_remote_key-write none r h = refl
read_remote_key-write (some key) r h = read_key_lem key r h

-- The entries have keys of 32 bytes and numbers of 32 bits.
abbrev pub AreWritten : List (SkippedKey × Bytes) → Type 0
AreWritten [] = Unit
AreWritten (((dh_pub, n), mk) ∷ l) =
    (length dh_pub ≡ 32) × (n < 2 ^ 32) × (length mk ≡ 32) × AreWritten l

differs_front :
    (d l : Dict SkippedKey Bytes) (k j : SkippedKey) (v : Bytes)
    → get (d ++ ((k, v) ∷ l)) j ≡ none
    → (j == k) ≡ false
unfolding get
differs_front [] l k j v h = ground (arith, eq_iff k j, eq_iff j k)
differs_front ((i, w) ∷ d) l k j v h = ground (arith, differs_front d l k j v)

get-none_front :
    (d l : Dict SkippedKey Bytes) (k : SkippedKey) (v : Bytes)
    → IsDistinct (d ++ ((k, v) ∷ l))
    → get d k ≡ none
unfolding get
get-none_front [] l k v h = refl
get-none_front ((j, w) ∷ d) l k v h =
    ground (arith, get-none_front d l k v h.1, differs_front d l k j v h.0)

put_new :
    (d : Dict SkippedKey Bytes) (k : SkippedKey) (v : Bytes)
    → get d k ≡ none
    → put d k v ≡ d ++ ((k, v) ∷ [])
unfolding get put
put_new [] k v h = refl
put_new ((j, w) ∷ d) k v h = ground (arith, put_new d k v)

append_one :
    (d l : Dict SkippedKey Bytes) (x : SkippedKey × Bytes) → (d ++ (x ∷ [])) ++ l ≡ d ++ (x ∷ l)
append_one [] l x = refl
append_one (y ∷ d) l x = ap (◌∷◌ y) (append_one d l x)

read_skipped-write :
    (l d : Dict SkippedKey Bytes) (b : Bytes)
    → length b ≡ 4
    → AreWritten l
    → IsDistinct (d ++ l)
    → read_skipped (length l) b d (write_skipped l) ≡ ok (d ++ l)
unfolding read_skipped write_skipped
read_skipped-write [] d b e w h = ap ok (sym (append-nil d))
read_skipped-write (((p, n), mk) ∷ l) d b e w h =
    let rest = write_skipped l in
    let added = put_new d (p, n) mk (get-none_front d l (p, n) mk h) in
    let joined = append_one d l ((p, n), mk) in
    rw
      (
        read_32 p (put_uint32 n ++ (mk ++ rest)) w.0,
        read_number b (mk ++ rest) n e,
        read_32 mk rest w.2,
        uint32-put_uint32 n w.1,
        added,
      )
      (read_skipped-write l (d ++ (((p, n), mk) ∷ [])) (put_uint32 n) (length-put_uint32 n) w.3
          (rw joined h)
        ∙ ap ok joined)

-- What a state of the ratchet is: private and root keys of 32 bytes, optional keys of 32 bytes,
-- counters of 32 bits, and no more skipped keys than a counter counts, each under one key.
pub record IsStored (s : RatchetState) : Type 0 where
  pub dhs : length s.dhs ≡ 32
  pub rk : length s.rk ≡ 32
  pub dhr : IsOptionalKey s.dhr
  pub cks : IsOptionalKey s.cks
  pub ckr : IsOptionalKey s.ckr
  pub ns : s.ns < 2 ^ 32
  pub nr : s.nr < 2 ^ 32
  pub pn : s.pn < 2 ^ 32
  pub count : length s.mk_skipped < 2 ^ 32
  pub entries : AreWritten s.mk_skipped
  pub distinct : IsDistinct s.mk_skipped

-- A state with keys of 32 bytes, counters of 32 bits and distinct skipped keys is read back exactly
-- as it was written, skipped keys included, by a state that has no remote key yet.
pub unmarshal_ratchet-marshal_ratchet :
    (s t : RatchetState)
    → IsStored s
    → t.dhr ≡ none
    → unmarshal_ratchet t (marshal_ratchet s) ≡ ok s
unfolding unmarshal_ratchet marshal_ratchet
unmarshal_ratchet-marshal_ratchet s t h fresh =
    let count : length s.mk_skipped % 2 ^ 32 ≡ length s.mk_skipped = omega (arith, h.count) in
    rw
      (
        count,
        fresh,
        read_32 s.dhs _ h.dhs,
        read_remote_key-write s.dhr _ h.dhr,
        read_32 s.rk _ h.rk,
        read_optional_key-write s.cks _ h.cks,
        read_optional_key-write s.ckr _ h.ckr,
        read_number (zeros 4) _ s.ns refl,
        read_number (put_uint32 s.ns) _ s.nr (length-put_uint32 s.ns),
        read_number (put_uint32 s.nr) _ s.pn (length-put_uint32 s.nr),
        read_number (put_uint32 s.pn) _ (length s.mk_skipped) (length-put_uint32 s.pn),
        uint32-put_uint32 s.ns h.ns,
        uint32-put_uint32 s.nr h.nr,
        uint32-put_uint32 s.pn h.pn,
        uint32-put_uint32 (length s.mk_skipped) h.count,
        read_skipped-write s.mk_skipped [] (put_uint32 (length s.mk_skipped))
            (length-put_uint32 (length s.mk_skipped)) h.entries h.distinct,
      )
      refl
