-- ===== src/Omemo/Wire/RoundTrip.antt =====
-- What is written is read back.
use xmpp_go.Prelude.{
  ℕ, ◌^◌, ◌<◌, ◌≡◌, refl, sym, ap, ◌∙◌, Bool, true, [], ◌∷◌, ◌++◌, ok, ◌>>=◌, length, length-append,
  length-take, length-drop, take, drop, take-append, drop-append, take-append-drop, take_all,
  drop-drop, list_eq, nat_eq, pair_eq, arith, eq_iff, all, ltb,
}
use xmpp_go.Prelude.Bytes.{Bytes}
use xmpp_go.Omemo.Ratchet.{RatchetHeader}
use xmpp_go.Omemo.Wire.{put_uint32, big_endian, uint32, marshal_header, unmarshal_header}

pub uint32-put_uint32 : (n : ℕ) → n < 2 ^ 32 → uint32 (put_uint32 n) ≡ n
unfolding uint32 put_uint32 big_endian
uint32-put_uint32 n h = omega arith

pub length-put_uint32 : (n : ℕ) → length (put_uint32 n) ≡ 4
unfolding put_uint32
length-put_uint32 n = omega arith

put_uint32-uint32 :
    (b : Bytes) → length b ≡ 4 → all (λ x. ltb x 256) b ≡ true → put_uint32 (uint32 b) ≡ b
unfolding uint32 put_uint32 big_endian
put_uint32-uint32 [] l h = absurd (omega arith)
put_uint32-uint32 (w ∷ []) l h = absurd (omega arith)
put_uint32-uint32 (w ∷ x ∷ []) l h = absurd (omega arith)
put_uint32-uint32 (w ∷ x ∷ y ∷ []) l h = absurd (omega arith)
put_uint32-uint32 (w ∷ x ∷ y ∷ z ∷ v ∷ b) l h = absurd (omega arith)
put_uint32-uint32 (w ∷ x ∷ y ∷ z ∷ []) l h = ground arith

-- The two numbers behind a key.
numbers_lem :
    (key n pn : Bytes)
    → length key ≡ 32
    → length n ≡ 4
    → length pn ≡ 4
    → unmarshal_header (key ++ (n ++ pn))
      ≡ ok (record { dh_pub = key; n = uint32 n; pn = uint32 pn })
unfolding unmarshal_header
numbers_lem key n pn lk ln lp =
    let data_ = key ++ (n ++ pn) in
    let size : length data_ ≡ 40 = omega (arith, length-append key (n ++ pn), length-append n pn) in
    let behind : drop 32 data_ ≡ n ++ pn = drop-append 32 key (n ++ pn) lk in
    let last : drop 36 data_ ≡ pn =
      sym (drop-drop 32 4 data_) ∙ ap (drop 4) behind ∙ drop-append 4 n pn ln in
    rw
      (
        size,
        behind,
        last,
        take-append 32 key (n ++ pn) lk,
        take-append 4 n pn ln,
        take_all 4 pn (omega arith),
      )
      refl

marshal_header_lem :
    (h : RatchetHeader)
    → length h.dh_pub ≡ 32
    → marshal_header h ≡ ok (h.dh_pub ++ (put_uint32 h.n ++ put_uint32 h.pn))
unfolding marshal_header
marshal_header_lem h l = ground arith

-- A header with a key of 32 bytes is written, and what is written is read back as that header.
pub unmarshal_header-marshal_header :
    (h : RatchetHeader)
    → length h.dh_pub ≡ 32
    → h.n < 2 ^ 32
    → h.pn < 2 ^ 32
    → (marshal_header h >>= unmarshal_header) ≡ ok h
unmarshal_header-marshal_header h l bn bp = rw (marshal_header_lem h l) (
    rw
      (
        numbers_lem h.dh_pub (put_uint32 h.n) (put_uint32 h.pn) l (length-put_uint32 h.n)
            (length-put_uint32 h.pn),
        uint32-put_uint32 h.n bn,
        uint32-put_uint32 h.pn bp,
      )
      refl)

unmarshal_header-size :
    (data_ : Bytes) (h : RatchetHeader) → unmarshal_header data_ ≡ ok h → length data_ ≡ 40
unfolding unmarshal_header
unmarshal_header-size data_ h e = ground (arith, eq_iff (length data_) 40)

all-append_right :
    (p : ℕ → Bool) (xs ys : Bytes) → all p (xs ++ ys) ≡ true → (all p xs ≡ true) × (all p ys ≡ true)
all-append_right p [] ys h = (refl, h)
all-append_right p (x ∷ xs) ys h = ground (arith, all-append_right p xs ys)

-- Any 40 bytes are a header, and writing that header gives the same bytes again.
pub marshal_header-unmarshal_header :
    (data_ : Bytes)
    → length data_ ≡ 40
    → all (λ b. ltb b 256) data_ ≡ true
    → (unmarshal_header data_ >>= marshal_header) ≡ ok data_
marshal_header-unmarshal_header data_ l h =
    let key = take 32 data_ in
    let rest = drop 32 data_ in
    let n = take 4 rest in
    let pn = drop 4 rest in
    let split : key ++ (n ++ pn) ≡ data_ =
      ap (λ x. key ++ x) (take-append-drop 4 rest) ∙ take-append-drop 32 data_ in
    let lk : length key ≡ 32 = omega (arith, length-take 32 data_) in
    let ln : length n ≡ 4 = omega (arith, length-take 4 rest, length-drop 32 data_) in
    let lp : length pn ≡ 4 = omega (arith, length-drop 4 rest, length-drop 32 data_) in
    let (hk, hr) =
      all-append_right (λ b. ltb b 256) key (n ++ pn) (ap (all (λ b. ltb b 256)) split ∙ h) in
    let (hn, hp) = all-append_right (λ b. ltb b 256) n pn hr in
    let read = ap unmarshal_header (sym split) ∙ numbers_lem key n pn lk ln lp in
    rw read (
      marshal_header_lem (record { dh_pub = key; n = uint32 n; pn = uint32 pn }) lk
      ∙ ap ok (rw (put_uint32-uint32 n ln hn, put_uint32-uint32 pn lp hp) split))
