-- ===== src/Omemo/Wire.antt =====
-- The encodings of crypto/omemo/ratchet_header.go and of the end of ratchet.go. A skipped key's map
-- is written in any order; the model writes it in its own. The state that a failed decoding leaves
-- behind is not modelled, only its error.
pub mod RoundTrip
pub mod State
use xmpp_go.Prelude.{
  ℕ, zero, suc, ◌+◌, ◌*◌, ◌/◌, ◌%◌, ◌^◌, Option, none, some, List, [], ◌∷◌, ◌++◌, Result, ok, err,
  ◌>>=◌, if◌then◌else◌, not, length, eqb, take, drop, list_eq, nat_eq, pair_eq,
}
use xmpp_go.Prelude.Bytes.{Bytes}
use xmpp_go.Prelude.Dict.{Dict, put}
use xmpp_go.Omemo.Primitives.{OmemoError, invalid_message, invalid_key_length}
use xmpp_go.Omemo.Ratchet.{RatchetHeader, RatchetState, SkippedKey, zeros}

-- `binary.BigEndian.PutUint32` and `Uint32`.
unfoldable pub put_uint32 : ℕ → Bytes
put_uint32 n = n / 2 ^ 24 % 256 ∷ n / 2 ^ 16 % 256 ∷ n / 2 ^ 8 % 256 ∷ n % 256 ∷ []

unfoldable pub big_endian : ℕ → Bytes → ℕ
big_endian value [] = value
big_endian value (b ∷ rest) = big_endian (value * 256 + b) rest

unfoldable pub uint32 : Bytes → ℕ
unfolding big_endian
uint32 b = big_endian 0 b

abbrev pub ratchet_header_size : ℕ
ratchet_header_size = 40

unfoldable pub marshal_header : RatchetHeader → Result OmemoError Bytes
unfolding put_uint32
marshal_header h =
    if not (eqb (length h.dh_pub) 32)
    then err invalid_key_length
    else ok (h.dh_pub ++ (put_uint32 h.n ++ put_uint32 h.pn))

unfoldable pub unmarshal_header : Bytes → Result OmemoError RatchetHeader
unfolding uint32
unmarshal_header data_ =
    if not (eqb (length data_) ratchet_header_size)
    then err invalid_message
    else ok (record {
      dh_pub = take 32 data_;
      n = uint32 (take 4 (drop 32 data_));
      pn = uint32 (take 4 (drop 36 data_));
    })

unfoldable pub write_optional_key : Option Bytes → Bytes
write_optional_key none = 0 ∷ []
write_optional_key (some key) = 1 ∷ key

unfoldable pub write_skipped : List (SkippedKey × Bytes) → Bytes
write_skipped [] = []
write_skipped (((dh_pub, n), mk) ∷ l) = dh_pub ++ (put_uint32 n ++ (mk ++ write_skipped l))

unfoldable pub marshal_ratchet : RatchetState → Bytes
marshal_ratchet s =
    s.dhs
    ++ (write_optional_key s.dhr
        ++ (s.rk
            ++ (write_optional_key s.cks
                ++ (write_optional_key s.ckr
                    ++ (put_uint32 s.ns
                        ++ (put_uint32 s.nr
                            ++ (put_uint32 s.pn
                                ++ (put_uint32 (length s.mk_skipped % 2 ^ 32)
                                    ++ write_skipped s.mk_skipped))))))))

-- What is read and what is left to read.
abbrev pub Reading : Type 0 → Type 0
Reading A = Result OmemoError (A × Bytes)

-- `Read` of `bytes.Reader` into a slice with the given contents: it fails only at the end of the
-- data, and where the data are too short it leaves the rest of the slice as it was.
unfoldable pub read_into : Bytes → Bytes → Reading Bytes
read_into old [] = err invalid_message
read_into old (b ∷ r) =
    let got = take (length old) (b ∷ r) in
    ok (got ++ drop (length got) old, drop (length old) (b ∷ r))

unfoldable pub read_byte : Bytes → Reading ℕ
read_byte [] = err invalid_message
read_byte (b ∷ r) = ok (b, r)

-- A key of 32 bytes.
unfoldable pub read_key : Bytes → Reading (Option Bytes)
unfolding read_into
read_key r = read_into (zeros 32) r >>= λ k. ok (some k.0, k.1)

unfoldable pub read_optional_key : Bytes → Reading (Option Bytes)
unfolding read_key read_byte
read_optional_key r =
    read_byte r >>= λ flag. if eqb flag.0 0 then ok (none, flag.1) else read_key flag.1

-- The remote key, which keeps its former value unless the flag is 1.
unfoldable pub read_remote_key : Option Bytes → Bytes → Reading (Option Bytes)
unfolding read_key read_byte
read_remote_key dhr r =
    read_byte r >>= λ flag. if eqb flag.0 1 then read_key flag.1 else ok (dhr, flag.1)

-- The loop over the skipped keys; the buffer of the numbers is the same in all rounds.
unfoldable pub read_skipped :
    ℕ → Bytes → Dict SkippedKey Bytes → Bytes → Result OmemoError (Dict SkippedKey Bytes)
read_skipped zero b d r = ok d
read_skipped (suc count) b d r = read_into (zeros 32) r >>= λ dh_pub. read_into b dh_pub.1 >>= λ n.
    read_into (zeros 32) n.1 >>= λ mk.
    read_skipped count n.0 (put d (dh_pub.0, uint32 n.0) mk.0) mk.1

unfoldable pub unmarshal_ratchet : RatchetState → Bytes → Result OmemoError RatchetState
unmarshal_ratchet s data_ = read_into (zeros 32) data_ >>= λ dhs.
    read_remote_key s.dhr dhs.1 >>= λ dhr. read_into (zeros 32) dhr.1 >>= λ rk.
    read_optional_key rk.1 >>= λ cks. read_optional_key cks.1 >>= λ ckr.
    read_into (zeros 4) ckr.1 >>= λ ns. read_into ns.0 ns.1 >>= λ nr. read_into nr.0 nr.1 >>= λ pn.
    read_into pn.0 pn.1 >>= λ count. read_skipped (uint32 count.0) count.0 [] count.1 >>= λ skipped.
    ok (record {
      dhs = dhs.0;
      dhr = dhr.0;
      rk = rk.0;
      cks = cks.0;
      ckr = ckr.0;
      ns = uint32 ns.0;
      nr = uint32 nr.0;
      pn = uint32 pn.0;
      mk_skipped = skipped;
    })
