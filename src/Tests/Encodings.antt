-- ===== src/Tests/Encodings.antt =====
-- Concrete headers, ratchet states and key stores.
use xmpp_go.Prelude.{
  ◌++◌, drop, length, ◌≡◌, ◌↔◌, ◌⊎◌, refl, true, none, some, [], ◌∷◌, ok, ◌>>=◌, arith, list_eq,
  nat_eq, pair_eq,
}
use xmpp_go.Prelude.Bytes.{Bytes, bytes}
use xmpp_go.Prelude.Dict.{get}
use xmpp_go.Omemo.Ratchet.{RatchetState, RatchetHeader, zeros}
use xmpp_go.Omemo.Wire.{marshal_header, unmarshal_header, marshal_ratchet, unmarshal_ratchet}
use xmpp_go.Omemo.Wire.RoundTrip.{unmarshal_header-marshal_header}
use xmpp_go.Omemo.Wire.State.{IsStored, unmarshal_ratchet-marshal_ratchet}
use xmpp_go.Omemo.Session.{Session, loads, panics, marshal_session, unmarshal_session}
use xmpp_go.Omemo.Session.Codec.{unmarshal_session-marshal_session, unmarshal_session-panics}
use xmpp_go.Omemo.MemoryStore.{
  MemoryStore, Address, new_memory_store, get_remote_identity, save_remote_identity, is_trusted,
}
use xmpp_go.Omemo.MemoryStore.Trust.{is_trusted_exact}

abbrev key : Bytes
key = 3 ∷ zeros 31

abbrev third : RatchetHeader
third = record { dh_pub = key; n = 3; pn = 70000 }

unmarshal_header-marshal_header_example : (marshal_header third >>= unmarshal_header) ≡ ok third
unmarshal_header-marshal_header_example =
    unmarshal_header-marshal_header third refl (omega arith) (omega arith)

abbrev blank : RatchetState
blank = record {
  dhs = [];
  dhr = none;
  rk = [];
  cks = none;
  ckr = none;
  ns = 0;
  nr = 0;
  pn = 0;
  mk_skipped = [];
}

abbrev busy : RatchetState
busy = record {
  dhs = key;
  dhr = some key;
  rk = key;
  cks = none;
  ckr = some key;
  ns = 1;
  nr = 300;
  pn = 2;
  mk_skipped = ((key, 298), key) ∷ ((key, 299), key) ∷ [];
}

busy-IsStored : IsStored busy
unfolding get
busy-IsStored = record {
  dhs = refl;
  rk = refl;
  dhr = refl;
  cks = tt;
  ckr = refl;
  ns = omega arith;
  nr = omega arith;
  pn = omega arith;
  count = omega arith;
  entries = (refl, omega arith, refl, (refl, omega arith, refl, tt));
  distinct = (refl, (refl, tt));
}

unmarshal_ratchet-marshal_ratchet_example : unmarshal_ratchet blank (marshal_ratchet busy) ≡ ok busy
unmarshal_ratchet-marshal_ratchet_example =
    unmarshal_ratchet-marshal_ratchet busy blank busy-IsStored refl

abbrev phone : Address
phone = (bytes "bob@example.org", 7)

abbrev laptop : Address
laptop = (bytes "bob@example.org", 8)

abbrev keys : MemoryStore
keys = new_memory_store 1

is_trusted_exact_example :
    ((is_trusted phone key keys ≡ true)
      ↔ ((get_remote_identity phone keys ≡ none) ⊎ (get_remote_identity phone keys ≡ some key)))
    × (is_trusted laptop [] (save_remote_identity phone key keys) ≡ is_trusted laptop [] keys)
is_trusted_exact_example = is_trusted_exact keys phone laptop key []

abbrev open_session : Session
open_session = record {
  ratchet = busy;
  remote_identity = key;
  pending_pre_key =
      some (record { pre_key_id = some 70000; signed_pre_key_id = 1; ephemeral_pub_key = key });
}

unmarshal_session-marshal_session_example :
    unmarshal_session none (marshal_session open_session) ≡ loads open_session
unmarshal_session-marshal_session_example =
    unmarshal_session-marshal_session open_session refl (omega arith, omega arith, refl)
      busy-IsStored

unmarshal_session-panics_example :
    (unmarshal_session none (zeros 32 ++ 1 ∷ []) ≡ panics)
    ↔ ((length (zeros 32 ++ 1 ∷ []) ≡ 33) × (drop 32 (zeros 32 ++ 1 ∷ []) ≡ 1 ∷ []))
unmarshal_session-panics_example = unmarshal_session-panics none (zeros 32 ++ 1 ∷ [])
