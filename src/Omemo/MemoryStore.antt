-- ===== src/Omemo/MemoryStore.antt =====
-- crypto/omemo/memory_store.go: the in-memory `Store`, with trust on first use. Saved records are
-- shared pointers in the source; callers hand them over and do not write to them afterwards, so they
-- are values here. Session data are copied in and out.
pub mod Trust
use xmpp_go.Prelude.{
  ℕ, Bool, true, false, Option, none, some, [], Result, or_fail, ◌==◌, list_eq, nat_eq, pair_eq,
}
use xmpp_go.Prelude.Bytes.{Bytes}
use xmpp_go.Prelude.Dict.{Dict, get, put, remove}

-- The errors of errors.go that the store reports.
pub data StoreError : Type 0 where
  no_pre_key no_session : StoreError

-- A JID and a device id.
abbrev pub Address : Type 0
Address = Bytes × ℕ

pub record IdentityKeyPair : Type 0 where
  pub private_key : Bytes
  pub public_key : Bytes

pub record PreKeyRecord : Type 0 where
  pub id : ℕ
  pub private_key : Bytes
  pub public_key : Bytes

pub record SignedPreKeyRecord : Type 0 where
  pub id : ℕ
  pub private_key : Bytes
  pub public_key : Bytes
  pub signature : Bytes

pub record MemoryStore : Type 0 where
  pub identity_key : Option IdentityKeyPair
  pub device_id : ℕ
  pub remote_keys : Dict Address Bytes
  pub pre_keys : Dict ℕ PreKeyRecord
  pub signed_pre_keys : Dict ℕ SignedPreKeyRecord
  pub sessions : Dict Address Bytes

unfoldable pub new_memory_store : ℕ → MemoryStore
new_memory_store device_id = record {
  identity_key = none;
  device_id = device_id;
  remote_keys = [];
  pre_keys = [];
  signed_pre_keys = [];
  sessions = [];
}

unfoldable pub get_identity_key_pair : MemoryStore → Option IdentityKeyPair
get_identity_key_pair s = s.identity_key

unfoldable pub save_identity_key_pair : IdentityKeyPair → MemoryStore → MemoryStore
save_identity_key_pair ikp s = record s { identity_key = some ikp }

unfoldable pub get_local_device_id : MemoryStore → ℕ
get_local_device_id s = s.device_id

-- A nil key where none is known.
unfoldable pub get_remote_identity : Address → MemoryStore → Option Bytes
get_remote_identity addr s = get s.remote_keys addr

unfoldable pub save_remote_identity : Address → Bytes → MemoryStore → MemoryStore
save_remote_identity addr key s = record s { remote_keys = put s.remote_keys addr key }

unfoldable pub is_trusted : Address → Bytes → MemoryStore → Bool
is_trusted addr key s = elim (get s.remote_keys addr) [
  | none ↦ true
  | some existing ↦ existing == key
]

unfoldable pub get_pre_key : ℕ → MemoryStore → Result StoreError PreKeyRecord
get_pre_key id s = or_fail no_pre_key (get s.pre_keys id)

unfoldable pub save_pre_key : PreKeyRecord → MemoryStore → MemoryStore
save_pre_key r s = record s { pre_keys = put s.pre_keys r.id r }

unfoldable pub remove_pre_key : ℕ → MemoryStore → MemoryStore
remove_pre_key id s = record s { pre_keys = remove s.pre_keys id }

unfoldable pub get_signed_pre_key : ℕ → MemoryStore → Result StoreError SignedPreKeyRecord
get_signed_pre_key id s = or_fail no_pre_key (get s.signed_pre_keys id)

unfoldable pub save_signed_pre_key : SignedPreKeyRecord → MemoryStore → MemoryStore
save_signed_pre_key r s = record s { signed_pre_keys = put s.signed_pre_keys r.id r }

unfoldable pub get_session : Address → MemoryStore → Result StoreError Bytes
get_session addr s = or_fail no_session (get s.sessions addr)

unfoldable pub save_session : Address → Bytes → MemoryStore → MemoryStore
save_session addr data_ s = record s { sessions = put s.sessions addr data_ }

unfoldable pub contains_session : Address → MemoryStore → Bool
contains_session addr s = elim (get s.sessions addr) [ none ↦ false | some _ ↦ true ]
