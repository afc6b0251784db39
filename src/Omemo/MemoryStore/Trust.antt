-- ===== src/Omemo/MemoryStore/Trust.antt =====
-- Trust on first use, one-time keys and sessions.
use xmpp_go.Prelude.{
  ℕ, ◌≡◌, ◌↔◌, ◌⊎◌, inl, inr, true, none, some, ok, err, ◌==◌, eq_iff, eq_refl, if◌then◌else◌,
  list_eq, nat_eq, pair_eq, arith, Option-cases,
}
use xmpp_go.Prelude.Bytes.{Bytes}
use xmpp_go.Prelude.Dict.{get, put, get-put, get-remove}
use xmpp_go.Omemo.MemoryStore.{
  MemoryStore, Address, PreKeyRecord, no_pre_key, get_remote_identity, save_remote_identity,
  is_trusted, get_pre_key, save_pre_key, remove_pre_key, get_session, save_session,
  contains_session,
}

-- A key is trusted exactly if its device is unknown or has that very key; once a key is saved for
-- a device, it is the only one trusted there, and the trust in any other device is unchanged.
pub is_trusted_exact :
    (s : MemoryStore) (addr other : Address) (key key' : Bytes)
    → ((is_trusted addr key s ≡ true)
        ↔ ((get_remote_identity addr s ≡ none) ⊎ (get_remote_identity addr s ≡ some key)))
      × (is_trusted other key' (save_remote_identity addr key s)
          ≡ (if addr == other then key == key' else is_trusted other key' s))
unfolding is_trusted get_remote_identity save_remote_identity
is_trusted_exact s addr other key key' = (
  (accepted, λ h. ground (arith, eq_refl key)),
  ground (arith, get-put s.remote_keys addr other key),
)
  where
    accepted :
        is_trusted addr key s ≡ true
        → (get_remote_identity addr s ≡ none) ⊎ (get_remote_identity addr s ≡ some key)
    accepted h = elim (Option-cases (get s.remote_keys addr)) [
      | inl e ↦ inl e
      | inr (k, e) ↦ inr (ground (arith, eq_iff k key))
    ]

-- A one-time key that is saved is read back under its own number until it is removed, and then no
-- more, and no other key is touched by either.
pub pre_key_once :
    (s : MemoryStore) (r : PreKeyRecord) (id : ℕ)
    → (get_pre_key id (save_pre_key r s) ≡ (if r.id == id then ok r else get_pre_key id s))
      × (get_pre_key id (remove_pre_key r.id (save_pre_key r s))
          ≡ (if r.id == id then err no_pre_key else get_pre_key id s))
unfolding get_pre_key save_pre_key remove_pre_key
pre_key_once s r id = (
  ground (arith, get-put s.pre_keys r.id id r),
  ground (arith, get-put s.pre_keys r.id id r, get-remove (put s.pre_keys r.id r) r.id id),
)

-- A saved session is the one that is loaded for its address, and there is a session for an address
-- exactly if loading it succeeds.
pub session_roundtrip :
    (s : MemoryStore) (addr other : Address) (data_ : Bytes)
    → (get_session other (save_session addr data_ s)
        ≡ (if addr == other then ok data_ else get_session other s))
      × ((contains_session other s ≡ true) ↔ ((d : Bytes) × (get_session other s ≡ ok d)))
unfolding get_session save_session contains_session
session_roundtrip s addr other data_ =
    (ground (arith, get-put s.sessions addr other data_), (found, λ (d, h). ground arith))
  where
    found : contains_session other s ≡ true → (d : Bytes) × (get_session other s ≡ ok d)
    found h = elim (Option-cases (get s.sessions other)) [
      | inl e ↦ absurd (ground arith)
      | inr (d, e) ↦ (d, ground arith)
    ]
