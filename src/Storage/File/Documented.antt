-- ===== src/Storage/File/Documented.antt =====
-- What package encoding/json documents of the values that storage/file/file.go writes: strings of
-- valid UTF-8 read back, others come back changed; an `int` reads back; a `time.Time` reads back to
-- the nanosecond up to the year 9999; a map is written in the order of its keys, so it reads back as
-- the same map, with its entries in any order.
use xmpp_go.Prelude.{ℕ, ◌*◌, ◌^◌, ◌<◌, ◌≡◌, true, some, List, [], ◌∷◌, list_eq}
use xmpp_go.Prelude.Bytes.{Bytes}
use xmpp_go.Prelude.Dict.{Dict, get, IsDistinct}
use xmpp_go.Prelude.Holds.{Holds}
use xmpp_go.Jid.Utf8.{valid_string}
use xmpp_go.Storage.Model.{User, RosterItem}
use xmpp_go.Storage.File.Disk.{Json}

abbrev pub IsUtf8 : Bytes → Type 0
IsUtf8 s = valid_string s ≡ true

abbrev pub AreUtf8 : List Bytes → Type 0
AreUtf8 [] = Unit
AreUtf8 (s ∷ l) = IsUtf8 s × AreUtf8 l

-- The nanoseconds from the zero time to the beginning of the year 9999.
abbrev pub last_time : ℕ
last_time = 3651694 * 86400 * 1000000000

pub record IsWritableUser (u : User) : Type 0 where
  pub username : IsUtf8 u.username
  pub password : IsUtf8 u.password
  pub salt : IsUtf8 u.salt
  pub server_key : IsUtf8 u.server_key
  pub stored_key : IsUtf8 u.stored_key
  pub iterations : u.iterations < 2 ^ 63
  pub created : u.created_at < last_time
  pub updated : u.updated_at < last_time

pub record IsWritableItem (i : RosterItem) : Type 0 where
  pub user_jid : IsUtf8 i.user_jid
  pub contact_jid : IsUtf8 i.contact_jid
  pub name : IsUtf8 i.name
  pub subscription : IsUtf8 i.subscription
  pub ask : IsUtf8 i.ask
  pub groups : AreUtf8 i.groups

-- A value with the property reads back as it was written.
abbrev pub ReadsBack : {A : Type 0} → Json A → (A → Type 0) → Type 0
ReadsBack {A} j P = (a : A) → P a → j.decode (j.encode a) ≡ some a

-- A map, its keys valid UTF-8 and its values with the property, each key once.
abbrev pub IsWritableMap : {A : Type 0} → (A → Type 0) → Dict Bytes A → Type 0
IsWritableMap {A} P = Holds (λ k (v : A). IsUtf8 k × P v)

-- Such a map reads back as a map with the same entries.
abbrev pub ReadsMap : {A : Type 0} → Json (Dict Bytes A) → (A → Type 0) → Type 0
ReadsMap {A} j P =
    (m : Dict Bytes A)
    → IsWritableMap P m
    → (n : Dict Bytes A) × (j.decode (j.encode m) ≡ some n)
      × IsDistinct n
      × ((k : Bytes) → get n k ≡ get m k)
