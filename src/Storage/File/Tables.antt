-- ===== src/Storage/File/Tables.antt =====
-- A folder of JSON files as a map: names without problematic characters name files of their own.
use xmpp_go.Prelude.{
  ℕ, ◌≡◌, refl, sym, ap, subst, ◌∙◌, true, false, Option, none, some, ok, err, ◌++◌, length,
  length-append, take, take-append, list_eq, ◌==◌, eq_iff, arith, Bool-cases, Option-cases, inl,
  inr,
}
use xmpp_go.Prelude.Bytes.{Bytes, bytes}
use xmpp_go.Prelude.Dict.{Dict, get, put, remove, get-put, get-remove}
use xmpp_go.Storage.Model.{not_found}
use xmpp_go.Storage.File.Disk.{
  Json, storage_error, safe_file_name, json_file, read_json, write_json, exists,
}
use xmpp_go.Storage.File.Documented.{ReadsBack}

-- No character of the name is replaced.
abbrev pub IsSafe : Bytes → Type 0
IsSafe name = safe_file_name name ≡ name

append_same : (a b c : Bytes) → a ++ c ≡ b ++ c → a ≡ b
append_same a b c e =
    let same : length a ≡ length b =
      omega (arith, length-append a c, length-append b c, ap {B = ℕ} (λ s. length s) e) in
    sym (take-append (length a) a c refl)
    ∙ ap (take (length a)) e
    ∙ take-append (length a) b c (sym same)

pub json_file_eq : (m n : Bytes) → IsSafe m → IsSafe n → (json_file m == json_file n) ≡ (m == n)
unfolding json_file
json_file_eq m n s t = elim (Bool-cases (m == n)) [
  | inl same ↦
      let e = (eq_iff m n).0 same in
      ground (arith, same, ap json_file e, eq_iff (json_file m) (json_file n))
  | inr other ↦ ground (
    arith,
    other,
    s,
    t,
    append_same m n (bytes ".json"),
    eq_iff m n,
    eq_iff (json_file m) (json_file n),
  )
]

module _ {A : Type 0} (j : Json A) (P : A → Type 0) where
  abbrev pub encoded : Option A → Option Bytes
  encoded none = none
  encoded (some a) = some (j.encode a)

  -- Under safe names the folder has the entries of the map, whose values have the property.
  abbrev pub Shows : Dict Bytes Bytes → Dict Bytes A → Type 0
  Shows folder m =
      (name : Bytes)
      → IsSafe name
      → (get folder (json_file name) ≡ encoded (get m name)) × ((v : A) → get m name ≡ some v → P v)

  pub read_json-Shows :
      (folder : Dict Bytes Bytes) (m : Dict Bytes A) (name : Bytes)
      → ReadsBack j P
      → Shows folder m
      → IsSafe name
      → read_json j folder (json_file name)
        ≡ (elim (get m name) [ none ↦ err (storage_error not_found) | some v ↦ ok v ])
  unfolding read_json
  read_json-Shows folder m name x h s =
      let (there, fits) = h name s in
      elim (Option-cases (get m name)) [
        | inl e ↦ ground (arith, e, there)
        | inr (v, e) ↦ ground (arith, e, there, x v (fits v e))
      ]

  pub exists-Shows :
      (folder : Dict Bytes Bytes) (m : Dict Bytes A) (name : Bytes)
      → Shows folder m
      → IsSafe name
      → exists folder (json_file name) ≡ (elim (get m name) [ none ↦ false | some _ ↦ true ])
  unfolding exists
  exists-Shows folder m name h s = let (there, _) = h name s in ground (arith, there)

  pub put-Shows :
      (folder : Dict Bytes Bytes) (m : Dict Bytes A) (name : Bytes) (v : A)
      → IsSafe name
      → P v
      → Shows folder m
      → Shows (write_json j folder (json_file name) v) (put m name v)
  unfolding write_json
  put-Shows folder m name v s p h n t =
      let (there, fits) = h n t in
      (
        ground (
          arith,
          there,
          get-put folder (json_file name) (json_file n) (j.encode v),
          get-put m name n v,
          json_file_eq name n s t,
        ),
        λ w e. elim (Bool-cases (name == n)) [
          | inl same ↦
              let found : v ≡ w = ground (arith, e, same, get-put m name n v) in subst P found p
          | inr different ↦ fits w (ground (arith, e, different, get-put m name n v))
        ],
      )

  pub remove-Shows :
      (folder : Dict Bytes Bytes) (m : Dict Bytes A) (name : Bytes)
      → IsSafe name
      → Shows folder m
      → Shows (remove folder (json_file name)) (remove m name)
  remove-Shows folder m name s h n t =
      let (there, fits) = h n t in
      (
        ground (
          arith,
          there,
          get-remove folder (json_file name) (json_file n),
          get-remove m name n,
          json_file_eq name n s t,
        ),
        λ w e. fits w (ground (arith, e, get-remove m name n)),
      )
