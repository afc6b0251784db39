-- ===== src/Storage/File/Maps.antt =====
-- A folder of JSON files of maps as a map of maps: each file has the entries of an inner map, in an
-- order of its own.
use xmpp_go.Prelude.{
  ◌≡◌, ◌↔◌, sym, ◌∙◌, ok, In, list_eq, ◌==◌, if◌then◌else◌, arith, Bool-cases, inl, inr,
}
use xmpp_go.Prelude.Bytes.{Bytes}
use xmpp_go.Prelude.Dict.{
  Dict, get, values, get-put, IsDistinct, In-values, values-In, In-of_get, get_of_In,
}
use xmpp_go.Prelude.Nested.{inner}
use xmpp_go.Storage.File.Disk.{Json, json_file, write_json, load_map}
use xmpp_go.Storage.File.Documented.{IsWritableMap, ReadsMap}
use xmpp_go.Storage.File.Tables.{IsSafe, json_file_eq}

module _ {A : Type 0} where
  In-moved :
      (m n : Dict Bytes A)
      → IsDistinct m
      → ((k : Bytes) → get m k ≡ get n k)
      → (x : A) → In x (values m)
      → In x (values n)
  In-moved m n p e x i =
      let (k, there) = In-values m x i in
      values-In n k x (In-of_get n k x (sym (e k) ∙ get_of_In m k x p there))

  -- Maps with the same entries list the same values.
  pub values_same :
      (m n : Dict Bytes A)
      → IsDistinct m
      → IsDistinct n
      → ((k : Bytes) → get m k ≡ get n k)
      → (x : A) → In x (values m) ↔ In x (values n)
  values_same m n p q e x = (In-moved m n p e x, In-moved n m q (λ k. sym (e k)) x)

  IsWritableMap-same :
      (P : A → Type 0) (m n : Dict Bytes A)
      → IsWritableMap P m
      → IsDistinct n
      → ((k : Bytes) → get n k ≡ get m k)
      → IsWritableMap P n
  IsWritableMap-same P m n h s e = record { distinct = s; at = λ k v q. h.at k v (sym (e k) ∙ q) }

module _ {A : Type 0} (j : Json (Dict Bytes A)) (P : A → Type 0) where
  -- A file of the folder and an inner map have the same entries, which the file can hold.
  pub record ShowsMap (folder : Dict Bytes Bytes) (name : Bytes) (m : Dict Bytes A) : Type 0 where
    pub file : Dict Bytes A
    pub loaded : load_map j folder (json_file name) ≡ ok file
    pub writable : IsWritableMap P file
    pub distinct : IsDistinct m
    pub same : (k : Bytes) → get file k ≡ get m k

  -- Under safe names the folder's maps are the inner maps.
  abbrev pub ShowsMaps : Dict Bytes Bytes → Dict Bytes (Dict Bytes A) → Type 0
  ShowsMaps folder m = (name : Bytes) → IsSafe name → ShowsMap folder name (inner m name)

  pub save-ShowsMaps :
      (folder : Dict Bytes Bytes) (m n : Dict Bytes (Dict Bytes A)) (name : Bytes)
      (file new : Dict Bytes A)
      → ReadsMap j P
      → IsSafe name
      → ShowsMaps folder m
      → IsWritableMap P file
      → IsDistinct new
      → ((k : Bytes) → get file k ≡ get new k)
      → ((i : Bytes) → inner n i ≡ (if name == i then new else inner m i))
      → ShowsMaps (write_json j folder (json_file name) file) n
  unfolding write_json load_map
  save-ShowsMaps folder m n name file new x s h w p e k i t =
      let put_file = get-put folder (json_file name) (json_file i) (j.encode file) in
      elim (Bool-cases (name == i)) [
        | inl own ↦
            let (back, decoded, q, f) = x file w in
            let here : inner n i ≡ new = ground (arith, own, k i) in
            rw here (record {
              file = back;
              loaded = ground (arith, own, put_file, json_file_eq name i s t, decoded);
              writable = IsWritableMap-same P file back w q f;
              distinct = p;
              same = λ c. f c ∙ e c;
            })
        | inr different ↦
            let old = h i t in
            let here : inner n i ≡ inner m i = ground (arith, different, k i) in
            rw here (record {
              file = old.file;
              loaded = ground (arith, different, put_file, json_file_eq name i s t, old.loaded);
              writable = old.writable;
              distinct = old.distinct;
              same = old.same;
            })
      ]
