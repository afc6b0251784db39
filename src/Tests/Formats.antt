-- ===== src/Tests/Formats.antt =====
-- An exact format for the files of the backend: numbers, and lists behind their length.
use mathlib.Core.List.{append_assoc, append-nil}
use xmpp_go.Prelude.{
  ℕ, zero, suc, ◌≡◌, refl, ap, subst, Option, none, some, List, [], ◌∷◌, ◌++◌, length,
}
use xmpp_go.Prelude.Bytes.{Bytes}
use xmpp_go.Storage.Model.{User, RosterItem, PubSubNode}
use xmpp_go.Storage.File.Disk.{Json, Formats}
use xmpp_go.Storage.File.Documented.{IsWritableUser, IsWritableItem, ReadsBack, ReadsMap}

pub record Format (A : Type 0) : Type 0 where
  pub write : A → Bytes
  pub read : Bytes → Option (A × Bytes)
  pub exact : (a : A) (rest : Bytes) → read (write a ++ rest) ≡ some (a, rest)

abbrev number_read : Bytes → Option (ℕ × Bytes)
number_read [] = none
number_read (n ∷ s) = some (n, s)

abbrev number : Format ℕ
number = record { write = λ n. n ∷ []; read = number_read; exact = λ n rest. refl }

module _ {A B : Type 0} (a : Format A) (b : Format B) where
  abbrev pub pair_read : Bytes → Option ((A × B) × Bytes)
  pair_read s = elim (a.read s) [
    | none ↦ none
    | some (x, t) ↦ elim (b.read t) [ none ↦ none | some (y, u) ↦ some ((x, y), u) ]
  ]

  pub pair_exact :
      (p : A × B) (rest : Bytes) → pair_read ((a.write p.0 ++ b.write p.1) ++ rest) ≡ some (p, rest)
  pair_exact (x, y) rest =
      rw
        (
          append_assoc (a.write x) (b.write y) rest,
          pair_read,
          a.exact x (b.write y ++ rest),
          b.exact y rest,
        )
        refl

  abbrev pair : Format (A × B)
  pair = record { write = λ p. a.write p.0 ++ b.write p.1; read = pair_read; exact = pair_exact }

module _ {A : Type 0} (a : Format A) where
  abbrev pub items_write : List A → Bytes
  items_write [] = []
  items_write (x ∷ l) = a.write x ++ items_write l

  abbrev pub items_read : ℕ → Bytes → Option (List A × Bytes)
  items_read zero s = some ([], s)
  items_read (suc n) s = elim (a.read s) [
    | none ↦ none
    | some (x, t) ↦ elim (items_read n t) [ none ↦ none | some (l, u) ↦ some (x ∷ l, u) ]
  ]

  pub items_exact :
      (l : List A) (rest : Bytes) → items_read (length l) (items_write l ++ rest) ≡ some (l, rest)
  items_exact [] rest = refl
  items_exact (x ∷ l) rest =
      rw
        (
          append_assoc (a.write x) (items_write l) rest,
          a.exact x (items_write l ++ rest),
          items_exact l rest,
        )
        refl

  abbrev pub list_read : Bytes → Option (List A × Bytes)
  list_read [] = none
  list_read (n ∷ s) = items_read n s

  abbrev list : Format (List A)
  list = record { write = λ l. length l ∷ items_write l; read = list_read; exact = items_exact }

  abbrev pub option_write : Option A → Bytes
  option_write none = 0 ∷ []
  option_write (some x) = 1 ∷ a.write x

  abbrev pub option_read : Bytes → Option (Option A × Bytes)
  option_read [] = none
  option_read (zero ∷ s) = some (none, s)
  option_read (suc n ∷ s) = elim (a.read s) [ none ↦ none | some (x, t) ↦ some (some x, t) ]

  pub option_exact :
      (o : Option A) (rest : Bytes) → option_read (option_write o ++ rest) ≡ some (o, rest)
  option_exact none rest = refl
  option_exact (some x) rest = rw (a.exact x rest) refl

  abbrev option : Format (Option A)
  option = record { write = option_write; read = option_read; exact = option_exact }

-- The format of a record, by its fields.
module _ {A B : Type 0} (b : Format B) (to : A → B) (from : B → A)
    (back : (x : A) → from (to x) ≡ x) where
  abbrev pub fields_read : Bytes → Option (A × Bytes)
  fields_read s = elim (b.read s) [ none ↦ none | some (y, t) ↦ some (from y, t) ]

  pub fields_exact : (x : A) (rest : Bytes) → fields_read (b.write (to x) ++ rest) ≡ some (x, rest)
  fields_exact x rest =
      rw (fields_read, b.exact (to x) rest) (ap (λ (y : A). some (y, rest)) (back x))

  abbrev fields : Format A
  fields = record { write = λ x. b.write (to x); read = fields_read; exact = fields_exact }

module _ {A : Type 0} (a : Format A) where
  abbrev decoded : Option (A × Bytes) → Option A
  decoded none = none
  decoded (some (x, t)) = some x

  abbrev pub json : Json A
  json = record { encode = a.write; decode = λ s. decoded (a.read s) }

  json-IsExact : (x : A) → json.decode (json.encode x) ≡ some x
  json-IsExact x =
      ap decoded (subst (λ s. a.read s ≡ some (x, [])) (append-nil (a.write x)) (a.exact x []))

abbrev text : Format Bytes
text = list number

abbrev user : Format User
user =
    fields
      (pair text (pair text (pair text (pair number (pair text (pair text (pair number number)))))))
      (λ (u : User). (
        u.username,
        (
          u.password,
          (u.salt, (u.iterations, (u.server_key, (u.stored_key, (u.created_at, u.updated_at))))),
        ),
      ))
      (λ p. record {
        username = p.0;
        password = p.1.0;
        salt = p.1.1.0;
        iterations = p.1.1.1.0;
        server_key = p.1.1.1.1.0;
        stored_key = p.1.1.1.1.1.0;
        created_at = p.1.1.1.1.1.1.0;
        updated_at = p.1.1.1.1.1.1.1;
      })
      (λ u. refl)

abbrev roster_item : Format RosterItem
roster_item =
    fields (pair text (pair text (pair text (pair text (pair text (list text))))))
      (λ (i : RosterItem).
        (i.user_jid, (i.contact_jid, (i.name, (i.subscription, (i.ask, i.groups))))))
      (λ p. record {
        user_jid = p.0;
        contact_jid = p.1.0;
        name = p.1.1.0;
        subscription = p.1.1.1.0;
        ask = p.1.1.1.1.0;
        groups = p.1.1.1.1.1;
      })
      (λ i. refl)

abbrev node : Format PubSubNode
node =
    fields
      (pair text (pair text (pair text (pair text (pair (option (list (pair text text))) text)))))
      (λ (n : PubSubNode). (n.host, (n.node_id, (n.name, (n.node_type, (n.config, n.creator))))))
      (λ p. record {
        host = p.0;
        node_id = p.1.0;
        name = p.1.1.0;
        node_type = p.1.1.1.0;
        config = p.1.1.1.1.0;
        creator = p.1.1.1.1.1;
      })
      (λ n. refl)

-- The formats that no theorem here reads stay empty.
abbrev unread : {A : Type 0} → Json A
unread = record { encode = λ a. []; decode = λ s. none }

abbrev pub formats : Formats
formats = record {
  user = json user;
  roster_file = json (list (pair text roster_item));
  version = json text;
  blocked = unread;
  offline_messages = unread;
  archived_messages = unread;
  room = unread;
  affiliations = unread;
  node = json node;
  items = unread;
  subscriptions = unread;
  bookmarks_file = unread;
}

-- What the files hold reads back; the condition on it is not needed here.
pub user-ReadsBack : ReadsBack formats.user IsWritableUser
user-ReadsBack u w = json-IsExact user u

pub roster_file-ReadsMap : ReadsMap formats.roster_file IsWritableItem
roster_file-ReadsMap m w = (m, json-IsExact (list (pair text roster_item)) m, w.distinct, λ k. refl)
