-- ===== src/Storage/Memory/PubSub/Order.antt =====
-- The order in which `GetItems` lists a node.
use xmpp_go.Prelude.{◌≤◌, ◌≡◌, inl, inr, List, [], ◌∷◌, list_eq, arith, ltb, Bool-cases}
use xmpp_go.Prelude.Bytes.{Bytes}
use xmpp_go.Prelude.Dict.{get, values}
use xmpp_go.Prelude.Nested.{inner, get_in, or_nil}
use xmpp_go.Storage.Model.{PubSubItem}
use xmpp_go.Storage.Memory.State.{Store}
use mathlib.Core.List.{Perm}
use mathlib.Core.List.Perm
use xmpp_go.Storage.Memory.PubSub.{insert_by_time, sort_by_time, get_items}

-- The times never fall along the list.
abbrev pub IsOrdered : List PubSubItem → Type 0
IsOrdered [] = Unit
IsOrdered (i ∷ []) = Unit
IsOrdered (i ∷ j ∷ l) = (i.created_at ≤ j.created_at) × IsOrdered (j ∷ l)

insert_by_time-IsOrdered :
    (i : PubSubItem) (l : List PubSubItem) → IsOrdered l → IsOrdered (insert_by_time i l)
unfolding insert_by_time
insert_by_time-IsOrdered i [] h = tt
insert_by_time-IsOrdered i (j ∷ []) h = ground arith
insert_by_time-IsOrdered i (j ∷ k ∷ l) h = ground (arith, insert_by_time-IsOrdered i (k ∷ l) h.1)

sort_by_time-IsOrdered : (l : List PubSubItem) → IsOrdered (sort_by_time l)
unfolding sort_by_time
sort_by_time-IsOrdered [] = tt
sort_by_time-IsOrdered (i ∷ l) =
    insert_by_time-IsOrdered i (sort_by_time l) (sort_by_time-IsOrdered l)

insert_by_time-perm : (i : PubSubItem) (l : List PubSubItem) → Perm (insert_by_time i l) (i ∷ l)
unfolding insert_by_time
insert_by_time-perm i [] = Perm.refl (i ∷ [])
insert_by_time-perm i (j ∷ l) = elim (Bool-cases (ltb j.created_at i.created_at)) [
  | inl e ↦ rw e (Perm.trans (Perm.cons j (insert_by_time-perm i l)) (Perm.swap i j l))
  | inr e ↦ rw e (Perm.refl (i ∷ j ∷ l))
]

sort_by_time-perm : (l : List PubSubItem) → Perm (sort_by_time l) l
unfolding sort_by_time
sort_by_time-perm [] = Perm.refl []
sort_by_time-perm (i ∷ l) =
    Perm.trans (insert_by_time-perm i (sort_by_time l)) (Perm.cons i (sort_by_time-perm l))

get_items_lem :
    (s : Store) (host node : Bytes)
    → get_items s host node ≡ sort_by_time (values (or_nil (get_in s.pubsub_items host node)))
unfolding get_items get_in inner get values
get_items_lem s host node = ground arith

-- The items of a node are listed from the oldest to the newest, each stored item exactly once.
pub get_items-sorted :
    (s : Store) (host node : Bytes)
    → IsOrdered (get_items s host node)
      × Perm (get_items s host node) (values (or_nil (get_in s.pubsub_items host node)))
get_items-sorted s host node = rw get_items_lem (sort_by_time-IsOrdered _, sort_by_time-perm _)
