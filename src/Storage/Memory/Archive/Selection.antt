-- ===== src/Storage/Memory/Archive/Selection.antt =====
-- What `QueryMessages` selects, said without its loop: the part of the archive behind `AfterID` and
-- before `BeforeID`, filtered, and cut to the maximum.
use xmpp_go.Prelude.{
  ℕ, ◌≤◌, ◌≡◌, ◌↔◌, inl, inr, refl, ap, ◌∙◌, Bool, true, false, List, [], ◌∷◌, or_zero, list_eq,
  ◌==◌, if◌then◌else◌, arith, length, leb, take, Bool-cases, length-take, take_all, leb→le, le→leb,
}
use xmpp_go.Prelude.Bytes.{Bytes}
use xmpp_go.Prelude.Dict.{get}
use xmpp_go.Storage.Model.{ArchivedMessage}
use xmpp_go.Storage.Memory.State.{Store}
use xmpp_go.Storage.Memory.Archive.{
  MamQuery, passes, scan, max_of, query_messages, first_id, last_id,
}

-- The messages behind the first one with the identifier.
unfoldable pub behind : Bytes → List ArchivedMessage → List ArchivedMessage
behind id [] = []
behind id (m ∷ l) = let rest = behind id l in if m.id == id then l else rest

-- The messages before the first one with the identifier.
unfoldable pub before : Bytes → List ArchivedMessage → List ArchivedMessage
before id [] = []
before id (m ∷ l) = let rest = before id l in if m.id == id then [] else m ∷ rest

unfoldable pub keep : (ArchivedMessage → Bool) → List ArchivedMessage → List ArchivedMessage
keep p [] = []
keep p (m ∷ l) = let rest = keep p l in if p m then m ∷ rest else rest

-- The archive of a user between the two identifiers of a query; an empty one is no bound.
unfoldable pub window : MamQuery → List ArchivedMessage → List ArchivedMessage
unfolding behind before
window q l =
    let from = if q.after_id == [] then l else behind q.after_id l in
    if q.before_id == [] then from else before q.before_id from

scan-true :
    (q : MamQuery) (l : List ArchivedMessage)
    → scan q true l ≡ keep (passes q) (if q.before_id == [] then l else before q.before_id l)
unfolding scan keep before
scan-true q [] = ground arith
scan-true q (m ∷ l) = ground (arith, scan-true q l)

scan-false :
    (q : MamQuery) (l : List ArchivedMessage) → scan q false l ≡ scan q true (behind q.after_id l)
unfolding scan behind
scan-false q [] = refl
scan-false q (m ∷ l) = elim (Bool-cases (m.id == q.after_id)) [
  | inl e ↦ rw e
  | inr e ↦ rw e (scan-false q l)
]

pub scan-window :
    (q : MamQuery) (l : List ArchivedMessage)
    → scan q (q.after_id == []) l ≡ keep (passes q) (window q l)
unfolding window
scan-window q l = elim (Bool-cases (q.after_id == [])) [
  | inl e ↦ rw e (scan-true q l)
  | inr e ↦ rw e (scan-false q l ∙ scan-true q (behind q.after_id l))
]

take_iff : (n : ℕ) (l : List ArchivedMessage) → (leb (length l) n ≡ true) ↔ (take n l ≡ l)
take_iff n l = (
  λ h. take_all n l (leb→le (length l) n h),
  λ h. le→leb (length l) n (omega (arith, ap length h, length-take n l)),
)

-- What a query selects from the store, before the cut.
abbrev pub selected : Store → MamQuery → List ArchivedMessage
selected s q = keep (passes q) (window q (or_zero [] (get s.mam_messages q.user_jid)))

-- A query returns the first messages of the user's archive, at most the maximum, that lie between
-- its two identifiers and pass its filters; it is complete exactly when none was cut off; its first
-- and last identifiers are those of the messages returned, and its count is the number of these, not
-- of all that were selected.
pub query_messages_exact :
    (s : Store) (q : MamQuery)
    → let r = query_messages s q in
      (r.messages ≡ take (max_of q) (selected s q))
      × ((r.complete ≡ true) ↔ (r.messages ≡ selected s q))
      × (r.count ≡ length r.messages)
      × (r.count ≤ max_of q)
      × (r.first ≡ first_id r.messages)
      × (r.last ≡ last_id r.messages)
unfolding query_messages
query_messages_exact s q =
    let l = or_zero [] (get s.mam_messages q.user_jid) in
    rw (scan-window q l, query_messages)
      (
        refl,
        take_iff (max_of q) (keep (passes q) (window q l)),
        refl,
        omega (arith, length-take (max_of q) (keep (passes q) (window q l))),
        refl,
        refl,
      )
