-- ===== src/Storage/Memory/Archive/Paging.antt =====
-- Paging through an archive by the last identifier of each page.
use xmpp_go.Prelude.{
  ℕ, ◌≤◌, ◌<◌, zero, suc, ◌≡◌, ◌≢◌, inl, inr, refl, sym, ap, ◌∙◌, Bool, true, false, List, [], ◌∷◌,
  ◌++◌, or_zero, list_eq, ◌==◌, eq_iff, eq_refl, if◌then◌else◌, arith, length, take, drop, In,
  Bool-cases, length-drop, take-append-drop, In-append_right, subst,
}
use xmpp_go.Prelude.Bytes.{Bytes}
use xmpp_go.Prelude.Dict.{get}
use xmpp_go.Storage.Model.{ArchivedMessage}
use xmpp_go.Storage.Memory.State.{Store}
use xmpp_go.Storage.Memory.Archive.Selection.{query_messages_exact, selected, scan-window}
use xmpp_go.Storage.Memory.Archive.{MamQuery, scan, max_of, query_messages, last_id}

-- No message of the list has the identifier.
abbrev pub Lacks : Bytes → List ArchivedMessage → Type 0
Lacks id [] = Unit
Lacks id (m ∷ l) = (m.id ≢ id) × Lacks id l

-- No identifier is empty or occurs twice.
abbrev pub HasIds : List ArchivedMessage → Type 0
HasIds [] = Unit
HasIds (m ∷ l) = (m.id ≢ []) × (Lacks m.id l × HasIds l)

Lacks-In :
    (id : Bytes) (l : List ArchivedMessage) (m : ArchivedMessage) → Lacks id l → In m l → m.id ≢ id
Lacks-In id [] m h i = absurd i
Lacks-In id (x ∷ l) m h (inl e) = λ p. h.0 (ap (λ (y : ArchivedMessage). y.id) (sym e) ∙ p)
Lacks-In id (x ∷ l) m h (inr i) = Lacks-In id l m h.1 i

scan-In :
    (q : MamQuery) (b : Bool) (l : List ArchivedMessage) (m : ArchivedMessage)
    → In m (scan q b l)
    → In m l
unfolding scan
scan-In q b [] m h = h
scan-In q false (x ∷ l) m h = inr (scan-In q (x.id == q.after_id) l m h)
scan-In q true (x ∷ l) m h = ground (arith, scan-In q true l m)

-- The next page asks for what is behind the given identifier.
abbrev pub resume : MamQuery → Bytes → MamQuery
resume q id = record q { after_id = id }

scan-resume-true :
    (q : MamQuery) (id : Bytes) (l : List ArchivedMessage)
    → scan (resume q id) true l ≡ scan q true l
unfolding scan
scan-resume-true q id [] = refl
scan-resume-true q id (m ∷ l) = ground (arith, scan-resume-true q id l)

-- What is selected stands in the archive.
selected-In :
    (q : MamQuery) (b : Bool) (l xs ys : List ArchivedMessage) (m : ArchivedMessage)
    → scan q b l ≡ xs ++ (m ∷ ys)
    → In m l
selected-In q b l xs ys m h =
    scan-In q b l m (subst (In m) (sym h) (In-append_right xs (m ∷ ys) m (inl refl)))

-- A selected message is told from the one at the head by its identifier.
head_differs :
    (q : MamQuery) (b : Bool) (x : ArchivedMessage) (l xs ys : List ArchivedMessage)
    (m : ArchivedMessage)
    → HasIds (x ∷ l)
    → scan q b l ≡ xs ++ (m ∷ ys)
    → (x.id == m.id) ≡ false
head_differs q b x l xs ys m d h =
    ground (arith, eq_iff x.id m.id, Lacks-In x.id l m d.1.0 (selected-In q b l xs ys m h))

scan-resume :
    (q : MamQuery) (l xs ys : List ArchivedMessage) (m : ArchivedMessage)
    → HasIds l
    → scan q true l ≡ xs ++ (m ∷ ys)
    → scan (resume q m.id) false l ≡ ys
unfolding scan
scan-resume q [] [] ys m d h = cc
scan-resume q [] (x ∷ xs) ys m d h = cc
scan-resume q (x ∷ l) [] ys m d h = ground (
  arith,
  eq_refl m.id,
  scan-resume-true q m.id l,
  scan-resume q l [] ys m d.1.1,
  head_differs q true x l [] ys m d,
)
scan-resume q (x ∷ l) (y ∷ xs) ys m d h = ground (
  arith,
  scan-resume q l xs ys m d.1.1,
  scan-resume q l (y ∷ xs) ys m d.1.1,
  head_differs q true x l xs ys m d,
  head_differs q true x l (y ∷ xs) ys m d,
)

scan-resume_from :
    (q : MamQuery) (b : Bool) (l xs ys : List ArchivedMessage) (m : ArchivedMessage)
    → HasIds l
    → scan q b l ≡ xs ++ (m ∷ ys)
    → scan (resume q m.id) false l ≡ ys
unfolding scan
scan-resume_from q true l xs ys m d h = scan-resume q l xs ys m d h
scan-resume_from q false [] [] ys m d h = cc
scan-resume_from q false [] (x ∷ xs) ys m d h = cc
scan-resume_from q false (x ∷ l) xs ys m d h =
    let b = x.id == q.after_id in
    rw (head_differs q b x l xs ys m d h) (scan-resume_from q b l xs ys m d.1.1 h)

-- A page cut from a longer list ends in a message; the rest follows it.
abbrev Cut : ℕ → List ArchivedMessage → Type 0
Cut n l =
    (xs : List ArchivedMessage) × (m : ArchivedMessage) × (take n l ≡ xs ++ (m ∷ []))
    × (l ≡ xs ++ (m ∷ drop n l))

Cut-page : (n : ℕ) (l : List ArchivedMessage) → 0 < n → n ≤ length l → Cut n l
Cut-page zero l p h = absurd (omega arith)
Cut-page (suc n) [] p h = absurd (omega arith)
Cut-page (suc zero) (x ∷ l) p h = ([], x, refl, refl)
Cut-page (suc (suc n)) (x ∷ l) p h =
    let (xs, m, e, f) = Cut-page (suc n) l (omega arith) (omega arith) in
    (x ∷ xs, m, ap (◌∷◌ x) e, ap (◌∷◌ x) f)

last_id-append : (xs : List ArchivedMessage) (m : ArchivedMessage) → last_id (xs ++ (m ∷ [])) ≡ m.id
last_id-append [] m = refl
last_id-append (x ∷ []) m = refl
last_id-append (x ∷ y ∷ xs) m = last_id-append (y ∷ xs) m

HasIds-nonempty :
    (l : List ArchivedMessage) (m : ArchivedMessage) → HasIds l → In m l → (m.id == []) ≡ false
HasIds-nonempty [] m d i = absurd i
HasIds-nonempty (x ∷ l) m d (inl e) = ground (arith, eq_iff m.id [])
HasIds-nonempty (x ∷ l) m d (inr i) = HasIds-nonempty l m d.1.1 i

-- What follows a page of at least one message: the query that resumes behind its last
-- identifier selects exactly the rest.
scan_next_page :
    (q : MamQuery) (l : List ArchivedMessage) (n : ℕ)
    → HasIds l
    → 0 < n
    → n ≤ length (scan q (q.after_id == []) l)
    → let id = last_id (take n (scan q (q.after_id == []) l)) in
      scan (resume q id) (id == []) l ≡ drop n (scan q (q.after_id == []) l)
scan_next_page q l n d p h =
    let b = q.after_id == [] in
    let (xs, m, e, f) = Cut-page n (scan q b l) p h in
    rw (e, last_id-append xs m, HasIds-nonempty l m d (selected-In q b l xs _ m f))
      (scan-resume_from q b l xs _ m d f)

max_of_pos : (q : MamQuery) → 0 < max_of q
unfolding max_of
max_of_pos q = ground arith

-- The archive that a query reads has an identifier of its own on each message.
abbrev pub ArchiveHasIds : Store → MamQuery → Type 0
ArchiveHasIds s q = HasIds (or_zero [] (get s.mam_messages q.user_jid))

next_selected :
    (s : Store) (q : MamQuery)
    → ArchiveHasIds s q
    → (query_messages s q).complete ≡ false
    → (selected s (resume q (query_messages s q).last) ≡ drop (max_of q) (selected s q))
      × (max_of q < length (selected s q))
unfolding query_messages
next_selected s q d c =
    let l = or_zero [] (get s.mam_messages q.user_jid) in
    let n = max_of q in
    let more : n < length (scan q (q.after_id == []) l) = ground arith in
    let id = last_id (take n (scan q (q.after_id == []) l)) in
    (
      sym (scan-window (resume q id) l)
          ∙ scan_next_page q l n d (max_of_pos q) (omega arith)
          ∙ ap (drop n) (scan-window q l),
      subst (λ k. n < length k) (scan-window q l) more,
    )

-- A client that asks for page after page, each behind the last identifier of the one before, until
-- a page is marked complete; the first argument bounds the number of pages.
pub fetch : ℕ → Store → MamQuery → List ArchivedMessage
fetch zero s q = []
fetch (suc fuel) s q =
    let r = query_messages s q in
    let more = fetch fuel s (resume q r.last) in
    if r.complete then r.messages else r.messages ++ more

-- Paging through a query returns every selected message once and in order, whatever the page size,
-- if each archived message has an identifier of its own; one page more than there are messages is
-- enough.
pub fetch-selected :
    (fuel : ℕ) (s : Store) (q : MamQuery)
    → ArchiveHasIds s q
    → length (selected s q) < fuel
    → fetch fuel s q ≡ selected s q
unfolding fetch
fetch-selected zero s q d h = absurd (omega arith)
fetch-selected (suc fuel) s q d h = elim (Bool-cases (query_messages s q).complete) [
  | inl e ↦ rw e ((query_messages_exact s q).1.0 e)
  | inr e ↦
      let (rest, more) = next_selected s q d e in
      let q' = resume q (query_messages s q).last in
      let fewer : length (selected s q') < fuel =
        omega (arith, ap length rest, length-drop (max_of q) (selected s q), max_of_pos q) in
      rw (e, fetch-selected fuel s q' d fewer, rest, (query_messages_exact s q).0)
        (take-append-drop (max_of q) (selected s q))
]
