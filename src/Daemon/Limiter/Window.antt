-- ===== src/Daemon/Limiter/Window.antt =====
-- The limiter's window: how many calls under one key it lets through in any span of its length.
use mathlib.Core.List.{append-nil, append_assoc}
use xmpp_go.Prelude.{
  ℕ, ◌+◌, ◌≤◌, ◌<◌, ◌≡◌, refl, ap, ◌∙◌, List, [], ◌∷◌, ◌++◌, list_eq, ◌==◌, eq_iff, or_zero,
  if◌then◌else◌, ltb, leb, not, ◌&&◌, length, arith, Bool-cases, inl, inr,
}
use xmpp_go.Prelude.Bytes.{Bytes}
use xmpp_go.Prelude.Dict.{get, get-put}
use xmpp_go.Daemon.Limiter.{RateLimiter, new_rate_limiter, recent, allow}

-- A call of `Allow`, with its key and its two readings of the clock.
pub record Call : Type 0 where
  pub key : Bytes
  pub now : ℕ
  pub later : ℕ

-- The clock does not run backwards.
abbrev pub IsOrdered : ℕ → List Call → Type 0
IsOrdered start [] = Unit
IsOrdered start (c ∷ calls) = (start ≤ c.now) × (c.now ≤ c.later) × IsOrdered c.later calls

-- The times at which calls under the key are let through.
unfoldable pub accepted : RateLimiter → Bytes → List Call → List ℕ
accepted r k [] = []
accepted r k (c ∷ calls) =
    let a = allow r c.key c.now c.later in
    let rest = accepted a.0 k calls in if a.1 && c.key == k then c.later ∷ rest else rest

-- How many of the times lie behind `to - window` and not behind `to`.
unfoldable pub within : ℕ → ℕ → List ℕ → ℕ
within window to [] = 0
within window to (t ∷ times) =
    let rest = within window to times in if ltb to (t + window) && leb t to then 1 + rest else rest

entries_of : RateLimiter → Bytes → List ℕ
entries_of r k = or_zero [] (get r.items k)

-- How many of the times lie behind `now - window`.
still : ℕ → ℕ → List ℕ → ℕ
still window now times = length (recent window now times)

still-recent :
    (w now then_ : ℕ) (l : List ℕ) → then_ ≤ now → still w now (recent w then_ l) ≡ still w now l
unfolding still recent
still-recent w now then_ [] h = refl
still-recent w now then_ (t ∷ l) h = ground (arith, still-recent w now then_ l h)

still-append : (w now : ℕ) (a b : List ℕ) → still w now (a ++ b) ≡ still w now a + still w now b
unfolding still recent
still-append w now [] b = omega arith
still-append w now (t ∷ a) b = ground (arith, still-append w now a b)

within-append : (w to : ℕ) (a b : List ℕ) → within w to (a ++ b) ≡ within w to a + within w to b
unfolding within
within-append w to [] b = omega arith
within-append w to (t ∷ a) b = ground (arith, within-append w to a b)

within-still : (w now to : ℕ) (l : List ℕ) → now ≤ to → within w to l ≤ still w now l
unfolding within still recent
within-still w now to [] h = omega arith
within-still w now to (t ∷ l) h = ground (arith, within-still w now to l h)

-- The times kept under a key are, from `last` on, as good as all that were let through.
record Bounded (r : RateLimiter) (k : Bytes) (last : ℕ) (past : List ℕ) : Type 0 where
  kept : (now : ℕ) → last ≤ now → still r.window now (entries_of r k) ≡ still r.window now past
  few : (to : ℕ) → within r.window to past ≤ r.limit

-- The entries under the key of a call that are young enough to count.
abbrev counted : RateLimiter → Call → List ℕ
counted r c = recent r.window c.now (entries_of r c.key)

allow_result :
    (r : RateLimiter) (c : Call)
    → 0 < r.limit
    → (let a = allow r c.key c.now c.later in
        (a.1 ≡ not (leb r.limit (length (counted r c))))
        × (a.0.window ≡ r.window)
        × (a.0.limit ≡ r.limit))
unfolding allow entries_of
allow_result r c p = (ground arith, ground arith, ground arith)

entries_of-allow :
    (r : RateLimiter) (k : Bytes) (c : Call)
    → 0 < r.limit
    → entries_of (allow r c.key c.now c.later).0 k ≡ (
        if c.key == k
        then (if leb r.limit (length (counted r c))
            then counted r c
            else counted r c ++ c.later ∷ [])
        else entries_of r k)
unfolding allow entries_of
entries_of-allow r k c p = ground (
  arith,
  get-put r.items c.key k (counted r c),
  get-put r.items c.key k (counted r c ++ c.later ∷ []),
)

-- After a call the times kept under `k` count, for every later time, like all that were let through.
allow-kept :
    (r : RateLimiter) (k : Bytes) (last : ℕ) (past : List ℕ) (c : Call)
    → 0 < r.limit
    → last ≤ c.now
    → c.now ≤ c.later
    → Bounded r k last past
    → (now : ℕ) → c.later ≤ now
    → (let a = allow r c.key c.now c.later in
        still r.window now (entries_of a.0 k)
        ≡ still r.window now (past ++ (if a.1 && c.key == k then c.later ∷ [] else [])))
allow-kept r k last past c p h q b now l =
    let a = allow r c.key c.now c.later in
    let w = r.window in
    let (allowed, _, _) = allow_result r c p in
    let young = still-recent w now c.now (entries_of r c.key) (omega arith) in
    let before = b.kept now (omega arith) in
    let nothing = still-append w now past [] in
    elim (Bool-cases (c.key == k)) [
      | inl same ↦
          let name : entries_of r c.key ≡ entries_of r k =
            ap (entries_of r) ((eq_iff c.key k).0 same) in
          elim (Bool-cases (leb r.limit (length (counted r c)))) [
            | inl full ↦ ground (
              arith,
              allowed,
              young,
              before,
              nothing,
              name,
              same,
              full,
              entries_of-allow r k c p,
              append-nil past,
            )
            | inr free ↦ ground (
              arith,
              allowed,
              young,
              before,
              name,
              same,
              free,
              entries_of-allow r k c p,
              still-append w now (counted r c) (c.later ∷ []),
              still-append w now past (c.later ∷ []),
            )
          ]
      | inr other ↦
          ground (arith, allowed, before, other, entries_of-allow r k c p, append-nil past)
    ]

allow-few :
    (r : RateLimiter) (k : Bytes) (last : ℕ) (past : List ℕ) (c : Call)
    → 0 < r.limit
    → last ≤ c.now
    → c.now ≤ c.later
    → Bounded r k last past
    → (to : ℕ)
    → (let a = allow r c.key c.now c.later in
        within r.window to (past ++ (if a.1 && c.key == k then c.later ∷ [] else [])) ≤ r.limit)
unfolding within still
allow-few r k last past c p h q b to =
    let w = r.window in
    let (allowed, _, _) = allow_result r c p in
    elim (Bool-cases (c.key == k && not (leb r.limit (length (counted r c))))) [
      | inl new ↦
          let name : entries_of r c.key ≡ entries_of r k =
            ap (entries_of r) ((eq_iff c.key k).0 (ground arith)) in
          let room : still w c.now (entries_of r c.key) < r.limit = ground arith in
          let same : still w c.now (entries_of r c.key) ≡ still w c.now past =
            ap (still w c.now) name ∙ b.kept c.now h in
          ground (
            arith,
            allowed,
            new,
            b.few to,
            within-append w to past (c.later ∷ []),
            room,
            same,
            within-still w c.now to past,
          )
      | inr old ↦ ground (arith, allowed, old, b.few to, append-nil past)
    ]

allow-Bounded :
    (r : RateLimiter) (k : Bytes) (last : ℕ) (past : List ℕ) (c : Call)
    → 0 < r.limit
    → last ≤ c.now
    → c.now ≤ c.later
    → Bounded r k last past
    → (let a = allow r c.key c.now c.later in
        Bounded a.0 k c.later (past ++ (if a.1 && c.key == k then c.later ∷ [] else [])))
allow-Bounded r k last past c p h q b =
    let (_, w, l) = allow_result r c p in
    record {
      kept = λ now i. rw w (allow-kept r k last past c p h q b now i);
      few = λ to. rw (w, l) (allow-few r k last past c p h q b to);
    }

accepted-within :
    (r : RateLimiter) (k : Bytes) (last to : ℕ) (past : List ℕ) (calls : List Call)
    → 0 < r.limit
    → IsOrdered last calls
    → Bounded r k last past
    → within r.window to (past ++ accepted r k calls) ≤ r.limit
unfolding accepted
accepted-within r k last to past [] p o b = rw append-nil (b.few to)
accepted-within r k last to past (c ∷ calls) p (h, q, o) b =
    let a = allow r c.key c.now c.later in
    let (_, w, l) = allow_result r c p in
    let new = if a.1 && c.key == k then c.later ∷ [] else [] in
    let rest =
      accepted-within a.0 k c.later to (past ++ new) calls (omega arith) o
        (allow-Bounded r k last past c p h q b) in
    ground (arith, rest, w, l, append_assoc past new (accepted a.0 k calls))

-- Of the calls under one key, in any order among those under other keys, a limiter that is switched
-- on lets through at most `limit` within any span of one window, if the clock does not run backwards.
pub allow_bound :
    (window limit start to : ℕ) (k : Bytes) (calls : List Call)
    → 0 < limit
    → IsOrdered start calls
    → within window to (accepted (new_rate_limiter limit window) k calls) ≤ limit
unfolding get within recent entries_of
allow_bound window limit start to k calls p o =
    accepted-within (new_rate_limiter limit window) k start to [] calls p o
      (record { kept = λ now i. refl; few = λ t. omega arith })
