-- ===== src/Daemon/Stream/Branches.antt =====
-- A property of the world through the branches of a handler of cmd/xmppd/stream.go.
use xmpp_go.Prelude.{
  ◌≡◌, refl, Bool, true, false, Option, none, some, Result, ok, err, list_eq, nat_eq, if◌then◌else◌,
}
use xmpp_go.Daemon.World.{World}
use xmpp_go.Daemon.Stream.{and_then}

-- A property that the world has behind a handler.
abbrev pub After : (World → Type 0) → World × Bool → Type 0
After Q r = Q r.0

-- A property of the world that holds on each branch holds of the result.
module _ (Q : World → Type 0) where
  pub if_at :
      (b : Bool) (x y : World × Bool)
      → (b ≡ true → Q x.0)
      → (b ≡ false → Q y.0)
      → After Q (if b then x else y)
  if_at true x y h k = h refl
  if_at false x y h k = k refl

  pub option_at :
      {A : Type 0} (o : Option A) (x : World × Bool) (f : A → World × Bool)
      → (o ≡ none → Q x.0)
      → ((a : A) → o ≡ some a → Q (f a).0)
      → After Q (elim o [ none ↦ x | some a ↦ f a ])
  option_at none x f h k = h refl
  option_at (some a) x f h k = k a refl

  pub result_at :
      {E A : Type 0} (o : Result E A) (x : World × Bool) (f : A → World × Bool)
      → Q x.0
      → ((a : A) → o ≡ ok a → Q (f a).0)
      → After Q (elim o [ err _ ↦ x | ok a ↦ f a ])
  result_at (err e) x f h k = h
  result_at (ok a) x f h k = k a refl

  -- What the checks of a password come to.
  pub checked_at :
      {E : Type 0} (o : Result E Bool) (x y z : World × Bool)
      → Q x.0
      → Q y.0
      → (o ≡ ok true → Q z.0)
      → After Q (elim o [ err _ ↦ x | ok false ↦ y | ok true ↦ z ])
  checked_at (err e) x y z h k l = h
  checked_at (ok false) x y z h k l = k
  checked_at (ok true) x y z h k l = l refl

  pub and_then_at :
      (r : World × Bool) (k : World → World × Bool)
      → Q r.0
      → (Q r.0 → Q (k r.0).0)
      → After Q (and_then r k)
  unfolding and_then
  and_then_at r k h f = if_at r.1 (k r.0) r (λ e. f h) (λ e. h)
