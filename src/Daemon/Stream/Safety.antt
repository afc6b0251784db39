-- ===== src/Daemon/Stream/Safety.antt =====
-- What holds of the server's sessions, router and output at all times, and the pieces of a step that
-- keep it.
use xmpp_go.Prelude.{
  ℕ, ◌≡◌, refl, sym, subst, Bool, true, false, Option, none, some, Result, ok, err, List, [], ◌∷◌,
  list_eq, nat_eq, ◌==◌, if◌then◌else◌, eqb, eqb_iff, not, ◌&&◌, all, arith, Bool-cases, inl, inr,
}
use xmpp_go.Prelude.Bytes.{Bytes}
use xmpp_go.Prelude.Dict.{get}
use xmpp_go.Jid.{Jid, to_string}
use xmpp_go.Daemon.Router.{register, unregister}
use xmpp_go.Daemon.Stream.Branches.{if_at, option_at, result_at, and_then_at}
use xmpp_go.Daemon.Router.Views.{
  Agrees, IsPlain, register-Agrees, unregister-Agrees, get-register, get-unregister,
}
use xmpp_go.Daemon.World.{
  Session, World, Out, Sent, routed_message, routed_presence, routed_iq, set_session, send,
}
use xmpp_go.Storage.Memory.State.{Store}
use xmpp_go.Daemon.Stream.{Config, and_then}

abbrev pub is_routed : Out → Bool
is_routed (routed_message m) = true
is_routed (routed_presence p) = true
is_routed (routed_iq q) = true
is_routed o = false

-- What a session writes of its own goes to itself; what it routes comes from a ready session and
-- goes to another one that is ready.
abbrev pub allowed : (ℕ → Session) → Sent → Bool
allowed sessions e =
    if is_routed e.out
    then (sessions e.by).state.ready && (sessions e.to).state.ready
    else eqb e.by e.to

pub record SafeSession (cfg : Config) (s : Session) : Type 0 where
  pub ready_authenticated : s.state.ready ≡ true → s.state.authenticated ≡ true
  pub own_domain : s.state.authenticated ≡ true → s.remote.domain ≡ cfg.domain
  pub plain : IsPlain s.remote

pub record Safe (cfg : Config) (w : World) : Type 0 where
  pub session : (i : ℕ) → SafeSession cfg (w.sessions i)
  pub agrees : Agrees w.router
  pub registered_ready :
      (f : Bytes) (i : ℕ) → get w.router.by_full f ≡ some i → (w.sessions i).state.ready ≡ true
  pub sent_allowed : all (allowed w.sessions) w.sent ≡ true

abbrev pub Keeps : Config → World × Bool → Type 0
Keeps cfg r = Safe cfg r.0

-- What was allowed stays so while no session loses its readiness.
all-allowed :
    (before after : ℕ → Session) (l : List Sent)
    → ((j : ℕ) → (before j).state.ready ≡ true → (after j).state.ready ≡ true)
    → all (allowed before) l ≡ true
    → all (allowed after) l ≡ true
all-allowed before after [] k h = refl
all-allowed before after (e ∷ l) k h =
    let rest = all-allowed before after l k (ground arith) in ground (arith, rest, k e.by, k e.to)

-- `send` changes no session and not the router.
pub send-sessions : (w : World) (i dst : ℕ) (o : Out) → (send w i dst o).0.sessions ≡ w.sessions
unfolding send
send-sessions w i dst o = ground arith

module _ {cfg : Config} where
  pub if_Keeps :
      (b : Bool) (x y : World × Bool)
      → (b ≡ true → Keeps cfg x)
      → (b ≡ false → Keeps cfg y)
      → Keeps cfg (if b then x else y)
  if_Keeps = if_at (Safe cfg)

  pub option_Keeps :
      {A : Type 0} (o : Option A) (x : World × Bool) (f : A → World × Bool)
      → (o ≡ none → Keeps cfg x)
      → ((a : A) → o ≡ some a → Keeps cfg (f a))
      → Keeps cfg (elim o [ none ↦ x | some a ↦ f a ])
  option_Keeps = option_at (Safe cfg)

  pub result_Keeps :
      {E A : Type 0} (o : Result E A) (x : World × Bool) (f : A → World × Bool)
      → Keeps cfg x
      → ((a : A) → o ≡ ok a → Keeps cfg (f a))
      → Keeps cfg (elim o [ err _ ↦ x | ok a ↦ f a ])
  result_Keeps = result_at (Safe cfg)

  pub and_then-Keeps :
      (r : World × Bool) (k : World → World × Bool)
      → Keeps cfg r
      → (Safe cfg r.0 → Keeps cfg (k r.0))
      → Keeps cfg (and_then r k)
  and_then-Keeps = and_then_at (Safe cfg)

  -- A session may change if it stays safe and loses no readiness.
  pub set_session-Safe :
      (w : World) (i : ℕ) (s : Session)
      → SafeSession cfg s
      → ((w.sessions i).state.ready ≡ true → s.state.ready ≡ true)
      → Safe cfg w
      → Safe cfg (set_session w i s)
  set_session-Safe w i s p q h =
      let kept : (j : ℕ)
          → (w.sessions j).state.ready ≡ true
          → (if eqb i j then s else w.sessions j).state.ready ≡ true =
        λ j r. elim (Bool-cases (eqb i j)) [
          | inl same ↦
              let e = (eqb_iff i j).0 same in
              rw same (q (subst (λ k. (w.sessions k).state.ready ≡ true) (sym e) r))
          | inr other ↦ rw other r
        ] in
      record {
        session = λ j. if_Session (eqb i j) s (w.sessions j) p (h.session j);
        agrees = h.agrees;
        registered_ready = λ f j e. kept j (h.registered_ready f j e);
        sent_allowed =
            all-allowed w.sessions (λ j. if eqb i j then s else w.sessions j) w.sent kept
              h.sent_allowed;
      }
    where
      if_Session :
          (b : Bool) (x y : Session)
          → SafeSession cfg x
          → SafeSession cfg y
          → SafeSession cfg (if b then x else y)
      if_Session true x y u v = u
      if_Session false x y u v = v

  pub set_store-Safe :
      (w : World) (s : Option Store) → Safe cfg w → Safe cfg (record w { store = s })
  set_store-Safe w s h = record {
    session = h.session;
    agrees = h.agrees;
    registered_ready = h.registered_ready;
    sent_allowed = h.sent_allowed;
  }

  pub register-Safe :
      (w : World) (i : ℕ) (j : Jid)
      → IsPlain j
      → (w.sessions i).state.ready ≡ true
      → Safe cfg w
      → Safe cfg (record w { router = register w.router j i })
  register-Safe w i j p r h = record {
    session = h.session;
    agrees = register-Agrees w.router j i p h.agrees;
    registered_ready = λ f k e. elim (Bool-cases (not (to_string j == []) && to_string j == f)) [
      | inl new ↦
          let same : i ≡ k = ground (arith, e, get-register w.router j i f) in
          subst (λ n. (w.sessions n).state.ready ≡ true) same r
      | inr old ↦ h.registered_ready f k (ground (arith, e, get-register w.router j i f))
    ];
    sent_allowed = h.sent_allowed;
  }

  pub unregister-Safe :
      (w : World) (j : Jid)
      → IsPlain j
      → Safe cfg w
      → Safe cfg (record w { router = unregister w.router j })
  unregister-Safe w j p h = record {
    session = h.session;
    agrees = unregister-Agrees w.router j p h.agrees;
    registered_ready =
        λ f k e. h.registered_ready f k (ground (arith, e, get-unregister w.router j f));
    sent_allowed = h.sent_allowed;
  }

  pub send-Safe :
      (w : World) (i dst : ℕ) (o : Out)
      → allowed w.sessions (record { by = i; to = dst; out = o }) ≡ true
      → Safe cfg w
      → Safe cfg (send w i dst o).0
  unfolding send
  send-Safe w i dst o a h =
      if_Keeps (w.sessions dst).connected
        (record w { sent = record { by = i; to = dst; out = o } ∷ w.sent }, true) (w, false)
        (λ e. record {
          session = h.session;
          agrees = h.agrees;
          registered_ready = h.registered_ready;
          sent_allowed = ground (arith, a, h.sent_allowed);
        })
        (λ e. h)

  -- A write of a session's own.
  pub own-Safe :
      (w : World) (i : ℕ) (o : Out) → is_routed o ≡ false → Safe cfg w → Keeps cfg (send w i i o)
  own-Safe w i o r h = send-Safe w i i o (ground (arith, r)) h
