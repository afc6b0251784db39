-- ===== src/Daemon/Stream/Reach.antt =====
-- The server as a step relation: sessions connect, read elements in any interleaving, lose their
-- connection and end. A step is a whole round of the loop of cmd/xmppd/stream.go's `serveStream`.
use xmpp_go.Prelude.{
  ℕ, ◌≡◌, refl, Bool, true, false, Option, [], list_eq, nat_eq, if◌then◌else◌, arith,
}
use xmpp_go.Prelude.Bytes.{Bytes}
use xmpp_go.Prelude.Dict.{get}
use xmpp_go.Jid.{Jid, lacks, to_string, bare, split_resource, cut}
use xmpp_go.Storage.Memory.State.{Store}
use xmpp_go.Daemon.Router.{new_session_router, unregister}
use xmpp_go.Daemon.Router.Views.{new_session_router-Agrees}
use xmpp_go.Daemon.Limiter.{new_rate_limiter}
use xmpp_go.Daemon.World.{Session, World, idle, serving, ended, no_flags, set_session}
use xmpp_go.Daemon.Stream.{
  Config, Decoders, Inputs, Element, on_element, start_session, end_session, serve,
}
use xmpp_go.Daemon.Stream.Safety.{Safe, set_session-Safe, unregister-Safe}
use xmpp_go.Daemon.Stream.Handlers.{on_element-Safe, with_flags-Safe}

abbrev pub zero_jid : Jid
zero_jid = record { local = []; domain = []; resource = [] }

abbrev pub new_session : Session
new_session = record {
  phase = idle;
  connected = false;
  state = no_flags;
  remote = zero_jid;
  peer = [];
  limiter = new_rate_limiter 0 0;
  authenticated_user = [];
}

abbrev pub new_world : Option Store → World
new_world store = record {
  sessions = λ i. new_session;
  router = new_session_router;
  store = store;
  sent = [];
}

pub data Step (d : Decoders) (cfg : Config) : World → World → Type 0 where
  connects :
      (w : World) (i : ℕ) (secure : Bool) (peer : Bytes)
      → (w.sessions i).phase ≡ idle
      → Step d cfg w (start_session cfg w i secure peer)
  reads :
      (inputs : Inputs) (w : World) (i : ℕ) (e : Element)
      → (w.sessions i).phase ≡ serving
      → Step d cfg w (serve d cfg inputs w i e)
  loses :
      (w : World) (i : ℕ)
      → Step d cfg w (set_session w i (record (w.sessions i) { connected = false }))

-- The worlds that a server started with the store comes to.
pub data Reached (d : Decoders) (cfg : Config) (store : Option Store) : World → Type 0 where
  start : Reached d cfg store (new_world store)
  step : (v w : World) → Reached d cfg store v → Step d cfg v w → Reached d cfg store w

module _ {cfg : Config} where
  if_World : (b : Bool) (x y : World) → Safe cfg x → Safe cfg y → Safe cfg (if b then x else y)
  if_World true x y u v = u
  if_World false x y u v = v

  new_world-Safe : (store : Option Store) → Safe cfg (new_world store)
  unfolding get to_string bare split_resource cut
  new_world-Safe store = record {
    session = λ i. record {
      ready_authenticated = λ r. absurd (ground arith);
      own_domain = λ r. absurd (ground arith);
      plain = refl;
    };
    agrees = new_session_router-Agrees;
    registered_ready = λ f i e. absurd (ground arith);
    sent_allowed = refl;
  }

module _ {d : Decoders} {cfg : Config} where
  Step-Safe :
      (v w : World) → lacks b'/' cfg.domain ≡ true → Step d cfg v w → Safe cfg v → Safe cfg w
  unfolding start_session end_session serve
  Step-Safe v w slash (connects _ i secure peer free) h =
      let old = v.sessions i in
      let s = h.session i in
      let limiter = new_rate_limiter cfg.rate_limit cfg.rate_window in
      let started =
        set_session-Safe v i
          (record old { phase = serving; connected = true; peer = peer; limiter = limiter })
          (record {
            ready_authenticated = s.ready_authenticated;
            own_domain = s.own_domain;
            plain = s.plain;
          })
          (λ r. r) h in
      if_World secure _ _ (with_flags-Safe _ i started) started
  Step-Safe v w slash (reads inputs _ i e busy) h =
      let r = on_element d cfg inputs v i e in
      let k = on_element-Safe d inputs v i e slash h in
      let s = k.session i in
      if_World r.1 r.0 _ k (
        set_session-Safe (record r.0 { router = unregister r.0.router (r.0.sessions i).remote }) i
          (record (r.0.sessions i) { phase = ended; connected = false })
          (record {
            ready_authenticated = s.ready_authenticated;
            own_domain = s.own_domain;
            plain = s.plain;
          })
          (λ q. q) (unregister-Safe r.0 (r.0.sessions i).remote s.plain k))
  Step-Safe v w slash (loses _ i) h =
      let s = h.session i in
      set_session-Safe v i (record (v.sessions i) { connected = false })
        (record {
          ready_authenticated = s.ready_authenticated;
          own_domain = s.own_domain;
          plain = s.plain;
        })
        (λ r. r) h

  -- In every world that a server for a domain without a slash comes to, in whatever order its
  -- sessions connect, read, fail and end: a session that is ready is authenticated and has an address
  -- of the server's domain; the router's two maps agree and name ready sessions only; and everything
  -- that was ever written went to the session whose element it answers, or was routed from an
  -- authenticated session that had bound a resource to a session that had.
  pub Reached-Safe :
      (store : Option Store) (w : World)
      → lacks b'/' cfg.domain ≡ true
      → Reached d cfg store w
      → Safe cfg w
  Reached-Safe store w slash start = new_world-Safe store
  Reached-Safe store w slash (step v _ r s) = Step-Safe v w slash s (Reached-Safe store v slash r)
