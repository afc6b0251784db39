-- ===== src/Daemon/World.antt =====
-- cmd/xmppd/stream.go: the sessions of the server with what they share, and the routing of stanzas
-- between them. Of session.go there are the flags, the remote address and Send. A session is named
-- by a number, which stands for its pointer.
use xmpp_go.Prelude.{
  ℕ, Bool, true, false, Option, List, [], ◌∷◌, list_eq, ◌==◌, if◌then◌else◌, eqb, not, ◌&&◌, ◌||◌,
}
use xmpp_go.Prelude.Bytes.{Bytes, bytes}
use xmpp_go.Jid.{Jid, is_zero, is_full, is_domain_only}
use xmpp_go.Storage.Memory.State.{Store}
use xmpp_go.Stanza.{Header, Iq, Message, Presence, new_stanza_error, error_iq, iq_get, iq_set}
use xmpp_go.Daemon.Router.{Router, targets}
use xmpp_go.Daemon.Limiter.{RateLimiter}
use xmpp_go.Daemon.Registration.{Answer}

-- The bits of `SessionState` that the server program reads or sets.
pub record SessionState : Type 0 where
  pub secure : Bool
  pub authenticated : Bool
  pub bound : Bool
  pub ready : Bool

abbrev pub no_flags : SessionState
no_flags = record { secure = false; authenticated = false; bound = false; ready = false }

-- `SetState` adds bits.
unfoldable pub set_state : SessionState → SessionState → SessionState
set_state cur state = record {
  secure = cur.secure || state.secure;
  authenticated = cur.authenticated || state.authenticated;
  bound = cur.bound || state.bound;
  ready = cur.ready || state.ready;
}

pub data Phase : Type 0 where
  idle serving ended : Phase

-- A session with what `serveSession` keeps for it. `connected` says whether Send still writes.
pub record Session : Type 0 where
  pub phase : Phase
  pub connected : Bool
  pub state : SessionState
  pub remote : Jid
  pub peer : Bytes
  pub limiter : RateLimiter
  pub authenticated_user : Bytes

pub data Feature : Type 0 where
  starttls bind registration : Feature
  mechanisms : List Bytes → Feature

-- What a session can be sent.
pub data Out : Type 0 where
  stream_start : Bytes → Out
  features : List Feature → Out
  tls_proceed tls_failure sasl_success : Out
  sasl_failure : Bytes → Out
  answer : Answer → Out
  iq_reply : Iq → Out
  bind_result : Iq → Bytes → Out
  routed_message : Message → Out
  routed_presence : Presence → Out
  routed_iq : Iq → Out

pub record Sent : Type 0 where
  pub by : ℕ
  pub to : ℕ
  pub out : Out

-- `sent` is all that was written, the last first.
pub record World : Type 0 where
  pub sessions : ℕ → Session
  pub router : Router
  pub store : Option Store
  pub sent : List Sent

abbrev pub set_session : World → ℕ → Session → World
set_session w i s = record w { sessions = λ j. if eqb i j then s else w.sessions j }

-- `Send`, by the handler of the session `i`; it is false where it returns an error.
unfoldable pub send : World → ℕ → ℕ → Out → World × Bool
send w i dst o =
    if (w.sessions dst).connected
    then (record w { sent = record { by = i; to = dst; out = o } ∷ w.sent }, true)
    else (w, false)

-- The loop of `routeMessage` and `routePresence`: errors are logged.
unfoldable pub deliver : World → ℕ → Out → List ℕ → World
deliver w i o [] = w
deliver w i o (dst ∷ dsts) = deliver (if eqb dst i then w else (send w i dst o).0) i o dsts

-- The loop of `routeIQ`, which ends behind the first send if the address is full.
unfoldable pub deliver_iq : World → ℕ → Out → Bool → List ℕ → World
deliver_iq w i o full [] = w
deliver_iq w i o full (dst ∷ dsts) =
    let next = if eqb dst i then w else (send w i dst o).0 in
    let rest = deliver_iq next i o full dsts in if not (eqb dst i) && full then next else rest

-- A missing sender is the session's address; one that is given stays.
abbrev pub with_sender : Header → Jid → Header
with_sender h from = if is_zero h.from then record h { from = from } else h

unfoldable pub route_message : World → ℕ → Message → World
route_message w i msg =
    deliver w i
      (routed_message (record msg { header = with_sender msg.header (w.sessions i).remote }))
      (targets w.router msg.header.to)

unfoldable pub route_presence : World → ℕ → Presence → World
route_presence w i pres =
    if is_zero pres.header.to
    then w
    else deliver w i
        (routed_presence (record pres { header = with_sender pres.header (w.sessions i).remote }))
        (targets w.router pres.header.to)

abbrev pub is_request : Iq → Bool
is_request iq = iq.header.stanza_type == iq_get || iq.header.stanza_type == iq_set

-- An error in answer to a request; other IQs get none.
unfoldable pub refuse_request : World → ℕ → Iq → Bytes → Bytes → Bytes → World × Bool
refuse_request w i iq error_type condition text =
    if is_request iq
    then send w i i (iq_reply (error_iq iq (new_stanza_error error_type condition text)))
    else (w, true)

-- The error replies take the address from the IQ as it then is, with its sender.
unfoldable pub route_iq : World → ℕ → Iq → World × Bool
route_iq w i iq =
    if is_zero iq.header.to || is_domain_only iq.header.to
    then refuse_request w i iq (bytes "cancel") (bytes "service-unavailable")
        (bytes "unsupported server iq")
    else let from = record iq { header = with_sender iq.header (w.sessions i).remote } in
      if targets w.router iq.header.to == []
      then refuse_request w i from (bytes "cancel") (bytes "item-not-found")
          (bytes "recipient not found")
      else (
        deliver_iq w i (routed_iq from) (is_full iq.header.to) (targets w.router iq.header.to),
        true,
      )
