-- ===== src/Tests/Server.antt =====
-- A server for one domain with one session, which authenticates and binds.
use xmpp_go.Prelude.{
  ◌≡◌, ◌≤◌, ◌↔◌, refl, true, false, none, some, List, [], ◌∷◌, ◌++◌, In, ok, list_eq, ◌==◌, or_zero,
  if◌then◌else◌, arith,
}
use xmpp_go.Prelude.Bytes.{Bytes, bytes}
use xmpp_go.Prelude.Dict.{get, put}
use xmpp_go.Jid.{
  Jid, to_string, bare, is_zero, is_full, cut, split_resource, lacks, valid_local, valid_domain,
}
use xmpp_go.Jid.Utf8.{runes, valid_string}
use xmpp_go.Jid
use xmpp_go.Storage.Memory.State.{Store, new}
use xmpp_go.Storage.Memory.Users.{create_user, user_exists?, authenticate, get_user}
use xmpp_go.Stanza.{Iq, iq_set}
use xmpp_go.Daemon.Router.{new_session_router, targets}
use xmpp_go.Daemon.Router.Views.{IsPlain, front}
use xmpp_go.Daemon.Router.Histories.{Event, registers, unregisters, routed, holder, targets-routed}
use xmpp_go.Daemon.Limiter.{allow, new_rate_limiter}
use xmpp_go.Daemon.Limiter.Window.{Call, accepted, within, allow_bound}
use xmpp_go.Daemon.Forms.{RegistrationConfig, registration_closed}
use xmpp_go.Daemon.Registration.{
  Codec, Query, handle, handle_set, handle_create, is_admitted, extract_fields, put_fields,
  new_user, query_of,
}
use xmpp_go.Daemon.Registration.Accounts.{
  is_registered, answered, name_of, password_of, handle_set-registered, handle-unchanged,
}
use xmpp_go.Daemon.Text.{trim_space, strip}
use xmpp_go.Daemon.World.{World, serving, send, set_state}
use xmpp_go.Daemon.Stream.{
  Config, Decoders, Inputs, Element, auth_element, iq_element, start_session, serve, on_element,
  handle_sasl_auth, check_password, plain_parts, sasl_fails,
}
use xmpp_go.Daemon.Stream.Safety.{Safe}
use xmpp_go.Daemon.Stream.Reach.{connects, reads, Reached, start, step, new_world, Reached-Safe}
use xmpp_go.Daemon.Stream.Credentials.{Admitted}
use xmpp_go.Daemon.Stream.Admission.{Step-Admitted}

abbrev ann_home : Jid
ann_home = record { local = bytes "ann"; domain = bytes "example.org"; resource = bytes "home" }

abbrev ann_bare : Jid
ann_bare = record { local = bytes "ann"; domain = bytes "example.org"; resource = [] }

ann_home-IsPlain : IsPlain ann_home
unfolding to_string bare split_resource cut
ann_home-IsPlain = refl

ann_bare-is_zero : is_zero ann_bare ≡ false
unfolding is_zero
ann_bare-is_zero = refl

abbrev coming : List Event
coming = registers ann_home 6 ∷ unregisters ann_home ∷ registers ann_home 7 ∷ []

targets-routed_example : In 7 (targets (routed coming new_session_router) ann_bare) ↔ (
    (f : Bytes) × (if is_full ann_bare
      then f ≡ to_string ann_bare
      else front f ≡ to_string (bare ann_bare))
    × (holder coming (λ g. none) f ≡ some 7))
targets-routed_example =
    targets-routed coming ann_bare 7 (ann_home-IsPlain, (ann_home-IsPlain, (ann_home-IsPlain, tt)))
      ann_bare-is_zero

abbrev calls : List Call
calls =
    record { key = bytes "peer"; now = 5; later = 5 }
    ∷ record { key = bytes "peer"; now = 6; later = 7 }
    ∷ []

allow_bound_example : within 10 8 (accepted (new_rate_limiter 1 10) (bytes "peer") calls) ≤ 1
allow_bound_example =
    allow_bound 10 1 0 8 (bytes "peer") calls (omega arith)
      (omega arith, omega arith, (omega arith, omega arith, tt))

abbrev request : Query
request = record {
  space = bytes "jabber:iq:register";
  username = bytes "ann";
  password = bytes "secret";
  email = [];
  remove = false;
  form = none;
}

abbrev codec : Codec
codec = record {
  decode_query = λ b. some request;
  decode_form = λ b. none;
  marshal_form = λ f. [];
  hash_password = λ p n. some ([], [], []);
}

abbrev open_to_all : RegistrationConfig
open_to_all = record {
  policy = bytes "open";
  fields = bytes "username" ∷ [];
  invites = [];
  admin_tokens = [];
  iterations = 4096;
  data_form = true;
  instructions = [];
}

abbrev set_request : Iq
set_request = record {
  header = record {
    id = bytes "1";
    from = ann_bare;
    to = ann_bare;
    stanza_type = iq_set;
    lang = [];
  };
  query = bytes "<query/>";
  error = none;
}

request-registered :
    is_registered (handle_set codec open_to_all (some new) set_request request 3).1 ≡ true
unfolding handle_set handle_create is_admitted extract_fields put_fields new_user create_user
    user_exists? get put
request-registered = refl

handle_set-registered_example :
    let h = handle_set codec open_to_all (some new) set_request request 3 in
    let s = or_zero new h.0 in
    ((open_to_all.policy == registration_closed) ≡ false)
    × (is_admitted codec open_to_all (extract_fields codec open_to_all request) ≡ true)
    × ((user_exists? new (name_of codec open_to_all request) ≡ false)
        × (authenticate s
              (name_of codec open_to_all request)
              (password_of codec open_to_all request)
            ≡ ok true))
    × (get_user s (bytes "bob") ≡ (
        if name_of codec open_to_all request == bytes "bob"
        then get_user s (bytes "bob")
        else get_user new (bytes "bob")))
handle_set-registered_example =
    handle_set-registered codec open_to_all new set_request request 3 (bytes "bob")
      request-registered

abbrev closed_to_all : RegistrationConfig
closed_to_all = record open_to_all { policy = bytes "closed" }

request-refused :
    answered
      (handle codec closed_to_all
        (some new)
        (new_rate_limiter 0 0)
        (bytes "peer")
        set_request
        1
        2
        3).1
    ≡ false
unfolding handle query_of handle_set allow
request-refused = refl

handle-unchanged_example :
    (handle codec closed_to_all
      (some new)
      (new_rate_limiter 0 0)
      (bytes "peer")
      set_request
      1
      2
      3).0.0
    ≡ some new
handle-unchanged_example =
    handle-unchanged codec closed_to_all (some new) (new_rate_limiter 0 0) (bytes "peer")
      set_request 1 2 3 request-refused

abbrev server : Config
server = record {
  domain = bytes "example.org";
  has_tls = false;
  rate_limit = 5;
  rate_window = 60;
  registration_config = open_to_all;
}

abbrev decoders : Decoders
decoders = record { codec = codec; decode_base64 = λ b. some b; decode_bind = λ b. some b }

abbrev inputs : Inputs
inputs = record { random_resource = bytes "r"; now = 1; later = 2; made = 3; handshake = true }

-- The accounts of the server: ann's.
abbrev accounts : Store
accounts = record new {
  users =
      (
        bytes "ann",
        record {
          username = bytes "ann";
          password = bytes "secret";
          salt = [];
          iterations = 4096;
          server_key = [];
          stored_key = [];
          created_at = 1;
          updated_at = 1;
        },
      )
      ∷ [];
}

abbrev login : Element
login = auth_element (bytes "PLAIN") (0 ∷ bytes "ann" ++ 0 ∷ bytes "secret")

abbrev binding : Element
binding = iq_element (record set_request { query = bytes "home" })

abbrev connected_world : World
connected_world = start_session server (new_world (some accounts)) 7 false (bytes "peer")

abbrev login_world : World
login_world = serve decoders server inputs connected_world 7 login

abbrev bound_world : World
bound_world = serve decoders server inputs login_world 7 binding

connected-serving : (connected_world.sessions 7).phase ≡ serving
unfolding start_session
connected-serving = refl

login-serving : (login_world.sessions 7).phase ≡ serving
unfolding start_session serve on_element handle_sasl_auth check_password plain_parts cut trim_space
    strip authenticate get Jid.new send set_state sasl_fails valid_local valid_domain runes
    valid_string
login-serving = refl

bound-Reached : Reached decoders server (some accounts) bound_world
bound-Reached =
    step login_world bound_world
      (step connected_world login_world
        (step (new_world (some accounts)) connected_world start
          (connects (new_world (some accounts)) 7 false (bytes "peer") refl))
        (reads inputs connected_world 7 login connected-serving))
      (reads inputs login_world 7 binding login-serving)

server-lacks : lacks b'/' server.domain ≡ true
server-lacks = refl

Reached-Safe_example : Safe server bound_world
Reached-Safe_example = Reached-Safe (some accounts) bound_world server-lacks bound-Reached

connected-authenticated : (connected_world.sessions 7).state.authenticated ≡ false
unfolding start_session
connected-authenticated = refl

login-authenticated : (login_world.sessions 7).state.authenticated ≡ true
unfolding start_session serve on_element handle_sasl_auth check_password plain_parts cut trim_space
    strip authenticate get Jid.new send set_state sasl_fails valid_local valid_domain runes
    valid_string
login-authenticated = refl

Step-Admitted_example :
    (given : Inputs) × (e : Element) × (login_world
      ≡ serve decoders server given connected_world 7 e)
    × Admitted decoders server (some accounts) e (login_world.sessions 7)
unfolding start_session
Step-Admitted_example =
    Step-Admitted connected_world login_world 7
      (reads inputs connected_world 7 login connected-serving) connected-authenticated
      login-authenticated
