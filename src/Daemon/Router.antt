-- ===== src/Daemon/Router.antt =====
-- cmd/xmppd/stream.go: the `sessionRouter`, whose two maps hold the sessions by full JID and, one
-- level down, by bare JID. A session is named by a number, which stands for its pointer.
pub mod Histories
pub mod Views
use xmpp_go.Prelude.{ℕ, none, some, List, [], ◌∷◌, list_eq, ◌==◌, if◌then◌else◌}
use xmpp_go.Prelude.Bytes.{Bytes}
use xmpp_go.Prelude.Dict.{Dict, get, put, remove, values}
use xmpp_go.Prelude.Nested.{put_in, inner}
use xmpp_go.Jid.{Jid, to_string, bare, is_zero, is_full}

pub record Router : Type 0 where
  pub by_full : Dict Bytes ℕ
  pub by_bare : Dict Bytes (Dict Bytes ℕ)

abbrev pub new_session_router : Router
new_session_router = record { by_full = []; by_bare = [] }

unfoldable pub register : Router → Jid → ℕ → Router
register r full session = if to_string full == [] then r else record {
  by_full = put r.by_full (to_string full) session;
  by_bare = put_in r.by_bare (to_string (bare full)) (to_string full) session;
}

-- The inner map without the name; it goes when it is empty.
abbrev pub drop_from : Dict Bytes (Dict Bytes ℕ) → Bytes → Dict Bytes ℕ → Dict Bytes (Dict Bytes ℕ)
drop_from d b [] = remove d b
drop_from d b (x ∷ m) = put d b (x ∷ m)

unfoldable pub unregister : Router → Jid → Router
unregister r full = if to_string full == [] then r else record {
  by_full = remove r.by_full (to_string full);
  by_bare = elim (get r.by_bare (to_string (bare full))) [
    | none ↦ r.by_bare
    | some sessions ↦ drop_from r.by_bare (to_string (bare full)) (remove sessions (to_string full))
  ];
}

unfoldable pub targets : Router → Jid → List ℕ
targets r to =
    if is_zero to
    then []
    else if is_full to
    then elim (get r.by_full (to_string to)) [ none ↦ [] | some s ↦ s ∷ [] ]
    else values (inner r.by_bare (to_string (bare to)))
