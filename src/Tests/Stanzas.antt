-- ===== src/Tests/Stanzas.antt =====
-- A mux whose handlers are numbers.
use xmpp_go.Prelude.{ℕ, ◌*◌, ◌≡◌, refl, some, [], ◌∷◌}
use xmpp_go.Prelude.Bytes.{Bytes, bytes}
use xmpp_go.Mux.{Name, Header, Route, Mux, new_mux, matches, chain, dispatch}
use xmpp_go.Mux.Routing.{dispatch_first}

abbrev named : Bytes → Name
named local = record { space = bytes "jabber:client"; local = local }

abbrev chat : Header
chat = record { name = named (bytes "message"); stanza_type = bytes "chat" }

abbrev on_message : Route ℕ
on_message = record { name = named (bytes "message"); stanza_type = []; handler = 1 }

abbrev on_iq : Route ℕ
on_iq = record { name = named (bytes "iq"); stanza_type = []; handler = 2 }

abbrev mux : Mux ℕ
mux = record new_mux { routes = on_message ∷ []; fallback = some 9 }

abbrev doubled : ℕ → ℕ
doubled h = 2 * h

dispatch_first_example :
    (dispatch (record mux { routes = on_iq ∷ on_message ∷ []; middleware = doubled ∷ [] }) chat
      ≡ some (doubled (chain 1 [])))
    × (dispatch (record mux { routes = on_iq ∷ [] }) chat ≡ some 9)
unfolding matches
dispatch_first_example = dispatch_first mux chat (on_iq ∷ []) [] on_message doubled [] refl refl
