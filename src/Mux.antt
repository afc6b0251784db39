-- ===== src/Mux.antt =====
-- mux.go and `Chain` of middleware.go: which handler gets a stanza. A handler is a value of any type;
-- calling it is left to the caller, since the locks of the mux do not change its state meanwhile.
pub mod Routing
use xmpp_go.Prelude.{
  Bool, Option, none, some, List, [], ◌∷◌, ◌++◌, if◌then◌else◌, not, ◌&&◌, ◌==◌, list_eq,
}
use xmpp_go.Prelude.Bytes.{Bytes}

-- `xml.Name`.
pub record Name : Type 0 where
  pub space : Bytes
  pub local : Bytes

-- What routing reads of a stanza's header.
pub record Header : Type 0 where
  pub name : Name
  pub stanza_type : Bytes

pub record Route (H : Type 0) : Type 0 where
  pub name : Name
  pub stanza_type : Bytes
  pub handler : H

pub record Mux (H : Type 0) : Type 0 where
  pub routes : List (Route H)
  pub middleware : List (H → H)
  pub fallback : Option H

abbrev pub new_mux : {H : Type 0} → Mux H
new_mux = record { routes = []; middleware = []; fallback = none }

-- The three tests of the loop: a route is taken if none makes it continue.
unfoldable pub matches : {H : Type 0} → Route H → Header → Bool
matches r header =
    not (not (r.stanza_type == []) && not (r.stanza_type == header.stanza_type))
    && (not (not (r.name.local == []) && not (r.name.local == header.name.local))
        && not (not (r.name.space == []) && not (r.name.space == header.name.space)))

-- The loop from the last middleware to the first: the list comes reversed.
unfoldable pub apply_each : {H : Type 0} → List (H → H) → H → H
apply_each [] handler = handler
apply_each (m ∷ ms) handler = apply_each ms (m handler)

unfoldable pub reversed : {H : Type 0} → List (H → H) → List (H → H)
reversed [] = []
reversed (m ∷ ms) = reversed ms ++ m ∷ []

unfoldable pub chain : {H : Type 0} → H → List (H → H) → H
unfolding apply_each reversed
chain handler middleware = apply_each (reversed middleware) handler

unfoldable pub handle : {H : Type 0} → Name → Bytes → H → Mux H → Mux H
handle name stanza_type handler m = record m {
  routes = m.routes ++ record { name = name; stanza_type = stanza_type; handler = handler } ∷ [];
}

unfoldable pub use_middleware : {H : Type 0} → List (H → H) → Mux H → Mux H
use_middleware mw m = record m { middleware = m.middleware ++ mw }

unfoldable pub set_fallback : {H : Type 0} → Option H → Mux H → Mux H
set_fallback h m = record m { fallback = h }

-- The handler of the first route that is taken.
unfoldable pub find_route : {H : Type 0} → List (Route H) → Header → Option H
unfolding matches
find_route [] header = none
find_route (r ∷ routes) header =
    let rest = find_route routes header in if matches r header then some r.handler else rest

-- The handler that `HandleStanza` calls, or none where it returns nil at once.
unfoldable pub dispatch : {H : Type 0} → Mux H → Header → Option H
unfolding find_route chain
dispatch m header = elim (find_route m.routes header) [
  | some handler ↦ some (chain handler m.middleware)
  | none ↦ m.fallback
]
