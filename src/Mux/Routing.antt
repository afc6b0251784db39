-- ===== src/Mux/Routing.antt =====
-- First match, registration order, and the nesting of middleware.
use xmpp_go.Prelude.{
  ◌≡◌, refl, sym, ap, ◌∙◌, true, none, some, List, [], ◌∷◌, ◌++◌, not, arith, all,
}
use xmpp_go.Prelude.Bytes.{Bytes}
use xmpp_go.Mux.{
  Name, Header, Route, Mux, matches, apply_each, reversed, chain, handle, use_middleware,
  find_route, dispatch,
}

module _ {H : Type 0} where
  apply_each-append :
      (ms ns : List (H → H)) (h : H) → apply_each (ms ++ ns) h ≡ apply_each ns (apply_each ms h)
  unfolding apply_each
  apply_each-append [] ns h = refl
  apply_each-append (m ∷ ms) ns h = apply_each-append ms ns (m h)

  chain_first : (m : H → H) (ms : List (H → H)) (h : H) → chain h (m ∷ ms) ≡ m (chain h ms)
  unfolding chain reversed apply_each
  chain_first m ms h = apply_each-append (reversed ms) (m ∷ []) h

  chain-append : (ms ns : List (H → H)) (h : H) → chain h (ms ++ ns) ≡ chain (chain h ns) ms
  unfolding chain reversed apply_each
  chain-append [] ns h = refl
  chain-append (m ∷ ms) ns h =
      chain_first m (ms ++ ns) h ∙ ap m (chain-append ms ns h) ∙ sym (chain_first m ms (chain h ns))

  find_route-append :
      (rs ss : List (Route H)) (header : Header)
      → find_route (rs ++ ss) header
        ≡ elim (find_route rs header) [ some h ↦ some h | none ↦ find_route ss header ]
  unfolding find_route
  find_route-append [] ss header = refl
  find_route-append (r ∷ rs) ss header = ground (arith, find_route-append rs ss header)

  find_route-none :
      (rs : List (Route H)) (header : Header)
      → all (λ r. not (matches r header)) rs ≡ true
      → find_route rs header ≡ none
  unfolding find_route
  find_route-none [] header h = refl
  find_route-none (r ∷ rs) header h = ground (arith, find_route-none rs header)

  -- The first route that matches, in the order of registration, gets the stanza, inside the
  -- middleware, the one used first outermost; a stanza that no route matches goes to the fallback,
  -- outside all middleware.
  pub dispatch_first :
      (m : Mux H) (header : Header) (before after : List (Route H)) (r : Route H) (first : H → H)
      (others : List (H → H))
      → all (λ q. not (matches q header)) before ≡ true
      → matches r header ≡ true
      → (dispatch (record m { routes = before ++ r ∷ after; middleware = first ∷ others }) header
          ≡ some (first (chain r.handler others)))
        × (dispatch (record m { routes = before }) header ≡ m.fallback)
  unfolding dispatch find_route
  dispatch_first m header before after r first others none_before match = (
    ground (
      arith,
      find_route-append before (r ∷ after) header,
      find_route-none before header none_before,
      chain_first first others r.handler,
    ),
    ground (arith, find_route-none before header none_before),
  )

  -- Registering a route changes nothing for a stanza that an earlier route matches; using further
  -- middleware puts it inside what is used already.
  pub dispatch-handle :
      (m : Mux H) (header : Header) (name : Name) (stanza_type : Bytes) (h found : H)
      (mw : List (H → H))
      → find_route m.routes header ≡ some found
      → (dispatch (handle name stanza_type h m) header ≡ dispatch m header)
        × (dispatch (use_middleware mw m) header ≡ some (chain (chain found mw) m.middleware))
  unfolding dispatch handle use_middleware
  dispatch-handle m header name stanza_type h found mw e = (
    ground (
      arith,
      find_route-append m.routes
          (record { name = name; stanza_type = stanza_type; handler = h } ∷ []) header,
    ),
    ground (arith, chain-append m.middleware mw found),
  )
