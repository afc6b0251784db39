-- ===== src/Daemon/Limiter.antt =====
-- cmd/xmppd/registration.go: the `rateLimiter`, a sliding window per key. Times are nanoseconds.
pub mod Window
use xmpp_go.Prelude.{
  ℕ, ◌+◌, Bool, true, false, List, [], ◌∷◌, ◌++◌, list_eq, or_zero, if◌then◌else◌, ltb, leb, eqb,
  length,
}
use xmpp_go.Prelude.Bytes.{Bytes}
use xmpp_go.Prelude.Dict.{Dict, get, put}

-- A limit below 0, which also switches the limiter off, is written 0.
pub record RateLimiter : Type 0 where
  pub window : ℕ
  pub limit : ℕ
  pub items : Dict Bytes (List ℕ)

abbrev pub new_rate_limiter : ℕ → ℕ → RateLimiter
new_rate_limiter limit window = record { window = window; limit = limit; items = [] }

-- The entries behind `now - window`: those with `t > now - window`.
unfoldable pub recent : ℕ → ℕ → List ℕ → List ℕ
recent window now [] = []
recent window now (t ∷ entries) =
    let rest = recent window now entries in if ltb now (t + window) then t ∷ rest else rest

-- `Allow`: `now` and `later` are the results of its two calls of the clock.
unfoldable pub allow : RateLimiter → Bytes → ℕ → ℕ → RateLimiter × Bool
allow r key now later =
    if eqb r.limit 0
    then (r, true)
    else let out = recent r.window now (or_zero [] (get r.items key)) in
      if leb r.limit (length out)
      then (record r { items = put r.items key out }, false)
      else (record r { items = put r.items key (out ++ later ∷ []) }, true)
