-- ===== src/Redis/Password.antt =====
-- A Redis that serves nobody before a password is given.
use apk.Base.{◌≡◌, refl, ◌∙◌, Bool, true, false, some, List, [], ◌∷◌}
use apk.Base.Text.{Str, lit, is_empty}
use apk.Std.Stoi.{ℤ}
use apk.Redis.{text, Hiredis, Connection}
use apk.Redis.Replies.{c_str}
use apk.Redis.Connect.{is_status, open_connection, open_all}

-- `authed` tells whether a context has given the password. Every connection is accepted, PING is
-- answered with PONG exactly on a context that has given it, and the right password is answered with
-- OK.
pub record Guarded (h : Hiredis) (password : Str) : Type 0 where
  pub authed : h.Context → h.World → Bool
  pub context : Str → ℤ → h.World → h.Context
  pub accepted :
      (host : Str) (port : ℤ) (w : h.World) → (h.connect host port w).0 ≡ some (context host port w)
  pub fresh :
      (host : Str) (port : ℤ) (w : h.World)
      → authed (context host port w) (h.connect host port w).1 ≡ false
  pub answers_ping :
      (ctx : h.Context) (w : h.World)
      → is_status (lit "PONG") (h.command ctx (lit "PING") [] w).0 ≡ authed ctx w
  pub answers_auth :
      (ctx : h.Context) (w : h.World) (given : Str)
      → given ≡ password
      → (is_status (lit "OK") (h.command ctx (lit "AUTH %s") (text given ∷ []) w).0 ≡ true)
        × (authed ctx (h.command ctx (lit "AUTH %s") (text given ∷ []) w).1 ≡ true)

module _ (h : Hiredis) {password : Str} (guarded : Guarded h password) (host : Str) (port : ℤ) where
  open_connection-unauthorized : (w : h.World) → (open_connection h host port [] w).0 ≡ false
  unfolding open_connection is_empty
  open_connection-unauthorized w =
      rw (open_connection, guarded.accepted (c_str host) port w)
        (guarded.answers_ping _ _ ∙ guarded.fresh (c_str host) port w)

  open_connection-authorized :
      (given : Str) (w : h.World)
      → is_empty given ≡ false
      → c_str given ≡ password
      → (open_connection h host port given w).0 ≡ true
  unfolding open_connection
  open_connection-authorized given w full right =
      let ctx = guarded.context (c_str host) port w in
      let (accepts, after) =
        guarded.answers_auth ctx (h.connect (c_str host) port w).1 (c_str given) right in
      rw (open_connection, guarded.accepted (c_str host) port w, full, accepts)
        (guarded.answers_ping _ _ ∙ after)

  pub open_all-unauthorized :
      (conn : Connection h.Context) (pool : List (Connection h.Context)) (w : h.World)
      → (open_all h host port [] (conn ∷ pool) w).0 ≡ false
  unfolding open_all
  open_all-unauthorized conn pool w = rw (open_connection-unauthorized w) refl

  pub open_all-authorized :
      (given : Str) (pool : List (Connection h.Context)) (w : h.World)
      → is_empty given ≡ false
      → c_str given ≡ password
      → (open_all h host port given pool w).0 ≡ true
  unfolding open_all
  open_all-authorized given [] w full right = refl
  open_all-authorized given (conn ∷ pool) w full right =
      rw (open_connection-authorized given w full right)
        (open_all-authorized given pool _ full right)
