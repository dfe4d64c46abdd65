-- ===== src/Redis/Ready.antt =====
-- How `connect` ends, and what a connected client is.
use apk.Base.{
  ℕ, suc, ◌≡◌, refl, ◌⊎◌, Bool, true, false, some, List, [], ◌∷◌, Bool-cases, Option-cases, inl,
  inr, All,
}
use mathlib.Core.Bool.{false≢true}
use apk.Std.Stoi.{ℤ}
use apk.Base.Text.{Str, is_empty, lit}
use apk.Base.Outcome.{done, blocked}
use apk.Redis.{Hiredis, Connection, RedisClient, text}
use apk.Redis.Replies.{c_str}
use apk.Redis.Connect.{
  is_status, auth, open_connection, open_all, disconnect, connect_rounds, connect,
}

module _ (h : Hiredis) where
  abbrev pub HasContext : Connection h.Context → Type 0
  HasContext conn = (ctx : h.Context) × (conn.context ≡ some ctx)

  auth_lem :
      (password : Str) (ctx : h.Context) (world : h.World)
      → (auth h password ctx world).0 ≡ true
      → (auth h password ctx world).1 ≡ some ctx
  auth_lem password ctx world ok = elim (Bool-cases (is_empty password)) [
    | inl e ↦ rw e refl
    | inr e ↦
        elim (Bool-cases (
          is_status (lit "OK")
            (h.command ctx (lit "AUTH %s") (text (c_str password) ∷ []) world).0)) [
              | inl good ↦ rw (e, good) refl
              | inr bad ↦ absurd (false≢true (rw (e, bad) at ok))
            ]
  ]

  open_connection-HasContext :
      (host : Str) (port : ℤ) (password : Str) (world : h.World)
      → (open_connection h host port password world).0 ≡ true
      → (ctx : h.Context) × ((open_connection h host port password world).1 ≡ some ctx)
  unfolding open_connection
  open_connection-HasContext host port password world ok =
      elim (Option-cases (h.connect (c_str host) port world).0) [
        | inl e ↦ absurd (false≢true (rw (open_connection, e) at ok))
        | inr (ctx, e) ↦
            (ctx, rw (open_connection, e) (auth_lem password ctx _ (rw (open_connection, e) at ok)))
      ]

  -- After a round without a failure every connection has a context.
  open_all-HasContext :
      (host : Str) (port : ℤ) (password : Str) (pool : List (Connection h.Context))
      (world : h.World)
      → (open_all h host port password pool world).0 ≡ true
      → All HasContext (open_all h host port password pool world).1
  unfolding open_all
  open_all-HasContext host port password [] world ok = tt
  open_all-HasContext host port password (conn ∷ pool) world ok =
      elim (Bool-cases (open_connection h host port password world).0) [
        | inl e ↦ rw e (
          open_connection-HasContext host port password world e,
          open_all-HasContext host port password pool _ (rw e at ok),
        )
        | inr e ↦ absurd (false≢true (rw e at ok))
      ]

module _ (h : Hiredis) {C : Type 0} where
  -- Whether the first round over the pool connects every connection of it.
  abbrev pub first_round : RedisClient h C → Bool
  first_round c = (open_all h c.config.host c.config.port c.config.password c.pool c.world).0

  -- The client after the first round.
  abbrev pub opened : RedisClient h C → Bool → Bool → RedisClient h C
  opened c ok locked = record c {
    pool = (open_all h c.config.host c.config.port c.config.password c.pool c.world).1;
    world = (open_all h c.config.host c.config.port c.config.password c.pool c.world).2;
    running = ok;
    joinable = ok;
    pool_locked = locked;
  }

  -- A first round that fails leaves the mutex locked for ever.
  pub connect-opened :
      (r : ℕ) (c : RedisClient h C)
      → c.pool_locked ≡ false
      → c.running ≡ false
      → c.config.max_retries ≡ suc r
      → first_round c ≡ false
      → connect h c ≡ blocked (opened c false true)
  unfolding connect connect_rounds disconnect
  connect-opened r c free idle tries bad = rw (free, idle, tries, bad) refl

  -- `connect` of a client that is not running, with at least one try: either the first round
  -- connects the whole pool, and the call returns true with the client running, every connection
  -- with a context, and the mutex free; or it fails, and the call never returns.
  pub connect-first_round :
      (r : ℕ) (c : RedisClient h C)
      → c.pool_locked ≡ false
      → c.running ≡ false
      → c.config.max_retries ≡ suc r
      → ((first_round c ≡ true)
          × ((d : RedisClient h C) × (connect h c ≡ done true d)
              × (d.running ≡ true)
              × (d.pool_locked ≡ false)
              × All (HasContext h) d.pool))
        ⊎ ((first_round c ≡ false) × ((d : RedisClient h C) × (connect h c ≡ blocked d)))
  unfolding connect connect_rounds disconnect
  connect-first_round r c free idle tries = elim (Bool-cases (first_round c)) [
    | inl good ↦ inl (
      good,
      (
        opened c true false,
        rw (free, idle, tries, good) refl,
        refl,
        refl,
        open_all-HasContext h _ _ _ c.pool c.world good,
      ),
    )
    | inr bad ↦ inr (bad, (opened c false true, connect-opened r c free idle tries bad))
  ]
