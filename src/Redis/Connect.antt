-- ===== src/Redis/Connect.antt =====
-- connect, disconnect, reconnect and acquire_connection.
use apk.Base.{
  ℕ, zero, suc, Bool, true, false, Option, none, some, List, [], ◌∷◌, ◌++◌, map, if◌then◌else◌,
}
use apk.Std.Stoi.{ℤ}
use apk.Base.Text.{Str, lit, str_eq, is_empty}
use apk.Base.Outcome.{Outcome, done, blocked, Action, then_do, ◌>>◌}
use apk.Std.Decimal.{to_string}
use apk.Redis.Replies.{c_str}
use apk.Redis.{Reply, status, text, Hiredis, Connection, RedisClient, report}

abbrev pub is_status : Str → Option Reply → Bool
is_status wanted (some (status (some s))) = str_eq s wanted
is_status wanted reply = false

abbrev attempt_message : ℕ → Str
attempt_message attempt = lit "Failed to connect to Redis (attempt " ++ to_string attempt ++ lit ")"

module _ (h : Hiredis) where
  -- One connection in one round of `connect`: the new context, where the server answered, the
  -- password was accepted and PING gave PONG. A context that failed at PING stays in the pool.
  abbrev pub ping : h.Context → h.World → Bool × Option h.Context × h.World
  ping context world =
      let (reply, world') = h.command context (lit "PING") [] world in
      (is_status (lit "PONG") reply, some context, world')

  abbrev pub auth : Str → h.Context → h.World → Bool × Option h.Context × h.World
  auth password context world =
      if is_empty password
      then ping context world
      else let (reply, world') =
          h.command context (lit "AUTH %s") (text (c_str password) ∷ []) world in
        if is_status (lit "OK") reply then ping context world' else (false, none, world')

  unfoldable pub open_connection : Str → ℤ → Str → h.World → Bool × Option h.Context × h.World
  open_connection host port password world =
      let (context, world') = h.connect (c_str host) port world in
      elim context [ none ↦ (false, none, world') | some ctx ↦ auth password ctx world' ]

  -- The loop over the pool, which ends at the first failure.
  unfoldable pub open_all :
      Str
      → ℤ
      → Str
      → List (Connection h.Context)
      → h.World
      → Bool × List (Connection h.Context) × h.World
  unfolding open_connection
  open_all host port password [] world = (true, [], world)
  open_all host port password (conn ∷ pool) world =
      let (ok, context, world') = open_connection host port password world in
      let (all, pool', world'') = open_all host port password pool world' in
      let opened = record conn { context = context } in
      if ok then (all, opened ∷ pool', world'') else (false, opened ∷ pool, world')

  abbrev pub close_all : List (Connection h.Context) → List (Connection h.Context)
  close_all = map λ (conn : Connection h.Context). record conn { context = none }

  unfoldable pub first_free : List (Connection h.Context) → Option ℕ
  first_free [] = none
  first_free (conn ∷ pool) =
      let later = first_free pool in
      if conn.in_use then elim later [ none ↦ none | some i ↦ some (suc i) ] else some 0

  unfoldable pub set_in_use : Bool → ℕ → List (Connection h.Context) → List (Connection h.Context)
  set_in_use b i [] = []
  set_in_use b zero (conn ∷ pool) = record conn { in_use = b } ∷ pool
  set_in_use b (suc i) (conn ∷ pool) = conn ∷ set_in_use b i pool

module _ (h : Hiredis) {C : Type 0} where
  -- `running_ = false`, the join, and the part under the lock, which another holder of
  -- `pool_mutex_` on the same thread blocks for ever.
  unfoldable pub disconnect : Action (RedisClient h C) (Unit {0})
  disconnect c =
      let stopped = record c { running = false; joinable = false } in
      elim c.pool_locked [
        | true ↦ blocked stopped
        | false ↦ done tt (record stopped { pool = close_all h c.pool })
      ]

  -- The while loop: `left` more rounds, after `attempt` that failed.
  unfoldable pub connect_rounds : ℕ → ℕ → Action (RedisClient h C) Bool
  unfolding disconnect open_all report
  connect_rounds zero attempt c = done false (
      report h
        (lit "Failed to connect to Redis after "
          ++ to_string c.config.max_retries
          ++ lit " attempts")
        c)
  connect_rounds (suc left) attempt c =
      let (ok, pool, world) =
        open_all h c.config.host c.config.port c.config.password c.pool c.world in
      let tried = record c { pool = pool; world = world } in
      let next =
        then_do (disconnect tried) (λ _ c'.
          connect_rounds left (suc attempt) (report h (attempt_message (suc attempt)) c')) in
      if ok then done true (record tried { running = true; joinable = true }) else next

  abbrev unlock : {A : Type 0} → Outcome (RedisClient h C) A → Outcome (RedisClient h C) A
  unlock m = then_do m (λ a c. done a (record c { pool_locked = false }))

  -- `pool_mutex_` is held from the first line to every return.
  unfoldable pub connect : Action (RedisClient h C) Bool
  unfolding connect_rounds
  connect c =
      if c.pool_locked
      then blocked c
      else if c.running
      then done true c
      else unlock (connect_rounds c.config.max_retries 0 (record c { pool_locked = true }))

  unfoldable pub reconnect : Action (RedisClient h C) Bool
  unfolding disconnect connect
  reconnect = do disconnect; connect

  abbrev pub taken : Option ℕ → Action (RedisClient h C) (Option ℕ)
  taken none c = done none c
  taken (some i) c = done (some i) (record c { pool = set_in_use h true i c.pool })

  -- The index of the connection in the pool, under the lock; `none` is a null pointer.
  unfoldable pub acquire_connection : Action (RedisClient h C) (Option ℕ)
  unfolding first_free
  acquire_connection c = if c.pool_locked then blocked c else taken (first_free h c.pool) c

  -- The deleter of the shared_ptr.
  unfoldable pub release : ℕ → RedisClient h C → RedisClient h C
  release i c = record c { pool = set_in_use h false i c.pool }
