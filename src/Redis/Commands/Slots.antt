-- ===== src/Redis/Commands/Slots.antt =====
-- The connection that an operation takes from the pool, and how it comes back.
use apk.Base.{
  ℕ, zero, suc, ◌≡◌, refl, Bool, true, false, Option, none, some, List, [], ◌∷◌, arith, ◌∙◌, ap,
  sym, if◌then◌else◌, Bool-cases, inl, inr,
}
use apk.Base.Text.{Str}
use apk.Base.Outcome.{Outcome, give, ◌>>=◌, then_do, done, blocked, undefined, Action}
use apk.Redis.{Reply, Hiredis, Connection, Config, RedisClient, new_client}
use apk.Redis.Replies.{c_str, reply_or_empty}
use apk.Redis.Connect.{first_free, set_in_use, taken, acquire_connection, release}
use apk.Redis.Commands.{
  context_at, redis_command, request, send_command, released, with_connection, ask,
}

module _ (h : Hiredis) where
  first_free-head :
      (conn : Connection h.Context) (pool : List (Connection h.Context))
      → first_free h (conn ∷ pool) ≡ some 0
      → conn.in_use ≡ false
  unfolding first_free
  first_free-head conn pool free = ground arith

  first_free-tail :
      (i : ℕ) (conn : Connection h.Context) (pool : List (Connection h.Context))
      → first_free h (conn ∷ pool) ≡ some (suc i)
      → first_free h pool ≡ some i
  unfolding first_free
  first_free-tail i conn pool free = ground arith

  -- Giving back the connection that was free restores the pool.
  set_in_use-first_free :
      (i : ℕ) (pool : List (Connection h.Context))
      → first_free h pool ≡ some i
      → set_in_use h false i (set_in_use h true i pool) ≡ pool
  unfolding first_free set_in_use
  set_in_use-first_free i [] free = absurd (cc)
  set_in_use-first_free zero (conn ∷ pool) free =
      ap (λ (b : Bool). record conn { in_use = b } ∷ pool) (sym (first_free-head conn pool free))
  set_in_use-first_free (suc i) (conn ∷ pool) free =
      ap (λ (rest : List (Connection h.Context)). conn ∷ rest)
        (set_in_use-first_free i pool (first_free-tail i conn pool free))

  context_at-set_in_use :
      (b : Bool) (i j : ℕ) (pool : List (Connection h.Context))
      → context_at h i (set_in_use h b j pool) ≡ context_at h i pool
  unfolding context_at set_in_use
  context_at-set_in_use b i j [] = refl
  context_at-set_in_use b zero zero (conn ∷ pool) = refl
  context_at-set_in_use b (suc i) zero (conn ∷ pool) = refl
  context_at-set_in_use b zero (suc j) (conn ∷ pool) = refl
  context_at-set_in_use b (suc i) (suc j) (conn ∷ pool) = context_at-set_in_use b i j pool

module _ (h : Hiredis) {C : Type 0} where
  -- While another call holds the mutex of the pool for ever, none takes a connection.
  acquire_connection-locked :
      (c : RedisClient h C) → c.pool_locked ≡ true → acquire_connection h c ≡ blocked c
  unfolding acquire_connection
  acquire_connection-locked c locked =
      ap (λ (b : Bool). if b then blocked c else taken h (first_free h c.pool) c) locked

  acquire_connection-free :
      (i : ℕ) (c : RedisClient h C)
      → c.pool_locked ≡ false
      → first_free h c.pool ≡ some i
      → acquire_connection h c ≡ done (some i) (record c { pool = set_in_use h true i c.pool })
  unfolding acquire_connection
  acquire_connection-free i c unlocked free =
      ap (λ (b : Bool). if b then blocked c else taken h (first_free h c.pool) c) unlocked
      ∙ ap (λ conn. taken h conn c) free

  acquire_connection-full :
      (c : RedisClient h C)
      → c.pool_locked ≡ false
      → first_free h c.pool ≡ none
      → acquire_connection h c ≡ done none c
  unfolding acquire_connection
  acquire_connection-full c unlocked full =
      ap (λ (b : Bool). if b then blocked c else taken h (first_free h c.pool) c) unlocked
      ∙ ap (λ conn. taken h conn c) full

module _ (h : Hiredis) {C A : Type 0} (deflt : A) (body : ℕ → Action (RedisClient h C) A) where
  abbrev continue : Option ℕ → Action (RedisClient h C) A
  continue conn = elim conn [ none ↦ give deflt | some i ↦ λ c'. released h i (body i c') ]

  abbrev resume : Outcome (RedisClient h C) (Option ℕ) → Outcome (RedisClient h C) A
  resume o = then_do o continue

  with_connection-locked :
      (c : RedisClient h C) → c.pool_locked ≡ true → with_connection h deflt body c ≡ blocked c
  unfolding with_connection
  with_connection-locked c locked = ap resume (acquire_connection-locked h c locked)

  with_connection-free :
      (i : ℕ) (c : RedisClient h C)
      → c.pool_locked ≡ false
      → first_free h c.pool ≡ some i
      → with_connection h deflt body c
        ≡ released h i (body i (record c { pool = set_in_use h true i c.pool }))
  unfolding with_connection
  with_connection-free i c unlocked free = ap resume (acquire_connection-free h i c unlocked free)

  with_connection-full :
      (c : RedisClient h C)
      → c.pool_locked ≡ false
      → first_free h c.pool ≡ none
      → with_connection h deflt body c ≡ done deflt c
  unfolding with_connection
  with_connection-full c unlocked full = ap resume (acquire_connection-full h c unlocked full)

module _ (h : Hiredis) {C : Type 0} (i : ℕ) (cmd : Str) where
  send_command-answered :
      (ctx : h.Context) (answer : Reply) (world' : h.World) (c : RedisClient h C)
      → context_at h i c.pool ≡ some ctx
      → h.command ctx (c_str cmd) [] c.world ≡ (some answer, world')
      → send_command h i cmd c ≡ done (reply_or_empty (some answer)) (record c { world = world' })
  unfolding send_command request redis_command
  send_command-answered ctx answer world' c held sent =
      rw (send_command, request, redis_command, held, sent) refl

module _ (h : Hiredis) {C A : Type 0} (deflt : A) (cmd : Str) (read : Str → A) where
  abbrev ask_body : ℕ → Action (RedisClient h C) A
  ask_body i = do reply ← send_command h i cmd; give (read reply)

  pub ask-unlocked :
      (i : ℕ) (ctx : h.Context) (answer : Reply) (world' : h.World) (c : RedisClient h C)
      → c.pool_locked ≡ false
      → first_free h c.pool ≡ some i
      → context_at h i c.pool ≡ some ctx
      → h.command ctx (c_str cmd) [] c.world ≡ (some answer, world')
      → ask h deflt cmd read c
        ≡ done (read (reply_or_empty (some answer))) (record c { world = world' })
  unfolding ask release
  ask-unlocked i ctx answer world' c unlocked free held sent =
      with_connection-free h deflt ask_body i c unlocked free
      ∙ ap (λ o. released h i (then_do o (λ reply. give (read reply))))
          (send_command-answered h i cmd ctx answer world' _
            (context_at-set_in_use h true i i c.pool ∙ held) sent)
      ∙ ap
          (λ pool.
            done (read (reply_or_empty (some answer))) (record c { pool = pool; world = world' }))
          (set_in_use-first_free h i c.pool free)

  ask-locked : (c : RedisClient h C) → c.pool_locked ≡ true → ask h deflt cmd read c ≡ blocked c
  unfolding ask
  ask-locked c locked = with_connection-locked h deflt ask_body c locked

  -- An operation on a pool with a free connection that has a context, and whose command is answered:
  -- while the mutex of the pool is locked, which `connect` leaves it for ever after a failure, the
  -- call never returns and nothing is sent; otherwise it returns what it reads from the answer, and
  -- the pool is as before, with every connection that was free free again. Nothing but the world has
  -- changed.
  pub ask-answered :
      (i : ℕ) (ctx : h.Context) (answer : Reply) (world' : h.World) (c : RedisClient h C)
      → first_free h c.pool ≡ some i
      → context_at h i c.pool ≡ some ctx
      → h.command ctx (c_str cmd) [] c.world ≡ (some answer, world')
      → ask h deflt cmd read c ≡ (
          if c.pool_locked
          then blocked c
          else done (read (reply_or_empty (some answer))) (record c { world = world' }))
  ask-answered i ctx answer world' c free held sent =
      let outcome : Bool → Outcome (RedisClient h C) A = λ b.
        if b
        then blocked c
        else done (read (reply_or_empty (some answer))) (record c { world = world' }) in
      elim (Bool-cases c.pool_locked) [
        | inl locked ↦ ask-locked c locked ∙ sym (ap outcome locked)
        | inr unlocked ↦
            ask-unlocked i ctx answer world' c unlocked free held sent ∙ sym (ap outcome unlocked)
      ]

  -- Without a free connection an operation returns its default and changes nothing.
  pub ask-exhausted :
      (c : RedisClient h C)
      → c.pool_locked ≡ false
      → first_free h c.pool ≡ none
      → ask h deflt cmd read c ≡ done deflt c
  unfolding ask
  ask-exhausted c unlocked full = with_connection-full h deflt ask_body c unlocked full

  -- An operation on a client that was never connected, with a pool that is not empty, dereferences
  -- a null context.
  ask-new_client :
      (config : Config) (world : h.World) (n : ℕ)
      → config.pool_size ≡ suc n
      → ask h {C = C} deflt cmd read (new_client h config world) ≡ undefined
  unfolding ask with_connection send_command request redis_command acquire_connection release
      new_client context_at first_free set_in_use
  ask-new_client config world n size = simp size
