-- ===== src/Redis/Commands.antt =====
-- send_command and the operations that go through a connection of the pool.
pub mod Slots
pub mod Injection
pub mod Store
use mathlib.Core.Option
use apk.Base.{
  ℕ, zero, suc, ◌+◌, ◌<◌, Bool, true, false, not, Option, none, some, List, [], ◌∷◌, ◌++◌, ltb,
  ◌==◌, if◌then◌else◌,
}
use apk.Base.Text.{Str, lit, str_eq}
use apk.Base.Outcome.{
  Outcome, done, threw, blocked, undefined, Action, then_do, ◌>>=◌, ◌>>◌, give, crash, fetch,
  update,
}
use apk.Key.{string_key}
use apk.Map.{assign, erase, has}
use apk.Std.Decimal.{to_string}
use apk.Std.Stoi.{ℤ, pos, negsuc, stoi}
use apk.Redis.{
  Reply, string, status, integer, array, other, Argument, text, number, Hiredis, Connection,
  RedisClient, report,
}
use apk.Redis.Replies.{c_str, print_int, reply_or_empty, reply_texts, reply_pairs, spaced}
use apk.Redis.Connect.{connect, disconnect, reconnect, acquire_connection, release}

abbrev pub set_text : Str → Str → ℕ → Str
set_text key value ttl_seconds =
    lit "SET "
    ++ (key
        ++ (b' '
            ∷ (value ++ (if ltb 0 ttl_seconds then lit " EX " ++ to_string ttl_seconds else []))))

module _ (h : Hiredis) where
  -- conn.context of the connection with that index.
  unfoldable pub context_at : ℕ → List (Connection h.Context) → Option h.Context
  context_at i [] = none
  context_at zero (conn ∷ pool) = conn.context
  context_at (suc i) (conn ∷ pool) = context_at i pool

module _ (h : Hiredis) {C : Type 0} where
  -- redisCommand on the connection's context; a null context is dereferenced.
  unfoldable pub redis_command : ℕ → Str → List Argument → Action (RedisClient h C) (Option Reply)
  unfolding context_at
  redis_command i format args c = elim (context_at h i c.pool) [
    | none ↦ undefined
    | some ctx ↦
        let (reply, world) = h.command ctx format args c.world in
        done reply (record c { world = world })
  ]

  -- conn.context && conn.context->err
  abbrev connection_failed : ℕ → RedisClient h C → Bool
  connection_failed i c = elim (context_at h i c.pool) [
    | none ↦ false
    | some ctx ↦ h.has_err ctx c.world
  ]

  abbrev retry :
      ℕ → Str → List Argument → Str → Option Reply → Action (RedisClient h C) (Option Reply)
  retry i format args message (some reply) c = done (some reply) c
  retry i format args message none c = elim (connection_failed i c) [
    | false ↦ done none c
    | true ↦
        then_do (reconnect h (report h message c))
          (λ ok c'. if ok then redis_command i format args c' else done none c')
  ]

  -- The call, and the second call after a reconnect: the text that send_command, lrange, smembers
  -- and hgetall share, up to the message.
  unfoldable pub request : ℕ → Str → List Argument → Str → Action (RedisClient h C) (Option Reply)
  unfolding redis_command reconnect
  request i format args message = do
    reply ← redis_command i format args
    retry i format args message reply

  -- The command is the format string.
  unfoldable pub send_command : ℕ → Str → Action (RedisClient h C) Str
  unfolding request
  send_command i cmd = do
    reply ← request i (c_str cmd) [] (lit "Redis command failed, trying reconnect")
    give (reply_or_empty reply)

  abbrev pub released : {A : Type 0} → ℕ → Outcome (RedisClient h C) A → Outcome (RedisClient h C) A
  released i (done a c) = done a (release h i c)
  released i (threw c) = threw (release h i c)
  released i (blocked c) = blocked c
  released i undefined = undefined

  -- `auto conn = acquire_connection(); if (!conn) return deflt;`, the rest, and the release when
  -- `conn` goes out of scope.
  unfoldable pub with_connection :
      {A : Type 0} → A → (ℕ → Action (RedisClient h C) A) → Action (RedisClient h C) A
  unfolding acquire_connection release
  with_connection deflt body = acquire_connection h >>= λ conn. elim conn [
    | none ↦ give deflt
    | some i ↦ λ c'. released i (body i c')
  ]

  -- The operations that send one command and read its text.
  unfoldable pub ask : {A : Type 0} → A → Str → (Str → A) → Action (RedisClient h C) A
  unfolding with_connection send_command
  ask deflt cmd read = with_connection deflt λ i. do reply ← send_command i cmd; give (read reply)

  unfoldable pub set : Str → Str → ℕ → Action (RedisClient h C) Bool
  unfolding ask
  set key value ttl_seconds =
      ask false (set_text key value ttl_seconds) (λ reply. str_eq reply (lit "OK"))

  unfoldable pub get : Str → Action (RedisClient h C) Str
  unfolding ask
  get key = ask [] (lit "GET " ++ key) (λ reply. reply)

  unfoldable pub exists : Str → Action (RedisClient h C) Bool
  unfolding ask
  exists key = ask false (lit "EXISTS " ++ key) (λ reply. str_eq reply (lit "1"))

  unfoldable pub del : Str → Action (RedisClient h C) Bool
  unfolding ask
  del key = ask false (lit "DEL " ++ key) (λ reply. not (str_eq reply (lit "0")))

  unfoldable pub expire : Str → ℕ → Action (RedisClient h C) Bool
  unfolding ask
  expire key seconds =
      ask false (lit "EXPIRE " ++ (key ++ (b' ' ∷ to_string seconds)))
        (λ reply. str_eq reply (lit "1"))

  unfoldable pub lpush : Str → List Str → Action (RedisClient h C) Bool
  unfolding ask
  lpush key values = ask false (lit "LPUSH " ++ (key ++ spaced values)) (λ reply. true)

  unfoldable pub sadd : Str → List Str → Action (RedisClient h C) Bool
  unfolding ask
  sadd key members = ask false (lit "SADD " ++ (key ++ spaced members)) (λ reply. true)

  unfoldable pub sismember : Str → Str → Action (RedisClient h C) Bool
  unfolding ask
  sismember key member =
      ask false (lit "SISMEMBER " ++ (key ++ (b' ' ∷ member))) (λ reply. str_eq reply (lit "1"))

  unfoldable pub srem : Str → Str → Action (RedisClient h C) Bool
  unfolding ask
  srem key member =
      ask false (lit "SREM " ++ (key ++ (b' ' ∷ member))) (λ reply. not (str_eq reply (lit "0")))

  unfoldable pub hset : Str → Str → Str → Action (RedisClient h C) Bool
  unfolding ask
  hset key field value =
      ask false (lit "HSET " ++ (key ++ (b' ' ∷ (field ++ (b' ' ∷ value)))))
        (λ reply. not (str_eq reply (lit "0")))

  unfoldable pub hget : Str → Str → Action (RedisClient h C) Str
  unfolding ask
  hget key field = ask [] (lit "HGET " ++ (key ++ (b' ' ∷ field))) (λ reply. reply)

  unfoldable pub hdel : Str → Str → Action (RedisClient h C) Bool
  unfolding ask
  hdel key field =
      ask false (lit "HDEL " ++ (key ++ (b' ' ∷ field))) (λ reply. not (str_eq reply (lit "0")))

  unfoldable pub publish : Str → Str → Action (RedisClient h C) Bool
  unfolding ask
  publish channel message =
      ask false (lit "PUBLISH " ++ (channel ++ (b' ' ∷ message))) (λ reply. true)

  unfoldable pub ping : Action (RedisClient h C) Str
  unfolding ask
  ping = ask [] (lit "PING") (λ reply. reply)

  unfoldable pub info : Str → Action (RedisClient h C) Str
  unfolding ask
  info section = ask [] (lit "INFO " ++ section) (λ reply. reply)

  -- std::stoi throws on a reply that is no number.
  unfoldable pub llen : Str → Action (RedisClient h C) ℤ
  unfolding with_connection send_command
  llen key = with_connection (pos 0) λ i. do
    reply ← send_command i (lit "LLEN " ++ key)
    elim (stoi 10 reply) [ none ↦ threw | some n ↦ done n ]

  unfoldable pub lrange : Str → ℤ → ℤ → Action (RedisClient h C) (List Str)
  unfolding with_connection request
  lrange key start stop = with_connection [] λ i. do
    reply ←
        request i (lit "LRANGE %s %d %d") (text (c_str key) ∷ number start ∷ number stop ∷ [])
          (lit "Redis LRANGE failed, trying reconnect")
    give (reply_texts reply)

  unfoldable pub smembers : Str → Action (RedisClient h C) (List Str)
  unfolding with_connection request
  smembers key = with_connection [] λ i. do
    reply ←
        request i (lit "SMEMBERS %s") (text (c_str key) ∷ [])
          (lit "Redis SMEMBERS failed, trying reconnect")
    give (reply_texts reply)

  unfoldable pub hgetall : Str → Action (RedisClient h C) (List (Str × Str))
  unfolding with_connection request
  hgetall key = with_connection [] λ i. do
    reply ←
        request i (lit "HGETALL %s") (text (c_str key) ∷ [])
          (lit "Redis HGETALL failed, trying reconnect")
    elim (reply_pairs reply) [ none ↦ crash | some ps ↦ give ps ]

  unfoldable pub subscribe : Str → C → Action (RedisClient h C) Bool
  subscribe channel callback c =
      done true (record c { subscribers = assign channel callback c.subscribers })

  unfoldable pub unsubscribe : Str → Action (RedisClient h C) Bool
  unsubscribe channel c = done true (record c { subscribers = erase channel c.subscribers })

  pub get_subscription_count : Str → RedisClient h C → ℕ
  get_subscription_count channel c = if has channel c.subscribers then 1 else 0

  -- The transaction methods are stubs.
  unfoldable pub multi_start : Action (RedisClient h C) Bool
  multi_start c = done false c

  unfoldable pub queue_command : Str → Action (RedisClient h C) Bool
  queue_command cmd c = done false c

  unfoldable pub exec : Action (RedisClient h C) (List Str)
  exec c = done [] c

  unfoldable pub discard : Action (RedisClient h C) (Unit {0})
  discard c = done tt c
