-- ===== src/Server/Sound.antt =====
-- The pool of a MessengerServer through the parts of its handlers.
pub mod Handlers
pub mod Messages
pub mod Login
pub mod Flush
pub mod Reach
use apk.Base.{ℕ, Bool, true, false, Option, none, some, ◌≡◌, if◌then◌else◌}
use apk.Base.Outcome.{
  Outcome, done, threw, blocked, undefined, Action, then_do, ◌>>=◌, ◌>>◌, give, Leaves,
}
use apk.Json.{Json}
use apk.Connection.{WebSocketConnection}
use apk.Pool.{ConnectionPool, write}
use apk.Pool.Sound.{IsSound}
use apk.Pool.Preserve.{write-IsSound}
use apk.Redis.{Hiredis}
use apk.Server.{Server, Redis, lifted, on_redis, on_pool, need}

module _ (json : Json) (h : Hiredis) where
  abbrev pub HasSound : Server json h → Type 0
  HasSound s = IsSound s.pool

  -- However the action ends, a sound pool stays sound.
  pub record Keeps {A : Type 0} (m : Action (Server json h) A) : Type 0 where
    pub keeps : (s : Server json h) → HasSound s → Leaves HasSound (m s)

  pub give-Keeps : {A : Type 0} (a : A) → Keeps (give a)
  give-Keeps a = record { keeps = λ s sound. sound }

  pub need-Keeps : {A : Type 0} (a : Option A) → Keeps (need json h a)
  unfolding need
  need-Keeps none = record { keeps = λ s sound. sound }
  need-Keeps (some a) = record { keeps = λ s sound. sound }

  lifted-Leaves :
      {A : Type 0} (s : Server json h) (o : Outcome (Redis h) A)
      → HasSound s
      → Leaves HasSound (lifted json h s o)
  lifted-Leaves s (done a r) sound = sound
  lifted-Leaves s (threw r) sound = sound
  lifted-Leaves s (blocked r) sound = sound
  lifted-Leaves s undefined sound = tt

  pub on_redis-Keeps : {A : Type 0} (m : Action (Redis h) A) → Keeps (on_redis json h m)
  unfolding on_redis
  on_redis-Keeps m = record { keeps = λ s sound. lifted-Leaves s (m s.redis) sound }

  pub on_pool-Keeps :
      (f : ConnectionPool json.J → ConnectionPool json.J)
      → ((p : ConnectionPool json.J) → IsSound p → IsSound (f p))
      → Keeps (on_pool json h f)
  unfolding on_pool
  on_pool-Keeps f k = record { keeps = λ s sound. k s.pool sound }

  -- A write that keeps the object's id and user.
  pub write-Keeps :
      (id : ℕ) (f : WebSocketConnection json.J → WebSocketConnection json.J)
      → ((c : WebSocketConnection json.J) → (f c).connection_id ≡ c.connection_id)
      → ((c : WebSocketConnection json.J) → (f c).user_id ≡ c.user_id)
      → Keeps (on_pool json h (write id f))
  write-Keeps id f same_id same_user =
      on_pool-Keeps (write id f)
        λ p sound. write-IsSound id f p (λ c held. same_id c) (λ c held. same_user c) sound

  pub then_do-Leaves :
      {A B : Type 0} (o : Outcome (Server json h) A) (f : A → Action (Server json h) B)
      → ((a : A) → Keeps (f a))
      → Leaves HasSound o
      → Leaves HasSound (then_do o f)
  then_do-Leaves (done a s) f k sound = (k a).keeps s sound
  then_do-Leaves (threw s) f k sound = sound
  then_do-Leaves (blocked s) f k sound = sound
  then_do-Leaves undefined f k sound = tt

  pub bind-Keeps :
      {A B : Type 0} {m : Action (Server json h) A} {f : A → Action (Server json h) B}
      → Keeps m
      → ((a : A) → Keeps (f a))
      → Keeps (m >>= f)
  bind-Keeps {m = m} {f = f} k l = record {
    keeps = λ s sound. then_do-Leaves (m s) f l (k.keeps s sound);
  }

  pub then-Keeps :
      {B : Type 0} {m : Action (Server json h) (Unit {0})} {k : Action (Server json h) B}
      → Keeps m
      → Keeps k
      → Keeps (m >> k)
  then-Keeps {m = m} {k = k} l r = record {
    keeps = λ s sound. then_do-Leaves (m s) (λ _. k) (λ _. r) (l.keeps s sound);
  }

  pub branch-Keeps :
      {A : Type 0} (b : Bool) {m n : Action (Server json h) A}
      → Keeps m
      → Keeps n
      → Keeps (if b then m else n)
  branch-Keeps true k l = k
  branch-Keeps false k l = l

  pub branch-Leaves :
      {A : Type 0} (b : Bool) (o o' : Outcome (Server json h) A)
      → Leaves HasSound o
      → Leaves HasSound o'
      → Leaves HasSound (if b then o else o')
  branch-Leaves true o o' k l = k
  branch-Leaves false o o' k l = l
