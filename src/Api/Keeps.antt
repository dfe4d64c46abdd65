-- ===== src/Api/Keeps.antt =====
-- What an action of src/http_api.cpp does to the database: the parts that send no statement.
use apk.Base.{Bool, true, false, Option, none, some, if◌then◌else◌}
use apk.Base.Text.{Str}
use apk.Base.Outcome.{
  Outcome, done, threw, blocked, undefined, Action, then_do, ◌>>=◌, give, crash, Leaves,
}
use apk.Redis.{RedisClient}
use apk.Api.{Platform, Api, kept, with_redis, recover, try_catch, resume, try_then, or_raise}
use apk.Api.Statements.{Reached}

module _ (p : Platform) {C : Type 0} where
  -- The database of a state was reached from `start`.
  abbrev pub Within : p.pg.World → Api p C → Type 0
  Within start s = Reached p.pg start s.db.world

  -- However the action ends, the database was reached by statements of the list.
  pub record Keeps {A : Type 0} (m : Action (Api p C) A) : Type 0 where
    pub keeps : (start : p.pg.World) (s : Api p C) → Within start s → Leaves (Within start) (m s)

  pub give-Keeps : {A : Type 0} (a : A) → Keeps (give a)
  give-Keeps a = record { keeps = λ start s h. h }

  pub crash-Keeps : {A : Type 0} → Keeps (crash {A = A})
  crash-Keeps = record { keeps = λ start s h. tt }

  pub or_raise-Keeps : {A : Type 0} (what : Str) (a : Option A) → Keeps (or_raise p what a)
  or_raise-Keeps what none = record { keeps = λ start s h. h }
  or_raise-Keeps what (some a) = give-Keeps a

  then-Leaves :
      {A B : Type 0} (start : p.pg.World) (o : Outcome (Api p C) A) (f : A → Action (Api p C) B)
      → ((a : A) → Keeps (f a))
      → Leaves (Within start) o
      → Leaves (Within start) (then_do o f)
  then-Leaves start (done a s) f k h = (k a).keeps start s h
  then-Leaves start (threw s) f k h = h
  then-Leaves start (blocked s) f k h = h
  then-Leaves start undefined f k h = tt

  pub bind-Keeps :
      {A B : Type 0} {m : Action (Api p C) A} {f : A → Action (Api p C) B}
      → Keeps m
      → ((a : A) → Keeps (f a))
      → Keeps (m >>= f)
  bind-Keeps {m = m} {f = f} k l = record {
    keeps = λ start s h. then-Leaves start (m s) f l (k.keeps start s h);
  }

  resume-Leaves :
      {A B : Type 0} (start : p.pg.World) (o : Outcome (Api p C) A)
      (handler : Str → Action (Api p C) B) (rest : A → Action (Api p C) B)
      → ((what : Str) → Keeps (handler what))
      → ((a : A) → Keeps (rest a))
      → Leaves (Within start) o
      → Leaves (Within start) (resume p handler rest o)
  resume-Leaves start (done a s) handler rest k l h = (l a).keeps start s h
  resume-Leaves start (threw s) handler rest k l h = (k s.what).keeps start s h
  resume-Leaves start (blocked s) handler rest k l h = h
  resume-Leaves start undefined handler rest k l h = tt

  pub try_then-Keeps :
      {A B : Type 0} {m : Action (Api p C) A} {handler : Str → Action (Api p C) B}
      {rest : A → Action (Api p C) B}
      → Keeps m
      → ((what : Str) → Keeps (handler what))
      → ((a : A) → Keeps (rest a))
      → Keeps (try_then p m handler rest)
  try_then-Keeps {m = m} {handler = handler} {rest = rest} k l r = record {
    keeps = λ start s h. resume-Leaves start (m s) handler rest l r (k.keeps start s h);
  }

  recover-Leaves :
      {A : Type 0} (start : p.pg.World) (o : Outcome (Api p C) A)
      (handler : Str → Action (Api p C) A)
      → ((what : Str) → Keeps (handler what))
      → Leaves (Within start) o
      → Leaves (Within start) (recover p handler o)
  recover-Leaves start (done a s) handler k h = h
  recover-Leaves start (threw s) handler k h = (k s.what).keeps start s h
  recover-Leaves start (blocked s) handler k h = h
  recover-Leaves start undefined handler k h = tt

  pub try_catch-Keeps :
      {A : Type 0} {m : Action (Api p C) A} {handler : Str → Action (Api p C) A}
      → Keeps m
      → ((what : Str) → Keeps (handler what))
      → Keeps (try_catch p m handler)
  try_catch-Keeps {m = m} {handler = handler} k l = record {
    keeps = λ start s h. recover-Leaves start (m s) handler l (k.keeps start s h);
  }

  pub branch-Keeps :
      {A : Type 0} (b : Bool) {m n : Action (Api p C) A}
      → Keeps m
      → Keeps n
      → Keeps (if b then m else n)
  branch-Keeps true k l = k
  branch-Keeps false k l = l

  kept-Leaves :
      {A : Type 0} (start : p.pg.World) (s : Api p C)
      (o : Outcome (Option (RedisClient p.hiredis C)) A)
      → Within start s
      → Leaves (Within start) (kept p s o)
  kept-Leaves start s (done a r) h = h
  kept-Leaves start s (threw r) h = h
  kept-Leaves start s (blocked r) h = h
  kept-Leaves start s undefined h = tt

  pub with_redis-Keeps :
      {A : Type 0} (m : Action (Option (RedisClient p.hiredis C)) A) → Keeps (with_redis p m)
  with_redis-Keeps m = record { keeps = λ start s h. kept-Leaves start s (m s.redis) h }
