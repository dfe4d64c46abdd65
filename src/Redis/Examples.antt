-- ===== src/Redis/Examples.antt =====
-- A server that answers 0 to everything but PING, and the theorems of the client on it.
use apk.Base.{ℕ, ◌+◌, ◌≡◌, refl, ◌⊎◌, true, false, none, some, [], ◌∷◌, ◌++◌, All}
use apk.Base.Text.{Str, lit, str_eq}
use apk.Base.Outcome.{done, blocked}
use apk.Std.Decimal.{to_string}
use apk.Std.Stoi.{pos}
use apk.Redis.{Reply, status, integer, Hiredis, Config, RedisClient}
use apk.Redis.Replies.{c_str, reply_or_empty}
use apk.Redis.Connect.{first_free, connect}
use apk.Redis.Ready.{HasContext, first_round, connect-first_round}
use apk.Redis.Commands.{context_at, ask, set}
use apk.Redis.Commands.Slots.{ask-answered}
use apk.Redis.Commands.Injection.{set-injection}

abbrev answer : Str → Reply
answer cmd = elim (str_eq cmd (lit "PING")) [
  | true ↦ status (some (lit "PONG"))
  | false ↦ integer (pos 0)
]

-- The world is the number of commands that were sent.
abbrev server : Hiredis
server = record {
  World = ℕ;
  Context = Unit {0};
  connect = λ host port n. (some tt, n);
  command = λ ctx cmd args n. (some (answer cmd), n + 1);
  has_err = λ ctx n. false;
}

abbrev config : Config
config = record {
  host = lit "localhost";
  port = pos 6379;
  password = [];
  pool_size = 2;
  max_retries = 3;
}

abbrev client : RedisClient server ℕ
client = record {
  config = config;
  pool = record { context = none; in_use = false } ∷ record { context = none; in_use = false } ∷ [];
  pool_locked = false;
  subscribers = [];
  joinable = false;
  running = false;
  error_callback = true;
  last_error = [];
  reported = [];
  world = 0;
}

abbrev ready : RedisClient server ℕ
ready = record client {
  pool =
      record { context = some tt; in_use = true }
      ∷ record { context = some tt; in_use = false }
      ∷ [];
  running = true;
  joinable = true;
}

connect-first_round_example :
    ((first_round server client ≡ true)
      × ((d : RedisClient server ℕ) × (connect server client ≡ done true d)
          × (d.running ≡ true)
          × (d.pool_locked ≡ false)
          × All (HasContext server) d.pool))
    ⊎ ((first_round server client ≡ false)
        × ((d : RedisClient server ℕ) × (connect server client ≡ blocked d)))
connect-first_round_example = connect-first_round server 2 client refl refl refl

ask-answered_example :
    ask server [] (lit "GET k") (λ reply. reply) ready
    ≡ done (reply_or_empty (some (integer (pos 0)))) (record ready { world = 1 })
unfolding first_free context_at c_str str_eq
ask-answered_example =
    ask-answered server [] (lit "GET k") (λ reply. reply) 1 tt (integer (pos 0)) 1 ready refl refl
      refl

set-injection_example :
    set server (lit "k") (lit "v" ++ (lit " EX " ++ to_string 5)) 0 ready
    ≡ set server (lit "k") (lit "v") 5 ready
set-injection_example = set-injection server (lit "k") (lit "v") 4 ready
