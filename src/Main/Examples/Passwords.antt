-- ===== src/Main/Examples/Passwords.antt =====
-- A Redis with the password "pw", and settings that hold it.
use apk.Base.{ℕ, ◌≡◌, refl, Bool, true, false, none, some, [], ◌∷◌, if◌then◌else◌, List}
use apk.Base.Text.{Str, lit, str_eq, is_empty}
use apk.Base.Outcome.{done, blocked}
use apk.Std.Stoi.{pos}
use apk.Encryption.Keys.{KeyPair}
use apk.Redis.{status, Argument, text, Hiredis, RedisClient}
use apk.Redis.Replies.{c_str}
use apk.Redis.Connect.{is_status}
use apk.Redis.Password.{Guarded}
use apk.Server.{Server}
use apk.Api.{Platform, Api}
use apk.Api.Start.{new_api, connect_in_background}
use apk.Api.Examples.{sample}
use apk.Main.{Settings}
use apk.Main.Servers.{start_in_background}
use apk.Main.Wiring.{http_cfg, ws_server, start_in_background_unauthorized}

-- What is kept is whether the password was given after the last connection was made.
abbrev answer : Str → List Argument → Bool → Str × Bool
answer cmd [] w = (if w then lit "PONG" else lit "NOAUTH", w)
answer cmd (text given ∷ args) w =
    if str_eq given (lit "pw") then (lit "OK", true) else (lit "WRONGPASS", w)
answer cmd (argument ∷ args) w = (lit "ERR", w)

abbrev locked : Hiredis
locked = record {
  World = Bool;
  Context = Unit {0};
  connect = λ host port w. (some tt, false);
  command =
      λ ctx cmd args w. let (reply, w') = answer cmd args w in (some (status (some reply)), w');
  has_err = λ ctx w. false;
}

locked_ping : (w : Bool) → is_status (lit "PONG") (locked.command tt (lit "PING") [] w).0 ≡ w
unfolding str_eq
locked_ping true = refl
locked_ping false = refl

locked_auth :
    (w : Bool) (given : Str)
    → given ≡ lit "pw"
    → (is_status (lit "OK") (locked.command tt (lit "AUTH %s") (text given ∷ []) w).0 ≡ true)
      × ((locked.command tt (lit "AUTH %s") (text given ∷ []) w).1 ≡ true)
unfolding str_eq
locked_auth w given right = rw right (refl, refl)

abbrev locked_platform : Platform
locked_platform = record sample { hiredis = locked }

abbrev locked_redis : Guarded locked (lit "pw")
locked_redis = record {
  authed = λ ctx w. w;
  context = λ host port w. tt;
  accepted = λ host port w. refl;
  fresh = λ host port w. refl;
  answers_ping = λ ctx w. locked_ping w;
  answers_auth = λ ctx w given right. locked_auth w given right;
}

abbrev chosen : Settings
chosen = record {
  db_url = lit "postgresql://db";
  redis = record { host = lit "redis"; port = pos 6379; password = lit "pw" };
  http_port = 8080;
  ws_port = 8000;
  jwt_secret = lit "secret";
  log_level = lit "info";
}

abbrev no_keys : KeyPair
no_keys = record { public_key = []; private_key = [] }

start_in_background_unauthorized_example :
    ((a : Api locked_platform ℕ) × (b : Api locked_platform ℕ) × (d : RedisClient locked ℕ)
      × (new_api locked_platform (http_cfg chosen) true (lit "bob@example.org", none) true ≡ some a)
      × (connect_in_background locked_platform a ≡ done tt b)
      × (b.redis ≡ some d)
      × (d.running ≡ true))
    × ((m : Server locked_platform.json locked) × (t : Server locked_platform.json locked)
        × (ws_server locked_platform.json locked chosen true no_keys false ≡ some m)
        × (start_in_background locked_platform.json locked 5 m ≡ blocked t))
unfolding is_empty c_str
start_in_background_unauthorized_example =
    start_in_background_unauthorized locked_platform ℕ locked_redis chosen 5 no_keys
      (lit "bob@example.org", none) true false refl refl
