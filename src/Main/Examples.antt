-- ===== src/Main/Examples.antt =====
-- A REDIS_URL, and settings with an argument that is out of range.
mod Passwords
use apk.Server.{Server}
use apk.Server.Lifecycle.{start}
use apk.Server.Examples.{absent, talk_json, talking}
use apk.Main.Servers.{start_in_background, Starts, start_in_background-start}
use apk.Base.{ℕ, ◌%◌, ◌==◌, ◌&&◌, not, ◌≡◌, refl, Bool, true, false, none, some, [], ◌∷◌, arith}
use apk.Base.Text.{Str, lit, str_eq, is_empty}
use apk.Std.Search.{Lacks}
use apk.Std.Stoi.{
  pos, stoi, signed_value, skip_spaces, is_space, magnitude, skip_prefix, digits_from, digit,
}
use apk.Main.{
  Environment, env, default_connection_url, override_host, override_password, parse_redis_url,
  Settings, port_or, redis_address, environment_settings, flag_of, apply_flag, apply_arguments,
  settings,
}
use apk.Main.RedisUrl.{parse_redis_url-parts}

port_text : stoi 10 (lit "6380") ≡ some (pos 6380)
unfolding stoi signed_value skip_spaces is_space magnitude skip_prefix digits_from digit
port_text = refl

abbrev lacks_test : ℕ → Str → Bool
lacks_test x [] = true
lacks_test x (c ∷ s) = not (c == x) && lacks_test x s

lacks_test_sound : (x : ℕ) (s : Str) → lacks_test x s ≡ true → Lacks x s
lacks_test_sound x [] h = tt
lacks_test_sound x (c ∷ s) h = ground (arith, lacks_test_sound x s)

parse_redis_url-parts_example :
    parse_redis_url (lit "redis://u:p@w@h:6380")
    ≡ record { host = lit "h"; port = pos 6380; password = lit "p@w" }
parse_redis_url-parts_example =
    parse_redis_url-parts (lit "u") (lit "p@w") (lit "h") (lit "6380") 6380
      (lacks_test_sound b':' (lit "u") refl)
      (lacks_test_sound b'@' (lit "h") refl, lacks_test_sound b'/' (lit "h") refl)
      (
        lacks_test_sound b'@' (lit "6380") refl,
        lacks_test_sound b'/' (lit "6380") refl,
        lacks_test_sound b':' (lit "6380") refl,
      )
      port_text

-- No variable is set, and the port of the arguments does not fit into 16 bits.
abbrev bare : Environment
bare key = none

abbrev wrapped : Settings
wrapped = record {
  db_url = default_connection_url;
  redis = record { host = lit "redis"; port = pos 6379; password = [] };
  http_port = 70000 % 65536;
  ws_port = 8000;
  jwt_secret = lit "change_me_in_production_please";
  log_level = lit "info";
}

is_wrapped : settings bare (lit "--port" ∷ lit "70000" ∷ []) ≡ some wrapped
unfolding settings environment_settings apply_arguments apply_flag flag_of str_eq port_or env
    redis_address parse_redis_url override_host override_password is_empty stoi signed_value
    skip_spaces is_space magnitude skip_prefix digits_from digit
is_wrapped = refl

abbrev stopped : Server talk_json absent
stopped = record talking { running = false }

start_in_background-start_example :
    (start_in_background talk_json absent 5 stopped ≡ start talk_json absent stopped)
    × Starts talk_json absent (start_in_background talk_json absent 5 stopped)
start_in_background-start_example = start_in_background-start talk_json absent 5 stopped
