-- ===== src/Api/Examples/Requests.antt =====
-- Requests to the server of Api/Examples.
use apk.Base.{◌≡◌, refl, false, none, some, [], ◌∷◌, ◌+◌, length}
use apk.Std.Stoi.{pos}
use apk.Base.Text.{Str, lit, str_eq, is_empty}
use apk.Base.Outcome.{Leaves, blocked}
use apk.Http.{authenticate_request, extract_token}
use apk.Std.Decimal.{to_string}
use apk.Key.{string_key}
use apk.Map.{find}
use apk.Jwt.Examples.Claims.{Value, text, members}
use apk.Api.{Request, Api, fail, refusal}
use apk.Api.Statements.{Reached}
use apk.Api.Routes.{Route, is_public, handle}
use apk.Redis.{new_client, set_error_callback}
use apk.Redis.Connect.{open_all, open_connection}
use apk.Pg.{open_db}
use apk.Api.Start.{HttpConfig, new_api, connect_in_background}
use apk.Api.Start.Stuck.{fresh_client, handle-stuck}
use apk.Api.Access.{handle-refused}
use apk.Api.Injection.Handle.{handle-Reached}
use apk.Api.Profile.{
  Fields, push_field, add_field, add_fields, update_sql, kept_fields, profile_sql,
}
use apk.Api.Profile.Placeholders.{gives, update_sql-add_fields}
use apk.Api.Examples.{otp_pg, sample_json, sample}

abbrev asked : Request
asked = record {
  authorization = [];
  body = lit "Bob";
  url_param = λ name. none;
  now = 1000;
  draw = 123456;
  public_key = [];
}

abbrev server : Api sample (Unit {0})
server = record {
  redis = none;
  db = record { conn = some tt; world = (lit "bob@example.org", none) };
  what = [];
}

handle-refused_example :
    handle sample (lit "secret") Route.get_chats asked server ≡ fail sample 401 (refusal 401) server
unfolding authenticate_request extract_token str_eq is_empty
handle-refused_example =
    handle-refused sample (lit "secret") Route.get_chats asked server 401 none refl refl

handle-Reached_example :
    Leaves
      (λ (t : Api sample (Unit {0})). Reached otp_pg server.db.world t.db.world)
      (handle sample (lit "secret") Route.send_otp asked server)
handle-Reached_example = handle-Reached sample (lit "secret") Route.send_otp asked server

abbrev profile_body : Value
profile_body =
    members ((lit "bio", text (lit "hello")) ∷ (lit "displayName", text (lit "Bob")) ∷ [])

abbrev profile_update : Fields
profile_update = record {
  parts = lit "display_name = $1" ∷ lit "bio = $2" ∷ [];
  params = lit "Bob" ∷ lit "hello" ∷ [];
  idx = 3;
}

update_sql-add_fields_example :
    (update_sql profile_update ≡ profile_sql (lit "display_name" ∷ lit "bio" ∷ []))
    × (length profile_update.params ≡ 2)
    × (profile_update.idx ≡ length profile_update.params + 1)
unfolding kept_fields gives find str_eq add_field add_fields push_field to_string
update_sql-add_fields_example = update_sql-add_fields sample_json profile_body profile_update refl

abbrev http_config : HttpConfig
http_config = record {
  port = 8080;
  db_url = lit "postgresql://db";
  redis_host = lit "localhost";
  redis_port = pos 6379;
  redis_password = [];
  jwt_secret = lit "secret";
}

abbrev started : Api sample (Unit {0})
started = record {
  redis = some (fresh_client sample http_config tt);
  db = open_db otp_pg (lit "postgresql://db") (lit "bob@example.org", none);
  what = [];
}

handle-stuck_example :
    (t : Api sample (Unit {0})) × (connect_in_background sample started ≡ blocked t)
    × ((jwt_secret : Str) (route : Route) (req : Request) (u : Api sample (Unit {0}))
        → u.redis ≡ t.redis
        → is_public route ≡ false
        → is_empty (extract_token req.authorization) ≡ false
        → handle sample jwt_secret route req u ≡ blocked u)
unfolding new_api new_client set_error_callback open_all open_connection
handle-stuck_example =
    handle-stuck sample http_config (lit "bob@example.org", none) tt started refl refl
