-- ===== src/Api/Examples/Groups/Members.antt =====
-- Requests to the server of Api/Examples/Groups.
use apk.Base.{ℕ, ◌+◌, ◌≡◌, refl, false, ◌&&◌, Option, none, some, [], ◌∷◌, if◌then◌else◌}
use apk.Base.Text.{Str, lit, str_eq, is_empty}
use apk.Key.{string_key}
use apk.Map.{find}
use apk.Std.Search.{find_char, find_from}
use apk.Jwt.Examples.{secret}
use apk.Jwt.Examples.Claims.{scalar, text}
use apk.Redis.{RedisClient, is_connected}
use apk.Redis.Replies.{c_str, reply_text}
use apk.Http.Examples.{sessions, client, auth_header}
use apk.Jwt.Base64.{
  base64url_encode, remove_char, encode_loop, base64url_decode_str, decode_loop, pad,
}
use apk.Jwt.Token.{create, verify, verify_parts, read_claims}
use apk.Redis.Connect.{first_free, set_in_use}
use apk.Redis.Commands.{context_at, get}
use apk.Http.{extract_token, authenticate_request}
use apk.Api.{Request, Api}
use apk.Api.Entry.{LetIn}
use apk.Api.Chats.Table.{new_member, readmit}
use apk.Base.Outcome.{◌>>=◌}
use apk.Api.{json_resp, guarded, list_of, row_object}
use apk.Api.Messages.{get_messages, remove_member, add_member, page_of_messages, message_names}
use apk.Api.Chats.{get_chat_info, create_group}
use apk.Api.Chats.Enroll.{joins}
use apk.Api.Chats.Malformed.{get_messages_malformed}
use apk.Api.{fail}
use apk.Api.Chats.Membership.{
  serving, answer_ok, not_member, remove_member-get_messages, add_member-get_messages,
}
use apk.Api.Chats.Group.{within, group_body, create_group-row_at}
use apk.Api.Examples.Groups.{group_value, World, set_row, uuid_of, is_known, group_platform, table}

abbrev asked : Request
asked = record {
  authorization = auth_header;
  body = [];
  url_param = λ name. none;
  now = 1000;
  draw = 123456;
  public_key = [];
}

abbrev client_at : ℕ → Option (RedisClient sessions ℕ)
client_at n = some (record client { world = n })

bob_LetIn :
    (n : ℕ) → LetIn group_platform secret asked (client_at n) (lit "bob") (client_at (n + 1))
unfolding extract_token is_empty str_eq create find first_free context_at base64url_encode
    remove_char encode_loop authenticate_request verify is_connected find_char find_from
    verify_parts base64url_decode_str decode_loop pad read_claims get set_in_use reply_text
bob_LetIn n = record { answered = refl; named = refl }

abbrev serve : ℕ → World → Api group_platform ℕ
serve n w = serving group_platform tt table [] (client_at n) w

abbrev nobody : World
nobody chat user = none

abbrev team : World
team = set_row readmit (lit "g") (lit "bob") nobody

remove_member-get_messages_example :
    (w' : World) × (remove_member group_platform secret (lit "G") (lit "bob") asked (serve 0 team)
      ≡ answer_ok group_platform tt table [] (serve 1 w'))
    × (get_messages group_platform secret (lit "G") asked (serve 1 w')
        ≡ not_member group_platform tt table [] (serve 2 w'))
    × (get_chat_info group_platform secret (lit "G") asked (serve 1 w')
        ≡ not_member group_platform tt table [] (serve 2 w'))
    × ((c' u' : Str) → str_eq (lit "g") c' && str_eq (lit "bob") u' ≡ false → w' c' u' ≡ team c' u')
unfolding str_eq c_str
remove_member-get_messages_example =
    remove_member-get_messages group_platform tt table [] (lit "G") (lit "bob") (lit "g")
      (lit "bob") refl refl secret (lit "bob") asked asked team (client_at 0) (client_at 1)
      (client_at 2) (bob_LetIn 0) (bob_LetIn 1)

add_member-get_messages_example :
    (w' : World) × (add_member group_platform secret (lit "G") asked (serve 0 nobody)
      ≡ answer_ok group_platform tt table [] (serve 1 w'))
    × (get_messages group_platform secret (lit "G") asked (serve 1 w')
        ≡ guarded group_platform
            (page_of_messages group_platform (lit "G") [] >>= λ rows.
              json_resp group_platform 200
                (list_of group_platform (row_object group_platform message_names) rows))
            (serve 2 w'))
    × ((c' u' : Str)
        → str_eq (lit "g") c' && str_eq (lit "bob") u' ≡ false
        → w' c' u' ≡ nobody c' u')
unfolding find str_eq c_str
add_member-get_messages_example =
    add_member-get_messages group_platform tt table [] (lit "G") (lit "bob") (lit "g") (lit "bob")
      refl refl secret (lit "bob") asked asked group_value nobody (client_at 0) (client_at 1)
      (client_at 2) (bob_LetIn 0) (bob_LetIn 1) refl refl refl refl

create_group-row_at_example :
    (id : Str) × (what : Str) × (w : World) × (create_group group_platform secret asked
        (serve 0 nobody)
      ≡ guarded group_platform
          (json_resp group_platform 201
            (group_body group_platform tt table (client_at 1) id (lit "team")))
          (within group_platform tt table (client_at 1) what w))
    × ((user : Str)
        → w id user ≡ (
            if str_eq (lit "bob") user
            then some (new_member (lit "owner"))
            else if joins uuid_of is_known
                (lit "bob")
                (lit "carol" ∷ lit "eve" ∷ lit "dave" ∷ [])
                user
            then some (new_member (lit "member"))
            else none))
unfolding find str_eq is_empty c_str
create_group-row_at_example =
    create_group-row_at group_platform tt table (client_at 1) (lit "team") [] (lit "bob")
      (lit "bob") nobody [] refl refl refl refl group_value (scalar (text (lit "carol")))
      (scalar (text (lit "carol")) ∷ scalar (text (lit "eve")) ∷ scalar (text (lit "dave")) ∷ [])
      (lit "carol" ∷ lit "eve" ∷ lit "dave" ∷ []) asked secret (client_at 0) (bob_LetIn 0) refl refl
      refl refl refl refl refl

get_messages_malformed_example :
    (get_messages group_platform secret (lit "1") asked (serve 0 team)
      ≡ fail group_platform 500
          (lit "Server error")
          (serving group_platform tt table (lit "Query failed: ") (client_at 1) team))
    × (get_chat_info group_platform secret (lit "1") asked (serve 0 team)
        ≡ fail group_platform 500
            (lit "Server error")
            (serving group_platform tt table (lit "Query failed: ") (client_at 1) team))
    × (remove_member group_platform secret (lit "1") (lit "bob") asked (serve 0 team)
        ≡ fail group_platform 500
            (lit "Server error")
            (serving group_platform tt table (lit "Exec failed: ") (client_at 1) team))
unfolding str_eq c_str
get_messages_malformed_example =
    get_messages_malformed group_platform tt table (lit "1") refl secret (lit "bob") (lit "bob") []
      asked team (client_at 0) (client_at 1) (bob_LetIn 0)
