-- ===== src/Api/Examples/Groups.antt =====
-- A server with the sessions of Http/Examples and a database that has only the table chat_members.
mod Members
use apk.Base.{
  ℕ, ◌+◌, ◌≡◌, refl, ap, Bool, true, false, ◌&&◌, ◌||◌, ◌∙◌, leb, length, Option, none, some, List,
  [], ◌∷◌, if◌then◌else◌,
}
use apk.Base.Text.{Str, lit, str_eq, is_empty}
use apk.Key.{string_key}
use apk.Map.{find}
use apk.Std.Search.{find_text, starts_with, find_char, find_from}
use apk.Json.{Json}
use apk.Jwt.Examples.{secret}
use apk.Jwt.Examples.Claims.{Value, scalar, members, text, claims_json}
use apk.Redis.{RedisClient, is_connected}
use apk.Redis.Replies.{c_str, reply_text}
use apk.Http.Examples.{sessions, client, auth_header}
use apk.Jwt.Base64.{
  base64url_encode, remove_char, encode_loop, base64url_decode_str, decode_loop, pad,
}
use apk.Jwt.Token.{create, verify, verify_parts, read_claims}
use apk.Redis.Connect.{first_free, set_in_use}
use apk.Redis.Commands.{context_at, get}
use apk.Http.{extract_token, authenticate_request}
use apk.Pg.{PgResult, tuples, command, failed, Libpq}
use apk.Api.{Platform, Request, Api}
use apk.Api.Entry.{LetIn}
use apk.Api.Statements.Chats.{
  chat_sql, insert_group, insert_owner, insert_member, check_member, upsert_member, end_membership,
}
use apk.Api.Chats.Table.{
  Membership, Rows, Changes, Created, ChatTable, new_member, enlist, readmit, dismiss, own, spelt,
  is_current, ones,
}
use apk.Base.Outcome.{◌>>=◌}
use apk.Api.{json_resp, guarded, list_of, row_object}
use apk.Api.Messages.{get_messages, remove_member, add_member, page_of_messages, message_names}
use apk.Api.Chats.{get_chat_info, create_group}
use apk.Api.Chats.Enroll.{joins}
use apk.Api.Chats.Membership.{
  serving, answer_ok, not_member, remove_member-get_messages, add_member-get_messages,
}
use apk.Api.Chats.Group.{within, group_body, create_group-row_at}
use apk.Api.Examples.{sample, is_in, text_of, member_of}

-- A body names bob as a member, and eve and dave are listed behind every value.
abbrev group_value : Value
group_value = members (
    (lit "description", text [])
    ∷ (lit "memberIds", text (lit "carol"))
    ∷ (lit "name", text (lit "team"))
    ∷ (lit "userId", text (lit "bob"))
    ∷ [])

abbrev read_value : Str → Option Value
read_value s = elim (claims_json.parse s) [ none ↦ some group_value | some v ↦ some v ]

abbrev group_json : Json
group_json = record claims_json {
  parse = read_value;
  dump = λ v. some (lit "{}");
  member = member_of;
  elements = λ v. some (v ∷ scalar (text (lit "eve")) ∷ scalar (text (lit "dave")) ∷ []);
  get_text = text_of;
}

-- The rows of the table.
abbrev World : Type 0
World = Str → Str → Option Membership

abbrev set_row : (Option Membership → Option Membership) → Str → Str → World → World
set_row f chat user w chat' user' =
    if str_eq chat chat' && str_eq user user' then f (w chat user) else w chat' user'

-- A new group has the id "n".
abbrev set_group : World → World
set_group w chat' user' = if str_eq chat' (lit "n") then none else w chat' user'

-- Short stand-ins for UUIDs, of which two are spelt in two ways.
abbrev uuid_of : Str → Option Str
uuid_of s =
    if str_eq s (lit "g") || str_eq s (lit "G")
    then some (lit "g")
    else if str_eq s (lit "bob") || str_eq s (lit "BOB")
    then some (lit "bob")
    else if str_eq s (lit "carol")
    then some (lit "carol")
    else if str_eq s (lit "dave")
    then some (lit "dave")
    else if str_eq s (lit "n")
    then some (lit "n")
    else none

-- There is no user "dave", and "eve" is no UUID.
abbrev is_known : Str → Bool
is_known user = str_eq user (lit "bob") || str_eq user (lit "carol")

abbrev short : Str → Bool
short name = leb (length name) 255

abbrev on_row :
    Option Str → Option Str → (Option Membership → Option Membership) → World → PgResult × World
on_row (some c) (some u) f w = (command [], set_row f c u w)
on_row chat user f w = (failed, w)

abbrev found : Option Str → World → PgResult × World
found none w = (failed, w)
found (some u) w = (tuples (lit "id" ∷ []) ((some (lit "n") ∷ []) ∷ []) [], set_group w)

abbrev look : Option Str → Option Str → World → PgResult × World
look (some c) (some u) w = (tuples (lit "?column?" ∷ []) (ones (is_current (w c u))) [], w)
look chat user w = (failed, w)

on_row-none :
    (chat : Option Str) (f : Option Membership → Option Membership) (w : World)
    → on_row chat none f w ≡ (failed, w)
on_row-none none f w = refl
on_row-none (some c) f w = refl

data Kind : Type 0 where
  group : Kind
  owner : Kind
  upsert : Kind
  enter : Kind
  check : Kind
  end : Kind
  unknown : Kind

kind : Str → Kind
kind sql =
    if is_in (lit "INSERT INTO chats") sql
    then group
    else if is_in (lit "'owner'") sql
    then owner
    else if is_in (lit "DO UPDATE") sql
    then upsert
    else if is_in (lit "DO NOTHING") sql
    then enter
    else if is_in (lit "SELECT 1") sql
    then check
    else if is_in (lit "UPDATE chat_members SET left_at") sql
    then end
    else unknown

abbrev answer : Kind → List Str → World → PgResult × World
answer group (name ∷ desc ∷ user ∷ []) w =
    if short name then found (spelt is_known (uuid_of user)) w else (failed, w)
answer owner (chat ∷ user ∷ []) w = on_row (uuid_of chat) (spelt is_known (uuid_of user)) own w
answer upsert (chat ∷ user ∷ []) w = on_row (uuid_of chat) (spelt is_known (uuid_of user)) readmit w
answer enter (chat ∷ user ∷ []) w = on_row (uuid_of chat) (spelt is_known (uuid_of user)) enlist w
answer check (chat ∷ user ∷ []) w = look (uuid_of chat) (uuid_of user) w
answer end (chat ∷ user ∷ []) w = on_row (uuid_of chat) (uuid_of user) dismiss w
answer k params w = (failed, w)

abbrev chat_pg : Libpq
chat_pg = record {
  World = World;
  Connection = Unit {0};
  connectdb = λ url w. (some tt, w);
  status_ok = λ conn w. true;
  exec_params = λ conn sql params w. answer (kind sql) params w;
  error_message = λ conn w. [];
}

abbrev group_platform : Platform
group_platform = record sample { json = group_json; hiredis = sessions; pg = chat_pg }

kinds :
    (kind (c_str (chat_sql insert_group)) ≡ group)
    × (kind (c_str (chat_sql insert_owner)) ≡ owner)
    × (kind (c_str (chat_sql upsert_member)) ≡ upsert)
    × (kind (c_str (chat_sql insert_member)) ≡ enter)
    × (kind (c_str (chat_sql check_member)) ≡ check)
    × (kind (c_str (chat_sql end_membership)) ≡ end)
unfolding kind c_str chat_sql find_text starts_with
kinds = (refl, refl, refl, refl, refl, refl)

abbrev rows : Rows World
rows = record {
  row_at = λ w chat user. w chat user;
  is_chat = λ w chat. true;
  is_user = λ w user. is_known user;
}

set_row-Changes :
    (f : Option Membership → Option Membership) (c u : Str) (w : World)
    → Changes rows f c u w (set_row f c u w)
set_row-Changes f c u w = record {
  row = λ chat' user'. refl;
  chats = λ chat'. refl;
  users = λ user'. refl;
}

set_group-Created : (w : World) → Created rows uuid_of (lit "n") w (set_group w)
unfolding str_eq c_str
set_group-Created w = record {
  whole = refl;
  printed = refl;
  chat = refl;
  empty = λ user. refl;
  users = λ user. refl;
}

spelt_known :
    (user u : Str)
    → uuid_of user ≡ some u
    → is_known u ≡ true
    → spelt is_known (uuid_of user) ≡ some u
spelt_known user u is_u known =
    ap (spelt is_known) is_u ∙ ap (λ (b : Bool). if b then some u else none) known

on_row_known :
    (chat user c u : Str) (f : Option Membership → Option Membership) (w : World)
    → uuid_of chat ≡ some c
    → uuid_of user ≡ some u
    → is_known u ≡ true
    → on_row (uuid_of chat) (spelt is_known (uuid_of user)) f w ≡ (command [], set_row f c u w)
on_row_known chat user c u f w is_c is_u known =
    ap (λ o. on_row o (spelt is_known (uuid_of user)) f w) is_c
    ∙ ap (λ o. on_row (some c) o f w) (spelt_known user u is_u known)

abbrev table : ChatTable chat_pg tt
table = record {
  rows = rows;
  uuid = uuid_of;
  is_name = short;
  is_text = λ s. true;
  tag = λ w. [];
  check_member_rows = λ w chat user c u is_c is_u.
      ap (λ k. answer k (chat ∷ user ∷ []) w) kinds.4
      ∙ ap (λ o. look o (uuid_of user) w) is_c
      ∙ ap (λ o. look (some c) o w) is_u;
  check_member_failed = λ w chat user malformed.
      ap (λ k. answer k (chat ∷ user ∷ []) w) kinds.4 ∙ ap (λ o. look o (uuid_of user) w) malformed;
  end_membership_failed = λ w chat user malformed.
      ap (λ k. answer k (chat ∷ user ∷ []) w) kinds.5
      ∙ ap (λ o. on_row o (uuid_of user) dismiss w) malformed;
  end_membership_done = λ w chat user c u is_c is_u. (
    set_row dismiss c u w,
    ap (λ k. answer k (chat ∷ user ∷ []) w) kinds.5
        ∙ ap (λ o. on_row o (uuid_of user) dismiss w) is_c
        ∙ ap (λ o. on_row (some c) o dismiss w) is_u,
    set_row-Changes dismiss c u w,
  );
  upsert_member_done = λ w chat user c u is_c is_u is_there known. (
    set_row readmit c u w,
    ap (λ k. answer k (chat ∷ user ∷ []) w) kinds.2
        ∙ on_row_known chat user c u readmit w is_c is_u known,
    set_row-Changes readmit c u w,
  );
  insert_member_done = λ w chat user c u is_c is_u is_there. (
    set_row enlist c u w,
    ap (λ k. answer k (chat ∷ user ∷ []) w) kinds.3
        ∙ ap (λ o. on_row o (spelt is_known (uuid_of user)) enlist w) is_c
        ∙ ap (λ o. on_row (some c) o enlist w) is_u,
    set_row-Changes enlist c u w,
  );
  insert_member_failed = λ w chat user unknown.
      ap (λ k. answer k (chat ∷ user ∷ []) w) kinds.3
      ∙ ap (λ o. on_row (uuid_of chat) o enlist w) unknown
      ∙ on_row-none (uuid_of chat) enlist w;
  insert_group_rows = λ w name desc user u fits valid is_u known. (
    lit "n",
    set_group w,
    ap (λ k. answer k (name ∷ desc ∷ user ∷ []) w) kinds.0
        ∙ ap (λ (b : Bool). if b then found (spelt is_known (uuid_of user)) w else (failed, w)) fits
        ∙ ap (λ o. found o w) (spelt_known user u is_u known),
    set_group-Created w,
  );
  insert_owner_done = λ w chat user c u is_c is_u is_there known fresh. (
    set_row own c u w,
    ap (λ k. answer k (chat ∷ user ∷ []) w) kinds.1
        ∙ on_row_known chat user c u own w is_c is_u known,
    set_row-Changes own c u w,
  );
}
