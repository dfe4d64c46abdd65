-- ===== src/Api/Injection.antt =====
-- The statements that a route of src/http_api.cpp sends: what is kept by the parts that are shared.
pub mod Accounts
pub mod Chats
pub mod Channels
pub mod Handle
use apk.Base.{
  ℕ, ◌≡◌, refl, Bool, true, false, Option, none, some, List, [], ◌∷◌, map, if◌then◌else◌,
  Bool-cases, Option-cases, inl, inr, subst, sym,
}
use apk.Base.Text.{Str, lit, is_empty}
use apk.Base.Outcome.{
  Outcome, done, threw, blocked, undefined, Action, then_do, ◌>>=◌, ◌>>◌, give, crash, Leaves,
}
use apk.Std.Stoi.{ℤ}
use apk.Redis.Replies.{c_str}
use apk.Http.{authenticate_request}
use apk.Redis.{RedisClient}
use apk.Pg.{
  PgResult, tuples, command, failed, Libpq, PgDb, Try, Row, query, exec, read_rows, read_count,
}
use apk.Api.{
  Platform, Request, Response, Api, settle, db_query, db_exec, kept, with_redis, recover, try_catch,
  resume, try_then, or_raise, first_row, json_resp, fail, first_or, with_body, authorized, admit,
  server_error, guarded,
}
use apk.Api.Statements.{Statement, account, chat, channel, statement_text, Reached, here, sent}
use apk.Api.Statements.Accounts.{AccountSql, account_sql}
use apk.Api.Statements.Chats.{ChatSql, chat_sql}
use apk.Api.Statements.Channels.{ChannelSql, channel_sql}
use apk.Api.Keeps.{
  Keeps, Within, bind-Keeps, branch-Keeps, crash-Keeps, give-Keeps, or_raise-Keeps, try_catch-Keeps,
  try_then-Keeps, with_redis-Keeps,
}

module _ (p : Platform) {C : Type 0} where
  rows-Leaves :
      (start : p.pg.World) (s : Api p C) (conn : p.pg.Connection) (r : PgResult) (w : p.pg.World)
      → Reached p.pg start w
      → Leaves (Within p start) (settle p s (read_rows p.pg conn (r, w)))
  rows-Leaves start s conn (tuples names rows tag) w h = h
  rows-Leaves start s conn (command tag) w h = h
  rows-Leaves start s conn failed w h = h

  count-Leaves :
      (start : p.pg.World) (s : Api p C) (conn : p.pg.Connection) (r : PgResult) (w : p.pg.World)
      → Reached p.pg start w
      → Leaves (Within p start) (settle p s (read_count p.pg conn (r, w)))
  count-Leaves start s conn (tuples names rows tag) w h = h
  count-Leaves start s conn (command tag) w h = h
  count-Leaves start s conn failed w h = h

  query-Leaves :
      (start : p.pg.World) (s : Api p C) (q : Statement) (params : List Str)
      (conn : Option p.pg.Connection) (w : p.pg.World)
      → Reached p.pg start w
      → Leaves
          (Within p start)
          (settle p s (query p.pg (statement_text q) params (record { conn = conn; world = w })))
  unfolding query
  query-Leaves start s q params none w h = h
  query-Leaves start s q params (some conn) w h =
      rows-Leaves start s conn _ _ (sent q params conn h)

  exec-Leaves :
      (start : p.pg.World) (s : Api p C) (q : Statement) (params : List Str)
      (conn : Option p.pg.Connection) (w : p.pg.World)
      → Reached p.pg start w
      → Leaves
          (Within p start)
          (settle p s (exec p.pg (statement_text q) params (record { conn = conn; world = w })))
  unfolding exec
  exec-Leaves start s q params none w h = h
  exec-Leaves start s q params (some conn) w h =
      count-Leaves start s conn _ _ (sent q params conn h)

  pub query-Keeps :
      (q : Statement) (params : List Str) → Keeps p {C = C} (db_query p (statement_text q) params)
  unfolding db_query
  query-Keeps q params = record {
    keeps = λ start s h. query-Leaves start s q params s.db.conn s.db.world h;
  }

  pub exec-Keeps :
      (q : Statement) (params : List Str) → Keeps p {C = C} (db_exec p (statement_text q) params)
  unfolding db_exec
  exec-Keeps q params = record {
    keeps = λ start s h. exec-Leaves start s q params s.db.conn s.db.world h;
  }

  pub query_account-Keeps :
      (q : AccountSql) (params : List Str) → Keeps p {C = C} (db_query p (account_sql q) params)
  query_account-Keeps q params = query-Keeps (account q) params

  pub exec_account-Keeps :
      (q : AccountSql) (params : List Str) → Keeps p {C = C} (db_exec p (account_sql q) params)
  exec_account-Keeps q params = exec-Keeps (account q) params

  pub query_chat-Keeps :
      (q : ChatSql) (params : List Str) → Keeps p {C = C} (db_query p (chat_sql q) params)
  query_chat-Keeps q params = query-Keeps (chat q) params

  pub exec_chat-Keeps :
      (q : ChatSql) (params : List Str) → Keeps p {C = C} (db_exec p (chat_sql q) params)
  exec_chat-Keeps q params = exec-Keeps (chat q) params

  pub query_channel-Keeps :
      (q : ChannelSql) (params : List Str) → Keeps p {C = C} (db_query p (channel_sql q) params)
  query_channel-Keeps q params = query-Keeps (channel q) params

  pub exec_channel-Keeps :
      (q : ChannelSql) (params : List Str) → Keeps p {C = C} (db_exec p (channel_sql q) params)
  exec_channel-Keeps q params = exec-Keeps (channel q) params

  -- The shared parts of the routes.
  pub json_resp-Keeps : (status : ℕ) (body : p.json.J) → Keeps p {C = C} (json_resp p status body)
  unfolding json_resp
  json_resp-Keeps status body = bind-Keeps p (or_raise-Keeps p _ _) (λ text. give-Keeps p _)

  pub first_or-Keeps :
      {A : Type 0} {missing : Action (Api p C) A} {rest : Row → Action (Api p C) A}
      (rows : List Row)
      → Keeps p missing
      → ((row : Row) → Keeps p {C = C} (rest row))
      → Keeps p {C = C} (first_or p missing rest rows)
  first_or-Keeps [] k l = k
  first_or-Keeps (row ∷ rows) k l = l row

  pub first_row-Keeps : (rows : List Row) → Keeps p {C = C} (first_row p rows)
  first_row-Keeps [] = crash-Keeps p
  first_row-Keeps (row ∷ rows) = give-Keeps p row

  pub guarded-Keeps : {m : Action (Api p C) Response} → Keeps p m → Keeps p {C = C} (guarded p m)
  guarded-Keeps k = try_catch-Keeps p k (λ what. json_resp-Keeps _ _)

  parsed-Keeps :
      (body : Option p.json.J) (rest : p.json.J → Action (Api p C) Response)
      → ((v : p.json.J) → Keeps p {C = C} (rest v))
      → Keeps p {C = C} (elim body as (λ b. Action (Api p C) Response) [
        | none ↦ fail p 400 (lit "Invalid JSON")
        | some v ↦ rest v
      ])
  parsed-Keeps none rest k = json_resp-Keeps _ _
  parsed-Keeps (some v) rest k = k v

  pub with_body-Keeps :
      (text : Str) {rest : p.json.J → Action (Api p C) Response}
      → ((v : p.json.J) → Keeps p {C = C} (rest v))
      → Keeps p {C = C} (with_body p text rest)
  with_body-Keeps text {rest = rest} k = parsed-Keeps (p.json.parse text) rest k

  pub authorized-Keeps :
      (jwt_secret : Str) (req : Request) {rest : Str → Action (Api p C) Response}
      → ((uid : Str) → Keeps p {C = C} (rest uid))
      → Keeps p {C = C} (authorized p jwt_secret req rest)
  unfolding authorized
  authorized-Keeps jwt_secret req {rest = rest} k =
      bind-Keeps p
        (with_redis-Keeps p
          (authenticate_request p.json p.hmac p.hiredis req.authorization jwt_secret req.now))
        (λ (a : ℕ × Str). branch-Keeps p (is_empty a.1) (json_resp-Keeps _ _) (k a.1))

pub ruleset keeping = (
  give-Keeps, crash-Keeps, or_raise-Keeps, bind-Keeps, try_then-Keeps, try_catch-Keeps,
  branch-Keeps, with_redis-Keeps, query_account-Keeps, exec_account-Keeps, query_chat-Keeps,
  exec_chat-Keeps, query_channel-Keeps, exec_channel-Keeps, json_resp-Keeps, first_or-Keeps,
  first_row-Keeps, guarded-Keeps, with_body-Keeps, authorized-Keeps,
)
