-- ===== src/Api/Statements.antt =====
-- The statements that the routes of src/http_api.cpp hand to PostgreSQL, and the states of a
-- database that they lead to.
pub mod Accounts
pub mod Chats
pub mod Channels
pub mod Schema
use apk.Base.{Bool, List, map}
use apk.Base.Text.{Str}
use apk.Redis.Replies.{c_str}
use apk.Pg.{Libpq}
use apk.Api.Profile.{profile_fields, kept_fields, profile_sql}
use Accounts.{AccountSql, account_sql}
use Chats.{ChatSql, chat_sql}
use Channels.{ChannelSql, channel_sql}

-- A profile is updated by one statement for each choice of its five fields.
pub data Statement : Type 0 where
  account : AccountSql → Statement
  chat : ChatSql → Statement
  channel : ChannelSql → Statement
  profile : (Str → Bool) → Statement

abbrev pub statement_text : Statement → Str
statement_text (account q) = account_sql q
statement_text (chat q) = chat_sql q
statement_text (channel q) = channel_sql q
statement_text (profile keep) = profile_sql (kept_fields keep profile_fields)

-- What a database comes to by these statements, with any parameters.
pub data Reached (pg : Libpq) (start : pg.World) : pg.World → Type 0 where
  here : Reached pg start start
  sent :
      {world : pg.World} (q : Statement) (params : List Str) (conn : pg.Connection)
      → Reached pg start world
      → Reached pg start
          ((pg.exec_params conn (c_str (statement_text q)) (map c_str params) world).1)
