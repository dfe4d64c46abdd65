-- ===== src/Api/Chats/Malformed.antt =====
-- Requests that name a chat by a text that is no UUID.
use apk.Base.{◌≡◌, ap, ◌∙◌, Option, none, ◌++◌}
use apk.Base.Text.{Str, lit}
use apk.Base.Outcome.{threw, Action, then_do}
use apk.Redis.{RedisClient}
use apk.Redis.Replies.{c_str}
use apk.Pg.{read_rows, read_count, query, exec}
use apk.Api.{
  Platform, Request, Response, Api, settle, first_or, db_query, db_exec, fail, json_resp, ok_body,
  recover, server_error,
}
use apk.Api.Entry.{LetIn, authorized-LetIn}
use apk.Api.Chats.{if_member, get_chat_info}
use apk.Api.Chats.Table.{ChatTable}
use apk.Api.Chats.Membership.{serving}
use apk.Api.Messages.{get_messages, remove_member}

module _ (p : Platform) {C : Type 0} (conn : p.pg.Connection) (table : ChatTable p.pg conn)
    (chat : Str) (malformed : table.uuid (c_str chat) ≡ none) where
  -- What the database says after a statement has failed in a world.
  abbrev pub after_failure : Str → Option (RedisClient p.hiredis C) → p.pg.World → Api p C
  after_failure call redis w = serving p conn table (call ++ p.pg.error_message conn w) redis w

  abbrev pub internal_error : Action (Api p C) Response
  internal_error = fail p 500 (lit "Server error")

  if_member-malformed :
      (what user : Str) (redis : Option (RedisClient p.hiredis C)) (w : p.pg.World)
      (rest : Action (Api p C) Response)
      → if_member p chat user rest (serving p conn table what redis w)
        ≡ threw (after_failure (lit "Query failed: ") redis w)
  unfolding if_member db_query query
  if_member-malformed what user redis w rest =
      ap
        (λ r.
          then_do (settle p (serving p conn table what redis w) (read_rows p.pg conn r))
            (first_or p (fail p 403 (lit "Not a member")) (λ row. rest)))
        (table.check_member_failed w (c_str chat) (c_str user) malformed)

  -- A request of a user who is let in, for the messages of a chat, for the chat itself or to remove a
  -- member from it, with a text for the chat that is no UUID: it is answered with 500, not with 400,
  -- 403 or 404, and does nothing to the database.
  pub get_messages_malformed :
      (jwt_secret user target what : Str) (req : Request) (w : p.pg.World)
      (redis redis' : Option (RedisClient p.hiredis C))
      → LetIn p jwt_secret req redis user redis'
      → (get_messages p jwt_secret chat req (serving p conn table what redis w)
          ≡ internal_error (after_failure (lit "Query failed: ") redis' w))
        × (get_chat_info p jwt_secret chat req (serving p conn table what redis w)
            ≡ internal_error (after_failure (lit "Query failed: ") redis' w))
        × (remove_member p jwt_secret chat target req (serving p conn table what redis w)
            ≡ internal_error (after_failure (lit "Exec failed: ") redis' w))
  unfolding get_messages get_chat_info remove_member db_exec exec
  get_messages_malformed jwt_secret user target what req w redis redis' let_in = (
    authorized-LetIn p (serving p conn table what redis w) _ let_in
        ∙ ap (recover p (server_error p)) (if_member-malformed what user redis' w _),
    authorized-LetIn p (serving p conn table what redis w) _ let_in
        ∙ ap (recover p (server_error p)) (if_member-malformed what user redis' w _),
    authorized-LetIn p (serving p conn table what redis w) _ let_in
        ∙ ap
            (λ r. recover p (server_error p) (
              then_do (settle p (serving p conn table what redis' w) (read_count p.pg conn r))
                (λ affected. json_resp p 200 (ok_body p))))
            (table.end_membership_failed w (c_str chat) (c_str target) malformed),
  )
