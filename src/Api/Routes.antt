-- ===== src/Api/Routes.antt =====
-- src/http_api.cpp: HttpApi::register_routes, the health check and the making of the tables. A
-- constructor of `Route` stands for a method and a path, with the parts of the path that are matched.
use apk.Base.{ℕ, Bool, true, false, List, [], ◌∷◌, ◌++◌, if◌then◌else◌}
use apk.Base.Text.{Str, lit}
use apk.Base.Outcome.{Action, ◌>>=◌, give}
use apk.Std.Stoi.{pos}
use apk.Pg.{connected}
use apk.Api.{Platform, Request, Response, Api, db_exec, try_catch, json_resp}
use apk.Api.Statements.Schema.{extensions_and_users, chat_tables, channel_tables}
use apk.Api.Otp
use apk.Api.Accounts
use apk.Api.Chats
use apk.Api.Messages
use apk.Api.Contacts
use apk.Api.Channels

pub data Route : Type 0 where
  health : Route
  send_otp : Route
  verify_otp : Route
  register : Route
  get_me : Route
  update_me : Route
  search_users : Route
  get_user : Str → Route
  get_chats : Route
  open_direct : Route
  create_group : Route
  get_chat_info : Str → Route
  get_messages : Str → Route
  get_members : Str → Route
  add_member : Str → Route
  remove_member : Str → Str → Route
  search_messages : Str → Route
  pin_message : Str → Route
  react_message : Str → Route
  mute_chat : Str → Route
  chat_search_users : Route
  get_contacts : Route
  add_contact : Route
  remove_contact : Str → Route
  check_contact : Str → Route
  find_by_phone : Route
  explore_channels : Route
  my_channels : Route
  create_channel : Route
  get_channel : Str → Route
  subscribe_channel : Str → Route
  get_channel_posts : Str → Route
  create_post : Str → Route
  delete_post : Str → Str → Route

-- The routes that answer without a user.
abbrev pub is_public : Route → Bool
is_public health = true
is_public send_otp = true
is_public verify_otp = true
is_public register = true
is_public route = false

module _ (p : Platform) {C : Type 0} where
  open p use {json}

  unfoldable pub check_health : ℕ → Action (Api p C) Response
  check_health now s =
      let up = connected p.pg s.db in
      let status = if up then lit "ok" else lit "db_error" in
      json_resp p 200
        (json.object (
          (lit "status", json.text status)
          ∷ (lit "db", json.boolean up)
          ∷ (lit "ts", json.integer (pos now))
          ∷ []))
        s

  unfoldable pub handle : Str → Route → Request → Action (Api p C) Response
  handle jwt_secret health req = check_health req.now
  handle jwt_secret send_otp req = Otp.send_otp p req
  handle jwt_secret verify_otp req = Otp.verify_otp p jwt_secret req
  handle jwt_secret register req = Accounts.register p jwt_secret req
  handle jwt_secret get_me req = Accounts.get_me p jwt_secret req
  handle jwt_secret update_me req = Accounts.update_me p jwt_secret req
  handle jwt_secret search_users req = Accounts.search_accounts p jwt_secret req
  handle jwt_secret (get_user user_id) req = Accounts.get_user p jwt_secret user_id req
  handle jwt_secret get_chats req = Chats.get_chats p jwt_secret req
  handle jwt_secret open_direct req = Chats.open_direct p jwt_secret req
  handle jwt_secret create_group req = Chats.create_group p jwt_secret req
  handle jwt_secret (get_chat_info id) req = Chats.get_chat_info p jwt_secret id req
  handle jwt_secret (get_messages id) req = Messages.get_messages p jwt_secret id req
  handle jwt_secret (get_members id) req = Messages.get_members p jwt_secret id req
  handle jwt_secret (add_member id) req = Messages.add_member p jwt_secret id req
  handle jwt_secret (remove_member id user) req = Messages.remove_member p jwt_secret id user req
  handle jwt_secret (search_messages id) req = Messages.search_messages p jwt_secret id req
  handle jwt_secret (pin_message id) req = Messages.pin_message p jwt_secret id req
  handle jwt_secret (react_message id) req = Messages.react_message p jwt_secret id req
  handle jwt_secret (mute_chat id) req = Messages.mute_chat p jwt_secret id req
  handle jwt_secret chat_search_users req = Messages.chat_search_users p jwt_secret req
  handle jwt_secret get_contacts req = Contacts.get_contacts p jwt_secret req
  handle jwt_secret add_contact req = Contacts.add_contact p jwt_secret req
  handle jwt_secret (remove_contact id) req = Contacts.remove_contact p jwt_secret id req
  handle jwt_secret (check_contact id) req = Contacts.is_contact p jwt_secret id req
  handle jwt_secret find_by_phone req = Contacts.find_by_phone p jwt_secret req
  handle jwt_secret explore_channels req = Channels.explore_channels p jwt_secret req
  handle jwt_secret my_channels req = Channels.my_channels p jwt_secret req
  handle jwt_secret create_channel req = Channels.create_channel p jwt_secret req
  handle jwt_secret (get_channel username) req = Channels.get_channel p jwt_secret username req
  handle jwt_secret (subscribe_channel id) req = Channels.subscribe_channel p jwt_secret id req
  handle jwt_secret (get_channel_posts id) req = Channels.get_channel_posts p jwt_secret id req
  handle jwt_secret (create_post id) req = Channels.create_post p jwt_secret id req
  handle jwt_secret (delete_post id post) req = Channels.delete_post p jwt_secret id post req

  -- Each statement in turn, up to the first that fails.
  unfoldable pub exec_all : List Str → Action (Api p C) (Unit {0})
  exec_all [] = give tt
  exec_all (sql ∷ rest) = let more = exec_all rest in db_exec p sql [] >>= λ affected. more

  unfoldable pub run_migrations : Action (Api p C) (Unit {0})
  run_migrations s =
      let run =
        try_catch p (exec_all (extensions_and_users ++ (chat_tables ++ channel_tables)))
          (λ what. give tt) s in
      if connected p.pg s.db then run else give tt s
