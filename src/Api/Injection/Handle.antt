-- ===== src/Api/Injection/Handle.antt =====
-- The statements of every route, and of the making of the tables.
use apk.Base.{ℕ}
use apk.Base.Text.{Str}
use apk.Base.Outcome.{Leaves}
use apk.Api.{Platform, Request, Api}
use apk.Api.Routes.{Route, handle, check_health}
use apk.Api.Statements.{Reached, here}
use apk.Api.Keeps.{Keeps}
use apk.Api.Injection.{json_resp-Keeps}
use apk.Api.Injection.Accounts.{
  send_otp-Keeps, verify_otp-Keeps, register-Keeps, get_me-Keeps, update_me-Keeps,
  search_accounts-Keeps, get_user-Keeps,
}
use apk.Api.Injection.Chats.{
  get_chats-Keeps, open_direct-Keeps, create_group-Keeps, get_chat_info-Keeps, get_messages-Keeps,
  get_members-Keeps, add_member-Keeps, remove_member-Keeps, search_messages-Keeps,
  pin_message-Keeps, react_message-Keeps, mute_chat-Keeps, chat_search_users-Keeps,
}
use apk.Api.Injection.Channels.{
  get_contacts-Keeps, add_contact-Keeps, remove_contact-Keeps, is_contact-Keeps,
  find_by_phone-Keeps, explore_channels-Keeps, my_channels-Keeps, create_channel-Keeps,
  get_channel-Keeps, subscribe_channel-Keeps, get_channel_posts-Keeps, create_post-Keeps,
  delete_post-Keeps,
}

module _ (p : Platform) {C : Type 0} where
  health-Keeps : (now : ℕ) → Keeps p {C = C} (check_health p now)
  unfolding check_health
  health-Keeps now = record { keeps = λ start s h. (json_resp-Keeps p _ _).keeps start s h }

  handle-Keeps :
      (jwt_secret : Str) (route : Route) (req : Request)
      → Keeps p {C = C} (handle p jwt_secret route req)
  unfolding handle
  handle-Keeps jwt_secret Route.health req = health-Keeps req.now
  handle-Keeps jwt_secret Route.send_otp req = send_otp-Keeps p req
  handle-Keeps jwt_secret Route.verify_otp req = verify_otp-Keeps p jwt_secret req
  handle-Keeps jwt_secret Route.register req = register-Keeps p jwt_secret req
  handle-Keeps jwt_secret Route.get_me req = get_me-Keeps p jwt_secret req
  handle-Keeps jwt_secret Route.update_me req = update_me-Keeps p jwt_secret req
  handle-Keeps jwt_secret Route.search_users req = search_accounts-Keeps p jwt_secret req
  handle-Keeps jwt_secret (Route.get_user user_id) req = get_user-Keeps p jwt_secret user_id req
  handle-Keeps jwt_secret Route.get_chats req = get_chats-Keeps p jwt_secret req
  handle-Keeps jwt_secret Route.open_direct req = open_direct-Keeps p jwt_secret req
  handle-Keeps jwt_secret Route.create_group req = create_group-Keeps p jwt_secret req
  handle-Keeps jwt_secret (Route.get_chat_info id) req = get_chat_info-Keeps p jwt_secret id req
  handle-Keeps jwt_secret (Route.get_messages id) req = get_messages-Keeps p jwt_secret id req
  handle-Keeps jwt_secret (Route.get_members id) req = get_members-Keeps p jwt_secret id req
  handle-Keeps jwt_secret (Route.add_member id) req = add_member-Keeps p jwt_secret id req
  handle-Keeps jwt_secret (Route.remove_member id user) req =
      remove_member-Keeps p jwt_secret id user req
  handle-Keeps jwt_secret (Route.search_messages id) req = search_messages-Keeps p jwt_secret id req
  handle-Keeps jwt_secret (Route.pin_message id) req = pin_message-Keeps p jwt_secret id req
  handle-Keeps jwt_secret (Route.react_message id) req = react_message-Keeps p jwt_secret id req
  handle-Keeps jwt_secret (Route.mute_chat id) req = mute_chat-Keeps p jwt_secret id req
  handle-Keeps jwt_secret Route.chat_search_users req = chat_search_users-Keeps p jwt_secret req
  handle-Keeps jwt_secret Route.get_contacts req = get_contacts-Keeps p jwt_secret req
  handle-Keeps jwt_secret Route.add_contact req = add_contact-Keeps p jwt_secret req
  handle-Keeps jwt_secret (Route.remove_contact id) req = remove_contact-Keeps p jwt_secret id req
  handle-Keeps jwt_secret (Route.check_contact id) req = is_contact-Keeps p jwt_secret id req
  handle-Keeps jwt_secret Route.find_by_phone req = find_by_phone-Keeps p jwt_secret req
  handle-Keeps jwt_secret Route.explore_channels req = explore_channels-Keeps p jwt_secret req
  handle-Keeps jwt_secret Route.my_channels req = my_channels-Keeps p jwt_secret req
  handle-Keeps jwt_secret Route.create_channel req = create_channel-Keeps p jwt_secret req
  handle-Keeps jwt_secret (Route.get_channel username) req =
      get_channel-Keeps p jwt_secret username req
  handle-Keeps jwt_secret (Route.subscribe_channel id) req =
      subscribe_channel-Keeps p jwt_secret id req
  handle-Keeps jwt_secret (Route.get_channel_posts id) req =
      get_channel_posts-Keeps p jwt_secret id req
  handle-Keeps jwt_secret (Route.create_post id) req = create_post-Keeps p jwt_secret id req
  handle-Keeps jwt_secret (Route.delete_post id post) req =
      delete_post-Keeps p jwt_secret id post req

  -- However a request ends, on whichever route and whatever it holds, the database has come from
  -- its state before by statements whose texts are fixed: those of the lists, and the UPDATE of a
  -- profile for a choice of its five fields. All that the request holds is in their parameters.
  pub handle-Reached :
      (jwt_secret : Str) (route : Route) (req : Request) (s : Api p C)
      → Leaves
          (λ (t : Api p C). Reached p.pg s.db.world t.db.world)
          (handle p jwt_secret route req s)
  handle-Reached jwt_secret route req s =
      (handle-Keeps jwt_secret route req).keeps s.db.world s here
