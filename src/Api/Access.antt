-- ===== src/Api/Access.antt =====
-- Which routes of src/http_api.cpp ask who is calling, and what they do for a caller they refuse.
use apk.Base.{ℕ, ◌≡◌, refl, ap, ◌∙◌, false, [], Option}
use apk.Base.Text.{Str, is_empty}
use apk.Base.Outcome.{done, Action, then_do}
use apk.Http.{authenticate_request}
use apk.Redis.{RedisClient}
use apk.Api.{Platform, Request, Response, Api, kept, admit, authorized, fail, refusal}
use apk.Api.Accounts.{get_me, update_me, search_accounts, get_user}
use apk.Api.Chats.{get_chats, open_direct, create_group, get_chat_info}
use apk.Api.Messages.{
  get_messages, get_members, add_member, remove_member, search_messages, pin_message, react_message,
  mute_chat, chat_search_users,
}
use apk.Api.Contacts.{get_contacts, add_contact, remove_contact, is_contact, find_by_phone}
use apk.Api.Channels.{
  explore_channels, my_channels, create_channel, get_channel, subscribe_channel, get_channel_posts,
  create_post, delete_post,
}
use apk.Api.Routes.{Route, is_public, handle}

module _ (p : Platform) {C : Type 0} where
  -- A route that is not public is guarded by `authorized`.
  pub handle-authorized :
      (jwt_secret : Str) (route : Route) (req : Request)
      → is_public route ≡ false
      → (rest : Str → Action (Api p C) Response) × ((s : Api p C)
          → handle p jwt_secret route req s ≡ authorized p jwt_secret req rest s)
  unfolding handle get_me update_me search_accounts get_user get_chats open_direct create_group
      get_chat_info get_messages get_members add_member remove_member search_messages pin_message
      react_message mute_chat chat_search_users get_contacts add_contact remove_contact is_contact
      find_by_phone explore_channels my_channels create_channel get_channel subscribe_channel
      get_channel_posts create_post delete_post
  handle-authorized jwt_secret Route.health req h = absurd (cc)
  handle-authorized jwt_secret Route.send_otp req h = absurd (cc)
  handle-authorized jwt_secret Route.verify_otp req h = absurd (cc)
  handle-authorized jwt_secret Route.register req h = absurd (cc)
  handle-authorized jwt_secret Route.get_me req h = (_, λ s. refl)
  handle-authorized jwt_secret Route.update_me req h = (_, λ s. refl)
  handle-authorized jwt_secret Route.search_users req h = (_, λ s. refl)
  handle-authorized jwt_secret (Route.get_user a) req h = (_, λ s. refl)
  handle-authorized jwt_secret Route.get_chats req h = (_, λ s. refl)
  handle-authorized jwt_secret Route.open_direct req h = (_, λ s. refl)
  handle-authorized jwt_secret Route.create_group req h = (_, λ s. refl)
  handle-authorized jwt_secret (Route.get_chat_info a) req h = (_, λ s. refl)
  handle-authorized jwt_secret (Route.get_messages a) req h = (_, λ s. refl)
  handle-authorized jwt_secret (Route.get_members a) req h = (_, λ s. refl)
  handle-authorized jwt_secret (Route.add_member a) req h = (_, λ s. refl)
  handle-authorized jwt_secret (Route.remove_member a b) req h = (_, λ s. refl)
  handle-authorized jwt_secret (Route.search_messages a) req h = (_, λ s. refl)
  handle-authorized jwt_secret (Route.pin_message a) req h = (_, λ s. refl)
  handle-authorized jwt_secret (Route.react_message a) req h = (_, λ s. refl)
  handle-authorized jwt_secret (Route.mute_chat a) req h = (_, λ s. refl)
  handle-authorized jwt_secret Route.chat_search_users req h = (_, λ s. refl)
  handle-authorized jwt_secret Route.get_contacts req h = (_, λ s. refl)
  handle-authorized jwt_secret Route.add_contact req h = (_, λ s. refl)
  handle-authorized jwt_secret (Route.remove_contact a) req h = (_, λ s. refl)
  handle-authorized jwt_secret (Route.check_contact a) req h = (_, λ s. refl)
  handle-authorized jwt_secret Route.find_by_phone req h = (_, λ s. refl)
  handle-authorized jwt_secret Route.explore_channels req h = (_, λ s. refl)
  handle-authorized jwt_secret Route.my_channels req h = (_, λ s. refl)
  handle-authorized jwt_secret Route.create_channel req h = (_, λ s. refl)
  handle-authorized jwt_secret (Route.get_channel a) req h = (_, λ s. refl)
  handle-authorized jwt_secret (Route.subscribe_channel a) req h = (_, λ s. refl)
  handle-authorized jwt_secret (Route.get_channel_posts a) req h = (_, λ s. refl)
  handle-authorized jwt_secret (Route.create_post a) req h = (_, λ s. refl)
  handle-authorized jwt_secret (Route.delete_post a b) req h = (_, λ s. refl)

  authorized-refused :
      (jwt_secret : Str) (req : Request) (rest : Str → Action (Api p C) Response) (s : Api p C)
      (status : ℕ) (redis' : Option (RedisClient p.hiredis C))
      → authenticate_request p.json p.hmac p.hiredis req.authorization jwt_secret req.now s.redis
        ≡ done (status, []) redis'
      → authorized p jwt_secret req rest s
        ≡ fail p status (refusal status) (record s { redis = redis' })
  unfolding authorized is_empty
  authorized-refused jwt_secret req rest s status redis' e =
      ap (λ o. then_do (kept p s o) (admit p rest)) e

  -- Every route but the health check, the registration and those of one-time passwords answers a
  -- caller whom authenticate_request refuses with the status that it gives, and with nothing but
  -- the error of that status: the database is left alone, whatever the request holds.
  pub handle-refused :
      (jwt_secret : Str) (route : Route) (req : Request) (s : Api p C) (status : ℕ)
      (redis' : Option (RedisClient p.hiredis C))
      → is_public route ≡ false
      → authenticate_request p.json p.hmac p.hiredis req.authorization jwt_secret req.now s.redis
        ≡ done (status, []) redis'
      → handle p jwt_secret route req s
        ≡ fail p status (refusal status) (record s { redis = redis' })
  handle-refused jwt_secret route req s status redis' guarded e =
      let (rest, same) = handle-authorized jwt_secret route req guarded in
      same s ∙ authorized-refused jwt_secret req rest s status redis' e
