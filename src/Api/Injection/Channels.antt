-- ===== src/Api/Injection/Channels.antt =====
-- The statements of the routes of Api/Contacts and Api/Channels.
use apk.Base.Text.{Str, lit}
use apk.Api.{Platform, Api, Request, Response}
use apk.Api.Contacts.{get_contacts, add_contact, remove_contact, is_contact, find_by_phone}
use apk.Api.Channels.{
  explore_channels, my_channels, create_channel, get_channel, subscribe_channel, get_channel_posts,
  create_post, delete_post, if_admin, channel_error,
}
use apk.Api.Keeps.{Keeps}
use apk.Api.Injection.{keeping}
use apk.Base.{ℕ, Option, none, some}
use apk.Base.Outcome.{Action}
use apk.Std.Search.{find_text}
use apk.Api.{fail}

module _ (p : Platform) {C : Type 0} where
  if_admin-Keeps :
      (channel_id uid : Str) {rest : Action (Api p C) Response}
      → Keeps p rest
      → Keeps p (if_admin p channel_id uid rest)
  unfolding if_admin
  if_admin-Keeps channel_id uid k = search keeping depth 16

  found-Keeps :
      (found : Option ℕ)
      → Keeps p {C = C} (elim found as (λ e. Action (Api p C) Response) [
        | none ↦ fail p 500 (lit "Server error")
        | some i ↦ fail p 409 (lit "Username already taken")
      ])
  found-Keeps none = search keeping
  found-Keeps (some i) = search keeping

  channel_error-Keeps : (err : Str) → Keeps p {C = C} (channel_error p err)
  channel_error-Keeps err = found-Keeps (find_text (lit "unique") err)

  pub get_contacts-Keeps :
      (jwt_secret : Str) (req : Request) → Keeps p {C = C} (get_contacts p jwt_secret req)
  unfolding get_contacts
  get_contacts-Keeps jwt_secret req = search keeping

  pub add_contact-Keeps :
      (jwt_secret : Str) (req : Request) → Keeps p {C = C} (add_contact p jwt_secret req)
  unfolding add_contact
  add_contact-Keeps jwt_secret req = search keeping depth 16

  pub remove_contact-Keeps :
      (jwt_secret : Str) (id : Str) (req : Request)
      → Keeps p {C = C} (remove_contact p jwt_secret id req)
  unfolding remove_contact
  remove_contact-Keeps jwt_secret id req = search keeping

  pub is_contact-Keeps :
      (jwt_secret : Str) (id : Str) (req : Request)
      → Keeps p {C = C} (is_contact p jwt_secret id req)
  unfolding is_contact
  is_contact-Keeps jwt_secret id req = search keeping

  pub find_by_phone-Keeps :
      (jwt_secret : Str) (req : Request) → Keeps p {C = C} (find_by_phone p jwt_secret req)
  unfolding find_by_phone
  find_by_phone-Keeps jwt_secret req = search keeping depth 16

  pub explore_channels-Keeps :
      (jwt_secret : Str) (req : Request) → Keeps p {C = C} (explore_channels p jwt_secret req)
  unfolding explore_channels
  explore_channels-Keeps jwt_secret req = search keeping

  pub my_channels-Keeps :
      (jwt_secret : Str) (req : Request) → Keeps p {C = C} (my_channels p jwt_secret req)
  unfolding my_channels
  my_channels-Keeps jwt_secret req = search keeping

  pub create_channel-Keeps :
      (jwt_secret : Str) (req : Request) → Keeps p {C = C} (create_channel p jwt_secret req)
  unfolding create_channel
  create_channel-Keeps jwt_secret req = search (keeping, channel_error-Keeps) depth 16

  pub get_channel-Keeps :
      (jwt_secret : Str) (id : Str) (req : Request)
      → Keeps p {C = C} (get_channel p jwt_secret id req)
  unfolding get_channel
  get_channel-Keeps jwt_secret id req = search keeping

  pub subscribe_channel-Keeps :
      (jwt_secret : Str) (id : Str) (req : Request)
      → Keeps p {C = C} (subscribe_channel p jwt_secret id req)
  unfolding subscribe_channel
  subscribe_channel-Keeps jwt_secret id req = search keeping

  pub get_channel_posts-Keeps :
      (jwt_secret : Str) (id : Str) (req : Request)
      → Keeps p {C = C} (get_channel_posts p jwt_secret id req)
  unfolding get_channel_posts
  get_channel_posts-Keeps jwt_secret id req = search keeping

  pub create_post-Keeps :
      (jwt_secret : Str) (id : Str) (req : Request)
      → Keeps p {C = C} (create_post p jwt_secret id req)
  unfolding create_post
  create_post-Keeps jwt_secret id req = search (keeping, if_admin-Keeps) depth 16

  pub delete_post-Keeps :
      (jwt_secret : Str) (id : Str) (other : Str) (req : Request)
      → Keeps p {C = C} (delete_post p jwt_secret id other req)
  unfolding delete_post
  delete_post-Keeps jwt_secret id other req = search keeping
