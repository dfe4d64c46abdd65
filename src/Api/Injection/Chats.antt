-- ===== src/Api/Injection/Chats.antt =====
-- The statements of the routes of Api/Chats and Api/Messages.
use apk.Base.Text.{Str, lit, str_eq}
use apk.Api.{Platform, Api, Request, Response}
use apk.Api.Chats.{
  get_chats, open_direct, create_group, get_chat_info, if_member, add_members, add_listed,
}
use apk.Api.Messages.{
  get_messages, get_members, add_member, remove_member, search_messages, pin_message, react_message,
  mute_chat, chat_search_users,
}
use apk.Api.Statements.Chats.{insert_member}
use apk.Api.Keeps.{Keeps, bind-Keeps, or_raise-Keeps, branch-Keeps, try_catch-Keeps, give-Keeps}
use apk.Api.Injection.{keeping, exec_chat-Keeps}
use apk.Base.{List, [], ◌∷◌, Option, none, some}
use apk.Base.Outcome.{Action, give}

module _ (p : Platform) {C : Type 0} where
  if_member-Keeps :
      (chat_id uid : Str) {rest : Action (Api p C) Response}
      → Keeps p rest
      → Keeps p (if_member p chat_id uid rest)
  unfolding if_member
  if_member-Keeps chat_id uid k = search keeping

  add_members-Keeps :
      (chat_id uid : Str) (mids : List p.json.J) → Keeps p {C = C} (add_members p chat_id uid mids)
  unfolding add_members
  add_members-Keeps chat_id uid [] = search keeping
  add_members-Keeps chat_id uid (mid ∷ mids) =
      bind-Keeps p (or_raise-Keeps p p.type_error (p.json.get_text mid)) (λ member_id.
        branch-Keeps p (str_eq member_id uid) (add_members-Keeps chat_id uid mids) (
          bind-Keeps p
            (try_catch-Keeps p
              (bind-Keeps p (exec_chat-Keeps p insert_member (chat_id ∷ member_id ∷ []))
                (λ n. give-Keeps p tt))
              (λ what. give-Keeps p tt))
            (λ a. add_members-Keeps chat_id uid mids)))

  elements-Keeps :
      (chat_id uid : Str) (es : Option (List p.json.J))
      → Keeps p {C = C} (elim es as (λ e. Action (Api p C) (Unit {0})) [
        | none ↦ give tt
        | some mids ↦ add_members p chat_id uid mids
      ])
  elements-Keeps chat_id uid none = search keeping
  elements-Keeps chat_id uid (some mids) = add_members-Keeps chat_id uid mids

  members-Keeps :
      (chat_id uid : Str) (v : Option p.json.J)
      → Keeps p {C = C} (elim v as (λ e. Action (Api p C) (Unit {0})) [
        | none ↦ give tt
        | some v ↦ elim (p.json.elements v) as (λ e. Action (Api p C) (Unit {0})) [
          | none ↦ give tt
          | some mids ↦ add_members p chat_id uid mids
        ]
      ])
  members-Keeps chat_id uid none = search keeping
  members-Keeps chat_id uid (some v) = elements-Keeps chat_id uid (p.json.elements v)

  add_listed-Keeps :
      (chat_id uid : Str) (body : p.json.J) → Keeps p {C = C} (add_listed p chat_id uid body)
  add_listed-Keeps chat_id uid body =
      members-Keeps chat_id uid (p.json.member body (lit "memberIds"))

  pub get_chats-Keeps :
      (jwt_secret : Str) (req : Request) → Keeps p {C = C} (get_chats p jwt_secret req)
  unfolding get_chats
  get_chats-Keeps jwt_secret req = search keeping

  pub open_direct-Keeps :
      (jwt_secret : Str) (req : Request) → Keeps p {C = C} (open_direct p jwt_secret req)
  unfolding open_direct
  open_direct-Keeps jwt_secret req = search keeping depth 16

  pub create_group-Keeps :
      (jwt_secret : Str) (req : Request) → Keeps p {C = C} (create_group p jwt_secret req)
  unfolding create_group
  create_group-Keeps jwt_secret req = search (keeping, add_listed-Keeps) depth 16

  pub get_chat_info-Keeps :
      (jwt_secret : Str) (id : Str) (req : Request)
      → Keeps p {C = C} (get_chat_info p jwt_secret id req)
  unfolding get_chat_info
  get_chat_info-Keeps jwt_secret id req = search (keeping, if_member-Keeps) depth 16

  pub get_messages-Keeps :
      (jwt_secret : Str) (id : Str) (req : Request)
      → Keeps p {C = C} (get_messages p jwt_secret id req)
  unfolding get_messages
  get_messages-Keeps jwt_secret id req = search (keeping, if_member-Keeps) depth 16

  pub get_members-Keeps :
      (jwt_secret : Str) (id : Str) (req : Request)
      → Keeps p {C = C} (get_members p jwt_secret id req)
  unfolding get_members
  get_members-Keeps jwt_secret id req = search keeping

  pub add_member-Keeps :
      (jwt_secret : Str) (id : Str) (req : Request)
      → Keeps p {C = C} (add_member p jwt_secret id req)
  unfolding add_member
  add_member-Keeps jwt_secret id req = search keeping depth 16

  pub remove_member-Keeps :
      (jwt_secret : Str) (id : Str) (other : Str) (req : Request)
      → Keeps p {C = C} (remove_member p jwt_secret id other req)
  unfolding remove_member
  remove_member-Keeps jwt_secret id other req = search keeping

  pub search_messages-Keeps :
      (jwt_secret : Str) (id : Str) (req : Request)
      → Keeps p {C = C} (search_messages p jwt_secret id req)
  unfolding search_messages
  search_messages-Keeps jwt_secret id req = search keeping

  pub pin_message-Keeps :
      (jwt_secret : Str) (id : Str) (req : Request)
      → Keeps p {C = C} (pin_message p jwt_secret id req)
  unfolding pin_message
  pin_message-Keeps jwt_secret id req = search keeping

  pub react_message-Keeps :
      (jwt_secret : Str) (id : Str) (req : Request)
      → Keeps p {C = C} (react_message p jwt_secret id req)
  unfolding react_message
  react_message-Keeps jwt_secret id req = search keeping depth 16

  pub mute_chat-Keeps :
      (jwt_secret : Str) (id : Str) (req : Request)
      → Keeps p {C = C} (mute_chat p jwt_secret id req)
  unfolding mute_chat
  mute_chat-Keeps jwt_secret id req = search keeping

  pub chat_search_users-Keeps :
      (jwt_secret : Str) (req : Request) → Keeps p {C = C} (chat_search_users p jwt_secret req)
  unfolding chat_search_users
  chat_search_users-Keeps jwt_secret req = search keeping
