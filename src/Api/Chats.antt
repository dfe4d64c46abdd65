-- ===== src/Api/Chats.antt =====
-- src/http_api.cpp: the chats of a user, and how they are made.
pub mod Table
pub mod Membership
pub mod Enroll
pub mod Group
pub mod Malformed
use apk.Base.{none, some, List, [], ◌∷◌, if◌then◌else◌}
use apk.Base.Text.{Str, lit, str_eq, is_empty}
use apk.Base.Outcome.{Action, ◌>>=◌, ◌>>◌, give}
use apk.Pg.{column}
use apk.Api.{
  Platform, Request, Response, Api, db_query, db_exec, try_catch, or_raise, value_of, text_at,
  first_row, json_resp, fail, guarded, with_body, authorized, first_or, list_of, row_object, cell,
}
use apk.Api.Statements.Chats.{
  chat_sql, select_chats, find_direct, insert_direct, insert_pair, insert_group, insert_owner,
  insert_member, check_member, select_chat,
}

abbrev pub chat_names : List (Str × Str)
chat_names =
    (lit "id", lit "id")
    ∷ (lit "type", lit "chat_type")
    ∷ (lit "name", lit "name")
    ∷ (lit "avatarUrl", lit "avatar_url")
    ∷ (lit "lastMessage", lit "last_message")
    ∷ (lit "unreadCount", lit "unread_count")
    ∷ (lit "updatedAt", lit "updated_at")
    ∷ []

abbrev pub chat_info_names : List (Str × Str)
chat_info_names =
    (lit "id", lit "id")
    ∷ (lit "type", lit "chat_type")
    ∷ (lit "name", lit "name")
    ∷ (lit "description", lit "description")
    ∷ (lit "avatarUrl", lit "avatar_url")
    ∷ (lit "createdAt", lit "created_at")
    ∷ []

module _ (p : Platform) {C : Type 0} where
  open p use {json}

  unfoldable pub get_chats : Str → Request → Action (Api p C) Response
  get_chats jwt_secret req = authorized p jwt_secret req (λ uid. guarded p (do
    rows ← db_query p (chat_sql select_chats) (uid ∷ [])
    json_resp p 200 (list_of p (row_object p chat_names) rows)))

  abbrev pub make_direct : Str → Str → Action (Api p C) Response
  make_direct uid target_id = do
    chat ← db_query p (chat_sql insert_direct) (uid ∷ [])
    row ← first_row p chat
    chat_id ← text_at p (lit "id") row
    affected ← db_exec p (chat_sql insert_pair) (chat_id ∷ uid ∷ target_id ∷ [])
    json_resp p 201 (json.object ((lit "id", json.text chat_id) ∷ []))

  unfoldable pub open_direct : Str → Request → Action (Api p C) Response
  open_direct jwt_secret req = authorized p jwt_secret req (λ uid. with_body p req.body (λ body. do
    target_id ← value_of p body (lit "targetUserId")
    if is_empty target_id
        then fail p 400 (lit "targetUserId required")
        else guarded p (
            db_query p (chat_sql find_direct) (uid ∷ target_id ∷ [])
            >>= first_or p (make_direct uid target_id) (λ row.
              json_resp p 200 (json.object ((lit "id", cell p (column (lit "id") row)) ∷ []))))))

  -- The loop over memberIds.
  unfoldable pub add_members : Str → Str → List json.J → Action (Api p C) (Unit {0})
  add_members chat_id uid [] = give tt
  add_members chat_id uid (mid ∷ mids) =
      let rest = add_members chat_id uid mids in
      or_raise p p.type_error (json.get_text mid) >>= λ member_id.
      if str_eq member_id uid
      then rest
      else try_catch p
          (db_exec p (chat_sql insert_member) (chat_id ∷ member_id ∷ []) >>= λ affected. give tt)
          (λ what. give tt)
        >> rest

  abbrev pub add_listed : Str → Str → json.J → Action (Api p C) (Unit {0})
  add_listed chat_id uid body = elim (json.member body (lit "memberIds")) [
    | none ↦ give tt
    | some v ↦ elim (json.elements v) [ none ↦ give tt | some mids ↦ add_members chat_id uid mids ]
  ]

  unfoldable pub create_group : Str → Request → Action (Api p C) Response
  create_group jwt_secret req = authorized p jwt_secret req (λ uid. with_body p req.body (λ body. do
    name ← value_of p body (lit "name")
    desc ← value_of p body (lit "description")
    if is_empty name
        then fail p 400 (lit "name required")
        else guarded p (do
          chat ← db_query p (chat_sql insert_group) (name ∷ desc ∷ uid ∷ [])
          row ← first_row p chat
          chat_id ← text_at p (lit "id") row
          affected ← db_exec p (chat_sql insert_owner) (chat_id ∷ uid ∷ [])
          add_listed chat_id uid body
          json_resp p 201
              (json.object ((lit "id", json.text chat_id) ∷ (lit "name", json.text name) ∷ [])))))

  -- SELECT 1 FROM chat_members: only a member goes on.
  unfoldable pub if_member : Str → Str → Action (Api p C) Response → Action (Api p C) Response
  if_member chat_id uid rest =
      db_query p (chat_sql check_member) (chat_id ∷ uid ∷ [])
      >>= first_or p (fail p 403 (lit "Not a member")) (λ row. rest)

  unfoldable pub get_chat_info : Str → Str → Request → Action (Api p C) Response
  get_chat_info jwt_secret chat_id req = authorized p jwt_secret req (λ uid. guarded p (
      if_member chat_id uid (
        db_query p (chat_sql select_chat) (chat_id ∷ [])
        >>= first_or p (fail p 404 (lit "Chat not found"))
            (λ c. json_resp p 200 (row_object p chat_info_names c)))))
