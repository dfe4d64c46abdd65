-- ===== src/Api/Messages.antt =====
-- src/http_api.cpp: the messages and the members of a chat.
use apk.Base.{List, [], ◌∷◌, ◌++◌, if◌then◌else◌}
use apk.Base.Text.{Str, lit, is_empty}
use apk.Base.Outcome.{Action, ◌>>=◌}
use apk.Pg.{Row}
use apk.Api.{
  Platform, Request, Response, Api, param_of, db_query, db_exec, value_of, json_resp, fail, guarded,
  with_body, authorized, list_of, row_object, row_json, ok_body,
}
use apk.Api.Accounts.{card_names}
use apk.Api.Chats.{if_member}
use apk.Api.Statements.Chats.{
  chat_sql, select_messages, messages_before, select_members, upsert_member, end_membership,
  search_texts, toggle_pin, insert_reaction, toggle_mute, search_people,
}

abbrev pub message_names : List (Str × Str)
message_names =
    (lit "id", lit "id")
    ∷ (lit "senderId", lit "sender_id")
    ∷ (lit "senderName", lit "sender_name")
    ∷ (lit "senderAvatar", lit "sender_avatar")
    ∷ (lit "content", lit "content")
    ∷ (lit "type", lit "content_type")
    ∷ (lit "isEdited", lit "is_edited")
    ∷ (lit "isPinned", lit "is_pinned")
    ∷ (lit "replyToId", lit "reply_to_id")
    ∷ (lit "createdAt", lit "created_at")
    ∷ []

abbrev pub member_names : List (Str × Str)
member_names =
    card_names
    ++ ((lit "status", lit "status")
        ∷ (lit "role", lit "role")
        ∷ (lit "joinedAt", lit "joined_at")
        ∷ [])

module _ (p : Platform) {C : Type 0} where
  open p use {json}

  -- One statement, and then {"ok": true}.
  abbrev pub run_ok : Str → List Str → Action (Api p C) Response
  run_ok sql params = guarded p (do affected ← db_exec p sql params; json_resp p 200 (ok_body p))

  abbrev pub page_of_messages : Str → Str → Action (Api p C) (List Row)
  page_of_messages chat_id before =
      if is_empty before
      then db_query p (chat_sql select_messages) (chat_id ∷ [])
      else db_query p (chat_sql messages_before) (chat_id ∷ before ∷ [])

  unfoldable pub get_messages : Str → Str → Request → Action (Api p C) Response
  get_messages jwt_secret chat_id req = authorized p jwt_secret req (λ uid. guarded p (
      if_member p chat_id uid (do
        rows ← page_of_messages chat_id (param_of req (lit "before"))
        json_resp p 200 (list_of p (row_object p message_names) rows))))

  unfoldable pub get_members : Str → Str → Request → Action (Api p C) Response
  get_members jwt_secret chat_id req = authorized p jwt_secret req (λ uid. guarded p (do
    rows ← db_query p (chat_sql select_members) (chat_id ∷ [])
    json_resp p 200 (list_of p (row_object p member_names) rows)))

  unfoldable pub add_member : Str → Str → Request → Action (Api p C) Response
  add_member jwt_secret chat_id req = authorized p jwt_secret req (λ uid.
      with_body p req.body (λ body. do
        target ← value_of p body (lit "userId")
        if is_empty target
            then fail p 400 (lit "userId required")
            else run_ok (chat_sql upsert_member) (chat_id ∷ target ∷ [])))

  unfoldable pub remove_member : Str → Str → Str → Request → Action (Api p C) Response
  remove_member jwt_secret chat_id target_uid req =
      authorized p jwt_secret req
        (λ uid. run_ok (chat_sql end_membership) (chat_id ∷ target_uid ∷ []))

  unfoldable pub search_messages : Str → Str → Request → Action (Api p C) Response
  search_messages jwt_secret chat_id req = authorized p jwt_secret req (λ uid.
      let q = param_of req (lit "q") in
      if is_empty q
      then json_resp p 200 (json.array [])
      else guarded p (do
        rows ← db_query p (chat_sql search_texts) (chat_id ∷ (lit "%" ++ q ++ lit "%") ∷ [])
        json_resp p 200 (list_of p (row_json p) rows)))

  unfoldable pub pin_message : Str → Str → Request → Action (Api p C) Response
  pin_message jwt_secret msg_id req =
      authorized p jwt_secret req (λ uid. run_ok (chat_sql toggle_pin) (msg_id ∷ []))

  unfoldable pub react_message : Str → Str → Request → Action (Api p C) Response
  react_message jwt_secret msg_id req = authorized p jwt_secret req (λ uid.
      with_body p req.body (λ body. do
        emoji ← value_of p body (lit "emoji")
        if is_empty emoji
            then fail p 400 (lit "emoji required")
            else run_ok (chat_sql insert_reaction) (msg_id ∷ uid ∷ emoji ∷ [])))

  unfoldable pub mute_chat : Str → Str → Request → Action (Api p C) Response
  mute_chat jwt_secret chat_id req =
      authorized p jwt_secret req (λ uid. run_ok (chat_sql toggle_mute) (chat_id ∷ uid ∷ []))

  unfoldable pub chat_search_users : Str → Request → Action (Api p C) Response
  chat_search_users jwt_secret req = authorized p jwt_secret req (λ uid. guarded p (do
    rows ←
        db_query p (chat_sql search_people)
          ((lit "%" ++ param_of req (lit "q") ++ lit "%") ∷ uid ∷ [])
    json_resp p 200 (list_of p (row_object p card_names) rows)))
