-- ===== src/Api/Channels.antt =====
-- src/http_api.cpp: channels, their subscribers and their posts.
use apk.Base.{Bool, true, false, not, ◌&&◌, ◌||◌, none, some, List, [], ◌∷◌, ◌++◌, if◌then◌else◌}
use apk.Base.Text.{Str, lit, str_eq, is_empty}
use apk.Base.Outcome.{Action, ◌>>=◌}
use apk.Std.Search.{find_text}
use apk.Pg.{Row}
use apk.Api.{
  Platform, Request, Response, Api, param_of, db_query, db_exec, try_catch, or_raise, value_of,
  text_at, first_row, json_resp, fail, guarded, with_body, authorized, first_or, list_of, row_json,
  ok_body,
}
use apk.Api.Messages.{run_ok}
use apk.Api.Statements.Channels.{
  channel_sql, explore, subscribed, insert_channel, insert_channel_owner, select_channel,
  insert_subscriber, count_subscriber, select_posts, posts_before, select_role, insert_post,
  remove_post,
}

abbrev pub truth : Bool → Str
truth b = if b then lit "true" else lit "false"

-- role != "owner" && role != "admin"
abbrev pub no_admin : Str → Bool
no_admin role = not (str_eq role (lit "owner")) && not (str_eq role (lit "admin"))

module _ (p : Platform) {C : Type 0} where
  open p use {json}

  unfoldable pub explore_channels : Str → Request → Action (Api p C) Response
  explore_channels jwt_secret req = authorized p jwt_secret req (λ uid. guarded p (do
    rows ← db_query p (channel_sql explore) ((lit "%" ++ param_of req (lit "q") ++ lit "%") ∷ [])
    json_resp p 200 (list_of p (row_json p) rows)))

  unfoldable pub my_channels : Str → Request → Action (Api p C) Response
  my_channels jwt_secret req = authorized p jwt_secret req (λ uid. guarded p (do
    rows ← db_query p (channel_sql subscribed) (uid ∷ [])
    json_resp p 200 (list_of p (row_json p) rows)))

  -- The catch clause: a text with "unique" in it is the violation of a constraint.
  abbrev pub channel_error : Str → Action (Api p C) Response
  channel_error err = elim (find_text (lit "unique") err) [
    | none ↦ fail p 500 (lit "Server error")
    | some i ↦ fail p 409 (lit "Username already taken")
  ]

  unfoldable pub create_channel : Str → Request → Action (Api p C) Response
  create_channel jwt_secret req = authorized p jwt_secret req (λ uid. with_body p req.body (λ body.
      do
        username ← value_of p body (lit "username")
        name ← value_of p body (lit "name")
        description ← value_of p body (lit "description")
        is_public ← or_raise p p.type_error (json.value_boolean body (lit "isPublic") true)
        if is_empty username || is_empty name
            then fail p 400 (lit "username and name required")
            else try_catch p
                (do
                  rows ←
                      db_query p (channel_sql insert_channel)
                        (username ∷ name ∷ description ∷ truth is_public ∷ uid ∷ [])
                  row ← first_row p rows
                  chan_id ← text_at p (lit "id") row
                  affected ← db_exec p (channel_sql insert_channel_owner) (chan_id ∷ uid ∷ [])
                  json_resp p 201 (
                      json.object (
                        (lit "id", json.text chan_id) ∷ (lit "username", json.text username) ∷ [])))
                channel_error))

  unfoldable pub get_channel : Str → Str → Request → Action (Api p C) Response
  get_channel jwt_secret username req = authorized p jwt_secret req (λ uid. guarded p (
      db_query p (channel_sql select_channel) (username ∷ [])
      >>= first_or p (fail p 404 (lit "Channel not found"))
          (λ row. json_resp p 200 (row_json p row))))

  unfoldable pub subscribe_channel : Str → Str → Request → Action (Api p C) Response
  subscribe_channel jwt_secret channel_id req = authorized p jwt_secret req (λ uid. guarded p (do
    inserted ← db_exec p (channel_sql insert_subscriber) (channel_id ∷ uid ∷ [])
    updated ← db_exec p (channel_sql count_subscriber) (channel_id ∷ [])
    json_resp p 200 (ok_body p)))

  abbrev pub page_of_posts : Str → Str → Action (Api p C) (List Row)
  page_of_posts channel_id before =
      if is_empty before
      then db_query p (channel_sql select_posts) (channel_id ∷ [])
      else db_query p (channel_sql posts_before) (channel_id ∷ before ∷ [])

  unfoldable pub get_channel_posts : Str → Str → Request → Action (Api p C) Response
  get_channel_posts jwt_secret channel_id req = authorized p jwt_secret req (λ uid. guarded p (do
    rows ← page_of_posts channel_id (param_of req (lit "before"))
    json_resp p 200 (list_of p (row_json p) rows)))

  -- Only the owner or an admin of the channel goes on.
  unfoldable pub if_admin : Str → Str → Action (Api p C) Response → Action (Api p C) Response
  if_admin channel_id uid rest =
      db_query p (channel_sql select_role) (channel_id ∷ uid ∷ [])
      >>= first_or p (fail p 403 (lit "Not a channel admin")) (λ row. do
        role ← text_at p (lit "role") row
        if no_admin role then fail p 403 (lit "Not a channel admin") else rest)

  unfoldable pub create_post : Str → Str → Request → Action (Api p C) Response
  create_post jwt_secret channel_id req = authorized p jwt_secret req (λ uid.
      with_body p req.body (λ body. do
        content ← value_of p body (lit "content")
        is_paid ← or_raise p p.type_error (json.value_boolean body (lit "isPaid") false)
        guarded p (
            if_admin channel_id uid (do
              affected ←
                  db_exec p (channel_sql insert_post)
                    (channel_id ∷ content ∷ truth is_paid ∷ uid ∷ [])
              json_resp p 201 (ok_body p)))))

  unfoldable pub delete_post : Str → Str → Str → Request → Action (Api p C) Response
  delete_post jwt_secret channel_id post_id req =
      authorized p jwt_secret req
        (λ uid. run_ok p (channel_sql remove_post) (post_id ∷ channel_id ∷ []))
