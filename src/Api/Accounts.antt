-- ===== src/Api/Accounts.antt =====
-- src/http_api.cpp: registration, the user's own profile, and other users.
use apk.Base.{ℕ, not, ◌||◌, Option, none, some, List, [], ◌∷◌, ◌++◌, if◌then◌else◌, ◌⊎◌, inl, inr}
use apk.Base.Text.{Str, lit, is_empty}
use apk.Base.Outcome.{Action, ◌>>=◌, ◌>>◌, give}
use apk.Jwt.Token.{create}
use apk.Http.{store_redis_session}
use apk.Api.{
  Platform, Request, Response, Api, param_of, db_query, db_exec, with_redis, try_then, or_raise,
  value_of, text_at, json_resp, fail, server_error, guarded, with_body, authorized, first_or,
  list_of, row_object, ok_body,
}
use apk.Api.Profile.{Fields, no_fields, profile_fields, add_fields, update_sql}
use apk.Api.Statements.Accounts.{
  AccountSql, account_sql, same_username, same_email, same_phone, insert_user, select_me,
  search_users, select_user,
}

abbrev pub card_names : List (Str × Str)
card_names =
    (lit "id", lit "id")
    ∷ (lit "username", lit "username")
    ∷ (lit "displayName", lit "display_name")
    ∷ (lit "avatarUrl", lit "avatar_url")
    ∷ []

abbrev pub me_names : List (Str × Str)
me_names =
    (lit "id", lit "id")
    ∷ (lit "username", lit "username")
    ∷ (lit "email", lit "email")
    ∷ (lit "phone", lit "phone_number")
    ∷ (lit "displayName", lit "display_name")
    ∷ (lit "avatarUrl", lit "avatar_url")
    ∷ (lit "bio", lit "bio")
    ∷ (lit "status", lit "status")
    ∷ (lit "statusText", lit "status_text")
    ∷ (lit "createdAt", lit "created_at")
    ∷ []

abbrev pub user_names : List (Str × Str)
user_names = card_names ++ ((lit "bio", lit "bio") ∷ (lit "status", lit "status") ∷ [])

module _ (p : Platform) {C : Type 0} where
  open p use {json}

  -- A response that is returned early, as `some`.
  abbrev pub early : Action (Api p C) Response → Action (Api p C) (Option Response)
  early m = m >>= λ r. give (some r)

  -- Whether there is such a user already; if not, `rest` goes on.
  abbrev pub unless_taken :
      AccountSql
      → Str
      → Str
      → Action (Api p C) (Option Response)
      → Action (Api p C) (Option Response)
  unless_taken sql value message rest =
      db_query p (account_sql sql) (value ∷ [])
      >>= first_or p rest (λ row. early (fail p 409 message))

  -- The first try block.
  unfoldable pub check_duplicates : Str → Str → Str → Action (Api p C) (Option Response)
  check_duplicates email username phone =
      unless_taken same_username username (lit "Username already taken") (
        unless_taken same_email email (lit "Email already registered") (
          if not (is_empty phone)
          then unless_taken same_phone phone (lit "Phone number already registered") (give none)
          else give none))

  -- The second try block.
  unfoldable pub create_user : Request → Str → Str → Str → Str → Action (Api p C) (Response ⊎ Str)
  create_user req email username display_name phone =
      db_query p (account_sql insert_user)
        (username ∷ email ∷ phone ∷ display_name ∷ p.bin2hex req.public_key ∷ [])
      >>= first_or p (fail p 500 (lit "Insert failed") >>= λ r. give (inl r))
          (λ row. text_at p (lit "id") row >>= λ user_id. give (inr user_id))

  unfoldable pub greet : Str → ℕ → Response ⊎ Str → Action (Api p C) Response
  greet jwt_secret now (inl r) = give r
  greet jwt_secret now (inr user_id) = do
    token ← or_raise p p.dump_error (create json p.hmac user_id jwt_secret now)
    with_redis p (store_redis_session p.hiredis token user_id)
    json_resp p 201
        (json.object ((lit "token", json.text token) ∷ (lit "userId", json.text user_id) ∷ []))

  unfoldable pub add_user :
      Str → Request → Str → Str → Str → Str → Option Response → Action (Api p C) Response
  add_user jwt_secret req email username display_name phone (some r) = give r
  add_user jwt_secret req email username display_name phone none =
      try_then p (create_user req email username display_name phone)
        (λ what. fail p 500 (lit "Server error: " ++ what)) (greet jwt_secret req.now)

  unfoldable pub register : Str → Request → Action (Api p C) Response
  register jwt_secret req = with_body p req.body (λ body. do
    email ← value_of p body (lit "email")
    username ← value_of p body (lit "username")
    display_name ← or_raise p p.type_error (json.value_text body (lit "displayName") username)
    phone ← value_of p body (lit "phone")
    if is_empty email || is_empty username
        then fail p 400 (lit "email and username required")
        else if not (p.is_username username)
        then fail p 400 (lit "Username must be 3-32 chars: a-z, 0-9, _")
        else try_then p (check_duplicates email username phone) (server_error p)
            (add_user jwt_secret req email username display_name phone))

  unfoldable pub get_me : Str → Request → Action (Api p C) Response
  get_me jwt_secret req = authorized p jwt_secret req (λ uid. guarded p (
      db_query p (account_sql select_me) (uid ∷ [])
      >>= first_or p (fail p 404 (lit "User not found"))
          (λ u. json_resp p 200 (row_object p me_names u))))

  -- Nothing to update, or the statement with the id as its last parameter.
  unfoldable pub send_update : Str → Fields → Action (Api p C) Response
  send_update uid fs = elim fs.parts [
    | [] ↦ fail p 400 (lit "Nothing to update")
    | part ∷ parts ↦ guarded p (do
      affected ← db_exec p (update_sql fs) (fs.params ++ (uid ∷ []))
      json_resp p 200 (ok_body p))
  ]

  unfoldable pub update_me : Str → Request → Action (Api p C) Response
  update_me jwt_secret req = authorized p jwt_secret req (λ uid. with_body p req.body (λ body.
      or_raise p p.type_error (add_fields json body profile_fields no_fields) >>= send_update uid))

  unfoldable pub search_accounts : Str → Request → Action (Api p C) Response
  search_accounts jwt_secret req = authorized p jwt_secret req (λ uid.
      let q = param_of req (lit "q") in
      if is_empty q
      then json_resp p 200 (json.array [])
      else guarded p (do
        rows ← db_query p (account_sql search_users) ((lit "%" ++ q ++ lit "%") ∷ uid ∷ [])
        json_resp p 200
            (list_of p (row_object p (card_names ++ ((lit "status", lit "status") ∷ []))) rows)))

  unfoldable pub get_user : Str → Str → Request → Action (Api p C) Response
  get_user jwt_secret user_id req = authorized p jwt_secret req (λ uid. guarded p (
      db_query p (account_sql select_user) (user_id ∷ [])
      >>= first_or p (fail p 404 (lit "User not found"))
          (λ u. json_resp p 200 (row_object p user_names u))))
