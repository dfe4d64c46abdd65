-- ===== src/Api/Injection/Accounts.antt =====
-- The statements of the routes of Api/Accounts and Api/Otp.
use apk.Base.{◌⊎◌, inl, inr, subst, sym, refl, ◌≡◌}
use apk.Base.Text.{Str, lit}
use apk.Api.{Platform, Api, Request, Response, with_redis}
use apk.Api.Accounts.{
  register, get_me, update_me, search_accounts, get_user, check_duplicates, create_user, greet,
  add_user, send_update,
}
use apk.Api.Otp.{
  verify_otp, send_otp, check_otp, check_row, compare_hash, sign_in, check_valid, check_counted,
}
use apk.Http.{store_redis_session}
use apk.Api.{db_exec, fail, or_raise}
use apk.Base.Outcome.{◌>>=◌}
use apk.Api.Profile.{Fields, profile_fields, no_fields, add_fields, update_sql}
use apk.Api.Profile.Placeholders.{gives, update_sql-add_fields}
use apk.Api.Statements.{profile}
use apk.Api.Keeps.{Keeps, with_redis-Keeps, bind-Keeps}
use apk.Api.Injection.{
  keeping, guarded-Keeps, exec-Keeps, authorized-Keeps, with_body-Keeps, json_resp-Keeps,
}
use apk.Base.{ℕ, List, [], ◌∷◌, Option, none, some}
use apk.Base.Outcome.{Action}
use apk.Pg.{Row}

module _ (p : Platform) {C : Type 0} where
  compare_hash-Keeps :
      (email code : Str) {accepted : Action (Api p C) Response} (row : Row)
      → Keeps p accepted
      → Keeps p (compare_hash p email code accepted row)
  unfolding compare_hash
  compare_hash-Keeps email code row k = search keeping depth 16

  check_valid-Keeps :
      {rest : Action (Api p C) Response} (rows : List Row)
      → Keeps p rest
      → Keeps p (check_valid p rest rows)
  check_valid-Keeps [] k = search keeping
  check_valid-Keeps (row ∷ rows) k = search keeping depth 16

  check_counted-Keeps :
      (email code : Str) {accepted : Action (Api p C) Response} (row : Row)
      → Keeps p accepted
      → Keeps p (check_counted p email code accepted row)
  check_counted-Keeps email code row k =
      search (keeping, check_valid-Keeps, compare_hash-Keeps) depth 16

  check_row-Keeps :
      (email code : Str) {accepted : Action (Api p C) Response} (row : Row)
      → Keeps p accepted
      → Keeps p (check_row p email code accepted row)
  check_row-Keeps email code row k = search (keeping, check_counted-Keeps) depth 16

  check_otp-Keeps :
      (email code : Str) {accepted : Action (Api p C) Response}
      → Keeps p accepted
      → Keeps p (check_otp p email code accepted)
  unfolding check_otp
  check_otp-Keeps email code k = search (keeping, check_row-Keeps) depth 16

  store-Keeps :
      (token user_id : Str)
      → Keeps p {C = C} (with_redis p (store_redis_session p.hiredis token user_id))
  store-Keeps token user_id = with_redis-Keeps p (store_redis_session p.hiredis token user_id)

  sign_in-Keeps :
      (jwt_secret : Str) (now : ℕ) (email : Str) → Keeps p {C = C} (sign_in p jwt_secret now email)
  unfolding sign_in
  sign_in-Keeps jwt_secret now email = search (keeping, store-Keeps) depth 16

  check_duplicates-Keeps :
      (email username phone : Str) → Keeps p {C = C} (check_duplicates p email username phone)
  unfolding check_duplicates
  check_duplicates-Keeps email username phone = search keeping depth 16

  create_user-Keeps :
      (req : Request) (email username display_name phone : Str)
      → Keeps p {C = C} (create_user p req email username display_name phone)
  unfolding create_user
  create_user-Keeps req email username display_name phone = search keeping depth 16

  greet-Keeps :
      (jwt_secret : Str) (now : ℕ) (user : Response ⊎ Str)
      → Keeps p {C = C} (greet p jwt_secret now user)
  unfolding greet
  greet-Keeps jwt_secret now (inl r) = search keeping
  greet-Keeps jwt_secret now (inr user_id) = search (keeping, store-Keeps) depth 16

  add_user-Keeps :
      (jwt_secret : Str) (req : Request) (email username display_name phone : Str)
      (taken : Option Response)
      → Keeps p {C = C} (add_user p jwt_secret req email username display_name phone taken)
  unfolding add_user
  add_user-Keeps jwt_secret req email username display_name phone (some r) = search keeping
  add_user-Keeps jwt_secret req email username display_name phone none =
      search (keeping, create_user-Keeps, greet-Keeps) depth 16

  pub register-Keeps :
      (jwt_secret : Str) (req : Request) → Keeps p {C = C} (register p jwt_secret req)
  unfolding register
  register-Keeps jwt_secret req = search (keeping, check_duplicates-Keeps, add_user-Keeps) depth 16

  pub get_me-Keeps : (jwt_secret : Str) (req : Request) → Keeps p {C = C} (get_me p jwt_secret req)
  unfolding get_me
  get_me-Keeps jwt_secret req = search keeping

  module _ (body : p.json.J) where
    exec_profile-Keeps :
        (fs : Fields) (params : List Str)
        → add_fields p.json body profile_fields no_fields ≡ some fs
        → Keeps p {C = C} (db_exec p (update_sql fs) params)
    exec_profile-Keeps fs params h =
        subst (λ sql. Keeps p {C = C} (db_exec p sql params))
          (sym (update_sql-add_fields p.json body fs h).0)
          (exec-Keeps p (profile (gives p.json body)) params)

    parts-Keeps :
        (parts : List Str) {m : Action (Api p C) Response}
        → Keeps p m
        → Keeps p (elim parts as (λ e. Action (Api p C) Response) [
          | [] ↦ fail p 400 (lit "Nothing to update")
          | part ∷ more ↦ m
        ])
    parts-Keeps [] k = search keeping
    parts-Keeps (part ∷ parts) k = k

    send_update-Keeps :
        (uid : Str) (fs : Fields)
        → add_fields p.json body profile_fields no_fields ≡ some fs
        → Keeps p {C = C} (send_update p uid fs)
    unfolding send_update
    send_update-Keeps uid fs h =
        parts-Keeps fs.parts
          (guarded-Keeps p (bind-Keeps p (exec_profile-Keeps fs _ h) (λ n. json_resp-Keeps p _ _)))

    update-Keeps :
        (uid : Str) (fields : Option Fields)
        → add_fields p.json body profile_fields no_fields ≡ fields
        → Keeps p {C = C} (or_raise p p.type_error fields >>= send_update p uid)
    update-Keeps uid none h = record { keeps = λ start s k. k }
    update-Keeps uid (some fs) h = record {
      keeps = λ start s k. (send_update-Keeps uid fs h).keeps start s k;
    }

  pub update_me-Keeps :
      (jwt_secret : Str) (req : Request) → Keeps p {C = C} (update_me p jwt_secret req)
  unfolding update_me
  update_me-Keeps jwt_secret req =
      authorized-Keeps p jwt_secret req
        (λ uid. with_body-Keeps p req.body (λ body. update-Keeps body uid _ refl))

  pub search_accounts-Keeps :
      (jwt_secret : Str) (req : Request) → Keeps p {C = C} (search_accounts p jwt_secret req)
  unfolding search_accounts
  search_accounts-Keeps jwt_secret req = search keeping

  pub get_user-Keeps :
      (jwt_secret : Str) (id : Str) (req : Request) → Keeps p {C = C} (get_user p jwt_secret id req)
  unfolding get_user
  get_user-Keeps jwt_secret id req = search keeping

  pub send_otp-Keeps : (req : Request) → Keeps p {C = C} (send_otp p req)
  unfolding send_otp
  send_otp-Keeps req = search keeping depth 16

  pub verify_otp-Keeps :
      (jwt_secret : Str) (req : Request) → Keeps p {C = C} (verify_otp p jwt_secret req)
  unfolding verify_otp
  verify_otp-Keeps jwt_secret req = search (keeping, check_otp-Keeps, sign_in-Keeps) depth 16
