-- ===== src/Api/Contacts.antt =====
-- src/http_api.cpp: the contacts of a user.
use apk.Base.{Bool, true, false, not, List, [], ◌∷◌, ◌++◌, if◌then◌else◌}
use apk.Base.Text.{Str, lit, str_eq, is_empty}
use apk.Base.Outcome.{Action, ◌>>=◌}
use apk.Pg.{Row}
use apk.Api.{
  Platform, Request, Response, Api, param_of, db_query, db_exec, value_of, json_resp, fail, guarded,
  with_body, authorized, first_or, list_of, row_object, ok_body,
}
use apk.Api.Accounts.{card_names}
use apk.Api.Messages.{run_ok}
use apk.Api.Statements.Channels.{
  channel_sql, select_contacts, upsert_contact, delete_contact, check_contact, user_by_phone,
}

abbrev pub contact_names : List (Str × Str)
contact_names =
    card_names
    ++ ((lit "status", lit "status")
        ∷ (lit "nickname", lit "nickname")
        ∷ (lit "isFavorite", lit "is_favorite")
        ∷ [])

-- rows.empty()
abbrev pub no_rows : List Row → Bool
no_rows [] = true
no_rows (row ∷ rows) = false

module _ (p : Platform) {C : Type 0} where
  open p use {json}

  unfoldable pub get_contacts : Str → Request → Action (Api p C) Response
  get_contacts jwt_secret req = authorized p jwt_secret req (λ uid. guarded p (do
    rows ← db_query p (channel_sql select_contacts) (uid ∷ [])
    json_resp p 200 (list_of p (row_object p contact_names) rows)))

  unfoldable pub add_contact : Str → Request → Action (Api p C) Response
  add_contact jwt_secret req = authorized p jwt_secret req (λ uid. with_body p req.body (λ body. do
    contact_id ← value_of p body (lit "contactId")
    nickname ← value_of p body (lit "nickname")
    if is_empty contact_id
        then fail p 400 (lit "contactId required")
        else if str_eq contact_id uid
        then fail p 400 (lit "Cannot add yourself")
        else guarded p (do
          affected ← db_exec p (channel_sql upsert_contact) (uid ∷ contact_id ∷ nickname ∷ [])
          json_resp p 201 (ok_body p))))

  unfoldable pub remove_contact : Str → Str → Request → Action (Api p C) Response
  remove_contact jwt_secret contact_id req =
      authorized p jwt_secret req
        (λ uid. run_ok p (channel_sql delete_contact) (uid ∷ contact_id ∷ []))

  unfoldable pub is_contact : Str → Str → Request → Action (Api p C) Response
  is_contact jwt_secret contact_id req = authorized p jwt_secret req (λ uid. guarded p (do
    rows ← db_query p (channel_sql check_contact) (uid ∷ contact_id ∷ [])
    json_resp p 200 (json.object ((lit "isContact", json.boolean (not (no_rows rows))) ∷ []))))

  unfoldable pub find_by_phone : Str → Request → Action (Api p C) Response
  find_by_phone jwt_secret req = authorized p jwt_secret req (λ uid.
      let phone = param_of req (lit "phone") in
      if is_empty phone
      then fail p 400 (lit "phone required")
      else guarded p (
          db_query p (channel_sql user_by_phone) (phone ∷ [])
          >>= first_or p (fail p 404 (lit "User not found"))
              (λ u. json_resp p 200 (row_object p card_names u))))
