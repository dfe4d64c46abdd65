-- ===== src/Api/Chats/Membership.antt =====
-- Who is let into a chat, after members are removed and added.
use apk.Base.{◌≡◌, refl, ap, ◌∙◌, true, false, ◌&&◌, Option, none, some, [], ◌∷◌, map}
use apk.Base.Text.{Str, lit, str_eq, str_eq_iff}
use apk.Base.Outcome.{done, then_do, Action, ◌>>=◌}
use apk.Redis.{RedisClient}
use apk.Redis.Replies.{c_str}
use apk.Pg.{command, read_row, read_rows, read_count, query, exec}
use apk.Api.{
  Platform, Request, Response, Api, settle, db_query, db_exec, fail, json_resp, guarded, ok_body,
  recover, server_error, param_of, list_of, row_object,
}
use apk.Api.Entry.{LetIn, authorized-LetIn, with_body-parsed}
use apk.Api.Statements.Chats.{chat_sql, check_member, upsert_member, end_membership}
use apk.Api.Chats.{if_member, get_chat_info}
use apk.Api.Chats.Table.{ChatTable, Rows, Changes, Membership, is_current, ones, dismiss, readmit}
use apk.Api.Messages.{
  page_of_messages, message_names, get_messages, remove_member, add_member, run_ok,
}

is_current-dismiss : (row : Option Membership) → is_current (dismiss row) ≡ false
is_current-dismiss none = refl
is_current-dismiss (some m) = refl

is_current-readmit : (row : Option Membership) → is_current (readmit row) ≡ true
is_current-readmit none = refl
is_current-readmit (some m) = refl

Changes-here :
    {W : Type 0} (rows : Rows W) (f : Option Membership → Option Membership) (c u : Str) (w w' : W)
    → Changes rows f c u w w'
    → rows.row_at w' c u ≡ f (rows.row_at w c u)
Changes-here rows f c u w w' changes =
    changes.row c u ∙ rw ((str_eq_iff c c).1 refl, (str_eq_iff u u).1 refl) refl

module _ (p : Platform) {C : Type 0} (conn : p.pg.Connection) (table : ChatTable p.pg conn)
    (what : Str) where
  -- The server over a database in a world.
  abbrev pub serving : Option (RedisClient p.hiredis C) → p.pg.World → Api p C
  serving redis w = record {
    redis = redis;
    db = record { conn = some conn; world = w };
    what = what;
  }

  abbrev pub answer_ok : Action (Api p C) Response
  answer_ok = guarded p (json_resp p 200 (ok_body p))

  abbrev pub not_member : Action (Api p C) Response
  not_member = guarded p (fail p 403 (lit "Not a member"))

  module _ (chat user c u : Str) (is_c : table.uuid (c_str chat) ≡ some c)
      (is_u : table.uuid (c_str user) ≡ some u) where
    check_step :
        (redis : Option (RedisClient p.hiredis C)) (w : p.pg.World)
        → db_query p (chat_sql check_member) (chat ∷ user ∷ []) (serving redis w)
          ≡ done
              (map (read_row (lit "?column?" ∷ [])) (ones (is_current (table.rows.row_at w c u))))
              (serving redis w)
    unfolding db_query query
    check_step redis w =
        ap (λ r. settle p (serving redis w) (read_rows p.pg conn r))
          (table.check_member_rows w (c_str chat) (c_str user) c u is_c is_u)

    if_member-outsider :
        (redis : Option (RedisClient p.hiredis C)) (w : p.pg.World)
        (rest : Action (Api p C) Response)
        → is_current (table.rows.row_at w c u) ≡ false
        → if_member p chat user rest (serving redis w)
          ≡ fail p 403 (lit "Not a member") (serving redis w)
    unfolding if_member
    if_member-outsider redis w rest out = rw (if_member, check_step redis w, out) refl

    if_member-insider :
        (redis : Option (RedisClient p.hiredis C)) (w : p.pg.World)
        (rest : Action (Api p C) Response)
        → is_current (table.rows.row_at w c u) ≡ true
        → if_member p chat user rest (serving redis w) ≡ rest (serving redis w)
    unfolding if_member
    if_member-insider redis w rest inside = rw (if_member, check_step redis w, inside) refl

    get_messages-outsider :
        (jwt_secret : Str) (req : Request) (w : p.pg.World)
        (redis redis' : Option (RedisClient p.hiredis C))
        → LetIn p jwt_secret req redis user redis'
        → is_current (table.rows.row_at w c u) ≡ false
        → (get_messages p jwt_secret chat req (serving redis w) ≡ not_member (serving redis' w))
          × (get_chat_info p jwt_secret chat req (serving redis w) ≡ not_member (serving redis' w))
    unfolding get_messages get_chat_info
    get_messages-outsider jwt_secret req w redis redis' let_in out = (
      authorized-LetIn p (serving redis w) _ let_in
          ∙ ap (recover p (server_error p)) (if_member-outsider redis' w _ out),
      authorized-LetIn p (serving redis w) _ let_in
          ∙ ap (recover p (server_error p)) (if_member-outsider redis' w _ out),
    )

    -- run_ok of a statement that a result of libpq answers as a command.
    run_ok_step :
        (redis : Option (RedisClient p.hiredis C)) (w w' : p.pg.World) (sql : Str)
        → p.pg.exec_params conn (c_str sql) (c_str chat ∷ c_str user ∷ []) w
          ≡ (command (table.tag w), w')
        → run_ok p sql (chat ∷ user ∷ []) (serving redis w) ≡ answer_ok (serving redis w')
    unfolding db_exec exec
    run_ok_step redis w w' sql sent =
        ap
          (λ r. recover p (server_error p) (
            then_do (settle p (serving redis w) (read_count p.pg conn r))
              (λ affected. json_resp p 200 (ok_body p))))
          sent

    -- Someone who is let in as `caller` removes a user from a chat, where both are named by UUIDs:
    -- that is answered as usual. The next request of this user for the messages of the chat, or for
    -- the chat itself, is answered with 403 and does nothing to the database. The row of every other
    -- member, or chat, is as it was, whichever spelling of the UUIDs the requests have.
    pub remove_member-get_messages :
        (jwt_secret caller : Str) (removal reading : Request) (w : p.pg.World)
        (redis redis' redis'' : Option (RedisClient p.hiredis C))
        → LetIn p jwt_secret removal redis caller redis'
        → LetIn p jwt_secret reading redis' user redis''
        → (w' : p.pg.World) × (remove_member p jwt_secret chat user removal (serving redis w)
            ≡ answer_ok (serving redis' w'))
          × (get_messages p jwt_secret chat reading (serving redis' w')
              ≡ not_member (serving redis'' w'))
          × (get_chat_info p jwt_secret chat reading (serving redis' w')
              ≡ not_member (serving redis'' w'))
          × ((c' u' : Str)
              → str_eq c c' && str_eq u u' ≡ false
              → table.rows.row_at w' c' u' ≡ table.rows.row_at w c' u')
    unfolding remove_member
    remove_member-get_messages jwt_secret caller removal reading w redis redis' redis'' first next =
        let (w', sent, changes) =
          table.end_membership_done w (c_str chat) (c_str user) c u is_c is_u in
        let out : is_current (table.rows.row_at w' c u) ≡ false =
          ap is_current (Changes-here table.rows dismiss c u w w' changes)
          ∙ is_current-dismiss (table.rows.row_at w c u) in
        let refused = get_messages-outsider jwt_secret reading w' redis' redis'' next out in
        (
          w',
          authorized-LetIn p (serving redis w) _ first
              ∙ run_ok_step redis' w w' (chat_sql end_membership) sent,
          refused.0,
          refused.1,
          λ c' u' other. changes.row c' u' ∙ rw other refl,
        )

    -- Someone who is let in as `caller`, a member or not, names a user in the body of a request to
    -- add a member to a chat, where both are named by UUIDs, of a chat and a user that there are:
    -- that is answered as usual. The next request of this user for the messages of the chat gets a
    -- page of them, and the row of every other member, or chat, is as it was.
    pub add_member-get_messages :
        (jwt_secret caller : Str) (addition reading : Request) (body : p.json.J) (w : p.pg.World)
        (redis redis' redis'' : Option (RedisClient p.hiredis C))
        → LetIn p jwt_secret addition redis caller redis'
        → LetIn p jwt_secret reading redis' user redis''
        → p.json.parse addition.body ≡ some body
        → p.json.value_text body (lit "userId") [] ≡ some user
        → table.rows.is_chat w c ≡ true
        → table.rows.is_user w u ≡ true
        → (w' : p.pg.World) × (add_member p jwt_secret chat addition (serving redis w)
            ≡ answer_ok (serving redis' w'))
          × (get_messages p jwt_secret chat reading (serving redis' w')
              ≡ guarded p
                  (page_of_messages p chat (param_of reading (lit "before")) >>= λ rows.
                    json_resp p 200 (list_of p (row_object p message_names) rows))
                  (serving redis'' w'))
          × ((c' u' : Str)
              → str_eq c c' && str_eq u u' ≡ false
              → table.rows.row_at w' c' u' ≡ table.rows.row_at w c' u')
    unfolding add_member get_messages
    add_member-get_messages jwt_secret caller addition reading body w redis redis' redis'' first
          next parsed is_user is_there known =
        let (w', sent, changes) =
          table.upsert_member_done w (c_str chat) (c_str user) c u is_c is_u is_there known in
        let inside : is_current (table.rows.row_at w' c u) ≡ true =
          ap is_current (Changes-here table.rows readmit c u w w' changes)
          ∙ is_current-readmit (table.rows.row_at w c u) in
        (
          w',
          authorized-LetIn p (serving redis w) _ first
              ∙ with_body-parsed p addition body _ _ parsed
              ∙ rw (is_user, next.named) (run_ok_step redis' w w' (chat_sql upsert_member) sent),
          authorized-LetIn p (serving redis' w') _ next
              ∙ ap (recover p (server_error p)) (if_member-insider redis'' w' _ inside),
          λ c' u' other. changes.row c' u' ∙ rw other refl,
        )
