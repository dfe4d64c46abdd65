-- ===== src/Api/Chats/Group.antt =====
-- Who is in a group after create_group.
use apk.Base.{
  ◌++◌, ◌≡◌, refl, sym, ap, ◌∙◌, false, Option, none, some, List, [], ◌∷◌, map, arith,
  if◌then◌else◌, Bool, true, Bool-cases, Option-cases, inl, inr,
}
use apk.Base.Text.{Str, lit, is_empty, str_eq, str_lt, str_eq_iff}
use apk.Base.Outcome.{Outcome, done, Action, then_do, give, ◌>>=◌}
use apk.Key.{string_key}
use apk.Map.{assign, find}
use apk.Redis.{RedisClient}
use apk.Redis.Replies.{c_str}
use apk.Pg.{column, fill_row, read_row, read_rows, read_count, query, exec}
use apk.Api.{
  Platform, Request, Api, settle, db_query, db_exec, try_catch, recover, json_resp, guarded,
}
use apk.Api.Entry.{LetIn, authorized-LetIn, with_body-parsed}
use apk.Api.Statements.Chats.{chat_sql, insert_group, insert_owner, insert_member}
use apk.Api.Chats.{add_members, add_listed, create_group}
use apk.Api.Chats.Table.{ChatTable, new_member, own, spelt}
use apk.Api.Chats.Membership.{serving}
use apk.Api.Chats.Enroll.{
  names, spelt_same, joins, joins-head, Enlisted, Enlisted-same, Enlisted-nobody, Enlisted-Changes,
  Enlisted-then,
}

module _ (p : Platform) {C : Type 0} (conn : p.pg.Connection) (table : ChatTable p.pg conn)
    (redis : Option (RedisClient p.hiredis C)) where
  open p use {json}

  abbrev pub within : Str → p.pg.World → Api p C
  within what w = serving p conn table what redis w

  -- The INSERT of one member in its try block.
  abbrev insert_one : Str → Str → Action (Api p C) (Unit {0})
  insert_one chat id =
      try_catch p (db_exec p (chat_sql insert_member) (chat ∷ id ∷ []) >>= λ affected. give tt)
        (λ what. give tt)

  module _ (known : Str → Bool) (chat c uid : Str) (is_c : table.uuid (c_str chat) ≡ some c) where
    insert_one_step :
        (id what : Str) (w : p.pg.World)
        → table.rows.is_chat w c ≡ true
        → ((user : Str) → table.rows.is_user w user ≡ known user)
        → (what' : Str) × (w' : p.pg.World) × (insert_one chat id (within what w)
            ≡ done tt (within what' w'))
          × Enlisted table.rows known c (names (spelt known (table.uuid (c_str id)))) w w'
    unfolding db_exec exec
    insert_one_step id what w is_there same =
        let run : _ → Outcome (Api p C) (Unit {0}) = λ r.
          recover p (λ what. give tt)
            (then_do (settle p (within what w) (read_count p.pg conn r)) (λ affected. give tt)) in
        let alike = spelt_same (table.rows.is_user w) known (table.uuid (c_str id)) same in
        elim (Option-cases (spelt known (table.uuid (c_str id)))) [
          | inl e ↦ (
            lit "Exec failed: " ++ p.pg.error_message conn w,
            w,
            ap run (table.insert_member_failed w (c_str chat) (c_str id) (alike ∙ e)),
            rw e (Enlisted-nobody table.rows known c w is_there same),
          )
          | inr (u, e) ↦
              let (w', sent, changes) =
                table.insert_member_done w (c_str chat) (c_str id) c u is_c (alike ∙ e) is_there in
              (
                what,
                w',
                ap run sent,
                rw e (Enlisted-Changes table.rows known c u w w' is_there same changes),
              )
        ]

    add_members_step :
        (mids : List json.J) (ids : List Str) (what : Str) (w : p.pg.World)
        → map json.get_text mids ≡ map some ids
        → table.rows.is_chat w c ≡ true
        → ((user : Str) → table.rows.is_user w user ≡ known user)
        → (what' : Str) × (w' : p.pg.World) × (add_members p chat uid mids (within what w)
            ≡ done tt (within what' w'))
          × Enlisted table.rows known c (joins table.uuid known uid ids) w w'
    unfolding add_members
    add_members_step [] [] what w texts is_there same =
        (what, w, refl, Enlisted-nobody table.rows known c w is_there same)
    add_members_step [] (id ∷ ids) what w texts is_there same = absurd (ground arith)
    add_members_step (mid ∷ mids) [] what w texts is_there same = absurd (ground arith)
    add_members_step (mid ∷ mids) (id ∷ ids) what w texts is_there same =
        let head : json.get_text mid ≡ some id = ground arith in
        let tail : map json.get_text mids ≡ map some ids = ground arith in
        elim (Bool-cases (str_eq id uid)) [
          | inl own_id ↦
              let (what', w', e, all) = add_members_step mids ids what w tail is_there same in
              (
                what',
                w',
                rw (head, own_id) e,
                Enlisted-same table.rows known c (joins table.uuid known uid ids)
                    (joins table.uuid known uid (id ∷ ids)) w w'
                    (λ user. sym (joins-head table.uuid known uid id ids true user own_id)) all,
              )
          | inr other ↦
              let (what1, w1, e1, first) = insert_one_step id what w is_there same in
              let (what', w', e, next) =
                add_members_step mids ids what1 w1 tail first.there first.users in
              (
                what',
                w',
                rw (head, other, e1) e,
                Enlisted-same table.rows known c _ (joins table.uuid known uid (id ∷ ids)) w w'
                    (λ user. sym (joins-head table.uuid known uid id ids false user other))
                    (Enlisted-then table.rows known c (names (spelt known (table.uuid (c_str id))))
                      (joins table.uuid known uid ids) w w1 w' first next),
              )
        ]

  abbrev on_member : Str → Str → Option json.J → Action (Api p C) (Unit {0})
  on_member chat uid v = elim v [
    | none ↦ give tt
    | some v ↦ elim (json.elements v) [ none ↦ give tt | some mids ↦ add_members p chat uid mids ]
  ]

  abbrev on_elements : Str → Str → Option (List json.J) → Action (Api p C) (Unit {0})
  on_elements chat uid v = elim v [ none ↦ give tt | some mids ↦ add_members p chat uid mids ]

  add_listed_step :
      (chat uid : Str) (body v : json.J) (mids : List json.J) (s : Api p C)
      → json.member body (lit "memberIds") ≡ some v
      → json.elements v ≡ some mids
      → add_listed p chat uid body s ≡ add_members p chat uid mids s
  add_listed_step chat uid body v mids s is_v is_mids =
      ap (λ o. on_member chat uid o s) is_v ∙ ap (λ o. on_elements chat uid o s) is_mids

  id_column : (id : Str) → column (lit "id") (read_row (lit "id" ∷ []) (some id ∷ [])) ≡ some id
  unfolding fill_row assign find column str_eq str_lt
  id_column id = refl

  abbrev pub group_body : Str → Str → json.J
  group_body id name = json.object ((lit "id", json.text id) ∷ (lit "name", json.text name) ∷ [])

  -- A group after its first two statements: its row, and that of its owner.
  record Founded (known : Str → Bool) (u id : Str) (w : p.pg.World) : Type 0 where
    whole : c_str id ≡ id
    printed : table.uuid id ≡ some id
    there : table.rows.is_chat w id ≡ true
    row : (user : Str) → table.rows.row_at w id user ≡ (if str_eq u user then own none else none)
    users : (user : Str) → table.rows.is_user w user ≡ known user

  module _ (name desc uid u : Str) (w : p.pg.World) (what : Str)
      (is_u : table.uuid (c_str uid) ≡ some u) (known : table.rows.is_user w u ≡ true)
      (short : table.is_name (c_str name) ≡ true) (valid : table.is_text (c_str desc) ≡ true) where
    found_step :
        (id : Str) × (w1 : p.pg.World) × (w2 : p.pg.World) × (n : _) × (db_query p
            (chat_sql insert_group)
            (name ∷ desc ∷ uid ∷ [])
            (within what w)
          ≡ done (read_row (lit "id" ∷ []) (some id ∷ []) ∷ []) (within what w1))
        × (db_exec p (chat_sql insert_owner) (id ∷ uid ∷ []) (within what w1)
            ≡ done n (within what w2))
        × Founded (table.rows.is_user w) u id w2
    unfolding db_query query db_exec exec
    found_step =
        let (id, w1, made, group) =
          table.insert_group_rows w (c_str name) (c_str desc) (c_str uid) u short valid is_u
            known in
        let is_id : table.uuid (c_str id) ≡ some id = ap table.uuid group.whole ∙ group.printed in
        let (w2, owned, changes) =
          table.insert_owner_done w1 (c_str id) (c_str uid) id u is_id is_u group.chat
            (group.users u ∙ known) (group.empty u) in
        (
          id,
          w1,
          w2,
          _,
          ap (λ r. settle p (within what w) (read_rows p.pg conn r)) made,
          ap (λ r. settle p (within what w1) (read_count p.pg conn r)) owned,
          record {
            whole = group.whole;
            printed = group.printed;
            there = changes.chats id ∙ group.chat;
            row = λ user.
                ground
                  (arith, changes.row id user, str_eq_iff id id, group.empty user, group.empty u);
            users = λ user. changes.users user ∙ group.users user;
          },
        )

    -- A request to make a group, by a user who is let in and whom a UUID names, with a name and a
    -- description that the columns take, and a list of texts as the members, over a table of
    -- members: whichever of the INSERTs of a member fail, it is answered with 201 and the id of the
    -- new group, of which the user is the owner. Its members are the users that there are among those
    -- whom the list names by UUIDs, the one who asks excepted, and nobody else has a row in it.
    pub create_group-row_at :
        (body v : json.J) (mids : List json.J) (ids : List Str) (req : Request) (jwt_secret : Str)
        (before : Option (RedisClient p.hiredis C))
        → LetIn p jwt_secret req before uid redis
        → json.parse req.body ≡ some body
        → json.value_text body (lit "name") [] ≡ some name
        → json.value_text body (lit "description") [] ≡ some desc
        → is_empty name ≡ false
        → json.member body (lit "memberIds") ≡ some v
        → json.elements v ≡ some mids
        → map json.get_text mids ≡ map some ids
        → (id : Str) × (what' : Str) × (w' : p.pg.World) × (create_group p jwt_secret req
              (serving p conn table what before w)
            ≡ guarded p (json_resp p 201 (group_body id name)) (within what' w'))
          × ((user : Str)
              → table.rows.row_at w' id user ≡ (
                  if str_eq u user
                  then some (new_member (lit "owner"))
                  else if joins table.uuid (table.rows.is_user w) uid ids user
                  then some (new_member (lit "member"))
                  else none))
    unfolding create_group
    create_group-row_at body v mids ids req jwt_secret before let_in parsed named described full
          is_v is_mids texts =
        let (id, w1, w2, n, made, owned, founded) = found_step in
        let is_id : table.uuid (c_str id) ≡ some id =
          ap table.uuid founded.whole ∙ founded.printed in
        let (what', w', added, all) =
          add_members_step (table.rows.is_user w) id id uid is_id mids ids what w2 texts
            founded.there founded.users in
        let listed = add_listed_step id uid body v mids (within what w2) is_v is_mids in
        (
          id,
          what',
          w',
          authorized-LetIn p (serving p conn table what before w) _ let_in
              ∙ with_body-parsed p req body _ _ parsed
              ∙ rw (named, described, full, made, id_column id, owned, listed, added) refl,
          λ user. ground (arith, all.row user, founded.row user),
        )
