-- ===== src/Api/Chats/Table.antt =====
-- What the routes of src/http_api.cpp rely on of the table chat_members, as run_migrations makes it:
-- its keys are of type UUID and refer to the tables chats and users.
use mathlib.Core.Option
use apk.Base.{◌≡◌, Bool, true, false, ◌&&◌, Option, none, some, List, [], ◌∷◌, if◌then◌else◌}
use apk.Base.Text.{Str, lit, str_eq}
use apk.Redis.Replies.{c_str}
use apk.Pg.{tuples, command, failed, Libpq}
use apk.Api.Statements.Chats.{
  chat_sql, insert_group, insert_owner, insert_member, check_member, upsert_member, end_membership,
}

-- A row of the table, and whether left_at is set.
pub record Membership : Type 0 where
  pub role : Str
  pub left : Bool

abbrev pub new_member : Str → Membership
new_member role = record { role = role; left = false }

-- What a statement makes of the row of a user in a chat.
abbrev pub enlist : Option Membership → Option Membership
enlist none = some (new_member (lit "member"))
enlist (some m) = some m

abbrev pub readmit : Option Membership → Option Membership
readmit none = some (new_member (lit "member"))
readmit (some m) = some (record m { left = false })

abbrev pub dismiss : Option Membership → Option Membership
dismiss row = Option.map (λ (m : Membership). record m { left = true }) row

abbrev pub own : Option Membership → Option Membership
own row = some (new_member (lit "owner"))

abbrev pub is_current : Option Membership → Bool
is_current none = false
is_current (some m) = if m.left then false else true

-- SELECT 1
abbrev pub ones : Bool → List (List (Option Str))
ones false = []
ones true = (some (lit "1") ∷ []) ∷ []

-- The rows, and which chats and users there are, under the printed form of their UUIDs.
pub record Rows (W : Type 0) : Type 0 where
  pub row_at : W → Str → Str → Option Membership
  pub is_chat : W → Str → Bool
  pub is_user : W → Str → Bool

-- Between two worlds the row of one user in one chat has changed by `f`, and no chat or user.
pub record Changes {W : Type 0} (rows : Rows W) (f : Option Membership → Option Membership)
    (chat user : Str) (w w' : W) : Type 0 where
  pub row :
      (chat' user' : Str)
      → rows.row_at w' chat' user' ≡ (
          if str_eq chat chat' && str_eq user user'
          then f (rows.row_at w chat user)
          else rows.row_at w chat' user')
  pub chats : (chat' : Str) → rows.is_chat w' chat' ≡ rows.is_chat w chat'
  pub users : (user' : Str) → rows.is_user w' user' ≡ rows.is_user w user'

-- A group that has been made, under its UUID, without a member.
pub record Created {W : Type 0} (rows : Rows W) (uuid : Str → Option Str) (id : Str) (w w' : W)
    : Type 0 where
  pub whole : c_str id ≡ id
  pub printed : uuid id ≡ some id
  pub chat : rows.is_chat w' id ≡ true
  pub empty : (user : Str) → rows.row_at w' id user ≡ none
  pub users : (user : Str) → rows.is_user w' user ≡ rows.is_user w user

-- The user that a text spells, if it spells one that there is.
abbrev pub spelt : (Str → Bool) → Option Str → Option Str
spelt known none = none
spelt known (some user) = if known user then some user else none

-- The table over one connection. `uuid` is the printed form of the UUID that a text spells, if it
-- spells one. `is_name` tells whether a text is one of VARCHAR(255), and `is_text` whether it is one
-- of TEXT. A statement fails where a text for a chat spells none, and an INSERT of a
-- member where it names no user that there is.
pub record ChatTable (pg : Libpq) (conn : pg.Connection) : Type 0 where
  pub rows : Rows pg.World
  pub uuid : Str → Option Str
  pub is_name : Str → Bool
  pub is_text : Str → Bool
  pub tag : pg.World → Str
  pub check_member_rows :
      (w : pg.World) (chat user c u : Str)
      → uuid chat ≡ some c
      → uuid user ≡ some u
      → pg.exec_params conn (c_str (chat_sql check_member)) (chat ∷ user ∷ []) w
        ≡ (tuples (lit "?column?" ∷ []) (ones (is_current (rows.row_at w c u))) (tag w), w)
  pub check_member_failed :
      (w : pg.World) (chat user : Str)
      → uuid chat ≡ none
      → pg.exec_params conn (c_str (chat_sql check_member)) (chat ∷ user ∷ []) w ≡ (failed, w)
  pub end_membership_failed :
      (w : pg.World) (chat user : Str)
      → uuid chat ≡ none
      → pg.exec_params conn (c_str (chat_sql end_membership)) (chat ∷ user ∷ []) w ≡ (failed, w)
  pub end_membership_done :
      (w : pg.World) (chat user c u : Str)
      → uuid chat ≡ some c
      → uuid user ≡ some u
      → (w' : pg.World) × (pg.exec_params conn
            (c_str (chat_sql end_membership))
            (chat ∷ user ∷ [])
            w
          ≡ (command (tag w), w'))
        × Changes rows dismiss c u w w'
  pub upsert_member_done :
      (w : pg.World) (chat user c u : Str)
      → uuid chat ≡ some c
      → uuid user ≡ some u
      → rows.is_chat w c ≡ true
      → rows.is_user w u ≡ true
      → (w' : pg.World) × (pg.exec_params conn (c_str (chat_sql upsert_member)) (chat ∷ user ∷ []) w
          ≡ (command (tag w), w'))
        × Changes rows readmit c u w w'
  pub insert_member_done :
      (w : pg.World) (chat user c u : Str)
      → uuid chat ≡ some c
      → spelt (rows.is_user w) (uuid user) ≡ some u
      → rows.is_chat w c ≡ true
      → (w' : pg.World) × (pg.exec_params conn (c_str (chat_sql insert_member)) (chat ∷ user ∷ []) w
          ≡ (command (tag w), w'))
        × Changes rows enlist c u w w'
  pub insert_member_failed :
      (w : pg.World) (chat user : Str)
      → spelt (rows.is_user w) (uuid user) ≡ none
      → pg.exec_params conn (c_str (chat_sql insert_member)) (chat ∷ user ∷ []) w ≡ (failed, w)
  pub insert_group_rows :
      (w : pg.World) (name description user u : Str)
      → is_name name ≡ true
      → is_text description ≡ true
      → uuid user ≡ some u
      → rows.is_user w u ≡ true
      → (id : Str) × (w' : pg.World) × (pg.exec_params conn
            (c_str (chat_sql insert_group))
            (name ∷ description ∷ user ∷ [])
            w
          ≡ (tuples (lit "id" ∷ []) ((some id ∷ []) ∷ []) (tag w), w'))
        × Created rows uuid id w w'
  pub insert_owner_done :
      (w : pg.World) (chat user c u : Str)
      → uuid chat ≡ some c
      → uuid user ≡ some u
      → rows.is_chat w c ≡ true
      → rows.is_user w u ≡ true
      → rows.row_at w c u ≡ none
      → (w' : pg.World) × (pg.exec_params conn (c_str (chat_sql insert_owner)) (chat ∷ user ∷ []) w
          ≡ (command (tag w), w'))
        × Changes rows own c u w w'
