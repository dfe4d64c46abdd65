-- ===== src/Api/Chats/Enroll.antt =====
-- The rows that the loop of create_group over the listed members makes.
use apk.Base.{
  ◌≡◌, refl, ap, ◌∙◌, Bool, true, false, not, ◌&&◌, ◌||◌, Option, none, some, List, [], ◌∷◌, arith,
  if◌then◌else◌,
}
use apk.Base.Text.{Str, str_eq, str_eq_iff}
use apk.Key.{string_key}
use apk.Redis.Replies.{c_str}
use apk.Api.Chats.Table.{Rows, Changes, Membership, enlist, spelt}

-- Whether a text spells this user, and there is such a user.
abbrev pub names : Option Str → Str → Bool
names none user = false
names (some u) user = str_eq u user

pub spelt_same :
    (known known' : Str → Bool) (o : Option Str)
    → ((user : Str) → known user ≡ known' user)
    → spelt known o ≡ spelt known' o
spelt_same known known' none same = refl
spelt_same known known' (some u) same = ap (λ (b : Bool). if b then some u else none) (same u)

module _ (uuid : Str → Option Str) (known : Str → Bool) (uid : Str) where
  -- Whether a user is among the listed ones, as another than who asks, and exists.
  abbrev pub joins : List Str → Str → Bool
  joins [] user = false
  joins (id ∷ ids) user =
      (not (str_eq id uid) && names (spelt known (uuid (c_str id))) user) || joins ids user

  -- With the listed text compared to that of who asks.
  pub joins-head :
      (id : Str) (ids : List Str) (own : Bool) (user : Str)
      → str_eq id uid ≡ own
      → joins (id ∷ ids) user
        ≡ (not own && names (spelt known (uuid (c_str id))) user) || joins ids user
  joins-head id ids own user e =
      ap (λ b. (not b && names (spelt known (uuid (c_str id))) user) || joins ids user) e

enlist_twice : (row : Option Membership) → enlist (enlist row) ≡ enlist row
enlist_twice none = refl
enlist_twice (some m) = refl

module _ {W : Type 0} (rows : Rows W) (known : Str → Bool) (chat : Str) where
  -- Between two worlds the users for whom `hit` holds have been enlisted in the chat.
  pub record Enlisted (hit : Str → Bool) (w w' : W) : Type 0 where
    pub row :
        (user : Str)
        → rows.row_at w' chat user
          ≡ (if hit user then enlist (rows.row_at w chat user) else rows.row_at w chat user)
    pub there : rows.is_chat w' chat ≡ true
    pub users : (user : Str) → rows.is_user w' user ≡ known user

  pub Enlisted-nobody :
      (w : W)
      → rows.is_chat w chat ≡ true
      → ((user : Str) → rows.is_user w user ≡ known user)
      → Enlisted (λ user. false) w w
  Enlisted-nobody w is_there same = record { row = λ user. refl; there = is_there; users = same }

  pub Enlisted-Changes :
      (u : Str) (w w' : W)
      → rows.is_chat w chat ≡ true
      → ((user : Str) → rows.is_user w user ≡ known user)
      → Changes rows enlist chat u w w'
      → Enlisted (λ user. str_eq u user) w w'
  Enlisted-Changes u w w' is_there same changes = record {
    row = λ user. ground (arith, changes.row chat user, str_eq_iff chat chat, str_eq_iff u user);
    there = changes.chats chat ∙ is_there;
    users = λ user. changes.users user ∙ same user;
  }

  pub Enlisted-then :
      (hit hit' : Str → Bool) (w w' w'' : W)
      → Enlisted hit w w'
      → Enlisted hit' w' w''
      → Enlisted (λ user. hit user || hit' user) w w''
  Enlisted-then hit hit' w w' w'' first next = record {
    row = λ user.
        ground (arith, first.row user, next.row user, enlist_twice (rows.row_at w chat user));
    there = next.there;
    users = next.users;
  }

  pub Enlisted-same :
      (hit hit' : Str → Bool) (w w' : W)
      → ((user : Str) → hit user ≡ hit' user)
      → Enlisted hit w w'
      → Enlisted hit' w w'
  Enlisted-same hit hit' w w' same all = record {
    row = λ user.
        all.row user
        ∙ ap (λ (b : Bool). if b then enlist (rows.row_at w chat user) else rows.row_at w chat user)
            (same user);
    there = all.there;
    users = all.users;
  }
