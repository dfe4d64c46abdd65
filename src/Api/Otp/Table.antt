-- ===== src/Api/Otp/Table.antt =====
-- What the routes of src/http_api.cpp rely on of the table otp_codes, and a one-time password as an
-- abstract machine.
use mathlib.Core.Option
use apk.Base.{
  ℕ, ◌+◌, ◌<◌, ◌≡◌, Bool, true, Option, none, some, List, [], ◌∷◌, ltb, leb, if◌then◌else◌,
}
use apk.Base.Text.{Str, lit, str_eq}
use apk.Std.Stoi.{pos, stoi}
use apk.Redis.Replies.{c_str}
use apk.Pg.{tuples, command, Libpq}
use apk.Api.Statements.Accounts.{
  account_sql, upsert_otp, select_otp, count_attempt, check_expiry, delete_otp,
}

-- A row of the table; the times are numbers.
pub record Otp : Type 0 where
  pub code_hash : Str
  pub attempts : ℕ
  pub expires_at : ℕ

abbrev pub bump : Otp → Otp
bump o = record o { attempts = o.attempts + 1 }

abbrev pub otp_columns : List Str
otp_columns = lit "code_hash" ∷ lit "expires_at" ∷ lit "attempts" ∷ []

-- The rows of the SELECT of a password, with the texts of a time and of a number.
abbrev pub otp_rows : (ℕ → Str) → (ℕ → Str) → Option Otp → List (List (Option Str))
otp_rows time_text number_text none = []
otp_rows time_text number_text (some o) =
    (some o.code_hash ∷ some (time_text o.expires_at) ∷ some (number_text o.attempts) ∷ []) ∷ []

abbrev pub valid_text : ℕ → Otp → Str
valid_text now o = if ltb now o.expires_at then lit "t" else lit "f"

abbrev pub valid_rows : ℕ → Option Otp → List (List (Option Str))
valid_rows now none = []
valid_rows now (some o) = (some (valid_text now o) ∷ []) ∷ []

-- The table over one connection: `otp_at` is the row under an address, and `counted` and `deleted`
-- are the worlds after the UPDATE (of a row with less than five attempts) and the DELETE for an
-- address. An INT column is printed so that
-- stoi reads it. `stored` is the world after the INSERT of a password, whose address and hash are
-- texts of the columns' types (VARCHAR(255), `is_address`, and VARCHAR(128), `is_hash`), and
-- `expiry_of` the time that to_timestamp reads, if it reads one.
pub record OtpTable (pg : Libpq) (conn : pg.Connection) : Type 0 where
  pub otp_at : pg.World → Str → Option Otp
  pub clock : pg.World → ℕ
  pub counted : Str → pg.World → pg.World
  pub deleted : Str → pg.World → pg.World
  pub stored : Str → Str → Str → pg.World → pg.World
  pub is_address : Str → Bool
  pub is_hash : Str → Bool
  pub expiry_of : Str → Option ℕ
  pub tag : pg.World → Str → Str
  pub time_text : ℕ → Str
  pub number_text : ℕ → Str
  pub stoi_number_text :
      (w : pg.World) (e : Str) (o : Otp)
      → otp_at w e ≡ some o
      → stoi 10 (number_text o.attempts) ≡ some (pos o.attempts)
  pub select_otp_rows :
      (w : pg.World) (e : Str)
      → pg.exec_params conn (c_str (account_sql select_otp)) (e ∷ []) w
        ≡ (tuples otp_columns (otp_rows time_text number_text (otp_at w e)) (tag w e), w)
  pub check_expiry_rows :
      (w : pg.World) (e : Str)
      → pg.exec_params conn (c_str (account_sql check_expiry)) (e ∷ []) w
        ≡ (tuples (lit "valid" ∷ []) (valid_rows (clock w) (otp_at w e)) (tag w e), w)
  pub count_attempt_done :
      (w : pg.World) (e : Str) (o : Otp)
      → otp_at w e ≡ some o
      → o.attempts < 5
      → pg.exec_params conn (c_str (account_sql count_attempt)) (e ∷ []) w
        ≡ (command (tag w e), counted e w)
  pub delete_otp_done :
      (w : pg.World) (e : Str)
      → pg.exec_params conn (c_str (account_sql delete_otp)) (e ∷ []) w
        ≡ (command (tag w e), deleted e w)
  pub otp_at-counted :
      (w : pg.World) (e : Str) (o : Otp)
      → otp_at w e ≡ some o
      → o.attempts < 5
      → otp_at (counted e w) e ≡ some (bump o)
  pub clock-counted : (w : pg.World) (e : Str) → clock (counted e w) ≡ clock w
  pub otp_at-deleted : (w : pg.World) (e : Str) → otp_at (deleted e w) e ≡ none
  pub upsert_otp_done :
      (w : pg.World) (e hash time : Str) (t : ℕ)
      → is_address e ≡ true
      → is_hash hash ≡ true
      → expiry_of time ≡ some t
      → pg.exec_params conn (c_str (account_sql upsert_otp)) (e ∷ hash ∷ time ∷ []) w
        ≡ (command (tag w e), stored e hash time w)
  pub otp_at-stored :
      (w : pg.World) (e hash time : Str) (t : ℕ)
      → is_address e ≡ true
      → is_hash hash ≡ true
      → expiry_of time ≡ some t
      → otp_at (stored e hash time w) e
        ≡ some (record { code_hash = hash; attempts = 0; expires_at = t })

-- What becomes of a guess.
pub data Verdict : Type 0 where
  absent : Verdict
  exhausted : Verdict
  expired : Verdict
  wrong : Verdict
  right : Verdict

-- The machine: five guesses are compared at most, and a guess that is right uses the password up.
unfoldable pub judge : ℕ → Str → Option Otp → Verdict
judge now guess none = absent
judge now guess (some o) =
    if leb 5 o.attempts
    then exhausted
    else if ltb now o.expires_at
    then if str_eq o.code_hash guess then right else wrong
    else expired

unfoldable pub next_otp : Verdict → Option Otp → Option Otp
next_otp absent otp = otp
next_otp exhausted otp = otp
next_otp expired otp = Option.map bump otp
next_otp wrong otp = Option.map bump otp
next_otp right otp = none
