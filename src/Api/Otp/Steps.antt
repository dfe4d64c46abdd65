-- ===== src/Api/Otp/Steps.antt =====
-- The parts of check_otp of Api/Otp, each over the table of Api/Otp/Table.
use apk.Base.{
  ℕ, ◌<◌, ◌≡◌, refl, ap, false, Option, some, [], ◌∷◌, map, arith, ltb, leb, if◌then◌else◌,
  Bool-cases, inl, inr,
}
use apk.Base.Text.{Str, lit, str_eq, str_lt}
use apk.Base.Outcome.{done, Action}
use apk.Key.{string_key}
use apk.Map.{assign, find}
use apk.Redis.{RedisClient}
use apk.Redis.Replies.{c_str}
use apk.Pg.{Row, fill_row, read_row, column, read_rows, read_count, query, exec}
use apk.Api.{Platform, Response, Api, settle, db_query, db_exec, fail}
use apk.Api.Statements.Accounts.{account_sql, select_otp, count_attempt, check_expiry, delete_otp}
use apk.Api.Otp.{otp_hash, compare_hash, check_valid, check_counted, check_row}
use apk.Api.Otp.Table.{Otp, bump, otp_columns, otp_rows, valid_rows, OtpTable}

module _ (p : Platform) {C : Type 0} (conn : p.pg.Connection) (table : OtpTable p.pg conn)
    (redis : Option (RedisClient p.hiredis C)) (what : Str) where
  -- The server over a database in a world.
  abbrev pub server_at : p.pg.World → Api p C
  server_at w = record { redis = redis; db = record { conn = some conn; world = w }; what = what }

  abbrev pub row_of : Otp → Row
  row_of o = read_row otp_columns (
      some o.code_hash
      ∷ some (table.time_text o.expires_at)
      ∷ some (table.number_text o.attempts)
      ∷ [])

  row_of_columns :
      (o : Otp)
      → (column (lit "attempts") (row_of o) ≡ some (table.number_text o.attempts))
        × (column (lit "code_hash") (row_of o) ≡ some o.code_hash)
  unfolding fill_row assign find column str_eq str_lt
  row_of_columns o = (refl, refl)

  module _ (email : Str) where
    abbrev pub key : Str
    key = c_str email

    pub select_step :
        (w : p.pg.World)
        → db_query p (account_sql select_otp) (email ∷ []) (server_at w)
          ≡ done
              (map
                (read_row otp_columns)
                (otp_rows table.time_text table.number_text (table.otp_at w key)))
              (server_at w)
    unfolding db_query query
    select_step w =
        ap (λ r. settle p (server_at w) (read_rows p.pg conn r)) (table.select_otp_rows w key)

    expiry_step :
        (w : p.pg.World)
        → db_query p (account_sql check_expiry) (email ∷ []) (server_at w)
          ≡ done
              (map (read_row (lit "valid" ∷ [])) (valid_rows (table.clock w) (table.otp_at w key)))
              (server_at w)
    unfolding db_query query
    expiry_step w =
        ap (λ r. settle p (server_at w) (read_rows p.pg conn r)) (table.check_expiry_rows w key)

    count_step :
        (w : p.pg.World) (o : Otp)
        → table.otp_at w key ≡ some o
        → o.attempts < 5
        → (n : _) × (db_exec p (account_sql count_attempt) (email ∷ []) (server_at w)
            ≡ done n (server_at (table.counted key w)))
    unfolding db_exec exec
    count_step w o is_o few = (
      _,
      ap (λ r. settle p (server_at w) (read_count p.pg conn r))
          (table.count_attempt_done w key o is_o few),
    )

    delete_step :
        (w : p.pg.World)
        → (n : _) × (db_exec p (account_sql delete_otp) (email ∷ []) (server_at w)
            ≡ done n (server_at (table.deleted key w)))
    unfolding db_exec exec
    delete_step w =
        (_, ap (λ r. settle p (server_at w) (read_count p.pg conn r)) (table.delete_otp_done w key))

    module _ (code : Str) (accepted : Action (Api p C) Response) where
      pub compare_step :
          (o : Otp) (w : p.pg.World)
          → compare_hash p email code accepted (row_of o) (server_at w) ≡ (
              if str_eq o.code_hash (otp_hash p code)
              then accepted (server_at (table.deleted key w))
              else fail p 400 (lit "Invalid OTP code") (server_at w))
      unfolding compare_hash
      compare_step o w =
          let (_, is_hash) = row_of_columns o in
          let (n, deleted) = delete_step w in
          elim (Bool-cases (str_eq o.code_hash (otp_hash p code))) [
            | inl same ↦ rw (is_hash, same, deleted) refl
            | inr differs ↦ rw (is_hash, differs) refl
          ]

      valid_step :
          (rest : Action (Api p C) Response) (now : ℕ) (o : Otp) (w : p.pg.World)
          → check_valid p rest
              (map (read_row (lit "valid" ∷ [])) (valid_rows now (some o)))
              (server_at w)
            ≡ (if ltb now o.expires_at
                then rest (server_at w)
                else fail p 400 (lit "OTP expired. Request a new one.") (server_at w))
      unfolding fill_row assign find column str_eq str_lt
      valid_step rest now o w = elim (Bool-cases (ltb now o.expires_at)) [
        | inl valid ↦ rw valid refl
        | inr late ↦ rw late refl
      ]

      pub counted_step :
          (o : Otp) (w : p.pg.World)
          → table.otp_at w key ≡ some o
          → leb 5 o.attempts ≡ false
          → check_counted p email code accepted (row_of o) (server_at w) ≡ (
              if ltb (table.clock w) o.expires_at
              then compare_hash p email code accepted (row_of o) (server_at (table.counted key w))
              else fail p 400
                  (lit "OTP expired. Request a new one.")
                  (server_at (table.counted key w)))
      counted_step o w is_o few =
          let (n, counted) = count_step w o is_o (ground arith) in
          let w' = table.counted key w in
          rw
            (
              counted,
              expiry_step w',
              table.otp_at-counted w key o is_o (ground arith),
              table.clock-counted w key,
            )
            (valid_step (compare_hash p email code accepted (row_of o)) (table.clock w) (bump o) w')

      pub row_step :
          (o : Otp) (w : p.pg.World)
          → table.otp_at w key ≡ some o
          → check_row p email code accepted (row_of o) (server_at w) ≡ (
              if leb 5 o.attempts
              then fail p 429 (lit "Too many attempts. Request a new OTP.") (server_at w)
              else check_counted p email code accepted (row_of o) (server_at w))
      row_step o w is_o =
          let (is_number, _) = row_of_columns o in
          elim (Bool-cases (leb 5 o.attempts)) [
            | inl many ↦ rw (is_number, table.stoi_number_text w key o is_o, many) refl
            | inr few ↦ rw (is_number, table.stoi_number_text w key o is_o, few) refl
          ]
