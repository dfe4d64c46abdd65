-- ===== src/Pg.antt =====
-- include/http_api.hpp: class PgDb, over libpq. `conn` is conn_, where `none` is a null pointer; a call
-- holds the mutex throughout and is one step. The logging is left out.
pub mod Url
use apk.Base.{
  ℕ, Bool, true, false, ◌&&◌, ◌||◌, Option, none, some, List, [], ◌∷◌, ◌++◌, map, suc,
  if◌then◌else◌, drop,
}
use apk.Base.Text.{Str, lit}
use apk.Key.{string_key}
use apk.Map.{assign, find}
use apk.Std.Search.{find_char, find_text, rfind_char}
use apk.Std.Stoi.{ℤ, pos, stoi}
use apk.Redis.Replies.{c_str}

-- PGresult: rows (the names of the columns, the values, a null value as `none`), the success of a
-- command, or a failure. The text is what PQcmdTuples gives.
pub data PgResult : Type 0 where
  tuples : List Str → List (List (Option Str)) → Str → PgResult
  command : Str → PgResult
  failed : PgResult

-- libpq and the database behind it. `connectdb` gives a connection only with CONNECTION_OK.
pub record Libpq : Type 1 where
  pub World : Type 0
  pub Connection : Type 0
  pub connectdb : Str → World → Option Connection × World
  pub status_ok : Connection → World → Bool
  pub exec_params : Connection → Str → List Str → World → PgResult × World
  pub error_message : Connection → World → Str

-- The result of a call, or the text of the runtime_error that it throws.
pub data Try (A : Type 0) : Type 0 where
  returned : A → Try A
  raised : Str → Try A

-- A row as a json object; a null value is `none`.
abbrev pub Row : Type 0
Row = List (Str × Option Str)

-- PQfname and PQgetvalue of each column, assigned to the row.
unfoldable pub fill_row : List Str → List (Option Str) → Row → Row
fill_row (name ∷ names) (value ∷ values) row = fill_row names values (assign name value row)
fill_row names values row = row

abbrev pub read_row : List Str → List (Option Str) → Row
read_row names values = fill_row names values []

-- row[name]: a member that is not there is null.
unfoldable pub column : Str → Row → Option Str
column name row = elim (find name row) [ none ↦ none | some value ↦ value ]

-- The number at the end of the tag; `affected` stays 0 where stoi throws.
unfoldable pub read_affected : Str → ℤ
read_affected [] = pos 0
read_affected (c ∷ s) =
    let number : Str = elim (rfind_char b' ' (c ∷ s)) [
      | none ↦ c ∷ s
      | some i ↦ drop (suc i) (c ∷ s)
    ] in
    elim (stoi 10 number) [ none ↦ pos 0 | some n ↦ n ]

-- What the constructor adds to the address.
unfoldable pub connect_url : Str → Str
connect_url conn_url =
    let mark : Str = elim (find_char b'?' conn_url) [ none ↦ lit "?" | some i ↦ lit "&" ] in
    elim (find_text (lit "connect_timeout") conn_url) [
      | none ↦ (conn_url ++ mark) ++ lit "connect_timeout=5"
      | some i ↦ conn_url
    ]

module _ (pg : Libpq) where
  pub record PgDb : Type 0 where
    pub conn : Option pg.Connection
    pub world : pg.World

  abbrev pub opened : Option pg.Connection × pg.World → PgDb
  opened (conn, world) = record { conn = conn; world = world }

  -- The constructor.
  unfoldable pub open_db : Str → pg.World → PgDb
  open_db conn_url world = opened (pg.connectdb (c_str (connect_url conn_url)) world)

  unfoldable pub connected : PgDb → Bool
  connected db = elim db.conn [ none ↦ false | some conn ↦ pg.status_ok conn db.world ]

  abbrev pub read_rows : pg.Connection → PgResult × pg.World → Try (List Row) × PgDb
  read_rows conn (tuples names rows tag, world) =
      (returned (map (read_row names) rows), record { conn = some conn; world = world })
  read_rows conn (command tag, world) = (
    raised (lit "Query failed: " ++ pg.error_message conn world),
    record { conn = some conn; world = world },
  )
  read_rows conn (failed, world) = (
    raised (lit "Query failed: " ++ pg.error_message conn world),
    record { conn = some conn; world = world },
  )

  unfoldable pub query : Str → List Str → PgDb → Try (List Row) × PgDb
  query sql params db = elim db.conn [
    | none ↦ (raised (lit "No database connection"), db)
    | some conn ↦ read_rows conn (pg.exec_params conn (c_str sql) (map c_str params) db.world)
  ]

  abbrev pub read_count : pg.Connection → PgResult × pg.World → Try ℤ × PgDb
  read_count conn (tuples names rows tag, world) =
      (returned (read_affected tag), record { conn = some conn; world = world })
  read_count conn (command tag, world) =
      (returned (read_affected tag), record { conn = some conn; world = world })
  read_count conn (failed, world) = (
    raised (lit "Exec failed: " ++ pg.error_message conn world),
    record { conn = some conn; world = world },
  )

  unfoldable pub exec : Str → List Str → PgDb → Try ℤ × PgDb
  exec sql params db = elim db.conn [
    | none ↦ (raised (lit "No database connection"), db)
    | some conn ↦ read_count conn (pg.exec_params conn (c_str sql) (map c_str params) db.world)
  ]
