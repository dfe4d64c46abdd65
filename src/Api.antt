-- ===== src/Api.antt =====
-- src/http_api.cpp: the state of HttpApi, and what its routes share. A route is a function of what
-- the server has read of the request; Crow finds the route and writes the response.
pub mod Statements
pub mod Otp
pub mod Profile
pub mod Accounts
pub mod Chats
pub mod Messages
pub mod Contacts
pub mod Channels
pub mod Routes
pub mod Entry
pub mod Access
pub mod Start
pub mod Keeps
pub mod Injection
pub mod Examples
use apk.Base.{
  ℕ, Bool, true, false, Option, none, some, List, [], ◌∷◌, ◌++◌, map, ◌==◌, if◌then◌else◌,
}
use apk.Base.Text.{Str, lit, is_empty}
use apk.Base.Outcome.{Outcome, done, threw, blocked, undefined, Action, then_do, ◌>>=◌, give, crash}
use apk.Json.{Json}
use apk.Std.Stoi.{ℤ, stoi}
use apk.Jwt.Token.{Hmac}
use apk.Redis.{Hiredis, RedisClient}
use apk.Http.{authenticate_request}
use apk.Pg.{Libpq, PgDb, Try, returned, raised, Row, column, query, exec}

-- The libraries: `type_error` is what() of the exception of nlohmann::json for a wrong type, and
-- `dump_error` that for a text that is not UTF-8; `stoi_error` is what() of std::stoi.
-- `generichash` is crypto_generichash and `bin2hex` is sodium_bin2hex. The two patterns are those of
-- std::regex_match.
pub record Platform : Type 1 where
  pub json : Json
  pub hmac : Hmac
  pub hiredis : Hiredis
  pub pg : Libpq
  pub generichash : Str → Str
  pub bin2hex : Str → Str
  pub is_email : Str → Bool
  pub is_username : Str → Bool
  pub type_error : Str
  pub dump_error : Str
  pub stoi_error : Str

-- What a handler reads: the request, the clock, and what it draws at random (the number of a
-- one-time password, and the public key of crypto_box_keypair).
pub record Request : Type 0 where
  pub authorization : Str
  pub body : Str
  pub url_param : Str → Option Str
  pub now : ℕ
  pub draw : ℕ
  pub public_key : Str

pub record Response : Type 0 where
  pub status : ℕ
  pub text : Str

-- `what` is what() of the exception that was thrown last.
pub record Api (p : Platform) (C : Type 0) : Type 0 where
  pub redis : Option (RedisClient p.hiredis C)
  pub db : PgDb p.pg
  pub what : Str

abbrev pub refusal : ℕ → Str
refusal status = if status == 503 then lit "Service unavailable" else lit "Unauthorized"

-- The json values of responses.
module _ (p : Platform) where
  open p use {json}

  abbrev pub error_body : Str → json.J
  error_body message = json.object ((lit "error", json.text message) ∷ [])

  abbrev pub list_of : (Row → json.J) → List Row → json.J
  list_of f rows = json.array (map f rows)

  -- {"ok": true}
  abbrev pub ok_body : json.J
  ok_body = json.object ((lit "ok", json.boolean true) ∷ [])

  -- r[name] as a json value.
  abbrev pub cell : Option Str → json.J
  cell none = json.null
  cell (some text) = json.text text

  -- An object with the columns of a row, under names of its own.
  unfoldable pub row_members : List (Str × Str) → Row → List (Str × json.J)
  row_members [] row = []
  row_members ((name, col) ∷ names) row = (name, cell (column col row)) ∷ row_members names row

  abbrev pub row_object : List (Str × Str) → Row → json.J
  row_object names row = json.object (row_members names row)

  -- The row itself; without a column it is null.
  unfoldable pub row_json : Row → json.J
  row_json [] = json.null
  row_json ((name, value) ∷ row) =
      json.object (map (λ (m : Str × Option Str). (m.0, cell m.1)) ((name, value) ∷ row))

module _ (p : Platform) {C : Type 0} where
  open p use {json}

  abbrev pub raise : {A : Type 0} → Str → Action (Api p C) A
  raise what s = threw (record s { what = what })

  abbrev pub settle : {A : Type 0} → Api p C → Try A × PgDb p.pg → Outcome (Api p C) A
  settle s (returned a, db) = done a (record s { db = db })
  settle s (raised what, db) = threw (record s { db = db; what = what })

  unfoldable pub db_query : Str → List Str → Action (Api p C) (List Row)
  db_query sql params s = settle s (query p.pg sql params s.db)

  unfoldable pub db_exec : Str → List Str → Action (Api p C) ℤ
  db_exec sql params s = settle s (exec p.pg sql params s.db)

  -- A call through redis_.
  abbrev pub kept :
      {A : Type 0} → Api p C → Outcome (Option (RedisClient p.hiredis C)) A → Outcome (Api p C) A
  kept s (done a r) = done a (record s { redis = r })
  kept s (threw r) = threw (record s { redis = r })
  kept s (blocked r) = blocked (record s { redis = r })
  kept s undefined = undefined

  abbrev pub with_redis :
      {A : Type 0} → Action (Option (RedisClient p.hiredis C)) A → Action (Api p C) A
  with_redis m s = kept s (m s.redis)

  abbrev pub recover :
      {A : Type 0} → (Str → Action (Api p C) A) → Outcome (Api p C) A → Outcome (Api p C) A
  recover handler (done a s) = done a s
  recover handler (threw s) = handler s.what s
  recover handler (blocked s) = blocked s
  recover handler undefined = undefined

  -- try { m } catch (const std::exception& e) { handler }
  abbrev pub try_catch :
      {A : Type 0} → Action (Api p C) A → (Str → Action (Api p C) A) → Action (Api p C) A
  try_catch m handler s = recover handler (m s)

  -- try { x = m } catch (...) { return handler; }, and then `rest`.
  abbrev pub resume :
      {A B : Type 0}
      → (Str → Action (Api p C) B)
      → (A → Action (Api p C) B)
      → Outcome (Api p C) A
      → Outcome (Api p C) B
  resume handler rest (done a s) = rest a s
  resume handler rest (threw s) = handler s.what s
  resume handler rest (blocked s) = blocked s
  resume handler rest undefined = undefined

  abbrev pub try_then :
      {A B : Type 0}
      → Action (Api p C) A
      → (Str → Action (Api p C) B)
      → (A → Action (Api p C) B)
      → Action (Api p C) B
  try_then m handler rest s = resume handler rest (m s)

  -- try { m } catch (...) {}
  abbrev pub ignoring :
      {A : Type 0} → Action (Api p C) A → Action (Api p C) Response → Action (Api p C) Response
  ignoring m rest = try_then m (λ what. rest) (λ a. rest)

  -- The exception of a call of a library, which is `none`.
  abbrev pub or_raise : {A : Type 0} → Str → Option A → Action (Api p C) A
  or_raise what none = raise what
  or_raise what (some a) = give a

  -- body.value(key, "")
  abbrev pub value_of : json.J → Str → Action (Api p C) Str
  value_of body key = or_raise p.type_error (json.value_text body key [])

  -- rows[0]
  abbrev pub first_row : List Row → Action (Api p C) Row
  first_row [] = crash
  first_row (row ∷ rows) = give row

  -- row[name].get<std::string>()
  abbrev pub text_at : Str → Row → Action (Api p C) Str
  text_at name row = or_raise p.type_error (column name row)

  unfoldable pub json_resp : ℕ → json.J → Action (Api p C) Response
  json_resp status body = or_raise p.dump_error (json.dump body) >>= λ text.
      give (record { status = status; text = text })

  abbrev pub fail : ℕ → Str → Action (Api p C) Response
  fail status message = json_resp status (error_body p message)

  abbrev pub server_error : Str → Action (Api p C) Response
  server_error what = fail 500 (lit "Server error")

  -- A try block that answers 500 to every exception.
  abbrev pub guarded : Action (Api p C) Response → Action (Api p C) Response
  guarded m = try_catch m server_error

  -- if (rows.empty()) return ...; auto& row = rows[0];
  abbrev pub first_or :
      {A : Type 0} → Action (Api p C) A → (Row → Action (Api p C) A) → List Row → Action (Api p C) A
  first_or missing rest [] = missing
  first_or missing rest (row ∷ rows) = rest row

  -- try { body = json::parse(req.body); } catch (...) { ... }
  abbrev pub with_body : Str → (json.J → Action (Api p C) Response) → Action (Api p C) Response
  with_body text rest = elim (json.parse text) [
    | none ↦ fail 400 (lit "Invalid JSON")
    | some body ↦ rest body
  ]

  abbrev pub admit : (Str → Action (Api p C) Response) → ℕ × Str → Action (Api p C) Response
  admit rest (status, uid) = if is_empty uid then fail status (refusal status) else rest uid

  -- The first lines of every route that needs a user.
  unfoldable pub authorized :
      Str → Request → (Str → Action (Api p C) Response) → Action (Api p C) Response
  authorized jwt_secret req rest =
      with_redis (authenticate_request json p.hmac p.hiredis req.authorization jwt_secret req.now)
      >>= admit rest

-- url_params.get(name) ? url_params.get(name) : ""
abbrev pub param_of : Request → Str → Str
param_of req name = elim (req.url_param name) [ none ↦ [] | some value ↦ value ]
