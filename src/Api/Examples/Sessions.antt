-- ===== src/Api/Examples/Sessions.antt =====
-- A Redis that keeps texts for a day, and a database that finds bob.
use apk.Base.{
  ℕ, ◌+◌, ◌≡◌, refl, true, false, Option, none, some, [], ◌∷◌, ◌++◌, arith, ◌==◌, if◌then◌else◌,
  take, drop, All,
}
use apk.Std.Stoi.{pos}
use apk.Base.Text.{Str, lit, str_eq, str_lt, str_eq_iff, is_empty}
use apk.Map.{assign, find}
use apk.Base.Outcome.{done}
use apk.Std.Bytes.{IsWord}
use apk.Jwt.Examples.{key_mac, secret, token, create_lem}
use apk.Jwt.Examples.Claims.{claims_json, claims_json-JsonLaws}
use apk.Redis.{Reply, string, status, Hiredis, RedisClient}
use apk.Redis.Connect.{first_free}
use apk.Redis.Commands.{context_at, set_text}
use apk.Redis.Commands.Store.{Entry, live, Store}
use apk.Http.{authenticate_request}
use apk.Http.Stored.{session_key, bearer}
use apk.Pg.{tuples, Libpq, PgDb, returned, Row, column, fill_row, query}
use apk.Api.{Platform, json_resp}
use apk.Api.Statements.Accounts.{account_sql, user_by_email}
use apk.Api.Otp.{signed_in, sign_in}
use apk.Api.Otp.SignIn.{sign_in-authenticate_request}
use apk.Api.Examples.{sample}

-- The text up to a blank, and what is behind it.
word : Str → Str
word [] = []
word (c ∷ s) = elim (c == b' ') [ true ↦ [] | false ↦ c ∷ word s ]

behind : Str → Str
behind [] = []
behind (c ∷ s) = elim (c == b' ') [ true ↦ s | false ↦ behind s ]

word-append : (s rest : Str) → All IsWord s → word (s ++ (b' ' ∷ rest)) ≡ s
unfolding word
word-append [] rest h = refl
word-append (c ∷ s) rest (h, hs) = ground (arith, word-append s rest hs)

behind-append : (s rest : Str) → All IsWord s → behind (s ++ (b' ' ∷ rest)) ≡ rest
unfolding behind
behind-append [] rest h = refl
behind-append (c ∷ s) rest (h, hs) = ground (arith, behind-append s rest hs)

-- The clock, and the entries.
abbrev World : Type 0
World = ℕ × (Str → Option Entry)

abbrev assigned : Str → Str → World → World
assigned key value (now, entries) = (
  now,
  λ k. if str_eq key k then some (record { value = value; expires = now + 86400 }) else entries k,
)

abbrev run : Str → World → Option Reply × World
run cmd w =
    if str_eq (take 4 cmd) (lit "SET ")
    then (
      some (status (some (lit "OK"))),
      assigned (word (drop 4 cmd)) (word (behind (drop 4 cmd))) w,
    )
    else (some (string (live w.0 (w.1 (drop 4 cmd)))), w)

abbrev day_redis : Hiredis
day_redis = record {
  World = World;
  Context = Unit {0};
  connect = λ host port w. (some tt, w);
  command = λ ctx cmd args w. run cmd w;
  has_err = λ ctx w. false;
}

set_lem :
    (w : World) (key value : Str)
    → All IsWord key
    → All IsWord value
    → run (set_text key value 86400) w ≡ (some (status (some (lit "OK"))), assigned key value w)
unfolding str_eq
set_lem w key value hk hv =
    rw (word-append key _ hk, behind-append key _ hk, word-append value _ hv) refl

entry_lem :
    (w : World) (key value : Str)
    → (assigned key value w).1 key ≡ some (record { value = value; expires = w.0 + 86400 })
entry_lem w key value = rw ((str_eq_iff key key).1 refl) refl

get_lem :
    (w : World) (key : Str) → run (lit "GET " ++ key) w ≡ (some (string (live w.0 (w.1 key))), w)
unfolding str_eq
get_lem w key = refl

abbrev day_store : Store day_redis tt
day_store = record {
  clock = λ w. w.0;
  entry_at = λ w key. w.1 key;
  stored = λ key value n w. assigned key value w;
  asked = λ key w. w;
  set_done = set_lem;
  get_done = λ w key hk. get_lem w key;
  entry_at-stored = entry_lem;
}

-- Every query finds bob.
abbrev user_pg : Libpq
user_pg = record {
  World = Unit {0};
  Connection = Unit {0};
  connectdb = λ url w. (some tt, w);
  status_ok = λ conn w. true;
  exec_params = λ conn sql params w. (
    tuples (lit "id" ∷ lit "username" ∷ []) ((some (lit "bob") ∷ some (lit "Bob") ∷ []) ∷ []) [],
    w,
  );
  error_message = λ conn w. [];
}

abbrev user_platform : Platform
user_platform = record sample { json = claims_json; hiredis = day_redis; pg = user_pg }

abbrev bob_row : Row
bob_row = (lit "id", some (lit "bob")) ∷ (lit "username", some (lit "Bob")) ∷ []

abbrev user_db : PgDb user_pg
user_db = record { conn = some tt; world = tt }

bob_found :
    query user_pg (account_sql user_by_email) (lit "bob@example.org" ∷ []) user_db
    ≡ (returned (bob_row ∷ []), user_db)
unfolding query fill_row assign str_eq str_lt
bob_found = refl

abbrev client_on : World → RedisClient day_redis ℕ
client_on w = record {
  config = record { host = []; port = pos 6379; password = []; pool_size = 1; max_retries = 3 };
  pool = record { context = some tt; in_use = false } ∷ [];
  pool_locked = false;
  subscribers = [];
  joinable = true;
  running = true;
  error_callback = false;
  last_error = [];
  reported = [];
  world = w;
}

abbrev no_entries : Str → Option Entry
no_entries key = none

-- Redis some seconds after bob has signed in.
abbrev seconds_later : ℕ → World
seconds_later n = (7 + n, (assigned (session_key token) (lit "bob") (7, no_entries)).1)

sign_in-authenticate_request_example :
    (sign_in user_platform secret 7
        (lit "bob@example.org")
        (record { redis = some (client_on (7, no_entries)); db = user_db; what = [] })
      ≡ json_resp user_platform 200
          (signed_in user_platform token (lit "bob") bob_row)
          (record { redis = some (client_on (seconds_later 0)); db = user_db; what = [] }))
    × (authenticate_request claims_json key_mac day_redis
          (bearer token)
          secret
          1000
          (some (client_on (seconds_later 993)))
        ≡ done (200, lit "bob") (some (client_on (seconds_later 993))))
unfolding first_free context_at is_empty column str_eq find
sign_in-authenticate_request_example =
    sign_in-authenticate_request user_platform claims_json-JsonLaws tt day_store 0
      (client_on (7, no_entries)) refl refl refl refl (lit "bob") secret token 7 (omega arith) refl
      create_lem 0 (client_on (seconds_later 993)) refl refl refl 1000 (lit "bob@example.org") []
      user_db user_db bob_row [] bob_found refl refl
