-- ===== src/Api/Start/Stuck.antt =====
-- A server whose Redis cannot be reached at the start.
use apk.Base.{subst, [], ℕ, ◌≡◌, refl, ap, sym, ◌∙◌, true, false, some, some_inj}
use apk.Base.Text.{Str, is_empty}
use apk.Base.Outcome.{blocked, Action, then_do, give}
use apk.Redis.{RedisClient, new_client, set_error_callback, is_connected}
use apk.Redis.Connect.{connect}
use apk.Redis.Ready.{first_round, opened, connect-opened}
use apk.Http.{pointed, extract_token, ensure_redis, authenticate_request}
use apk.Pg.{open_db}
use apk.Api.{Platform, Request, Response, Api, kept, admit, authorized}
use apk.Api.Access.{handle-authorized}
use apk.Api.Routes.{Route, is_public, handle}
use apk.Api.Start.{HttpConfig, redis_cfg, new_api, connect_in_background}

module _ (p : Platform) {C : Type 0} where
  -- The client that the constructor makes.
  abbrev pub fresh_client : HttpConfig → p.hiredis.World → RedisClient p.hiredis C
  fresh_client cfg world = set_error_callback p.hiredis (new_client p.hiredis (redis_cfg cfg) world)

  authenticate-locked :
      (auth_header jwt_secret : Str) (now : ℕ) (c : RedisClient p.hiredis C)
      → c.pool_locked ≡ true
      → c.running ≡ false
      → is_empty (extract_token auth_header) ≡ false
      → authenticate_request p.json p.hmac p.hiredis auth_header jwt_secret now (some c)
        ≡ blocked (some c)
  unfolding authenticate_request ensure_redis is_connected connect
  authenticate-locked auth_header jwt_secret now c locked down token =
      rw (authenticate_request, token, ensure_redis, down, connect, locked) refl

  authorized-locked :
      (jwt_secret : Str) (req : Request) (rest : Str → Action (Api p C) Response) (s : Api p C)
      (c : RedisClient p.hiredis C)
      → s.redis ≡ some c
      → c.pool_locked ≡ true
      → c.running ≡ false
      → is_empty (extract_token req.authorization) ≡ false
      → authorized p jwt_secret req rest s ≡ blocked s
  unfolding authorized
  authorized-locked jwt_secret req rest s c held locked down token =
      ap
        (λ r.
          then_do
            (kept p s
              (authenticate_request p.json p.hmac p.hiredis req.authorization jwt_secret req.now r))
            (admit p rest))
        held
      ∙ ap (λ o. then_do (kept p s o) (admit p rest))
          (authenticate-locked req.authorization jwt_secret req.now c locked down token)
      ∙ ap (λ r. blocked (record s { redis = r })) (sym held)

  -- A server that has been constructed, where the first round over its connections to Redis fails:
  -- the thread that connects never returns. From then on, whatever else has changed, every request
  -- with a token waits for ever on every route but the public ones; none is answered with 503.
  pub handle-stuck :
      (cfg : HttpConfig) (pg_world : p.pg.World) (redis_world : p.hiredis.World) (s : Api p C)
      → new_api p cfg true pg_world redis_world ≡ some s
      → first_round p.hiredis (fresh_client cfg redis_world) ≡ false
      → (t : Api p C) × (connect_in_background p s ≡ blocked t)
        × ((jwt_secret : Str) (route : Route) (req : Request) (u : Api p C)
            → u.redis ≡ t.redis
            → is_public route ≡ false
            → is_empty (extract_token req.authorization) ≡ false
            → handle p jwt_secret route req u ≡ blocked u)
  unfolding new_api connect_in_background set_error_callback new_client
  handle-stuck cfg pg_world redis_world s made bad =
      let c = fresh_client cfg redis_world in
      let d = opened p.hiredis c false true in
      let start : Api p C = record {
        redis = some c;
        db = open_db p.pg cfg.db_url pg_world;
        what = [];
      } in
      let is_s : start ≡ s = some_inj made in
      (
        record s { redis = some d },
        subst (λ x. connect_in_background p x ≡ blocked (record x { redis = some d })) is_s
            (ap (λ o. then_do (kept p start (pointed p.hiredis o)) (λ up. give tt))
              (connect-opened p.hiredis 2 c refl refl refl bad)),
        λ jwt_secret route req u same guarded token.
            let (rest, e) = handle-authorized p jwt_secret route req guarded in
            e u ∙ authorized-locked jwt_secret req rest u d same refl refl token,
      )
