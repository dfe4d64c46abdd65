-- ===== src/Api/Entry.antt =====
-- How a request gets to what its route does.
use apk.Base.{◌≡◌, refl, ap, false, Option, none, some}
use apk.Base.Text.{Str, lit, is_empty}
use apk.Base.Outcome.{done, Action}
use apk.Redis.{RedisClient}
use apk.Http.{authenticate_request}
use apk.Api.{Platform, Request, Response, Api, fail, with_body, authorized}

module _ (p : Platform) {C : Type 0} where
  open p use {json}

  -- The request is let in as a user, and the client of Redis is `r` after that.
  pub record LetIn (jwt_secret : Str) (req : Request) (redis : Option (RedisClient p.hiredis C))
      (uid : Str) (r : Option (RedisClient p.hiredis C)) : Type 0 where
    pub answered :
        authenticate_request p.json p.hmac p.hiredis req.authorization jwt_secret req.now redis
        ≡ done (200, uid) r
    pub named : is_empty uid ≡ false

  pub authorized-LetIn :
      {jwt_secret : Str} {req : Request} {uid : Str} {r : Option (RedisClient p.hiredis C)}
      (s : Api p C) (rest : Str → Action (Api p C) Response)
      → LetIn jwt_secret req s.redis uid r
      → authorized p jwt_secret req rest s ≡ rest uid (record s { redis = r })
  unfolding authorized
  authorized-LetIn s rest let_in = rw (authorized, let_in.answered, let_in.named) refl

  abbrev on_body : Option json.J → (json.J → Action (Api p C) Response) → Action (Api p C) Response
  on_body parsed rest = elim parsed [
    | none ↦ fail p 400 (lit "Invalid JSON")
    | some body ↦ rest body
  ]

  pub with_body-parsed :
      (req : Request) (body : json.J) (rest : json.J → Action (Api p C) Response) (s : Api p C)
      → json.parse req.body ≡ some body
      → with_body p req.body rest s ≡ rest body s
  with_body-parsed req body rest s parsed = ap (λ o. on_body o rest s) parsed
