-- ===== src/Redis/Commands/Injection.antt =====
-- What the operations send is their arguments put together, with nothing to keep them apart.
use apk.Base.{ℕ, suc, ◌≡◌, refl, ap, false, some, [], ◌∷◌, ◌++◌, arith, lt→ltb, append-nil}
use apk.Base.Text.{Str, lit, str_eq}
use apk.Base.Outcome.{done}
use apk.Std.Decimal.{to_string}
use apk.Std.Stoi.{pos}
use apk.Redis.{Reply, integer, Hiredis, RedisClient}
use apk.Redis.Replies.{c_str}
use apk.Redis.Connect.{first_free}
use apk.Redis.Commands.{context_at, set_text, ask, set, hset}
use apk.Redis.Commands.Slots.{ask-unlocked}

set_text-injection :
    (key value : Str) (n : ℕ)
    → set_text key (value ++ (lit " EX " ++ to_string (suc n))) 0 ≡ set_text key value (suc n)
set_text-injection key value n =
    rw (append-nil (value ++ (lit " EX " ++ to_string (suc n))), lt→ltb 0 (suc n) (omega arith))
      refl

module _ (h : Hiredis) {C : Type 0} where
  -- To set a value that ends in " EX n", for n over 0, without a time to live does on every client
  -- just what it does to set the value before that with n seconds to live.
  pub set-injection :
      (key value : Str) (n : ℕ) (c : RedisClient h C)
      → set h key (value ++ (lit " EX " ++ to_string (suc n))) 0 c ≡ set h key value (suc n) c
  unfolding set
  set-injection key value n c =
      ap (λ cmd. ask h false cmd (λ reply. str_eq reply (lit "OK")) c)
        (set_text-injection key value n)

  -- hset returns false where the server answers 0, which says that the field was there and has the
  -- new value now.
  pub hset-existing :
      (key field value : Str) (i : ℕ) (ctx : h.Context) (world' : h.World) (c : RedisClient h C)
      → c.pool_locked ≡ false
      → first_free h c.pool ≡ some i
      → context_at h i c.pool ≡ some ctx
      → h.command ctx
          (c_str (lit "HSET " ++ (key ++ (b' ' ∷ (field ++ (b' ' ∷ value))))))
          []
          c.world
        ≡ (some (integer (pos 0)), world')
      → hset h key field value c ≡ done false (record c { world = world' })
  unfolding hset str_eq apk.Redis.Replies.reply_text to_string
  hset-existing key field value i ctx world' c unlocked free held sent =
      ask-unlocked h false _ _ i ctx _ world' c unlocked free held sent
