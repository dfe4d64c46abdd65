-- ===== src/Redis/Commands/Store.antt =====
-- What the operations rely on of a Redis server that keeps texts for a time, and what they keep.
use apk.Base.{
  ℕ, ◌+◌, ◌<◌, ◌≡◌, refl, true, false, Option, none, some, [], ◌∷◌, ◌++◌, arith, ltb, if◌then◌else◌,
  All, All-append,
}
use apk.Base.Text.{Str, lit, str_eq}
use apk.Base.Outcome.{done}
use apk.Std.Bytes.{IsWord}
use apk.Std.Decimal.{to_string}
use apk.Redis.{string, status, Hiredis, RedisClient}
use apk.Redis.Replies.{c_str, reply_text}
use apk.Redis.Connect.{first_free}
use apk.Redis.Commands.{context_at, set_text, set}
use apk.Redis.Commands.Slots.{ask-unlocked}

-- A value, and when it expires.
pub record Entry : Type 0 where
  pub value : Str
  pub expires : ℕ

abbrev pub live : ℕ → Option Entry → Option Str
live now none = none
live now (some e) = if ltb now e.expires then some e.value else none

-- A server behind one context: a text that is set has its time to live from the server's clock on,
-- and is what it is asked for until then.
pub record Store (h : Hiredis) (ctx : h.Context) : Type 0 where
  pub clock : h.World → ℕ
  pub entry_at : h.World → Str → Option Entry
  pub stored : Str → Str → ℕ → h.World → h.World
  pub asked : Str → h.World → h.World
  pub set_done :
      (w : h.World) (key value : Str)
      → All IsWord key
      → All IsWord value
      → h.command ctx (set_text key value 86400) [] w
        ≡ (some (status (some (lit "OK"))), stored key value 86400 w)
  pub get_done :
      (w : h.World) (key : Str)
      → All IsWord key
      → h.command ctx (lit "GET " ++ key) [] w
        ≡ (some (string (live (clock w) (entry_at w key))), asked key w)
  pub entry_at-stored :
      (w : h.World) (key value : Str)
      → entry_at (stored key value 86400 w) key
        ≡ some (record { value = value; expires = clock w + 86400 })

abbrev IsSolid : ℕ → Type 0
IsSolid c = 0 < c

c_str-whole : (s : Str) → All IsSolid s → c_str s ≡ s
unfolding c_str
c_str-whole [] h = refl
c_str-whole (c ∷ s) (h, hs) = ground (arith, c_str-whole s hs)

words_IsSolid : (s : Str) → All IsWord s → All IsSolid s
words_IsSolid [] h = tt
words_IsSolid (c ∷ s) (h, hs) = (omega arith, words_IsSolid s hs)

set_text-IsSolid :
    (key value : Str) → All IsWord key → All IsWord value → All IsSolid (set_text key value 86400)
unfolding to_string
set_text-IsSolid key value hk hv = All-append IsSolid (lit "SET ") _ (omega arith) (
    All-append IsSolid key _ (words_IsSolid key hk)
      (omega arith, All-append IsSolid value _ (words_IsSolid value hv) (omega arith)))

get-IsSolid : (key : Str) → All IsWord key → All IsSolid (lit "GET " ++ key)
get-IsSolid key hk = All-append IsSolid (lit "GET ") key (omega arith) (words_IsSolid key hk)

module _ (h : Hiredis) {C : Type 0} (i : ℕ) (ctx : h.Context) (store : Store h ctx)
    (c : RedisClient h C) (unlocked : c.pool_locked ≡ false) (free : first_free h c.pool ≡ some i)
    (held : context_at h i c.pool ≡ some ctx) where
  pub set-stored :
      (key value : Str)
      → All IsWord key
      → All IsWord value
      → set h key value 86400 c
        ≡ done true (record c { world = store.stored key value 86400 c.world })
  unfolding set str_eq reply_text
  set-stored key value hk hv =
      ask-unlocked h false (set_text key value 86400) (λ reply. str_eq reply (lit "OK")) i ctx
        (status (some (lit "OK"))) (store.stored key value 86400 c.world) c unlocked free held
        (rw (c_str-whole _ (set_text-IsSolid key value hk hv))
          (store.set_done c.world key value hk hv))

module _ (h : Hiredis) {C : Type 0} (ctx : h.Context) (store : Store h ctx)
    (c : RedisClient h C) where
  pub asked-answer :
      (key : Str)
      → All IsWord key
      → h.command ctx (c_str (lit "GET " ++ key)) [] c.world ≡ (
        some (string (live (store.clock c.world) (store.entry_at c.world key))),
        store.asked key c.world,
      )
  asked-answer key hk = rw (c_str-whole _ (get-IsSolid key hk)) (store.get_done c.world key hk)

-- The key of a session.
pub key_IsWord : (token : Str) → All IsWord token → All IsWord (lit "session:" ++ token)
key_IsWord token h = All-append IsWord (lit "session:") token (omega arith) h
