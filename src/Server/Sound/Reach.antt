-- ===== src/Server/Sound/Reach.antt =====
-- Whatever happens on the websockets and in Redis, one event after another, the pool stays sound.
use apk.Base.{Bool, ℕ, ◌≡◌, ap, arith, Option, none, some, List}
use apk.Base.Text.{Str}
use apk.Base.Outcome.{Outcome, done, threw, blocked, undefined, Leaves}
use apk.Key.{int_key, string_key}
use apk.Map.{find}
use apk.Json.{Json}
use apk.Connection.{Message, WebSocketConnection}
use apk.Pool.{ConnectionPool, pointee, get_connection, remove_connection, broadcast_except}
use apk.Pool.Sound.{IsSound}
use apk.Pool.Preserve.{remove_connection-IsSound}
use apk.Pool.Delivery.{broadcast_except_sound}
use apk.Redis.{Hiredis}
use apk.Encryption.Keys.{Sodium}
use apk.Server.{Event, Server}
use apk.Server.Handlers.{redis_message_handler}
use apk.Server.Websocket.{Wire, conn_id, handed, on_open, on_close, on_message}
use apk.Server.Sound.{HasSound}
use apk.Server.Sound.Handlers.{
  on_client_connected-Leaves, on_client_disconnected-Keeps, redis_message_handler-Keeps,
}
use apk.Server.Sound.Flush.{WireSound, then_flush-Leaves, handed-Leaves}
use apk.Server.Sound.Login.{LogsInOnce, on_client_message-Leaves}

module _ (json : Json) (h : Hiredis) (sodium : Sodium) where
  -- What happens to a server: its websocket at an address is opened or closed, or brings a text; or
  -- Redis brings a message on a channel.
  pub data Happening : Type 0 where
    opened : ℕ → Happening
    closed : ℕ → Happening
    said : ℕ → Str → Happening
    heard : Str → Str → Happening

  -- The calls that it leads to, where `sent` was sent on that websocket before.
  unfoldable pub perform :
      Happening → Event → List Str → Server json h → Outcome (Wire json h) (Unit {0})
  perform (opened address) e sent s =
      on_open json h sodium address e (record { messenger = some s; sent = sent })
  perform (closed address) e sent s =
      on_close json h sodium address e (record { messenger = some s; sent = sent })
  perform (said address text) e sent s =
      on_message json h sodium address text e (record { messenger = some s; sent = sent })
  perform (heard channel text) e sent s =
      handed json h sodium sent (redis_message_handler json h channel text e s)

  -- A websocket that is opened has an id which no other has, and a connection logs in under one name.
  abbrev pub Orderly : Happening → Server json h → Type 0
  Orderly (opened address) s = find (conn_id address) s.pool.connections ≡ none
  Orderly (closed address) s = Unit {0}
  Orderly (said address text) s =
      (message : json.J)
      → json.parse text ≡ some message
      → LogsInOnce json h sodium (conn_id address) message s
  Orderly (heard channel text) s = Unit {0}

  perform-Leaves :
      (what : Happening) (e : Event) (sent : List Str) (s : Server json h)
      → Orderly what s
      → HasSound json h s
      → Leaves (WireSound json h sodium) (perform what e sent s)
  unfolding perform on_open on_close on_message
  perform-Leaves (opened address) e sent s fresh sound =
      handed-Leaves json h sodium sent _
        (on_client_connected-Leaves json h (conn_id address) e s fresh sound)
  perform-Leaves (closed address) e sent s orderly sound =
      handed-Leaves json h sodium sent _
        ((on_client_disconnected-Keeps json h (conn_id address) e).keeps s sound)
  perform-Leaves (said address text) e sent s once sound =
      then_flush-Leaves json h sodium (conn_id address) sent _
        (on_client_message-Leaves json h sodium (conn_id address) text e s once sound)
  perform-Leaves (heard channel text) e sent s orderly sound =
      handed-Leaves json h sodium sent _
        ((redis_message_handler-Keeps json h channel text e).keeps s sound)

  -- The server after a call, by whichever way it ends: other threads go on with it.
  abbrev pub server_left : Outcome (Wire json h) (Unit {0}) → Option (Server json h)
  server_left (done a w) = w.messenger
  server_left (threw w) = w.messenger
  server_left (blocked w) = w.messenger
  server_left undefined = none

  -- The servers that orderly happenings lead to.
  pub data Reached (start : Server json h) : Server json h → Type 0 where
    at_start : Reached start start
    after :
        {s t : Server json h} (what : Happening) (e : Event) (sent : List Str)
        → Reached start s
        → Orderly what s
        → server_left (perform what e sent s) ≡ some t
        → Reached start t

  server_left-HasSound :
      (o : Outcome (Wire json h) (Unit {0})) (t : Server json h)
      → Leaves (WireSound json h sodium) o
      → server_left o ≡ some t
      → HasSound json h t
  server_left-HasSound (done a w) t k is_t = k t is_t
  server_left-HasSound (threw w) t k is_t = k t is_t
  server_left-HasSound (blocked w) t k is_t = k t is_t
  server_left-HasSound undefined t k is_t = absurd (ground arith)

  Reached-HasSound :
      {start s : Server json h} → HasSound json h start → Reached start s → IsSound s.pool
  Reached-HasSound sound at_start = sound
  Reached-HasSound sound (after what e sent before orderly left) =
      server_left-HasSound _ _
        (perform-Leaves what e sent _ orderly (Reached-HasSound sound before)) left

  -- From a server with a sound pool, such as the empty one, any number of websockets are opened,
  -- closed and read, and messages come from Redis, in any order, where calls may end by an
  -- exception or wait for ever. As long as a websocket gets an id that no other has, and a
  -- connection logs in under one name only, which is not empty: the pool is sound, a broadcast and
  -- a removal meet no null pointer in it, and each user who is registered has a connection of the
  -- user's own name.
  pub Reached-IsSound :
      (start s : Server json h)
      → IsSound start.pool
      → Reached start s
      → IsSound s.pool
        × ((exclude : ℕ) (msg : Message json.J)
            → (q : ConnectionPool json.J) × (broadcast_except exclude msg s.pool ≡ some q))
        × ((id : ℕ)
            → (found : Bool) × (q : ConnectionPool json.J) × (remove_connection id s.pool
                ≡ some (found, q)))
        × ((u : Str) (id : ℕ)
            → find u s.pool.user_to_connection ≡ some id
            → (c : WebSocketConnection json.J) × (get_connection id s.pool ≡ some c)
              × (c.user_id ≡ u))
  unfolding get_connection
  Reached-IsSound start s sound reached =
      let kept = Reached-HasSound sound reached in
      (
        kept,
        λ exclude msg.
            let told = broadcast_except_sound exclude msg s.pool kept in (told.0, told.1),
        λ id. let gone = remove_connection-IsSound id s.pool kept in (gone.0, gone.1, gone.2),
        λ u id known.
            let (c, held, own, named) = kept.registered u id known in (c, ap pointee held, own),
      )
