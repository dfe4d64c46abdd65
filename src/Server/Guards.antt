-- ===== src/Server/Guards.antt =====
-- What a client can do before it has logged in.
use apk.Base.{ℕ, ◌≡◌, refl, false, some, [], ◌∷◌, if◌then◌else◌, Bool-cases, inl, inr}
use apk.Base.Text.{Str, lit, str_eq}
use apk.Base.Outcome.{done}
use apk.Json.{Json}
use apk.Connection.{WebSocketConnection, queue_message}
use apk.Pool.{get_connection, write}
use apk.Redis.{Hiredis}
use apk.Encryption.Keys.{Sodium}
use apk.Server.{Event, Server, need, on_pool, message_of}
use apk.Server.Events.{
  handle_chat_message, handle_typing_indicator, handle_read_receipt, handle_message, dispatch,
}

module _ (json : Json) (h : Hiredis) (sodium : Sodium) where
  -- The server with one more message in a client's queue.
  abbrev pub refused : ℕ → Server json h → Server json h
  refused id s = record s {
    pool =
        write id
          (queue_message (
            message_of json h (lit "error")
              ((lit "message", json.text (lit "Not authenticated")) ∷ [])))
          s.pool;
  }

  handle_typing_indicator-guest :
      (id : ℕ) (message : json.J) (s : Server json h) (c : WebSocketConnection json.J)
      → get_connection id s.pool ≡ some c
      → c.authenticated ≡ false
      → handle_typing_indicator json h id message s ≡ done tt s
  unfolding handle_typing_indicator
  handle_typing_indicator-guest id message s c held guest =
      rw (handle_typing_indicator, held, guest) refl

  handle_read_receipt-guest :
      (id : ℕ) (message : json.J) (e : Event) (s : Server json h) (c : WebSocketConnection json.J)
      → get_connection id s.pool ≡ some c
      → c.authenticated ≡ false
      → handle_read_receipt json h id message e s ≡ done tt s
  unfolding handle_read_receipt
  handle_read_receipt-guest id message e s c held guest = rw (handle_read_receipt, held, guest) refl

  dispatch-unauthenticated :
      (id : ℕ) (message : json.J) (e : Event) (type : Str) (s : Server json h)
      (c : WebSocketConnection json.J)
      → get_connection id s.pool ≡ some c
      → c.authenticated ≡ false
      → str_eq type (lit "auth") ≡ false
      → dispatch json h sodium id c message e type s
        ≡ done tt (if str_eq type (lit "message") then refused id s else s)
  unfolding handle_chat_message on_pool
  dispatch-unauthenticated id message e type s c held guest other =
      elim (Bool-cases (str_eq type (lit "message"))) [
        | inl chat ↦ rw (other, chat, guest) refl
        | inr no_chat ↦ elim (Bool-cases (str_eq type (lit "typing"))) [
          | inl typing ↦
              rw (other, no_chat, typing) (handle_typing_indicator-guest id message s c held guest)
          | inr no_typing ↦ elim (Bool-cases (str_eq type (lit "read"))) [
            | inl read ↦
                rw (other, no_chat, no_typing, read)
                  (handle_read_receipt-guest id message e s c held guest)
            | inr no_read ↦ rw (other, no_chat, no_typing, no_read) refl
          ]
        ]
      ]

  -- A message that is no login, from a client that has not logged in, does nothing to Redis, to
  -- other clients or to the ratchets. One of type "message" is answered by an error in the client's
  -- own queue; any other changes nothing at all.
  pub handle_message-unauthenticated :
      (id : ℕ) (message : json.J) (e : Event) (type : Str) (s : Server json h)
      (c : WebSocketConnection json.J)
      → get_connection id s.pool ≡ some c
      → c.authenticated ≡ false
      → json.value_text message (lit "type") (lit "unknown") ≡ some type
      → str_eq type (lit "auth") ≡ false
      → handle_message json h sodium id message e s
        ≡ done tt (if str_eq type (lit "message") then refused id s else s)
  unfolding handle_message need
  handle_message-unauthenticated id message e type s c held guest typed other =
      rw (handle_message, held, typed)
        (dispatch-unauthenticated id message e type s c held guest other)
