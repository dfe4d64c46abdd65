-- ===== src/Connection.antt =====
-- include/websocket_connection.hpp and src/websocket_connection.cpp: class WebSocketConnection.
-- The payload type `J` is nlohmann::json; `now` is what the clock returns in the call.
pub mod Queue
use apk.Base.{ℕ, Bool, true, false, Option, none, some, List, [], ◌∷◌, ◌++◌, length}
use apk.Base.Text.{Str}

pub record Message (J : Type 0) : Type 0 where
  pub type : Str
  pub payload : J
  pub timestamp : ℕ
  pub requires_ack : Bool

pub record WebSocketConnection (J : Type 0) : Type 0 where
  pub connection_id : ℕ
  pub user_id : Str
  pub session_id : Str
  pub authenticated : Bool
  pub connected : Bool
  pub is_typing : Bool
  pub created_at : ℕ
  pub last_activity : ℕ
  pub outgoing_queue : List (Message J)

module _ {J : Type 0} where
  -- The constructor.
  unfoldable pub new_connection : ℕ → ℕ → WebSocketConnection J
  new_connection connection_id now = record {
    connection_id = connection_id;
    user_id = [];
    session_id = [];
    authenticated = false;
    connected = false;
    is_typing = false;
    created_at = now;
    last_activity = now;
    outgoing_queue = [];
  }

  unfoldable pub set_user_id : Str → WebSocketConnection J → WebSocketConnection J
  set_user_id user_id c = record c { user_id = user_id }

  unfoldable pub set_session_id : Str → WebSocketConnection J → WebSocketConnection J
  set_session_id session_id c = record c { session_id = session_id }

  unfoldable pub update_activity : ℕ → WebSocketConnection J → WebSocketConnection J
  update_activity now c = record c { last_activity = now }

  unfoldable pub mark_authenticated : ℕ → WebSocketConnection J → WebSocketConnection J
  unfolding update_activity
  mark_authenticated now c = update_activity now (record c { authenticated = true })

  unfoldable pub mark_connected : ℕ → WebSocketConnection J → WebSocketConnection J
  unfolding update_activity
  mark_connected now c = update_activity now (record c { connected = true })

  unfoldable pub mark_disconnected : WebSocketConnection J → WebSocketConnection J
  mark_disconnected c = record c { connected = false }

  unfoldable pub set_typing : Bool → WebSocketConnection J → WebSocketConnection J
  set_typing is_typing c = record c { is_typing = is_typing }

  unfoldable pub queue_message : Message J → WebSocketConnection J → WebSocketConnection J
  queue_message msg c = record c { outgoing_queue = c.outgoing_queue ++ (msg ∷ []) }

  unfoldable pub take_front :
      WebSocketConnection J → List (Message J) → Option (Message J × WebSocketConnection J)
  take_front c [] = none
  take_front c (msg ∷ rest) = some (msg, record c { outgoing_queue = rest })

  -- `some` holds the reference parameter and the object after the call; `none` is the result
  -- false, which leaves both alone.
  unfoldable pub dequeue_message :
      WebSocketConnection J → Option (Message J × WebSocketConnection J)
  unfolding take_front
  dequeue_message c = take_front c c.outgoing_queue

  unfoldable pub pending_messages : WebSocketConnection J → ℕ
  pending_messages c = length c.outgoing_queue
