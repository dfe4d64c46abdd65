-- ===== src/Pool/Examples.antt =====
-- Runs of the connection pool, and its theorems on a pool with two connections.
use apk.Base.{
  ℕ, ◌≡◌, refl, ◌⊎◌, inl, true, false, none, some, [], ◌∷◌, arith, ◌==◌, if◌then◌else◌, ap,
}
use mathlib.Core.Option
use apk.Base.Text.{Str, lit, is_empty, str_eq}
use apk.Key.{int_key, string_key}
use apk.Map.{find, assign, modify}
use apk.Connection.{
  Message, WebSocketConnection, new_connection, set_user_id, mark_connected, update_activity,
}
use apk.Pool.{
  ConnectionPool, empty_pool, write, create_connection, remove_connection, get_connection,
  register_user, find_by_user, broadcast_to_user, broadcast_except, cleanup_inactive,
}
use apk.Pool.Sound.{IsSound, empty-IsSound}
use apk.Pool.Preserve.{create_connection-IsSound, write-IsSound, login-IsSound}
use apk.Pool.Presence.{login, relogin_breaks_broadcast, second_device_unreachable}
use apk.Pool.Delivery.{receive, broadcast_except_sound, broadcast_to_user_sound}
use apk.Pool.Cleanup.{kept, cleanup_inactive-IsSound, cleanup_inactive_clock_back}

abbrev Conn : Type 0
Conn = WebSocketConnection ℕ

abbrev bob : Str
bob = lit "bob"

abbrev first : Str → ℕ
first [] = 0
first (c ∷ s) = c

abbrev eve : Str
eve = lit "eve"

abbrev note : Message ℕ
note = record { type = lit "note"; payload = 7; timestamp = 120; requires_ack = false }

abbrev bob_conn : Conn
bob_conn = record {
  connection_id = 1;
  user_id = bob;
  session_id = [];
  authenticated = false;
  connected = true;
  is_typing = false;
  created_at = 100;
  last_activity = 105;
  outgoing_queue = [];
}

abbrev guest_conn : Conn
guest_conn = record {
  connection_id = 2;
  user_id = [];
  session_id = [];
  authenticated = false;
  connected = false;
  is_typing = false;
  created_at = 110;
  last_activity = 110;
  outgoing_queue = [];
}

-- Connection 1 of bob, and connection 2 of nobody.
abbrev room : ConnectionPool ℕ
room = record {
  connections = (1, some bob_conn) ∷ (2, some guest_conn) ∷ [];
  user_to_connection = (bob, 1) ∷ [];
}

abbrev stale_room : ConnectionPool ℕ
stale_room = record { connections = (2, some guest_conn) ∷ []; user_to_connection = (bob, 1) ∷ [] }

abbrev steps : ConnectionPool ℕ
steps =
    let one = (create_connection 1 100 empty_pool).1 in
    let two = write 1 (mark_connected 105) one in (create_connection 2 110 (login bob 1 two)).1

room_lem : steps ≡ room
unfolding create_connection write mark_connected update_activity register_user set_user_id
    new_connection assign modify find is_empty
room_lem = refl

room-IsSound : IsSound room
unfolding create_connection write mark_connected update_activity register_user set_user_id
    new_connection assign modify find is_empty
room-IsSound =
    let one = create_connection-IsSound {J = ℕ} 1 100 empty_pool refl empty-IsSound in
    let two = write-IsSound 1 (mark_connected 105) _ (λ c held. refl) (λ c held. refl) one in
    let named = login-IsSound bob 1 _ _ refl refl (inl refl) two in
    create_connection-IsSound 2 110 _ refl named

relogin_breaks_broadcast_example :
    (q : ConnectionPool ℕ) × (remove_connection 1 (login eve 1 room) ≡ some (true, q))
    × (broadcast_except 9 note (find_by_user bob q).2 ≡ none)
unfolding find is_empty str_eq
relogin_breaks_broadcast_example =
    relogin_breaks_broadcast bob eve 1 9 note bob_conn room refl refl
      (λ e. absurd (omega (arith, ap first e))) refl (λ e. absurd (omega arith))

second_device_unreachable_example :
    (q : ConnectionPool ℕ) × (remove_connection 1 (login bob 2 room) ≡ some (true, q))
    × (get_connection 2 q ≡ some (set_user_id bob guest_conn))
    × (find_by_user bob q ≡ (0, none, q))
unfolding find is_empty
second_device_unreachable_example =
    second_device_unreachable bob 1 2 bob_conn guest_conn room refl refl (λ e. absurd (omega arith))
      refl refl

broadcast_except_sound_example :
    (q : ConnectionPool ℕ) × (broadcast_except 2 note room ≡ some q)
    × (q.user_to_connection ≡ room.user_to_connection)
    × ((j : ℕ)
        → get_connection j q ≡ (
            if j == 2
            then get_connection j room
            else Option.map (receive note) (get_connection j room)))
broadcast_except_sound_example = broadcast_except_sound 2 note room room-IsSound

broadcast_to_user_sound_example :
    ((find bob room.user_to_connection ≡ none) × (broadcast_to_user bob note room ≡ room))
    ⊎ ((id : ℕ) × (find bob room.user_to_connection ≡ some id)
        × ((j : ℕ)
            → get_connection j (broadcast_to_user bob note room) ≡ (
                if id == j
                then Option.map (receive note) (get_connection j room)
                else get_connection j room)))
broadcast_to_user_sound_example = broadcast_to_user_sound bob note room room-IsSound

cleanup_inactive-IsSound_example :
    (q : ConnectionPool ℕ) × (cleanup_inactive 10 118 room ≡ some q)
    × IsSound q
    × ((j : ℕ) → get_connection j q ≡ kept 10 118 (get_connection j room))
cleanup_inactive-IsSound_example = cleanup_inactive-IsSound 10 118 room room-IsSound

cleanup_inactive_clock_back_example :
    (q : ConnectionPool ℕ) × (cleanup_inactive 10 104 room ≡ some q) × (get_connection 1 q ≡ none)
unfolding get_connection find
cleanup_inactive_clock_back_example =
    cleanup_inactive_clock_back 10 104 1 bob_conn room room-IsSound refl (omega arith) (omega arith)
      (omega arith)
