-- ===== src/Server/Sound/Login.antt =====
-- The messages of a client keep a pool sound, a login under a new name excepted.
use apk.Base.{
  ℕ, ◌≡◌, refl, ◌∙◌, ◌⊎◌, inl, inr, ap, arith, true, false, none, some, [], Option-cases,
  Bool-cases,
}
use apk.Base.Text.{Str, lit, is_empty, str_eq, str_eq_iff}
use apk.Base.Outcome.{Leaves}
use apk.Key.{int_key, string_key}
use apk.Map.{find}
use apk.Json.{Json}
use apk.Connection.{WebSocketConnection, set_user_id, set_session_id, mark_authenticated}
use apk.Pool.{ConnectionPool, write, get_connection, register_user}
use apk.Pool.Sound.{IsSound}
use apk.Pool.Preserve.{write-IsSound, login-IsSound}
use apk.Redis.{Hiredis}
use apk.Encryption.Keys.{Sodium, compute_shared_secret}
use apk.Server.{Event, Server, need, on_pool}
use apk.Server.Handlers.{authenticate_user}
use apk.Server.Events.{
  keep_ratchet, finish_authentication, accept_login, handle_authentication, dispatch,
  handle_message, on_client_message,
}
use apk.Server.Sound.{HasSound, Keeps, give-Keeps, need-Keeps, bind-Keeps, then-Keeps, branch-Keeps}
use apk.Server.Sound.Handlers.{mark_user_online-Keeps, subscribe_to_user_channel-Keeps}
use apk.Server.Sound.Messages.{
  queue-Keeps, handle_chat_message-Keeps, handle_typing_indicator-Keeps, handle_read_receipt-Keeps,
  lock_ratchets-Keeps, unlock_ratchets-Keeps,
}

module _ (json : Json) (h : Hiredis) (sodium : Sodium) where
  keep_ratchet-Keeps :
      (user_id secret : Str) (e : Event)
      → Keeps json h (keep_ratchet json h sodium user_id secret e)
  keep_ratchet-Keeps user_id secret e = record { keeps = λ s sound. sound }

  finish_authentication-Keeps :
      (id : ℕ) (user_id token : Str) (e : Event)
      → Keeps json h (finish_authentication json h sodium id user_id token e)
  unfolding finish_authentication
  finish_authentication-Keeps id user_id token e = record {
    keeps = λ s sound.
        (bind-Keeps json h
            (need-Keeps json h
              (compute_shared_secret sodium s.server_keys.private_key s.server_keys.public_key))
            λ secret. then-Keeps json h (keep_ratchet-Keeps user_id secret e) (
              then-Keeps json h (unlock_ratchets-Keeps json h) (
                then-Keeps json h (queue-Keeps json h id _ _)
                  (unlock_ratchets-Keeps json h)))).keeps
          s sound;
  }

  -- A login that gives its connection a first name, or the same one again.
  abbrev pub FirstName : ℕ → Str → Server json h → Type 0
  FirstName id user_id s =
      (is_empty user_id ≡ false)
      × ((c : WebSocketConnection json.J)
          → get_connection id s.pool ≡ some c
          → (is_empty c.user_id ≡ true) ⊎ (c.user_id ≡ user_id))

  pub held_entry :
      (id : ℕ) (c : WebSocketConnection json.J) (p : ConnectionPool json.J)
      → get_connection id p ≡ some c
      → find id p.connections ≡ some (some c)
  unfolding get_connection
  held_entry id c p held = elim (Option-cases (find id p.connections)) [
    | inl e ↦ absurd (ground arith)
    | inr (none, e) ↦ absurd (ground arith)
    | inr (some d, e) ↦ ground arith
  ]

  accept_login-Leaves :
      (id : ℕ) (user_id token : Str) (e : Event) (s : Server json h)
      (c : WebSocketConnection json.J)
      → get_connection id s.pool ≡ some c
      → FirstName id user_id s
      → HasSound json h s
      → Leaves (HasSound json h) (accept_login json h sodium id user_id token e s)
  unfolding accept_login on_pool write register_user set_session_id mark_authenticated
  accept_login-Leaves id user_id token e s c held (named, first) sound =
      let p = register_user user_id id (write id (set_user_id user_id) s.pool) in
      let known : IsSound p =
        login-IsSound user_id id c s.pool named (held_entry id c s.pool held) (first c held)
          sound in
      let session =
        write-IsSound id (set_session_id token) p (λ c held. refl) (λ c held. refl) known in
      let marked =
        write-IsSound id (mark_authenticated e.ticks) (write id (set_session_id token) p)
          (λ c held. refl) (λ c held. refl) session in
      (then-Keeps json h (mark_user_online-Keeps json h user_id e) (
          then-Keeps json h (subscribe_to_user_channel-Keeps json h user_id) (
            then-Keeps json h (lock_ratchets-Keeps json h) (
              then-Keeps json h (lock_ratchets-Keeps json h)
                (finish_authentication-Keeps id user_id token e))))).keeps
        (record s {
          pool = write id (mark_authenticated e.ticks) (write id (set_session_id token) p);
        })
        marked

  -- Where the message is a login, it names its connection for the first time, or as before.
  abbrev pub LogsInOnce : ℕ → json.J → Server json h → Type 0
  LogsInOnce id message s =
      (user_id : Str)
      → json.value_text message (lit "type") (lit "unknown") ≡ some (lit "auth")
      → json.value_text message (lit "username") [] ≡ some user_id
      → FirstName id user_id s

  handle_authentication-Leaves :
      (id : ℕ) (message : json.J) (e : Event) (s : Server json h)
      → json.value_text message (lit "type") (lit "unknown") ≡ some (lit "auth")
      → LogsInOnce id message s
      → HasSound json h s
      → Leaves (HasSound json h) (handle_authentication json h sodium id message e s)
  unfolding handle_authentication need authenticate_user
  handle_authentication-Leaves id message e s is_login once sound =
      elim (Option-cases (get_connection id s.pool)) [
        | inl gone ↦ rw (handle_authentication, gone) sound
        | inr (c, held) ↦ elim (Option-cases (json.value_text message (lit "username") [])) [
          | inl no_name ↦ rw (handle_authentication, held, no_name) sound
          | inr (user_id, is_name) ↦
              elim (Option-cases (json.value_text message (lit "password") [])) [
                | inl no_word ↦ rw (handle_authentication, held, is_name, no_word) sound
                | inr (password, is_word) ↦
                    rw (handle_authentication, held, is_name, is_word)
                      (accept_login-Leaves id user_id _ e s c held (once user_id is_login is_name)
                        sound)
              ]
        ]
      ]

  dispatch-Leaves :
      (id : ℕ) (c : WebSocketConnection json.J) (message : json.J) (e : Event) (type : Str)
      (s : Server json h)
      → json.value_text message (lit "type") (lit "unknown") ≡ some type
      → LogsInOnce id message s
      → HasSound json h s
      → Leaves (HasSound json h) (dispatch json h sodium id c message e type s)
  dispatch-Leaves id c message e type s typed once sound =
      elim (Bool-cases (str_eq type (lit "auth"))) [
        | inl auth ↦ rw auth (
            handle_authentication-Leaves id message e s
              (typed ∙ ap some ((str_eq_iff type (lit "auth")).0 auth)) once sound)
        | inr other ↦ rw other (
            (branch-Keeps json h (str_eq type (lit "message"))
                (handle_chat_message-Keeps json h id c message e)
                (branch-Keeps json h (str_eq type (lit "typing"))
                  (handle_typing_indicator-Keeps json h id message)
                  (branch-Keeps json h (str_eq type (lit "read"))
                    (handle_read_receipt-Keeps json h id message e) (give-Keeps json h tt)))).keeps
              s sound)
      ]

  handle_message-Leaves :
      (id : ℕ) (message : json.J) (e : Event) (s : Server json h)
      → LogsInOnce id message s
      → HasSound json h s
      → Leaves (HasSound json h) (handle_message json h sodium id message e s)
  unfolding handle_message need
  handle_message-Leaves id message e s once sound = elim (Option-cases (get_connection id s.pool)) [
    | inl gone ↦ rw (handle_message, gone) sound
    | inr (c, held) ↦ elim (Option-cases (json.value_text message (lit "type") (lit "unknown"))) [
      | inl untyped ↦ rw (handle_message, held, untyped) sound
      | inr (type, typed) ↦
          rw (handle_message, held, typed) (dispatch-Leaves id c message e type s typed once sound)
    ]
  ]

  pub on_client_message-Leaves :
      (id : ℕ) (raw_data : Str) (e : Event) (s : Server json h)
      → ((message : json.J) → json.parse raw_data ≡ some message → LogsInOnce id message s)
      → HasSound json h s
      → Leaves (HasSound json h) (on_client_message json h sodium id raw_data e s)
  unfolding on_client_message
  on_client_message-Leaves id raw_data e s once sound = elim (Option-cases (json.parse raw_data)) [
    | inl bad ↦ rw (on_client_message, bad) ((queue-Keeps json h id _ _).keeps s sound)
    | inr (message, parsed) ↦
        rw (on_client_message, parsed)
          (handle_message-Leaves id message e s (once message parsed) sound)
  ]
