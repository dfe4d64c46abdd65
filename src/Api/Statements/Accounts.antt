-- ===== src/Api/Statements/Accounts.antt =====
-- The statements of src/http_api.cpp on the accounts and one-time passwords, letter by letter.
use apk.Base.{◌++◌}
use apk.Base.Text.{Str, lit}

pub data AccountSql : Type 0 where
  upsert_otp : AccountSql
  select_otp : AccountSql
  count_attempt : AccountSql
  check_expiry : AccountSql
  delete_otp : AccountSql
  user_by_email : AccountSql
  same_username : AccountSql
  same_email : AccountSql
  same_phone : AccountSql
  insert_user : AccountSql
  select_me : AccountSql
  search_users : AccountSql
  select_user : AccountSql

unfoldable pub account_sql : AccountSql → Str
account_sql upsert_otp =
    lit "\n                INSERT INTO otp_codes (email, code_hash, expires_at)\n"
    ++ lit "                VALUES ($1, $2, to_timestamp($3))\n"
    ++ lit "                ON CONFLICT (email) DO UPDATE\n"
    ++ lit "                  SET code_hash = EXCLUDED.code_hash,\n"
    ++ lit "                      expires_at = EXCLUDED.expires_at,\n"
    ++ lit "                      attempts = 0\n"
    ++ lit "            "
account_sql select_otp =
    lit "\n                SELECT code_hash, expires_at, attempts\n"
    ++ lit "                FROM otp_codes\n"
    ++ lit "                WHERE email = $1\n"
    ++ lit "            "
account_sql count_attempt = lit "UPDATE otp_codes SET attempts = attempts + 1 WHERE email = $1"
account_sql check_expiry =
    lit "\n                SELECT (expires_at > NOW()) AS valid FROM otp_codes WHERE email = $1\n"
    ++ lit "            "
account_sql delete_otp = lit "DELETE FROM otp_codes WHERE email = $1"
account_sql user_by_email = lit "SELECT id, username, display_name FROM users WHERE email = $1"
account_sql same_username = lit "SELECT id FROM users WHERE username = $1"
account_sql same_email = lit "SELECT id FROM users WHERE email = $1"
account_sql same_phone = lit "SELECT id FROM users WHERE phone_number = $1"
account_sql insert_user =
    lit "\n                INSERT INTO users\n"
    ++ lit "                  (username, email, phone_number, display_name,\n"
    ++ lit "                   password_hash, password_salt, public_key, is_verified)\n"
    ++ lit "                VALUES\n"
    ++ lit "                  ($1, $2, NULLIF($3, ''), $4, '', '', $5, true)\n"
    ++ lit "                RETURNING id\n"
    ++ lit "            "
account_sql select_me =
    lit "\n                SELECT id, username, email, phone_number, display_name,\n"
    ++ lit "                       avatar_url, bio, status, status_text, created_at\n"
    ++ lit "                FROM users WHERE id = $1 AND is_deleted = false\n"
    ++ lit "            "
account_sql search_users =
    lit "\n                SELECT id, username, display_name, avatar_url, status\n"
    ++ lit "                FROM users\n"
    ++ lit "                WHERE (username ILIKE $1 OR display_name ILIKE $1)\n"
    ++ lit "                  AND is_deleted = false AND id != $2\n"
    ++ lit "                LIMIT 20\n"
    ++ lit "            "
account_sql select_user =
    lit "\n                SELECT id, username, display_name, avatar_url, bio, status\n"
    ++ lit "                FROM users WHERE id = $1 AND is_deleted = false\n"
    ++ lit "            "
