-- ===== src/Api/Statements/Channels.antt =====
-- The statements of src/http_api.cpp on contacts and channels, letter by letter.
use apk.Base.{◌++◌}
use apk.Base.Text.{Str, lit}

pub data ChannelSql : Type 0 where
  select_contacts : ChannelSql
  upsert_contact : ChannelSql
  delete_contact : ChannelSql
  check_contact : ChannelSql
  user_by_phone : ChannelSql
  explore : ChannelSql
  subscribed : ChannelSql
  insert_channel : ChannelSql
  insert_channel_owner : ChannelSql
  select_channel : ChannelSql
  insert_subscriber : ChannelSql
  count_subscriber : ChannelSql
  select_posts : ChannelSql
  posts_before : ChannelSql
  select_role : ChannelSql
  insert_post : ChannelSql
  remove_post : ChannelSql

unfoldable pub channel_sql : ChannelSql → Str
channel_sql select_contacts =
    lit "\n                SELECT u.id, u.username, u.display_name, u.avatar_url, u.status,\n"
    ++ lit "                       c.nickname, c.is_favorite\n"
    ++ lit "                FROM contacts c\n"
    ++ lit "                JOIN users u ON u.id = c.contact_id\n"
    ++ lit "                WHERE c.user_id = $1 AND c.is_blocked = false\n"
    ++ lit "                ORDER BY u.username ASC\n"
    ++ lit "            "
channel_sql upsert_contact =
    lit "\n                INSERT INTO contacts (user_id, contact_id, nickname)\n"
    ++ lit "                VALUES ($1, $2, $3)\n"
    ++ lit
        "                ON CONFLICT (user_id, contact_id) DO UPDATE SET nickname = EXCLUDED.nickname\n"
    ++ lit "            "
channel_sql delete_contact = lit "DELETE FROM contacts WHERE user_id=$1 AND contact_id=$2"
channel_sql check_contact = lit "SELECT 1 FROM contacts WHERE user_id=$1 AND contact_id=$2"
channel_sql user_by_phone =
    lit "\n                SELECT id, username, display_name, avatar_url\n"
    ++ lit "                FROM users WHERE phone_number = $1 AND is_deleted = false\n"
    ++ lit "            "
channel_sql explore =
    lit "\n                SELECT c.id, c.username, c.name, c.description, c.avatar_url,\n"
    ++ lit "                       c.is_public, c.subscriber_count\n"
    ++ lit "                FROM channels c\n"
    ++ lit "                WHERE c.is_public = true\n"
    ++ lit "                  AND ($1 = '%%' OR c.name ILIKE $1 OR c.username ILIKE $1)\n"
    ++ lit "                ORDER BY c.subscriber_count DESC LIMIT 50\n"
    ++ lit "            "
channel_sql subscribed =
    lit "\n                SELECT c.id, c.username, c.name, c.avatar_url, cs.role\n"
    ++ lit "                FROM channel_subscribers cs\n"
    ++ lit "                JOIN channels c ON c.id = cs.channel_id\n"
    ++ lit "                WHERE cs.user_id = $1\n"
    ++ lit "                ORDER BY c.name ASC\n"
    ++ lit "            "
channel_sql insert_channel =
    lit
      "\n                INSERT INTO channels (username, name, description, is_public, owner_id)\n"
    ++ lit "                VALUES ($1, $2, $3, $4, $5) RETURNING id\n"
    ++ lit "            "
channel_sql insert_channel_owner =
    lit "\n                INSERT INTO channel_subscribers (channel_id, user_id, role)\n"
    ++ lit "                VALUES ($1, $2, 'owner')\n"
    ++ lit "            "
channel_sql select_channel =
    lit "\n                SELECT id, username, name, description, avatar_url,\n"
    ++ lit "                       is_public, subscriber_count, owner_id\n"
    ++ lit "                FROM channels WHERE username = $1\n"
    ++ lit "            "
channel_sql insert_subscriber =
    lit "\n                INSERT INTO channel_subscribers (channel_id, user_id, role)\n"
    ++ lit "                VALUES ($1, $2, 'subscriber')\n"
    ++ lit "                ON CONFLICT DO NOTHING\n"
    ++ lit "            "
channel_sql count_subscriber =
    lit "\n                UPDATE channels SET subscriber_count = subscriber_count + 1\n"
    ++ lit "                WHERE id = $1\n"
    ++ lit "            "
channel_sql select_posts =
    lit "\n                    SELECT id, channel_id, content, media_urls, is_paid, created_at\n"
    ++ lit "                    FROM channel_posts WHERE channel_id = $1\n"
    ++ lit "                    ORDER BY created_at DESC LIMIT 30\n"
    ++ lit "                "
channel_sql posts_before =
    lit "\n                    SELECT id, channel_id, content, media_urls, is_paid, created_at\n"
    ++ lit "                    FROM channel_posts\n"
    ++ lit "                    WHERE channel_id = $1 AND created_at < $2::timestamptz\n"
    ++ lit "                    ORDER BY created_at DESC LIMIT 30\n"
    ++ lit "                "
channel_sql select_role =
    lit "SELECT role FROM channel_subscribers WHERE channel_id=$1 AND user_id=$2"
channel_sql insert_post =
    lit "\n                INSERT INTO channel_posts (channel_id, content, is_paid, author_id)\n"
    ++ lit "                VALUES ($1, $2, $3, $4)\n"
    ++ lit "            "
channel_sql remove_post = lit "DELETE FROM channel_posts WHERE id=$1 AND channel_id=$2"
