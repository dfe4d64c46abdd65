-- ===== src/Api/Statements/Chats.antt =====
-- The statements of src/http_api.cpp on chats, members and messages, letter by letter.
use apk.Base.{◌++◌}
use apk.Base.Text.{Str, lit}

pub data ChatSql : Type 0 where
  select_chats : ChatSql
  find_direct : ChatSql
  insert_direct : ChatSql
  insert_pair : ChatSql
  insert_group : ChatSql
  insert_owner : ChatSql
  insert_member : ChatSql
  check_member : ChatSql
  select_chat : ChatSql
  select_messages : ChatSql
  messages_before : ChatSql
  select_members : ChatSql
  upsert_member : ChatSql
  end_membership : ChatSql
  search_texts : ChatSql
  toggle_pin : ChatSql
  insert_reaction : ChatSql
  toggle_mute : ChatSql
  search_people : ChatSql

unfoldable pub chat_sql : ChatSql → Str
chat_sql select_chats =
    lit "\n                SELECT c.id, c.chat_type, c.name, c.avatar_url,\n"
    ++ lit "                       c.updated_at,\n"
    ++ lit "                       (SELECT content FROM messages m\n"
    ++ lit "                        WHERE m.chat_id = c.id AND m.is_deleted = false\n"
    ++ lit "                        ORDER BY m.created_at DESC LIMIT 1) AS last_message,\n"
    ++ lit "                       (SELECT COUNT(*) FROM message_delivery md\n"
    ++ lit "                        JOIN messages msg ON md.message_id = msg.id\n"
    ++ lit "                        WHERE msg.chat_id = c.id AND md.recipient_id = $1\n"
    ++ lit "                          AND md.status != 'read') AS unread_count\n"
    ++ lit "                FROM chats c\n"
    ++ lit "                JOIN chat_members cm ON cm.chat_id = c.id\n"
    ++ lit "                WHERE cm.user_id = $1 AND cm.left_at IS NULL\n"
    ++ lit "                ORDER BY c.updated_at DESC\n"
    ++ lit "                LIMIT 100\n"
    ++ lit "            "
chat_sql find_direct =
    lit "\n                SELECT c.id FROM chats c\n"
    ++ lit "                JOIN chat_members cm1 ON cm1.chat_id = c.id AND cm1.user_id = $1\n"
    ++ lit "                JOIN chat_members cm2 ON cm2.chat_id = c.id AND cm2.user_id = $2\n"
    ++ lit "                WHERE c.chat_type = 'private'\n"
    ++ lit "                LIMIT 1\n"
    ++ lit "            "
chat_sql insert_direct =
    lit "\n                INSERT INTO chats (chat_type, created_by)\n"
    ++ lit "                VALUES ('private', $1) RETURNING id\n"
    ++ lit "            "
chat_sql insert_pair =
    lit "\n                INSERT INTO chat_members (chat_id, user_id, role)\n"
    ++ lit "                VALUES ($1, $2, 'member'), ($1, $3, 'member')\n"
    ++ lit "            "
chat_sql insert_group =
    lit "\n                INSERT INTO chats (chat_type, name, description, created_by)\n"
    ++ lit "                VALUES ('group', $1, $2, $3) RETURNING id\n"
    ++ lit "            "
chat_sql insert_owner =
    lit "\n                INSERT INTO chat_members (chat_id, user_id, role, can_admin)\n"
    ++ lit "                VALUES ($1, $2, 'owner', true)\n"
    ++ lit "            "
chat_sql insert_member =
    lit "\n                            INSERT INTO chat_members (chat_id, user_id, role)\n"
    ++ lit "                            VALUES ($1, $2, 'member')\n"
    ++ lit "                            ON CONFLICT DO NOTHING\n"
    ++ lit "                        "
chat_sql check_member =
    lit "SELECT 1 FROM chat_members WHERE chat_id=$1 AND user_id=$2 AND left_at IS NULL"
chat_sql select_chat =
    lit "\n                SELECT id, chat_type, name, description, avatar_url, created_at\n"
    ++ lit "                FROM chats WHERE id = $1\n"
    ++ lit "            "
chat_sql select_messages =
    lit "\n                    SELECT m.id, m.sender_id, m.content, m.content_type,\n"
    ++ lit "                           m.is_edited, m.is_pinned, m.reply_to_id, m.created_at,\n"
    ++ lit
        "                           u.username AS sender_username, u.display_name AS sender_name,\n"
    ++ lit "                           u.avatar_url AS sender_avatar\n"
    ++ lit "                    FROM messages m\n"
    ++ lit "                    JOIN users u ON u.id = m.sender_id\n"
    ++ lit "                    WHERE m.chat_id = $1 AND m.is_deleted = false\n"
    ++ lit "                    ORDER BY m.created_at DESC LIMIT 50\n"
    ++ lit "                "
chat_sql messages_before =
    lit "\n                    SELECT m.id, m.sender_id, m.content, m.content_type,\n"
    ++ lit "                           m.is_edited, m.is_pinned, m.reply_to_id, m.created_at,\n"
    ++ lit
        "                           u.username AS sender_username, u.display_name AS sender_name,\n"
    ++ lit "                           u.avatar_url AS sender_avatar\n"
    ++ lit "                    FROM messages m\n"
    ++ lit "                    JOIN users u ON u.id = m.sender_id\n"
    ++ lit "                    WHERE m.chat_id = $1 AND m.is_deleted = false\n"
    ++ lit "                      AND m.created_at < $2::timestamptz\n"
    ++ lit "                    ORDER BY m.created_at DESC LIMIT 50\n"
    ++ lit "                "
chat_sql select_members =
    lit "\n                SELECT u.id, u.username, u.display_name, u.avatar_url, u.status,\n"
    ++ lit "                       cm.role, cm.joined_at\n"
    ++ lit "                FROM chat_members cm\n"
    ++ lit "                JOIN users u ON u.id = cm.user_id\n"
    ++ lit "                WHERE cm.chat_id = $1 AND cm.left_at IS NULL\n"
    ++ lit "                ORDER BY cm.joined_at ASC\n"
    ++ lit "            "
chat_sql upsert_member =
    lit "\n                INSERT INTO chat_members (chat_id, user_id, role)\n"
    ++ lit "                VALUES ($1, $2, 'member')\n"
    ++ lit "                ON CONFLICT (chat_id, user_id) DO UPDATE SET left_at = NULL\n"
    ++ lit "            "
chat_sql end_membership =
    lit "\n                UPDATE chat_members SET left_at = NOW()\n"
    ++ lit "                WHERE chat_id = $1 AND user_id = $2\n"
    ++ lit "            "
chat_sql search_texts =
    lit "\n                SELECT id, sender_id, content, created_at\n"
    ++ lit "                FROM messages\n"
    ++ lit "                WHERE chat_id = $1 AND content ILIKE $2 AND is_deleted = false\n"
    ++ lit "                ORDER BY created_at DESC LIMIT 50\n"
    ++ lit "            "
chat_sql toggle_pin = lit "UPDATE messages SET is_pinned = NOT is_pinned WHERE id = $1"
chat_sql insert_reaction =
    lit "\n                INSERT INTO reactions (message_id, user_id, emoji)\n"
    ++ lit "                VALUES ($1, $2, $3)\n"
    ++ lit "                ON CONFLICT (message_id, user_id, emoji) DO DELETE\n"
    ++ lit "            "
chat_sql toggle_mute =
    lit "\n                UPDATE chat_members\n"
    ++ lit "                SET muted_until = CASE\n"
    ++ lit "                    WHEN muted_until IS NULL OR muted_until < NOW()\n"
    ++ lit "                    THEN NOW() + INTERVAL '1 year'\n"
    ++ lit "                    ELSE NULL\n"
    ++ lit "                END\n"
    ++ lit "                WHERE chat_id = $1 AND user_id = $2\n"
    ++ lit "            "
chat_sql search_people =
    lit "\n                SELECT id, username, display_name, avatar_url\n"
    ++ lit "                FROM users\n"
    ++ lit "                WHERE (username ILIKE $1 OR display_name ILIKE $1)\n"
    ++ lit "                  AND is_deleted = false AND id != $2\n"
    ++ lit "                LIMIT 20\n"
    ++ lit "            "
