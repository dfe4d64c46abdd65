-- ===== src/Api/Statements/Schema.antt =====
-- The statements by which HttpApi::run_migrations of src/http_api.cpp makes the tables.
use apk.Base.{List, [], ◌∷◌, ◌++◌}
use apk.Base.Text.{Str, lit}

unfoldable pub extensions_and_users : List Str
extensions_and_users =
    (lit "CREATE EXTENSION IF NOT EXISTS pgcrypto")
    ∷ (lit "CREATE EXTENSION IF NOT EXISTS \"uuid-ossp\"")
    ∷ (lit "\n            CREATE TABLE IF NOT EXISTS users (\n"
        ++ lit "                id               UUID PRIMARY KEY DEFAULT uuid_generate_v4(),\n"
        ++ lit "                username         VARCHAR(255) UNIQUE NOT NULL,\n"
        ++ lit "                email            VARCHAR(255) UNIQUE NOT NULL,\n"
        ++ lit "                phone_number     VARCHAR(20)  UNIQUE,\n"
        ++ lit "                password_hash    VARCHAR(255) NOT NULL DEFAULT '',\n"
        ++ lit "                password_salt    VARCHAR(255) NOT NULL DEFAULT '',\n"
        ++ lit "                first_name       VARCHAR(100),\n"
        ++ lit "                last_name        VARCHAR(100),\n"
        ++ lit "                display_name     VARCHAR(100),\n"
        ++ lit "                status_text      VARCHAR(255),\n"
        ++ lit "                avatar_url       TEXT,\n"
        ++ lit "                bio              TEXT,\n"
        ++ lit "                status           VARCHAR(50)  DEFAULT 'offline',\n"
        ++ lit "                public_key       TEXT         NOT NULL DEFAULT '',\n"
        ++ lit "                public_key_signature TEXT,\n"
        ++ lit "                encryption_algorithm VARCHAR(50) DEFAULT 'chacha20poly1305',\n"
        ++ lit "                two_factor_enabled BOOLEAN    DEFAULT false,\n"
        ++ lit "                two_factor_secret  VARCHAR(255),\n"
        ++ lit "                is_verified      BOOLEAN      DEFAULT false,\n"
        ++ lit "                is_blocked       BOOLEAN      DEFAULT false,\n"
        ++ lit "                is_deleted       BOOLEAN      DEFAULT false,\n"
        ++ lit
            "                created_at       TIMESTAMP WITH TIME ZONE DEFAULT CURRENT_TIMESTAMP,\n"
        ++ lit
            "                updated_at       TIMESTAMP WITH TIME ZONE DEFAULT CURRENT_TIMESTAMP,\n"
        ++ lit "                last_seen        TIMESTAMP WITH TIME ZONE\n"
        ++ lit "            )\n"
        ++ lit "        ")
    ∷ (lit "CREATE INDEX IF NOT EXISTS idx_users_username ON users(username)")
    ∷ (lit "CREATE INDEX IF NOT EXISTS idx_users_email    ON users(email)")
    ∷ (lit "CREATE INDEX IF NOT EXISTS idx_users_status   ON users(status)")
    ∷ (lit "\n            CREATE TABLE IF NOT EXISTS otp_codes (\n"
        ++ lit "                email       VARCHAR(255) PRIMARY KEY,\n"
        ++ lit "                code_hash   VARCHAR(128) NOT NULL,\n"
        ++ lit "                attempts    INT          NOT NULL DEFAULT 0,\n"
        ++ lit "                expires_at  TIMESTAMP WITH TIME ZONE NOT NULL,\n"
        ++ lit "                created_at  TIMESTAMP WITH TIME ZONE DEFAULT CURRENT_TIMESTAMP\n"
        ++ lit "            )\n"
        ++ lit "        ")
    ∷ (lit "ALTER TABLE users ADD COLUMN IF NOT EXISTS display_name VARCHAR(100)")
    ∷ (lit "ALTER TABLE users ADD COLUMN IF NOT EXISTS status_text  VARCHAR(255)")
    ∷ []

unfoldable pub chat_tables : List Str
chat_tables =
    (lit "\n            CREATE TABLE IF NOT EXISTS chats (\n"
      ++ lit "                id          UUID PRIMARY KEY DEFAULT uuid_generate_v4(),\n"
      ++ lit
          "                chat_type   VARCHAR(20) NOT NULL CHECK (chat_type IN ('private', 'group', 'channel')),\n"
      ++ lit "                name        VARCHAR(255),\n"
      ++ lit "                description TEXT,\n"
      ++ lit "                avatar_url  TEXT,\n"
      ++ lit "                created_by  UUID REFERENCES users(id) ON DELETE SET NULL,\n"
      ++ lit "                created_at  TIMESTAMP WITH TIME ZONE DEFAULT CURRENT_TIMESTAMP,\n"
      ++ lit "                updated_at  TIMESTAMP WITH TIME ZONE DEFAULT CURRENT_TIMESTAMP\n"
      ++ lit "            )\n"
      ++ lit "        ")
    ∷ (lit "\n            CREATE TABLE IF NOT EXISTS chat_members (\n"
        ++ lit "                id          UUID PRIMARY KEY DEFAULT uuid_generate_v4(),\n"
        ++ lit "                chat_id     UUID NOT NULL REFERENCES chats(id) ON DELETE CASCADE,\n"
        ++ lit "                user_id     UUID NOT NULL REFERENCES users(id) ON DELETE CASCADE,\n"
        ++ lit "                role        VARCHAR(20) NOT NULL DEFAULT 'member',\n"
        ++ lit "                can_admin   BOOLEAN NOT NULL DEFAULT false,\n"
        ++ lit "                joined_at   TIMESTAMP WITH TIME ZONE DEFAULT CURRENT_TIMESTAMP,\n"
        ++ lit "                left_at     TIMESTAMP WITH TIME ZONE,\n"
        ++ lit "                muted_until TIMESTAMP WITH TIME ZONE,\n"
        ++ lit "                UNIQUE(chat_id, user_id)\n"
        ++ lit "            )\n"
        ++ lit "        ")
    ∷ (lit "\n            CREATE TABLE IF NOT EXISTS messages (\n"
        ++ lit "                id           UUID PRIMARY KEY DEFAULT uuid_generate_v4(),\n"
        ++ lit
            "                chat_id      UUID NOT NULL REFERENCES chats(id) ON DELETE CASCADE,\n"
        ++ lit "                sender_id    UUID REFERENCES users(id) ON DELETE SET NULL,\n"
        ++ lit "                reply_to_id  UUID REFERENCES messages(id) ON DELETE SET NULL,\n"
        ++ lit "                content      TEXT NOT NULL,\n"
        ++ lit "                content_type VARCHAR(20) DEFAULT 'text',\n"
        ++ lit "                is_edited    BOOLEAN DEFAULT false,\n"
        ++ lit "                is_pinned    BOOLEAN DEFAULT false,\n"
        ++ lit "                is_deleted   BOOLEAN DEFAULT false,\n"
        ++ lit "                created_at   TIMESTAMP WITH TIME ZONE DEFAULT CURRENT_TIMESTAMP,\n"
        ++ lit "                updated_at   TIMESTAMP WITH TIME ZONE DEFAULT CURRENT_TIMESTAMP\n"
        ++ lit "            )\n"
        ++ lit "        ")
    ∷ (lit "\n            CREATE TABLE IF NOT EXISTS message_delivery (\n"
        ++ lit "                id          UUID PRIMARY KEY DEFAULT uuid_generate_v4(),\n"
        ++ lit
            "                message_id  UUID NOT NULL REFERENCES messages(id) ON DELETE CASCADE,\n"
        ++ lit
            "                recipient_id UUID NOT NULL REFERENCES users(id) ON DELETE CASCADE,\n"
        ++ lit "                status      VARCHAR(20) DEFAULT 'sent',\n"
        ++ lit "                delivered_at TIMESTAMP WITH TIME ZONE,\n"
        ++ lit "                read_at      TIMESTAMP WITH TIME ZONE,\n"
        ++ lit "                UNIQUE(message_id, recipient_id)\n"
        ++ lit "            )\n"
        ++ lit "        ")
    ∷ (lit "\n            CREATE TABLE IF NOT EXISTS reactions (\n"
        ++ lit "                id          UUID PRIMARY KEY DEFAULT uuid_generate_v4(),\n"
        ++ lit
            "                message_id  UUID NOT NULL REFERENCES messages(id) ON DELETE CASCADE,\n"
        ++ lit "                user_id     UUID NOT NULL REFERENCES users(id) ON DELETE CASCADE,\n"
        ++ lit "                emoji       VARCHAR(10) NOT NULL,\n"
        ++ lit "                created_at  TIMESTAMP WITH TIME ZONE DEFAULT CURRENT_TIMESTAMP,\n"
        ++ lit "                UNIQUE(message_id, user_id, emoji)\n"
        ++ lit "            )\n"
        ++ lit "        ")
    ∷ []

unfoldable pub channel_tables : List Str
channel_tables =
    (lit "\n            CREATE TABLE IF NOT EXISTS contacts (\n"
      ++ lit "                id          UUID PRIMARY KEY DEFAULT uuid_generate_v4(),\n"
      ++ lit "                user_id     UUID NOT NULL REFERENCES users(id) ON DELETE CASCADE,\n"
      ++ lit "                contact_id  UUID NOT NULL REFERENCES users(id) ON DELETE CASCADE,\n"
      ++ lit "                nickname    VARCHAR(255),\n"
      ++ lit "                is_favorite BOOLEAN DEFAULT false,\n"
      ++ lit "                is_blocked  BOOLEAN DEFAULT false,\n"
      ++ lit "                created_at  TIMESTAMP WITH TIME ZONE DEFAULT CURRENT_TIMESTAMP,\n"
      ++ lit "                UNIQUE(user_id, contact_id)\n"
      ++ lit "            )\n"
      ++ lit "        ")
    ∷ (lit "\n            CREATE TABLE IF NOT EXISTS channels (\n"
        ++ lit "                id               UUID PRIMARY KEY DEFAULT uuid_generate_v4(),\n"
        ++ lit "                username         VARCHAR(64)  UNIQUE NOT NULL,\n"
        ++ lit "                name             VARCHAR(255) NOT NULL,\n"
        ++ lit "                description      TEXT,\n"
        ++ lit "                avatar_url       TEXT,\n"
        ++ lit "                is_public        BOOLEAN      NOT NULL DEFAULT true,\n"
        ++ lit "                subscriber_count INT          NOT NULL DEFAULT 0,\n"
        ++ lit "                owner_id         UUID REFERENCES users(id) ON DELETE SET NULL,\n"
        ++ lit
            "                created_at       TIMESTAMP WITH TIME ZONE DEFAULT CURRENT_TIMESTAMP,\n"
        ++ lit
            "                updated_at       TIMESTAMP WITH TIME ZONE DEFAULT CURRENT_TIMESTAMP\n"
        ++ lit "            )\n"
        ++ lit "        ")
    ∷ (lit "\n            CREATE TABLE IF NOT EXISTS channel_subscribers (\n"
        ++ lit "                id          UUID PRIMARY KEY DEFAULT uuid_generate_v4(),\n"
        ++ lit
            "                channel_id  UUID NOT NULL REFERENCES channels(id) ON DELETE CASCADE,\n"
        ++ lit
            "                user_id     UUID NOT NULL REFERENCES users(id)    ON DELETE CASCADE,\n"
        ++ lit "                role        VARCHAR(32) NOT NULL DEFAULT 'subscriber',\n"
        ++ lit "                joined_at   TIMESTAMP WITH TIME ZONE DEFAULT CURRENT_TIMESTAMP,\n"
        ++ lit "                UNIQUE(channel_id, user_id)\n"
        ++ lit "            )\n"
        ++ lit "        ")
    ∷ (lit "\n            CREATE TABLE IF NOT EXISTS channel_posts (\n"
        ++ lit "                id          UUID PRIMARY KEY DEFAULT uuid_generate_v4(),\n"
        ++ lit
            "                channel_id  UUID NOT NULL REFERENCES channels(id) ON DELETE CASCADE,\n"
        ++ lit "                author_id   UUID REFERENCES users(id) ON DELETE SET NULL,\n"
        ++ lit "                content     TEXT NOT NULL,\n"
        ++ lit "                media_urls  TEXT[] DEFAULT '{}',\n"
        ++ lit "                is_paid     BOOLEAN NOT NULL DEFAULT false,\n"
        ++ lit "                created_at  TIMESTAMP WITH TIME ZONE DEFAULT CURRENT_TIMESTAMP\n"
        ++ lit "            )\n"
        ++ lit "        ")
    ∷ []
