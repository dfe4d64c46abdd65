-- ===== src/Lib.antt =====
-- Models and proofs of the backend of the APK2 messenger.
--
-- The program is a server: `HttpApi` (src/http_api.cpp) takes HTTP requests and websocket frames
-- and checks tokens with `JwtHelper`; `MessengerServer` (src/messenger_server.cpp) handles the
-- events of websocket clients over a `ConnectionPool` (src/websocket_connection.cpp) and a
-- `RedisClient` (src/redis_client.cpp); `E2EEncryption` (src/e2e_encryption.cpp) has the formats
-- of messages and keys.
--
-- Connection models class WebSocketConnection, and Connection/Queue the loop of
-- HttpApi::route_websocket that sends its queue. Pool models class ConnectionPool; below it stand
-- the invariant (Sound, Preserve), lookup by name (Presence), broadcasts (Delivery) and the
-- removal of idle connections (Cleanup). Encryption models the hex functions and the serialization
-- of EncryptedMessage, encryption and decryption (Cipher), keys and the double ratchet (Keys,
-- Ratchet), and the functions that call libsodium alone (Sodium). Keys/Peers is about the secrets
-- of two peers, Ratchet/Prefix about what the keys of a ratchet depend on. Jwt models base64url
-- and JwtHelper of src/http_api.cpp, and Http the authentication of a request by HttpApi. Redis
-- models class RedisClient: Connect has the pool and the connecting, Replies what is read from an
-- answer, and Commands the operations. Definitions carry the names of the functions that they
-- translate.
--
-- Server models class MessengerServer over these: Handlers has the events of a client's connection
-- and of Redis, Events the messages of a client, and Lifecycle start, stop and the status reports;
-- Guards, Login and Sound have their theorems; Sound/Reach has the sequences of events that a
-- server goes through. Server/Websocket models HttpApi::route_websocket over it: the handlers of a
-- websocket, and the loop that sends what is queued for its client, which Sent is about.
--
-- Pg models class PgDb of include/http_api.hpp over libpq. Api models the routes of HttpApi over
-- it: its state, the try blocks and the check of the caller in Api itself, the routes of one-time
-- passwords in Otp, of accounts in Accounts and Profile, of chats in Chats and Messages, and the
-- others in Contacts and Channels; Routes has the table of routes, the health check and
-- run_migrations, and Start the constructor with its thread, which Start/Stuck is about. The texts
-- of the SQL statements stand in Statements. Access and Injection say what the routes do to the
-- database; Otp/Table has an abstract machine for a one-time password, which Otp/Refinement,
-- Otp/Lockout and Otp/Delivery are about; Otp/SignIn follows a token from its response to the
-- requests that bear it, over what Redis/Commands/Store relies on of a Redis that keeps texts for a
-- time. Chats/Table has what is relied on of the table of members, which Chats/Group,
-- Chats/Membership and Chats/Malformed are about. Main models the reading of the
-- settings by src/main.cpp, how they are handed to both servers (Wiring), its loop that starts
-- MessengerServer (Servers), and include/database_config.hpp. Redis/Password says what a Redis with
-- a password does.
--
-- Base has the tests on numbers, lists, texts (lists of byte values) and outcomes; Key and Map are
-- std::map as an association list in key order; Std has std::stoi, std::to_string, the searches of
-- std::string and the byte order of memcpy on a little-endian machine.
--
-- A method of ConnectionPool holds its mutex throughout and is one step on a record; a null
-- dereference is `none`. A call of RedisClient or MessengerServer ends in an `Outcome`: a result,
-- an exception, a wait for ever on a mutex that this thread holds, or one that waits for ever
-- itself, or undefined behaviour. Unsigned numbers wrap at 2 ^ 32 and 2 ^ 64 where the code
-- computes with them. The loops of Connection/Queue and Server/Websocket run on fuel; one round
-- more than there are messages is enough. All other loops are structural; the rounds of
-- RedisClient::connect are counted by max_retries, as in the code.
--
-- nlohmann::json (record Json, with the laws JsonLaws), HMAC-SHA256 (record Hmac), hiredis (record
-- Hiredis, with what is relied on of a server in Store and Guarded), libpq (record Libpq, with
-- what is relied on of two tables in OtpTable and ChatTable), the patterns of std::regex (in record
-- Platform) and libsodium's key exchange (Sodium with KxLaws), signatures (Signing), cipher (Aead
-- with AeadLaws) and password hash (Pwhash with PwhashLaws, PasswordHash) are parameters. OtpTable
-- and ChatTable keep to the types of the columns that run_migrations declares: what is no UUID, or
-- too long, is not promised to be stored. The clock is an argument of each function that reads it;
-- it stands still during an event of the server.
--
-- Not modelled: Crow, which finds the route of a request and turns an exception of a handler into
-- a response; the signal handlers of src/main.cpp; waiting and logging; and
-- src/redis_client_old.cpp, which is not built. Two threads are not interleaved within a method or
-- a request, and the clock of the database stands still during a request.
pub mod Base
pub mod Key
pub mod Std
pub mod Map
pub mod Connection
pub mod Pool
pub mod Encryption
pub mod Json
pub mod Jwt
pub mod Redis
pub mod Server
pub mod Http
pub mod Pg
pub mod Api
pub mod Main
