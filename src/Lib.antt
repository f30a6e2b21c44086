-- ===== src/Lib.antt =====
-- Verification of the chat backend under backend/app: accounts and sessions, channels and their
-- memberships, messages, presence and WebSockets, rate limits and cursor pagination.
--
-- Parts and files:
-- - Prelude: shared names, tables as lists of rows (Tables, OrderBy, Keys), texts as lists of code
--   points, results of fallible code.
-- - Db: the rows and constraints of backend/app/models and
--   backend/alembic/versions/0001_initial_schema.py. One `Db` is the state that a session sees; an
--   INSERT is a function that answers the new tables or the violated constraint. Db/WellFormed: the
--   constraints as an invariant.
-- - Channels: creation, view and browsing, from backend/app/services/channels.py.
-- - Members: join, leave and the succession of a sole admin, from the same file. Succession is
--   `run_sole_admin_succession`, a loop over the channels that the departing user administers.
-- - MemberAdmin: the three mutations of an admin, and the list of members. The common start of the
--   three (channel, admins, caller) is `admin_gate`. Reachable: all operations as one relation.
-- - ChannelRoutes: the routes of backend/app/api/channels.py that change the tables, over Channels,
--   Members and MemberAdmin, with the events of backend/app/services/channel_events.py.
-- - MessageRoutes: the routes of backend/app/api/messages.py over Messages and Pagination, with the
--   status of every error. Retries, Statuses, Failures and Pages hold what is
--   proved of them.
-- - Pagination: backend/app/core/pagination.py, with base64 and the packed bytes written out.
-- - Messages: backend/app/services/messages.py, with the topics of backend/app/core/redis_keys.py and
--   the events of backend/app/services/message_events.py. The state is a `World`: the tables, the
--   idempotency claims in Redis and the events published so far. MemberAdmin and Messages use Db for
--   the tables, and the histories of Messages use Pagination for their pages. Content, Media, Send,
--   Batch, Deliver, Revise and History hold the code: the content rule, attachments, the claim and the
--   transaction that both sends share, the checks and row of each, edits and deletions, and the
--   pages. Binding, Visible, Claims, Waits, Quiet, Fits and Authors hold what is proved of them.
-- - Sessions: backend/app/services/sessions.py, login and refresh of backend/app/services/auth.py,
--   the verdict cache of backend/app/services/session_revocation.py and `require_auth` of
--   backend/app/core/deps.py. The state `Auth` is the tables, the sessions and the cache. Steps holds
--   the requests as a relation, with the routes that bust the cache; Effects what each does to one
--   session; Revoked, Rotation, Login and Stale what is proved.
-- - Passwords: backend/app/core/password_policy.py, backend/app/services/password_reset.py and
--   backend/app/api/password.py, over Sessions.
-- - Invites: backend/app/services/invites.py, backend/app/services/registration.py and their routes.
-- - Admin: backend/app/services/admin_users.py and backend/app/api/admin.py, over Sessions and the
--   succession of Members.
-- - Presence: backend/app/services/presence.py, the scripts as functions on a key.
-- - Ws: backend/app/ws. One instance is a `WsWorld`: the tables and caches, its registry, and what it
--   sent. Loop is router.py turn by turn, Relay the last hop of fanout.py; Registry, Topics,
--   Recipients, Reaping and Revalidation hold what is proved. Ws uses Sessions for the identity,
--   Presence for the reference count, RateLimit for the frames and the topics of Messages.
-- - RateLimit: backend/app/core/rate_limit.py and backend/app/ws/rate_limit.py.
-- - Examples: runs on a small database.
--
-- Concurrency. `join_public_channel`, `add_channel_member`, `leave_channel` and `register` take
-- two databases: the one that their first reads see and the one at their INSERT or DELETE, with
-- what others committed between. The changes of a role and the removals lock the admin rows before
-- they read further, and are one step. A send takes the function `others`, which says what other
-- requests do to the world at each wait: after the first look at the claim, before each attempt at
-- it, between the claim and the transaction, after a lost claim, and at each sleep of the
-- resolution. A transaction that raises leaves the tables as they were. Requests on sessions,
-- invites, presence and connections are steps of a relation, in any order; Sessions/Stale splits
-- the check of a session into its two halves. The loop of a connection meets a new world at each
-- turn.
--
-- Bounds. Ids are numbers below 2 ^ 128, timestamps microseconds since the year 1; the number of
-- attempts and rounds is that of the code (8 and 3), so no loop needs further fuel. A walk over pages
-- is given a number of requests, and that of the rows is enough. Buckets count in microseconds: each
-- refill rate of the policies is one token in a whole number of them. What the script stores is read
-- back through two arguments, since Lua's `tostring` keeps 14 digits: a tenth of a millisecond of a
-- time between 2001 and 2286. The rounding of doubles, below a microsecond, is left out.
--
-- Arguments of the model: new ids and tokens, the current time, the password and token hashes, the
-- decoded claims of an access token, NFC, `isalpha` and `isdigit`, the format of an e-mail address,
-- what Lua's `tostring` keeps of a number, and flags that say whether Redis answers, a mail is
-- delivered or a socket takes a frame.
--
-- Not modelled: the time to live of a claim; a Redis that fails in the middle of a send; the lost
-- publish of a message when Redis is down; the tie between members with one `joined_at`, which the
-- code leaves to Postgres and the model to the table's order; reads that only list
-- (`list_my_channels`, the lists of invites and users); the parsing of request bodies and the rate
-- limits that routes ask for; the profile, media storage, configuration and start-up; the
-- reconnection of the relay, and the JSON of frames and envelopes.
pub mod Prelude
pub mod Db
pub mod Channels
pub mod Members
pub mod MemberAdmin
pub mod Pagination
pub mod Messages
pub mod RateLimit
pub mod Sessions
pub mod Presence
pub mod Ws
pub mod Admin
pub mod Passwords
pub mod Invites
pub mod ChannelRoutes
pub mod MessageRoutes
pub mod Examples
