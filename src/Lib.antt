-- ===== src/Lib.antt =====
-- The delivery core of the CryptoPulse Telegram bot, a Go program that keeps its work in PostgreSQL.
--
-- The parts. Telegram's updates are saved into an inbox (internal/app/telegram_inbox.go), claimed by the
-- workers of their shard and processed; what they change is ordered by versions
-- (internal/app/telegram_mutation_order.go) and made by the handlers of commands and buttons
-- (internal/app/telegram_handlers.go, internal/app/price_alert_handlers.go), in one transaction with the
-- status of the update. The replies go into an outbox
-- (internal/app/telegram_reply_outbox.go), the scheduled notifications and price alerts into another
-- (internal/app/notification_outbox.go). Workers claim a row with a token and a lease, send it under the
-- advisory lock of its chat, and end the claim; after a confirmed delivery only the database write is
-- retried (internal/app/sent_finalization.go). A quote that crosses the target of a price alert
-- triggers it and puts its notification into the outbox (internal/app/price_alerts.go); the quotes are
-- fetched from the exchange, persisted and cached (internal/app/pricing.go). Old final rows are deleted
-- (internal/app/retention.go). The routes of internal/app/http_handlers.go, behind the limits of
-- internal/httpserver/httpserver.go, save the updates that Telegram posts and create the scheduled
-- notifications of a cron call; internal/storage opens the pools, applies the migrations, checks the
-- schema and gives locks back. Run (internal/app/run.go) opens and starts all of it, and shuts it down in
-- order. The parts meet in the tables and in the locks.
--
-- The files:
--   Prelude, Bytes (Equality), GoError: numbers and lists, text as bytes, Go's errors as a data type.
--   Schema, Table: the tables of migrations/ row by row, and SQL statements as functions on lists.
--   Update, Strconv (Printing): Telegram's updates and what their processing collects; strconv.Atoi.
--   Float (Rounding): the float64 arithmetic of the alerts, on bit patterns.
--   Session (Rules, Steps, Quiet): transactions, statements, locks and sends as calls that can fail.
--   Workers (Bounds): internal/workers/policy.go, and telegramRetryDelay.
--   Telegram, App: internal/telegram, internal/app/telegram_errors.go, and the App struct.
--   Pricing: internal/app/pricing.go, with Cache, Fetch, Text and Ticker; Persisting, Cached, Warmed and
--     Stale are about them.
--   SentFinalization (Attempts): the retries of the final write.
--   Outbox: the claim that both outboxes share; Outcome and Eligible are about it.
--   Polling: the loops of alertWorker, replyWorker and updateWorkerPartition; Locked, Delivers,
--     Wanted and Sends are about them.
--   Notification: Jobs (the SQL), Claim, Finish, Process, Create are the code; Moves is the abstract
--     system of all sessions; Outcome, Claiming, Delivery, Message, Sending, Fencing, Invariant and
--     OneScheduled are about them.
--   Reply: Jobs, Finish, Process are the code; Moves, Order, Claiming, Delivery, Message and
--     Sending are about it.
--   Inbox: Partition, Jobs, Save, Claim, Finish, Process are the code; Saving, Claiming, Completing,
--     GivingUp, Answering and Atomicity are about it.
--   Mutation (Convergence): the versions of settings.
--   Handlers: Texts (keyboards), Subscribers (the SQL), Replies (the collector), Alerts and Updates are
--     internal/app/price_alert_handlers.go and internal/app/telegram_handlers.go; Quiet and Buttons are
--     about them.
--   Alert: Input, Rows (the SQL), Create, Crossings are internal/app/price_alerts.go; Fires,
--     OneShot, Limit and Captured are about it.
--   Config (Valid): internal/config/config.go.
--   Http: internal/app/http_handlers.go, with Endpoints and Routes; Secrets, Shutdown, Acknowledged,
--     Draining and Exclusive are about them.
--   HttpServer (Address): internal/httpserver/httpserver.go; Budget and Clients are about it.
--   Runtime: internal/app/run.go, with Starting and Stopping; Started, Stopped and Returns are about
--     them.
--   Storage: internal/storage, with Lock, Migrations and Catalog; Released and Verified are about them.
--   Retention (Cleaner): internal/app/retention.go; Termination, Selection and Pending are about it.
--   Examples: a small database, tests and concrete instances.
--
-- The model. A function of the program is an action on a World: the database, the view of the running
-- transaction, the number of calls made, the locks held, the replies and callback answers collected for
-- the update at hand, the messages and callback answers sent and the counters incremented. What the
-- process does not decide comes from an environment, asked at the number of the call: the clock, the
-- failure of a call, the outcome of a commit (done, refused, or done with its answer lost), what other
-- sessions commit in between, whether a chat's lock is free, the uuids, Telegram's answers, and the cache
-- of prices, which other goroutines write. The decoding of an update's JSON is a function of its payload.
-- The fetching of quotes and the HTTP routes act on a state with the process's cache or its producers
-- beside the world; the exchange's answers, the order in which the goroutines of the coins run, the token
-- buckets of golang.org/x/time/rate, goose and the answers of database/sql are arguments. Until a
-- transaction has written or locked a row, other sessions may commit before each of its statements; from
-- there on none is interleaved before it ends, which stands for the row locks. A statement is atomic.
-- Other sessions are arbitrary, or limited to the moves of Notification/Moves and Reply/Moves where a
-- theorem says so.
--
-- The representation. A time is the number of nanoseconds since Go's zero time, a duration a number of
-- nanoseconds (64 bits with their wrap-around where the code multiplies), a price the bit pattern of
-- its float64, a chat id a signed integer, other ids and uuids natural numbers, text a list of bytes.
-- Labels and languages are strings. A release of a lock gives it back or ends its session.
--
-- Fuel. The loops of the workers, of the ticker of the prices and of the cleaner, which the program runs
-- until its end, have a number of rounds: a variable in what is always so, and one round in the theorem on
-- the progress of a worker. The shutdown (Runtime) is a relation of steps without fuel. The loop of
-- telegramWorkerShardIDs has one round for each shard; a round raises the shard by a positive number of
-- workers, so that 64 rounds are enough (Inbox/Partition has the exact result). The loops over batches of
-- crossings and of expired rows are cut off by a time limit in the code, and by fuel in the model: used-up
-- fuel is the error of the deadline in processPriceAlertCrossings, and no result in drainRetentionBatches,
-- where a unit for each thousand rows and one more are enough if no rows are added meanwhile
-- (Retention/Termination). Counting the halvings of a float64 has 2200 rounds, more than the bits of any
-- product of a finite value with a 64-bit integer, and digits are printed with 20, one more than a 64-bit
-- integer has. Every other loop runs over a list.
--
-- Not modelled: logging, the ticks of the tickers and the time-outs, the sockets and time-outs of
-- net/http, the bodies of HTTP answers, the Prometheus client, the registration of the menu with
-- Telegram, the hash that names a chat's lock, and the I/O of the connections. The translations are an argument, and so are the subtraction
-- and division of float64 in the pricing and the texts that fmt.Sprintf makes of floats and times.
pub mod Prelude
pub mod Bytes
pub mod GoError
pub mod Workers
pub mod Telegram
pub mod Schema
pub mod Table
pub mod Float
pub mod Update
pub mod Strconv
pub mod Session
pub mod App
pub mod Pricing
pub mod SentFinalization
pub mod Outbox
pub mod Notification
pub mod Reply
pub mod Inbox
pub mod Alert
pub mod Retention
pub mod Config
pub mod Storage
pub mod Polling
pub mod Runtime
pub mod Http
pub mod HttpServer
pub mod Mutation
pub mod Handlers
pub mod Examples
