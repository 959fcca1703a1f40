-- ===== src/Lib.antt =====
-- The money path of gosplash, a photo stock that sells licenses: the wallet, the saga that places
-- an order, what the services share for calls between them, and how their events reach Kafka and
-- the handlers of other services.
--
-- The wallet (services/wallet/internal) keeps accounts, an append-only book of ledger entries,
-- reservations, the answers of finished operations, and an outbox of events. Wallet/Domain has the
-- types of domain; Wallet/Tx the transaction, `WithinTx` of adapters/pg/store.go, as a state and
-- error monad over the tables of adapters/pg/rows.go; Wallet/Store one function for each SQL
-- statement of adapters/pg/store.go; Wallet/Locks `lockAccountsSorted`; Wallet/Reserve,
-- Wallet/Commit and Wallet/Release the methods of app/service.go, each cut at its branches;
-- Wallet/Server the handlers and `toDomainStatus` of adapters/grpc; Wallet/Api a request as data,
-- and runs of requests. An Effect module says what a successful method has done, Api/Step and
-- Api/Change turn a request into a step of the tables, and Tables, Books, Solvency, History,
-- Replay, Payments and Effects argue from the steps alone; Progress runs the code on a database
-- that accepts every statement.
--
-- The saga (services/order/internal/adapters/temporal) asks for eight activities in turn.
-- Order/Saga has `PlaceOrderWorkflow` and `failOrder` over a function that carries out one activity
-- with its retries; Order/Saga/Traces is about the histories it leaves, Order/Saga/Atomic about
-- what the participants hold at its end, by the ids and sums that the activities name.
-- Order/Activities has one attempt at each activity and `classifyGRPCError`, from
-- adapters/temporal/activities.go. In front of the saga stands Order/Placement, `OrderService` of
-- services/order/internal/app/order_service.go. The ports that these take are records of functions
-- on a state of any type. Order/Idempotency is the store behind `Begin` and `Complete`,
-- services/order/internal/adapters/idempotency/store.go, on Redisx/Idempotency,
-- pkg/redisx/idempotency.go; Idempotency/Orders puts `PlaceOrder` on it. `Begin` of Redis calls
-- itself when a key vanishes between its two commands; it does so at most as often as the deadline
-- of the context allows, a parameter, after which it fails as a command after the deadline does.
-- There a command without an answer is an error; that the client may send it again is not modelled.
--
-- Redisx/Lock is pkg/redisx/lock.go, `Acquire`, the watchdog and `Unlock`, under a list of events;
-- a command that has no answer is sent again, as often as MaxRetries of client.go allows, and
-- others may act before it is. Lock/Owner, Steps, Counts and Answer are about single steps,
-- Lock/Exclusive about a lock from `Acquire` to `Unlock`, and Lock/Watchdog about ticks in a row.
--
-- Rpc/Status is pkg/grpcx/errors.go and Rpc/Retry is pkg/resilience/retry.go. They meet the wallet
-- and the saga in Wallet/Server/Refusals.
--
-- Outbox is pkg/outbox: Outbox/Ident the name of a service's table, Outbox/Row a row and `Write`,
-- Outbox/Relay one poll, `pollShard`, cut at its statements. Outbox/Relay/Batch and Poll say what
-- any poll does, Drain what one does that meets no failure, Overtaken what a refused record does to
-- the order, and Outbox/Delivery follows an event from `Write` to its record. The shard is the
-- table of one service in one database.
--
-- Kafka is pkg/kafkax: Kafka/Record, Headers, Failing and Backoff are the constants of kafka.go and
-- topics.go, the headers of retry.go and dlq.go, errors.go and backoff.go; Kafka/Runtime what a
-- consumer takes from its surroundings; Kafka/Consumer `Consumer.processOne` and
-- Kafka/RetryConsumer `RetryConsumer.processOne`. Consumer/Outcome, Attempts and Passed are about
-- the first, RetryConsumer/Rounds and Travels about the second and about both together. A handler
-- is a function on a state of any type. Kafka/Engine is engine.go, one goroutine for each
-- partition: a list of events stands for the order in which callbacks, polls and goroutines act.
-- Engine/Fifo follows the records of a goroutine; Engine/Counts and Engine/Single count goroutines.
--
-- Catalog is the index of listings, where two such handlers meet the outbox: Catalog/Db is
-- services/catalog/internal/adapters/pg/tx.go with `Claim` of pkg/idempotency, and Catalog/Indexer
-- the handlers of services/catalog/internal/app/indexer.go. Indexer/Writes is about their work,
-- Indexer/Claimed about a transaction, and Indexer/Once about deliveries in a row. Catalog/Licenses
-- is adapters/pg/license_repository.go, `Grant` and `Revoke`, between whose statements other calls
-- may come, and whose SELECTs a replica may answer that is behind (pkg/dbx/db.go); Licenses/Once
-- compares the answers of repeated grants. Catalog/Feed is the feed of published listings: `List`
-- of adapters/pg/listing_repository.go with `trimPage`, under `ListListings` of
-- adapters/grpc/server.go, on the cursors of adapters/pg/cursor.go in Catalog/Cursor. Feed/Order is
-- about the query, Feed/Pages about one page, and Feed/Complete about a reader (Feed/Reading) that
-- follows the cursors; its fuel is the length of the feed.
--
-- Search is the index that follows the catalog: Search/Bulk is the batches of
-- services/search/internal/adapters/es/bulk_indexer.go, again under a list of events, with the
-- errors of adapters/es/errors.go in Search/Errors; Search/Indexer is the handler of
-- app/indexer.go. Bulk/Flush is about one flush, Bulk/Answers about all of them, Bulk/Stopped about
-- calls after `Close`.
--
-- How the code is modelled. Tables are lists, newest row first. Transactions run one after another,
-- as the row locks make them; any statement and any COMMIT may fail, by a function of the number of
-- statements sent so far, and a failed transaction restores the tables, so that a COMMIT whose
-- answer is lost is one that did not happen. A record that the client reports as failed counts as
-- not taken by the broker. Whatever comes from a library is a field of `Env`: fresh uuids, the
-- order of the uuid column, and `encoding/json` on stored answers, of which only the round trip is
-- assumed, and only where a theorem names it. Sums are integers; int64 arithmetic of the service is
-- wrapped to 64 bits, and a SUM out of that range fails to scan. No recursion but that of `Begin`
-- in Redis needs fuel: loops go over lists, and the loop of `Retrier.Do` over the attempts that are
-- left, MaxAttempts - 1 after the first.
--
-- Left out: CreatedAt and the reason of a release, which no code reads back; the envelope around an
-- outbox event; the texts of errors, but as a parameter; the times of licenses; metrics, logs and
-- tracing. The rest of catalog and search, and media, analytics and thumbnail-worker, the rest of
-- pkg/redisx, the loops that poll and the producer of pkg/kafkax, the other adapters behind the
-- ports of the order service, and Temporal itself are not modelled.
pub mod Prelude
pub mod Rpc
pub mod Wallet
pub mod Order
pub mod Kafka
pub mod Outbox
pub mod Redisx
pub mod Catalog
pub mod Search
