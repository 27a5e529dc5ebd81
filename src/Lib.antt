-- ===== src/Lib.antt =====
-- The notification system: an HTTP API creates notifications in PostgreSQL and enqueues them on Redis
-- streams; workers take them from there, under a rate limit for each channel, and deliver them through
-- a webhook client behind a circuit breaker; a scheduler moves scheduled and failed notifications back
-- to the queue; status changes are published to WebSocket clients.
--
-- The files, by the code they model (paths from the repository's root):
--   Errors                  internal/domain/errors/errors.go
--   Entity                  internal/domain/entity/notification.go: the enumerations (Channels,
--                           Priorities, Statuses), the record (Struct), Validate (Validation)
--   Postgres                internal/infrastructure/postgres/notification_repository.go: rows and JSON
--                           (Row), the server's promises (Server), WHERE and SET clauses (Clauses),
--                           the methods (Notifications, Transactions, Listing)
--   Repository              internal/domain/repository/notification_repository.go, as a contract
--                           that Postgres fills (Repository/OfPostgres)
--   Ports                   internal/domain/queue/queue.go, internal/infrastructure/redis/pubsub.go
--   Streams                 internal/infrastructure/redis/queue.go: Enqueue, Dequeue, Ack, EnsureStreams;
--                           Streams/Ports makes them the producer and the consumer of the others
--   NotificationService     internal/service/notification_service.go
--   Worker                  internal/worker/processor.go: Process and calculateNextRetry
--   Pool                    internal/worker/pool.go: the loop of a worker, the workers that are started
--   Scheduler               internal/scheduler/scheduler.go: one tick of each ticker, and the tickers' loops
--   Hub                     internal/delivery/websocket/hub.go: registration, broadcast, Stop
--   Handler                 internal/delivery/handler/notification_handler.go: mapDomainError,
--                           parsePagination; the handlers (Notifications);
--                           internal/delivery/handler/template_handler.go (Templates);
--                           internal/delivery/handler/health_handler.go (Health)
--   Config                  internal/config/config.go
--   Template                internal/domain/entity/template.go, internal/template/engine.go,
--                           internal/service/template_service.go;
--                           internal/infrastructure/postgres/template_repository.go (Store)
--   Breaker                 internal/infrastructure/httpclient/circuit_breaker.go
--   Webhook                 internal/infrastructure/httpclient/client.go, and the Send of the circuit
--                           breaker around it (Guarded)
--   RateLimiter             internal/infrastructure/redis/rate_limiter.go
--   System                  cmd/api/main.go: the wiring, and runs of what reaches it from outside
--   Prelude, Result         shared names and the result type
--   Examples                concrete servers, queues and runs
--
-- The parts meet at records of operations and laws. NotificationRepository is filled by Postgres,
-- Producer and Consumer by Streams, DeliveryClient by Webhook behind the Breaker; the service, the
-- processor, the scheduler and the handlers take these records, so that what is shown of them holds
-- of every such implementation. System puts them over one state.
--
-- A method that changes state is a function from the state to its result and the new state, named as
-- in the source; an `error` is a value of Error, or none for nil. A UUID and an instant are natural
-- numbers. Errors keep their chain of wraps; the text of a wrap is shortened where the source prints an
-- identifier, or the kind of fetch, into it. Integers are naturals where the source never makes them
-- negative, and the counters stay far below 2^63.
--
-- PostgreSQL is the record Postgres.Server.Server, whose laws say what one statement does to the table,
-- that a failed statement or a rollback changes nothing, and that IDs and idempotency keys are unique.
-- A commit whose reply is lost is not modelled. The transactions run one after the other, which
-- FOR UPDATE SKIP LOCKED approximates. The templates have a server of their own kind, and the reads of
-- List another (Reader), which takes a statement with its numbered parameters. JSON, net/mail, net/http,
-- gin's binding and the template engine are parameters.
-- Redis runs a Lua script atomically; a call of it may fail before or after the script ran.
-- The token bucket counts thousandths exactly where Lua rounds to doubles. The columns of time hold whole
-- microseconds, so that an instant that is written loses its nanoseconds.
-- Random jitter is a draw among 2^53, in exact arithmetic where the source rounds to float64.
-- The streams of Redis have the laws of XADD, XREADGROUP and XACK for the one consumer group; a call that
-- fails may have been carried out.
-- There is no fuel: the loops follow a list, such as the rounds of Wait or of a worker.
--
-- Not modelled: logging, metrics, tracing, the routes and the middleware,
-- the WebSocket connections, and the construction of clients, which are I/O or calls
-- of libraries; the generated API documentation; the listing of the templates.
pub mod Breaker
pub mod Config
pub mod Entity
pub mod Errors
pub mod Examples
pub mod Handler
pub mod Hub
pub mod NotificationService
pub mod Pool
pub mod Ports
pub mod Postgres
pub mod Prelude
pub mod RateLimiter
pub mod Repository
pub mod Result
pub mod Scheduler
pub mod Streams
pub mod System
pub mod Template
pub mod Webhook
pub mod Worker
