-- ===== src/Lib.antt =====
-- Event ticketing backend: who gets a seat, who may ask for one, and who is told.
--
-- A customer reserves a seat of an event for a while, pays for it, or cancels. Reservations whose
-- deadline has passed are released by workers. Administrators create venues and events with their
-- seats. The limits in front of the handlers, the queue of expiring reservations and the cache of
-- events live in Redis, everything else in PostgreSQL; open websockets are told of changed seats.
--
-- Which file models which part (paths from the root of the repository):
-- Model: internal/models and the tables of internal/database/migrations.sql, as lists of rows;
-- Table: rows under a primary key, with what the statements do to them.
-- Exec: calls of the database, the clock and the outside as actions on a World. An Env answers the
-- n-th call: it may fail any of them before it takes effect, report a locked row, or lose the
-- answer of a call that took effect, and it says what other clients commit before each
-- transaction and each lone statement, and what the read replica shows. Exec.Rules and
-- Exec.Returns reason about normal returns and about success.
-- Repository: internal/repository. Statements has the SQL that the transactions share; of
-- booking_repository.go, Reserve is CreateReservation, Purchase is CompletePurchase and
-- RevertFailedPurchase, Release is ExtendReservation, the releases, SetPaymentIntentID and
-- FindExpiredReservations. Users, Venues, Events and Seats are the other repositories, and
-- SeatNumber is formatSeatNumber of seat_repository.go. UserBookings is FindByUserID of the
-- bookings, and Singles are the operations on one row that no service calls. Refines, Reaches,
-- Contract and Succeeds are about these.
-- Inventory: the contract between repository and services, a step relation on the tables with one
-- constructor for each change that a transaction may make.
-- Payment: internal/services/payment_service.go; Stripe and the cents of an amount are parameters.
-- Service: internal/services/booking_service.go; Service.Purchase is PurchaseBooking with the
-- payment behind it, Service.Bulk is BulkReserve, and Service.Listing is GetUserBookings.
-- Events, Venues: internal/services/event_service.go and venue_service.go, with the reads of
-- internal/database/seat_read_routing.go.
-- Jwt, Auth, Access: pkg/jwt/jwt.go with internal/utils/password.go, internal/services/
-- auth_service.go and internal/middleware/auth_middleware.go; bcrypt and golang-jwt are parameters.
-- Handlers: internal/handlers/booking_handler.go, event_handler.go, venue_handler.go and
-- auth_handler.go, which call the services, with the handlers over the queue in Handlers.Queue;
-- Routes: internal/routes/routes.go, which says what stands in front of each handler.
-- Effects, Zset: what services change outside of the tables, and the Redis sorted sets.
-- Expiry: internal/queue/expiry_queue.go, expiry_partition.go and
-- internal/services/batch_release_worker.go.
-- Cleanup: the back-off of internal/services/cleanup_worker.go.
-- RateLimit: internal/middleware/rate_limiter.go.
-- Jobs: internal/queue/queue.go; Jobs.Purchases has its purchase jobs and its metrics, with the
-- monitor of internal/services/queue_monitor.go in Jobs.Purchases.Monitor. Jobs.Workers is
-- internal/services/booking_worker.go over the queue, the booking service and the hub, with the
-- generations of the consumers.
-- Kafka: internal/kafka/producer.go and internal/services/kafka_event_publisher.go; Kafka.Consumer:
-- internal/kafka/consumer.go and internal/services/booking_event_consumer.go; Kafka.Topics:
-- internal/kafka/topics.go.
-- Config: internal/config/config.go; Config.Security: internal/config/kafka.go with
-- internal/kafka/client.go. Startup: internal/database/migrate.go and the test of cmd/server/main.go
-- that says whether it runs. Startup.Wiring is what cmd/server/main.go and the other packages start.
-- Startup.Pools: internal/database/database.go. Telemetry: internal/telemetry/prometheus.go.
-- Idempotency: internal/middleware/idempotency.go, whose calls of Redis interleave in any order.
-- Hub: internal/websocket/hub.go, as a machine whose steps interleave in any order; Hub.Upgrade has
-- its tests of origins and of the messages of clients.
-- Session: any sequence of the calls that change the tables, of all services, on which the main
-- theorems are stated.
-- Tests: runs on concrete inputs.
--
-- What is simplified: uuids are numbers that are only compared, with 0 for uuid.Nil; times count
-- nanoseconds and are not negative; DECIMAL amounts count cents. A transaction runs as one step
-- on the tables, since the rows it changes are locked until it commits, and others change the
-- tables only before it begins; a row that is locked is a fault of the call, and so is an entry
-- of Redis whose time to live is over; the Redis keys of one kind, a prefix and an id, are a map
-- from the id. Every transaction of the code defers its rollback, which is part of `transaction`
-- here. ORDER BY on seat numbers is a parameter, since the collation of the database decides it.
-- Errors wrapped by %w are the errors themselves, as errors.Is sees them; their texts, log lines
-- and the metadata of events are left out. The thresholds of the queue monitor are not negative.
-- The clock is read also where the code skips a test on a missing time. Columns that the code
-- reads as NULL are options.
--
-- Fuel: BulkReserve's goroutines run under a schedule for `rounds chunks` rounds, one for each seat
-- and one to end each goroutine; chunkSeats has one round for each seat; the decimal print of a
-- number has as many rounds as the number, and each divides it by ten.
--
-- Not modelled: HTTP decoding, opening and closing connections, shutting down, test data, log lines
-- and request ids, generated code and the handlers that serve it, the frontend and the load tests.
-- A topic of jobs is one partition whose group has committed an offset before, and a commit past its
-- last message is taken for one of that.
mod Prelude
pub mod Table
pub mod Model
pub mod Zset
pub mod Effects
pub mod Exec
pub mod Repository
pub mod Inventory
pub mod Payment
pub mod Service
pub mod Session
pub mod Events
pub mod Venues
pub mod Jwt
pub mod Auth
pub mod Access
pub mod Handlers
pub mod Routes
pub mod Cleanup
pub mod Expiry
pub mod RateLimit
pub mod Hub
pub mod Config
pub mod Startup
pub mod Kafka
pub mod Jobs
pub mod Telemetry
pub mod Idempotency
mod Tests
