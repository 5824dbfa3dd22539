-- ===== src/Lib.antt =====
-- Verification of the marketplace's order path: the order service with its saga and its outbox, the
-- inventory service and the payment service, and the three together; the Kafka consumer, the errors,
-- the event batcher of the analytics service, the catalog with its search index, and the user service's
-- accounts and rate limiter.
--
-- An order is created by services/order-service/internal/usecase, which checks the prices with the
-- catalog, records the order with its outbox event in one transaction, and hands it to the saga in
-- services/order-service/internal/saga. The saga sets the order's status, reserves every item with
-- services/inventory-service, charges the payment with services/payment-service, and undoes what it
-- has done if a step fails. A relay sends the events of the outbox to Kafka. Every service
-- keeps its state in PostgreSQL, and changes it in transactions of pkg/txmanager.
--
--   Prelude      names that all modules share; Prelude/Effect: the sentinel errors of
--                pkg/errors/domain.go, results, and calls that change a state
--   Database     a database call that may fail, and pkg/txmanager/txmanager.go: `statement`, `run_tx`;
--                Database/Laws: what holds whichever calls fail
--   Order        services/order-service/internal/domain (Status, Domain), internal/repository/postgres
--                (Repository) and internal/usecase (Usecase: `create_order`, `cancel_order`,
--                `update_order_status`) and internal/delivery/grpc/handler.go (Handler); Status/Graph,
--                Creation, Updates, Cancellation and Handler/Access hold the proofs
--   Outbox       the outbox: outbox_postgres.go with the transaction that it keeps, and `poll` of
--                services/order-service/internal/outbox/relay.go (Relay) and of
--                services/catalog-service/internal/outbox/relay.go (Catalog). Contents, Delivery and
--                Kept say what the statements keep of the events, Safety and Drain what polls do
--   Saga         services/order-service/internal/saga: domain.go (Types), steps.go (Steps),
--                orchestrator.go (Retry, Orchestrator: `process_order`, `handle_step_failure`, and
--                Recovery: `cancel_order`, `recover`, `recover_once`). Env is the interface of what the
--                saga calls; Store is the table of sagas, saga_postgres.go; Trace writes those calls
--                down, with their order, what they ask for and whether they returned an error; Invariant relates a saga to its calls;
--                Guarantees and Recovery/Cancel hold what a run promises; Keeps shows that a fact
--                that every call keeps is kept by processing, cancelling and recovering, and Forward
--                that a run that ends in confirmed needs only the calls that go forward
--   Inventory    services/inventory-service: the tables, inventory_postgres.go (Repository) and
--                usecase.go (Usecase: `reserve`, `release`, `get_stock`, `get_ledger`) and
--                internal/delivery/grpc/handler.go (Handler); Effects, Invariant and Guarantees hold the
--                proofs
--   Payment      services/payment-service: the tables, payment_postgres.go (Repository) and usecase.go
--                (Usecase: `process_payment`, `refund`), and internal/delivery/grpc/handler.go (Handler);
--                Effects, Invariant and Guarantees hold the proofs
--   Grpc         callers and their roles: pkg/middleware/auth.go, pkg/auth/identity.go
--   Errors       pkg/errors: kinds, registry, and the way to gRPC statuses and back; Errors/Crossing
--                follows an error from service to service
--   System       the saga, its tables, the clients of internal/infrastructure/grpcclient and the
--                handlers of the other two services in one state; System/Safety and
--                System/Confirmed hold the proofs
--   Kafka        pkg/kafka: handler.go, dlq.go, config.go; Kafka/Story is what may become of a message
--   Analytics    services/analytics-service/internal/usecase/batcher.go; Analytics/Batcher holds the
--                proofs about callers that interleave
--   Catalog      services/catalog-service: the tables, product_postgres.go (Repository), usecase.go
--                (Usecase), internal/delivery/grpc/handler.go (Handler), and the handler of its outbox
--                events with the index that it writes (Projection); Lookup and Effects say what the
--                statements leave, and Sync, for sequences of Requests, that the index follows the table
--   User         services/user-service: registration and login, usecase.go with user_postgres.go
--                (Accounts), and internal/ratelimit: the limiter of both (RateLimit); Accounts/Login and
--                RateLimit/Window hold the proofs
--
-- The saga runs over any environment `Env`: a state, and calls that change it and may fail, in any
-- manner. Its mutable `*Saga` is passed on explicitly. A service's state is its tables, with a
-- schedule that says of each database call whether it is answered, refused, or takes effect while its
-- answer is lost; a theorem holds for all schedules where it does not say otherwise. A uuid and a time
-- are numbers; a new one is a parameter. A Go error is the sentinel that it wraps; texts and logging are left out. An amount and a
-- quantity are natural numbers, since the validation of the requests refuses negative ones; int32 and
-- int64 arithmetic wraps where the code's does, and is kept as a bit pattern, which from 2^31 or 2^63 on
-- stands for a negative number. Contexts are left out: a deadline is a failed call.
--
-- Fuel and bounds: the loop of ProcessOrder runs on `process_fuel`, the number of the order's items
-- and five, of which it uses at most one for each item and four for the other steps; `retry` makes
-- `max_retries` attempts, three, as the code does.
--
-- What is outside is a parameter: uuid.Parse and UUID.String, the processor and the producer of the
-- Kafka consumer, the handler of the events in the catalog's relay, JSON and the client of
-- Elasticsearch, bcrypt and the signing of tokens, what Redis keeps of a command.
--
-- The calls of one service are taken one at a time. In inventory-service and payment-service the rows
-- that two transactions want are locked by the statements (`FOR UPDATE`, conditional `UPDATE`), and
-- PostgreSQL itself is not modelled. The use cases of the order service that change a status lock
-- nothing: of calls for one order that overlap the theorems on them say nothing, and Order/Tests has a
-- run in which a late write takes a status back. One relay polls an outbox, so no row is skipped as
-- locked. Not modelled are the gateways, the interceptors,
-- ListOrders, the lists and searches of the catalog, the notification service, the rest of the analytics
-- service, feature flags and A/B tests; generated protobuf code, configuration, metrics and
-- deployment are outside.
pub mod Prelude
pub mod Database
pub mod Errors
pub mod Grpc
pub mod Order
pub mod Outbox
pub mod Saga
pub mod Inventory
pub mod Payment
pub mod System
pub mod Kafka
pub mod Analytics
pub mod Catalog
pub mod User
