-- ===== src/Lib.antt =====
-- A verification library for the backend of a shop: an HTTP and GraphQL API over PostgreSQL
-- (apps/shop), with an order queue on RabbitMQ and a payments service behind gRPC (apps/payments).
--
-- The parts and how they interact. A client signs in and gets a refresh token (auth); it places an
-- order, which takes the stock in one database transaction and publishes a message (orders); the
-- worker consumes the message, marks the order as processed in a second transaction and asks the
-- payments service to authorize the payment, with retries and a dead-letter queue (orders-worker). A
-- cart collects lines and is turned into an order by the checkout (cart). Orders are listed page by
-- page (orders queries, cursors). Files are uploaded to a bucket and attached to products (files,
-- products); users review products (reviews). A change of a password and the removal of a user end
-- the sessions that auth keeps, and an avatar is a file (users). The listings of orders, products and
-- users are pages that a client follows by their cursors. Orders are also read over GraphQL, and one
-- filter turns every exception into an answer.
--
-- Which file models which part (paths below apps/shop/src):
-- - Base: shared names, lists, integers, tables of rows by id, and the actions with exceptions that
--   stand for service methods (`Action`, `transaction`, `catch`).
-- - Orders.Model: rows, requests and messages (orders/*.entity.ts, orders/dto, orders/events,
--   products/product.entity.ts, users/user.entity.ts, rabbitmq/processed-message.entity.ts).
-- - Orders.Rules: orders/utils/index.ts.
-- - Orders.Stock: OrderStockService (orders/services/order-stock.service.ts).
-- - Orders.Command: OrdersCommandService.createOrder and cancelOrder, PgErrorMapperService,
--   OrderPublisherService and OrdersRepository (orders/services, orders/repositories).
-- - Orders.Processing: OrderProcessingService (orders/services/order-processing.service.ts).
-- - Orders.Lifecycle: the transactions of Orders.Command and Orders.Processing as the steps of one
--   database, in any sequence.
-- - Orders.Queries: OrdersQueryService and OrdersQueryBuilder (orders/services/orders-query.service.ts,
--   orders/repositories/orders-query-builder.ts), over the cursors of Cursors.
-- - Cursors: common/utils/cursor.ts, the orders of keyset paging (Cursors.Keyset, Cursors.Sorting), the
--   page that every listing cuts (Cursors.Paging), and a client that follows cursors
--   (Cursors.Collecting).
-- - Worker: OrderWorkerService.handleMessage (orders-worker/orders-worker.service.ts).
-- - Cart, Cart.Model: CartService (cart/cart.service.ts, cart/utils/index.ts), whose checkout calls Orders.Command.
-- - Files: FilesService (files/files.service.ts, files/utils/files.ts), with the check of
--   files/s3.service.ts for an object.
-- - Products: ProductsService (products/products.service.ts, products/utils), Products.Listing: its
--   listing, over ProductsRepository (products/product.repository.ts), and Products.Reviews:
--   ReviewsService (products/reviews.service.ts).
-- - Auth.Opaque: opaque tokens (auth/utils/index.ts).
-- - Auth.Tokens: TokenService (auth/token.service.ts).
-- - Auth.Permissions: roles, scopes and their guards (auth/permissions, auth/guards).
-- - Auth.Service: AuthService (auth/auth.service.ts).
-- - Users: UsersService (users/users.service.ts): passwords, removal, roles and scopes, over the accounts
--   of Auth; Users.Profiles: profiles and avatars, over Files; Users.Listing: the listing.
-- - Payments: PaymentsService (apps/payments/src/payments.service.ts), and its client in the shop
--   (payments/payments-grpc.service.ts, payments/utils/index.ts); Payments.Client: the endpoint and
--   the cached client (payments/payments-grpc-client.service.ts).
-- - Graphql: the loaders and resolvers of orders (graphql/loaders, graphql/resolvers).
-- - Exceptions: GlobalExceptionFilter (common/filters).
-- - Broker: RabbitMQService (rabbitmq/rabbitmq.service.ts), the start and the stop of the worker's
--   consumer, and the broker's health check (health/indicators/rabbitmq.health.ts).
-- - Infra: the security groups of the deployment and their rules (infra/src/foundation, from the root);
--   Infra.Chains: who connects to whom under them.
-- A child module named for a property (Orders.Stock.Laws, Orders.Command.Keys, Worker.Delivery,
-- Auth.Tokens.Rotation and so on) holds the proofs about its parent; the modules named Tests run the
-- theorems at concrete inputs.
--
-- How the code is rendered. A method is a function from the state to a result and a new state; an
-- exception is a value, known by its HTTP status or by the SQLSTATE of the driver. The messages of
-- exceptions are dropped, but for what the error mapper looks for in the text of a driver's error.
-- Ids and strings whose text is never looked into are numbers, and 0 is the empty string. Tokens
-- are lists of character codes. Prices are in cents: the column is numeric(12, 2) and a quantity is
-- at most 1000, so the rounding of the code is exact. Stock and quantities are integers of any
-- size. A `Map` of rows by id is the list of those rows. What other requests commit while a call
-- waits is a function on the database, given as `others` or `meanwhile`; the body of a transaction
-- runs under the locks that it takes, so it is one step. The state of a broker is its queue and
-- whether the channel is open. The attempt of a message is an integer. The worker's deliveries are
-- run on fuel: three are enough for a message at its first attempt, as the retries are bounded. A
-- client that follows the cursors of a listing is run on fuel as well, and fails where the fuel ends or
-- a cursor leads to no row: one request more than there
-- are rows is enough.
--
-- The broker delivers what is in the queue of the model. It closes a channel on which it refuses a call.
-- A bucket signs a URL for each call; a call at another time is given another bucket. Whether the
-- library makes a client of the payments service is a field of its configuration. Requests that overlap are modelled where a
-- definition has `others` or `meanwhile`; elsewhere calls run one after the other.
--
-- A table of the database is a list of rows, and a query is what its SQL selects from it; ILIKE on a
-- title is a parameter. Creation times are in microseconds, as the database keeps them. What the
-- bucket answers is a parameter of each call on files; such a call is one step.
--
-- bcrypt, the mail service, the circuit breaker and the transport of gRPC are parameters as well.
--
-- A property of an object that is undefined differs from one that is null where the code tells them
-- apart: the profile of a user is made of such fields. Where a call on users waits, what other requests
-- commit is again a run of calls. A title is compared by its place in the order of the database's
-- collation. A connection of the AMQP library and a client of the gRPC library are numbers, of which the
-- model keeps which are open.
--
-- What a security group admits under its rules is a parameter, which is to refuse what no rule lets in.
--
-- What is not modelled: e-mails on the events of orders; logs, metrics and time-outs; the framework's
-- routing, validation and serialization, with the controllers; cryptography, UUIDs, the clock, DNS and
-- the broker, which are parameters; the artificial delay of the processing; the scripts of the database
-- and the programs that declare the infrastructure, but for the security groups.
pub mod Base
pub mod Orders
pub mod Worker
pub mod Cart
pub mod Cursors
pub mod Files
pub mod Products
pub mod Users
pub mod Auth
pub mod Graphql
pub mod Exceptions
pub mod Broker
pub mod Payments
pub mod Infra
