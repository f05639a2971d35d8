-- ===== src/Broker.antt =====
-- RabbitMQService (apps/shop/src/rabbitmq/rabbitmq.service.ts), resolveConnectionTransport
-- (rabbitmq/utils), the start and the stop of OrderWorkerService's consumer (orders-worker/
-- orders-worker.service.ts) and the check of the broker's health (health/indicators/rabbitmq.health.ts).
-- The AMQP library is not of this repository: connections and channels are numbers, `Link` tells which
-- are open, and what the broker refuses in a call is a `Faults`.
pub mod Teardown
pub mod Loss
mod Tests
use rd_shop_backend.Base.{
  ℕ, suc, Bool, true, false, not, ◌&&◌, ◌||◌, Option, none, some, List, [], ◌∷◌, ◌++◌, ◌==◌,
  if◌then◌else◌, RowId, contains, truthy, any,
}
use rd_shop_backend.Base.Outcome.{
  Action, Result, ok, err, internal, pure, gets, modify, throw_if, or_throw, ◌>>=◌, ◌>>◌,
}
use rd_shop_backend.Cursors.Keyset.{filter}

-- `ORDER_PROCESS_QUEUE` and `ORDER_DLQ`
pub data Queue : Type 0 where
  order_process_queue order_dlq : Queue

-- A channel and its connection
pub record LinkChannel : Type 0 where
  pub number : ℕ
  pub connection : ℕ

-- What the library and the broker keep: the connections and channels that are open, the queues that are
-- there, and the next number.
pub record Link : Type 0 where
  pub connections : List ℕ
  pub channels : List LinkChannel
  pub queues : List Queue
  pub next : ℕ

-- The fields of the service and of the worker, and the link.
pub record Broker : Type 0 where
  pub connection : Option ℕ
  pub channel : Option ℕ
  pub consumer_tag : Option RowId
  pub link : Link

-- The calls of a connection's set-up that fail
pub record Faults : Type 0 where
  pub connect_fails : Bool
  pub create_channel_fails : Bool
  pub prefetch_fails : Bool
  pub process_queue_fails : Bool
  pub dlq_fails : Bool

abbrev pub opens_connection : Broker → Broker
opens_connection s = record s {
  connection = some (s.link).next;
  link = record (s.link) {
    connections = (s.link).next ∷ (s.link).connections;
    next = suc (s.link).next;
  };
}

-- `connection.createChannel()`
abbrev pub opens_channel : ℕ → Broker → Broker
opens_channel connection s = record s {
  channel = some (s.link).next;
  link = record (s.link) {
    channels = record { number = (s.link).next; connection = connection } ∷ (s.link).channels;
    next = suc (s.link).next;
  };
}

abbrev pub asserts_queue : Queue → Broker → Broker
asserts_queue q s = record s { link = record (s.link) { queues = q ∷ (s.link).queues } }

unfoldable pub resolve_channel : Action Broker ℕ
resolve_channel = do channel ← gets (λ s. s.channel); or_throw channel internal

abbrev pub is_open : ℕ → List LinkChannel → Bool
is_open k [] = false
is_open k (c ∷ channels) = c.number == k || is_open k channels

unfoldable pub drop_channel : ℕ → List LinkChannel → List LinkChannel
drop_channel k = filter (λ c. not (c.number == k))

-- The channel is closed by the broker, of which the service is not told.
unfoldable pub loses_channel : Broker → Broker
unfolding drop_channel
loses_channel s = elim s.channel [
  | none ↦ s
  | some c ↦ record s { link = record (s.link) { channels = drop_channel c (s.link).channels } }
]

-- A call on the channel: where the broker refuses it, it throws, and the broker closes the channel.
unfoldable pub on_channel : Bool → Action Broker (Unit {0})
unfolding loses_channel
on_channel refused s = if refused then (err internal, loses_channel s) else (ok tt, s)

unfoldable pub setup_queues : Faults → Action Broker (Unit {0})
unfolding resolve_channel on_channel
setup_queues faults = do
  resolve_channel
  on_channel faults.process_queue_fails
  modify (asserts_queue order_process_queue)
  on_channel faults.dlq_fails
  modify (asserts_queue order_dlq)

unfoldable pub connect : Faults → Action Broker (Unit {0})
unfolding setup_queues on_channel
connect faults = do
  throw_if faults.connect_fails internal
  modify opens_connection
  throw_if faults.create_channel_fails internal
  connection ← or_throw (← gets (λ s. s.connection)) internal
  modify (opens_channel connection)
  on_channel faults.prefetch_fails
  setup_queues faults

-- `channel.close()` and `connection.close()` fail where there is nothing open, or where the broker makes
-- them fail; what was to be closed is closed all the same. Closing a connection closes its channels.
unfoldable pub drop_connection : ℕ → Link → Link
drop_connection k link = record link {
  connections = filter (λ n. not (n == k)) link.connections;
  channels = filter (λ (c : LinkChannel). not (c.connection == k)) link.channels;
}

unfoldable pub close_channel : Bool → Action Broker (Unit {0})
unfolding drop_channel loses_channel
close_channel fails s = elim s.channel [
  | none ↦ pure tt s
  | some c ↦
      if not (is_open c (s.link).channels)
      then (err internal, s)
      else if fails
      then (err internal, loses_channel s)
      else pure tt (record s {
        channel = none;
        link = record (s.link) { channels = drop_channel c (s.link).channels };
      })
]

unfoldable pub close_connection : Bool → Action Broker (Unit {0})
unfolding drop_connection
close_connection fails s = elim s.connection [
  | none ↦ pure tt s
  | some c ↦
      if not (contains c (s.link).connections)
      then (err internal, s)
      else if fails
      then (err internal, record s { link = drop_connection c s.link })
      else pure tt (record s { connection = none; link = drop_connection c s.link })
]

-- `disconnect`, by whether the closing of the channel and of the connection fails
unfoldable pub disconnect : Bool → Bool → Action Broker (Unit {0})
unfolding close_channel close_connection
disconnect channel_fails connection_fails =
    close_channel channel_fails >> close_connection connection_fails

-- `sendToQueue` throws on a closed channel.
unfoldable pub publish : Action Broker (Unit {0})
unfolding resolve_channel
publish = do
  channel ← resolve_channel
  live ← gets (λ s. is_open channel (s.link).channels)
  throw_if (not live) internal

-- `consume`, with the tag that the broker gives
unfoldable pub consume : RowId → Action Broker RowId
unfolding resolve_channel
consume tag = do
  channel ← resolve_channel
  live ← gets (λ s. is_open channel (s.link).channels)
  throw_if (not live) internal
  pure tag

unfoldable pub cancel_consumer : Action Broker (Unit {0})
cancel_consumer s = elim s.channel [
  | none ↦ pure tt s
  | some c ↦ throw_if (not (is_open c (s.link).channels)) internal s
]

-- `startConsuming` and `stopConsuming` of the worker
unfoldable pub start_consuming : RowId → Action Broker (Unit {0})
unfolding consume
start_consuming tag = do
  consumer_tag ← consume tag
  modify (λ s. record s { consumer_tag = some consumer_tag })

unfoldable pub stop_consuming : Action Broker (Unit {0})
unfolding cancel_consumer
stop_consuming s = elim (truthy s.consumer_tag) [
  | none ↦ pure tt s
  | some tag ↦ (cancel_consumer >> modify (λ t. record t { consumer_tag = none })) s
]

abbrev pub is_process_queue : Queue → Bool
is_process_queue order_process_queue = true
is_process_queue order_dlq = false

-- The health of the broker: a check of a queue that is not there closes the channel.
unfoldable pub check : Broker → Bool × Broker
unfolding drop_channel
check s = elim s.channel [
  | none ↦ (false, s)
  | some c ↦
      if not (is_open c (s.link).channels)
      then (false, s)
      else if any is_process_queue (s.link).queues
      then (true, s)
      else (
        false,
        record s { link = record (s.link) { channels = drop_channel c (s.link).channels } },
      )
]

-- The connection is lost: of this the service only writes a line to the log.
abbrev pub loses_connection : Broker → Broker
loses_connection s = record s { link = record (s.link) { connections = []; channels = [] } }

-- `resolveConnectionTransport`: whether the protocol is AMQPS, and the server name
abbrev pub rabbitmq_secure_port : ℕ
rabbitmq_secure_port = 5671

unfoldable pub resolve_connection_transport : Option RowId → Option ℕ → Bool × Option RowId
resolve_connection_transport host none = (false, none)
resolve_connection_transport host (some port) =
    if port == rabbitmq_secure_port then (true, truthy host) else (false, none)
