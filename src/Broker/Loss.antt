-- ===== src/Broker/Loss.antt =====
-- A connection that is lost stays lost.
use rd_shop_backend.Base.{ℕ, ◌≡◌, refl, Bool, false, some, [], arith, RowId}
use rd_shop_backend.Base.Outcome.{err, internal}
use rd_shop_backend.Broker.{
  Broker, resolve_channel, close_channel, disconnect, publish, consume, cancel_consumer,
  start_consuming, stop_consuming, check, loses_connection,
}

-- The service has a channel, and nothing is open.
pub record IsLost (s : Broker) : Type 0 where
  pub number : ℕ
  pub channel : s.channel ≡ some number
  pub no_channel : (s.link).channels ≡ []
  pub no_connection : (s.link).connections ≡ []

-- What the service, the worker and the health check can call, whatever fails
pub data Use : Broker → Broker → Type 0 where
  publishes : {s : Broker} → Use s (publish s).1
  starts : {s : Broker} (tag : RowId) → Use s (start_consuming tag s).1
  stops : {s : Broker} → Use s (stop_consuming s).1
  checks : {s : Broker} → Use s (check s).1
  disconnects : {s : Broker} (b c : Bool) → Use s (disconnect b c s).1
  loses : {s : Broker} → Use s (loses_connection s)

pub data Uses (s : Broker) : Broker → Type 0 where
  here : Uses s s
  next : {s' s'' : Broker} → Uses s s' → Use s' s'' → Uses s s''

IsLost-same : (s s' : Broker) → s' ≡ s → IsLost s → IsLost s'
IsLost-same s s' e lost = rw e lost

publish-IsLost : (s : Broker) → IsLost s → publish s ≡ (err internal, s)
unfolding publish resolve_channel
publish-IsLost s lost = ground (arith, lost.channel, lost.no_channel)

start-IsLost : (tag : RowId) (s : Broker) → IsLost s → (start_consuming tag s).1 ≡ s
unfolding start_consuming consume resolve_channel
start-IsLost tag s lost = ground (arith, lost.channel, lost.no_channel)

stop-IsLost : (s : Broker) → IsLost s → (stop_consuming s).1 ≡ s
unfolding stop_consuming cancel_consumer
stop-IsLost s lost = ground (arith, lost.channel, lost.no_channel)

check-IsLost : (s : Broker) → IsLost s → check s ≡ (false, s)
unfolding check
check-IsLost s lost = ground (arith, lost.channel, lost.no_channel)

disconnect-IsLost : (b c : Bool) (s : Broker) → IsLost s → disconnect b c s ≡ (err internal, s)
unfolding disconnect close_channel
disconnect-IsLost b c s lost = ground (arith, lost.channel, lost.no_channel)

Use-IsLost : {s s' : Broker} → Use s s' → IsLost s → IsLost s'
Use-IsLost {s} {s' = s'} publishes lost =
    IsLost-same s s' (ground (arith, publish-IsLost s lost)) lost
Use-IsLost {s} {s' = s'} (starts tag) lost = IsLost-same s s' (start-IsLost tag s lost) lost
Use-IsLost {s} {s' = s'} stops lost = IsLost-same s s' (stop-IsLost s lost) lost
Use-IsLost {s} {s' = s'} checks lost = IsLost-same s s' (ground (arith, check-IsLost s lost)) lost
Use-IsLost {s} {s' = s'} (disconnects b c) lost =
    IsLost-same s s' (ground (arith, disconnect-IsLost b c s lost)) lost
Use-IsLost {s} loses lost = record {
  number = lost.number;
  channel = lost.channel;
  no_channel = refl;
  no_connection = refl;
}

Uses-IsLost : {s s' : Broker} → Uses s s' → IsLost s → IsLost s'
Uses-IsLost here lost = lost
Uses-IsLost (next run step) lost = Use-IsLost step (Uses-IsLost run lost)

-- Once the connection of a service with a channel is lost, no call of the service, of the worker or of
-- the health check opens another one: however many are made, every message that is then published
-- fails, the health check says that the broker is down, and the service cannot be disconnected.
pub Uses-publish :
    (s s' : Broker) (k : ℕ) (b c : Bool)
    → s.channel ≡ some k
    → Uses (loses_connection s) s'
    → (publish s' ≡ (err internal, s'))
      × (check s' ≡ (false, s'))
      × (disconnect b c s' ≡ (err internal, s'))
Uses-publish s s' k b c connected run =
    let lost =
      Uses-IsLost run
        (record { number = k; channel = connected; no_channel = refl; no_connection = refl }) in
    (publish-IsLost s' lost, check-IsLost s' lost, disconnect-IsLost b c s' lost)
