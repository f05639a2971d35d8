-- ===== src/Broker/Tests.antt =====
-- The theorems on the broker's connection at concrete inputs.
use rd_shop_backend.Base.{◌≡◌, refl, true, false, none, some, []}
use rd_shop_backend.Base.Outcome.{err, internal}
use rd_shop_backend.Broker.{
  Broker, Faults, connect, setup_queues, resolve_channel, on_channel, disconnect, publish, check,
  loses_connection,
}
use rd_shop_backend.Broker.Loss.{here, next, checks, Uses-publish}

abbrev fresh : Broker
fresh = record {
  connection = none;
  channel = none;
  consumer_tag = none;
  link = record { connections = []; channels = []; queues = []; next = 0 };
}

abbrev no_fault : Faults
no_fault = record {
  connect_fails = false;
  create_channel_fails = false;
  prefetch_fails = false;
  process_queue_fails = false;
  dlq_fails = false;
}

abbrev connected : Broker
connected = (connect no_fault fresh).1

has_channel : connected.channel ≡ some 1
unfolding connect setup_queues resolve_channel on_channel
has_channel = refl

abbrev lost : Broker
lost = (check (loses_connection connected)).1

Uses-publish_example :
    (publish lost ≡ (err internal, lost))
    × (check lost ≡ (false, lost))
    × (disconnect false false lost ≡ (err internal, lost))
Uses-publish_example = Uses-publish connected lost 1 false false has_channel (next here checks)

-- The channel of the second set-up cannot be created.
abbrev no_channel : Faults
no_channel = record no_fault { create_channel_fails = true }

abbrev stuck : Broker
stuck = (connect no_channel (disconnect false false connected).1).1
