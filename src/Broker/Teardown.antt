-- ===== src/Broker/Teardown.antt =====
-- What is opened can be closed.
use rd_shop_backend.Base.{ℕ, ◌≡◌, Bool, true, false, ◌||◌, Option, none, some, List, [], ◌∷◌, arith}
use rd_shop_backend.Base.Outcome.{err, internal}
use rd_shop_backend.Cursors.Keyset.{filter}
use rd_shop_backend.Broker.{
  Broker, LinkChannel, Faults, connect, setup_queues, resolve_channel, on_channel, loses_channel,
  close_channel, disconnect, drop_channel,
}

-- Exactly what the fields name is open.
abbrev pub connections_of : Option ℕ → List ℕ
connections_of none = []
connections_of (some c) = c ∷ []

abbrev pub channels_of : Option ℕ → Option ℕ → List LinkChannel
channels_of c none = []
channels_of none (some k) = []
channels_of (some c) (some k) = record { number = k; connection = c } ∷ []

pub record IsTidy (s : Broker) : Type 0 where
  pub connections : (s.link).connections ≡ connections_of s.connection
  pub channels : (s.link).channels ≡ channels_of s.connection s.channel
  -- A channel has its connection.
  pub connected : s.connection ≡ none → s.channel ≡ none

-- Whether the broker refuses a call on the new channel, which closes the channel
abbrev pub is_refused : Faults → Bool
is_refused faults = faults.prefetch_fails || faults.process_queue_fails || faults.dlq_fails

-- Set-ups of a service that has no connection, in which no call on the channel is refused, and attempts
-- to disconnect, in which nothing fails
pub data Attempts (s : Broker) : Broker → Type 0 where
  start : Attempts s s
  sets_up :
      {s' : Broker} (faults : Faults)
      → Attempts s s'
      → s'.connection ≡ none
      → is_refused faults ≡ false
      → Attempts s (connect faults s').1
  tries : {s' : Broker} → Attempts s s' → Attempts s (disconnect false false s').1

-- A set-up in which the broker refuses a call on the channel leaves a connection that nothing closes:
-- every attempt to disconnect fails at the channel, which is closed already, and changes nothing.
pub connect-leaks :
    (faults : Faults) (b c : Bool) (s : Broker)
    → IsTidy s
    → s.connection ≡ none
    → faults.connect_fails ≡ false
    → faults.create_channel_fails ≡ false
    → is_refused faults ≡ true
    → let s' = (connect faults s).1 in
      (disconnect b c s' ≡ (err internal, s')) × ((s'.link).connections ≡ (s.link).next ∷ [])
unfolding connect setup_queues resolve_channel on_channel loses_channel disconnect close_channel
    drop_channel filter
connect-leaks faults b c s tidy free connected created refused =
    let single = tidy.connected free in
    (
      ground (arith, free, single, tidy.connections, tidy.channels),
      ground (arith, free, single, tidy.connections, tidy.channels),
    )
