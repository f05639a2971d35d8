-- ===== src/Worker.antt =====
-- The consumer of the order queue: OrderWorkerService (apps/shop/src/orders-worker), and `publish`
-- of RabbitMQService (apps/shop/src/rabbitmq).
pub mod Delivery
mod Tests
use rd_shop_backend.Base.{
  ℕ, ◌+◌, Bool, true, false, not, Option, none, some, List, [], ◌∷◌, ◌++◌, ◌==◌, if◌then◌else◌,
  RowId, truthy, is_some,
}
use rd_shop_backend.Base.Int.{ℤ, pos, ◌+ℤ◌, ltb_ℤ}
use rd_shop_backend.Base.Outcome.{
  Action, Result, ok, err, Error, internal, pure, throw, gets, modify, throw_if, catch, ◌>>=◌, ◌>>◌,
}
use rd_shop_backend.Orders.Model.{ProcessMessage, World}
use rd_shop_backend.Orders.Processing.{WorkEnv, process_order_message}

-- A message body that is a JSON object. `attempt` is none where it is no finite number; a fractional
-- one is left out.
pub record Payload : Type 0 where
  pub message_id : Option RowId
  pub order_id : Option RowId
  pub correlation_id : Option RowId
  pub attempt : Option ℤ

-- What `JSON.parse` makes of a body: it throws, it gives `null`, or an object.
pub data Body : Type 0 where
  unparsable null : Body
  object : Payload → Body

-- What is published to the dead-letter queue: the raw body, or a payload with its attempt.
pub data DeadLetter : Type 0 where
  raw : DeadLetter
  invalid : Payload → DeadLetter
  exhausted : ProcessMessage → DeadLetter

pub data Outcome : Type 0 where
  success retry dlq : Outcome

-- `acks` counts the acknowledgements of the message at hand.
pub record Worker : Type 0 where
  pub world : World
  pub dead_letters : List DeadLetter
  pub acks : ℕ
  pub outcomes : List Outcome

abbrev pub max_retry_attempts : ℤ
max_retry_attempts = pos 3

-- `channel_open` says whether `resolveChannel` finds the channel when the handler publishes.
pub record HandlerEnv : Type 0 where
  pub work : WorkEnv
  pub channel_open : Bool

abbrev pub ack : Action Worker (Unit {0})
ack = modify (λ s. record s { acks = s.acks + 1 })

abbrev pub record_outcome : Outcome → Action Worker (Unit {0})
record_outcome o = modify (λ s. record s { outcomes = s.outcomes ++ o ∷ [] })

unfoldable pub publish_to_dlq : HandlerEnv → DeadLetter → Action Worker (Unit {0})
publish_to_dlq env letter = do
  throw_if (not env.channel_open) internal
  modify (λ s. record s { dead_letters = s.dead_letters ++ letter ∷ [] })

-- `{ ...payload, attempt: payload.attempt + 1 }`
abbrev pub next_attempt : ProcessMessage → ProcessMessage
next_attempt msg = record msg { attempt = msg.attempt +ℤ pos 1 }

unfoldable pub retry_message : HandlerEnv → ProcessMessage → Action Worker (Unit {0})
retry_message env msg = do
  throw_if (not env.channel_open) internal
  modify (λ s. record s {
    world = record (s.world) { queue = (s.world).queue ++ next_attempt msg ∷ [] };
  })

abbrev in_world : {A : Type 0} → Action World A → Action Worker A
in_world m s = let (r, w) = m s.world in (r, record s { world = w })

-- `publishToDlq`, `ack` and `recordOutcome('dlq')`
unfoldable pub dead_letter : HandlerEnv → DeadLetter → Action Worker (Unit {0})
unfolding publish_to_dlq
dead_letter env letter = do publish_to_dlq env letter; ack; record_outcome dlq

unfoldable pub schedule_retry : HandlerEnv → ProcessMessage → Action Worker (Unit {0})
unfolding retry_message
schedule_retry env msg = do retry_message env msg; ack; record_outcome retry

-- After a failure of the processing.
unfoldable pub after_failure : HandlerEnv → ProcessMessage → Action Worker (Unit {0})
unfolding schedule_retry dead_letter
after_failure env msg =
    if ltb_ℤ msg.attempt max_retry_attempts
    then schedule_retry env msg
    else dead_letter env (exhausted msg)

-- From the `try` around the processing on. An acknowledgement does not throw.
unfoldable pub process : HandlerEnv → ProcessMessage → Action Worker (Unit {0})
unfolding after_failure
process env msg s =
    let (r, w) = process_order_message env.work msg s.world in
    let s' : Worker = record s { world = w } in
    elim r [ ok _ ↦ (ack >> record_outcome success) s' | err _ ↦ after_failure env msg s' ]

-- The payload with its required fields present and its attempt defaulted to 1.
abbrev pub message_of_payload : Payload → RowId → RowId → ProcessMessage
message_of_payload p message_id order_id = record {
  message_id = message_id;
  order_id = order_id;
  correlation_id = p.correlation_id;
  attempt = elim p.attempt [ none ↦ pos 1 | some n ↦ n ];
}

abbrev handle_payload :
    HandlerEnv → Payload → Option RowId → Option RowId → Action Worker (Unit {0})
handle_payload env p (some m) (some o) = process env (message_of_payload p m o)
handle_payload env p _ _ = dead_letter env (invalid (record p { attempt = some (pos 0) }))

-- The handler. Reading a field of `null` is a TypeError, outside of any `try`.
unfoldable pub handle_message : HandlerEnv → Body → Action Worker (Unit {0})
unfolding process dead_letter
handle_message env unparsable = dead_letter env raw
handle_message env null = throw internal
handle_message env (object p) = handle_payload env p (truthy p.message_id) (truthy p.order_id)
