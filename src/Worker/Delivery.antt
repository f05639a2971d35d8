-- ===== src/Worker/Delivery.antt =====
-- What the handler does with a message: acknowledged once, with one outcome; retried at most up to
-- the limit.
use rd_shop_backend.Base.{
  ℕ, zero, suc, ◌+◌, ◌≤◌, ◌<◌, ◌≡◌, refl, ap, sym, ◌∙◌, ◌⊎◌, inl, inr, true, Option, none, some, [],
  ◌∷◌, ◌++◌, arith, truthy, Bool-cases, replicate,
}
use rd_shop_backend.Base.Int.{ℤ, pos, ◌+ℤ◌, ◌≤ℤ◌, ltb_ℤ, ltb_ℤ→lt, +ℤ_suc, int_laws}
use rd_shop_backend.Cursors.Paging.{append-snoc}
use rd_shop_backend.Base.Outcome.{Result, ok, err, Error, internal}
use rd_shop_backend.Orders.Model.{ProcessMessage, World}
use rd_shop_backend.Orders.Processing.{WorkEnv, process_order_message, authorize_payment, settle}
use rd_shop_backend.Worker.{
  Payload, unparsable, null, object, raw, invalid, exhausted, Outcome, success, retry, dlq, Worker,
  HandlerEnv, max_retry_attempts, next_attempt, after_failure, process, handle_message,
}

-- What one delivery of a well-formed message amounts to.
pub data Delivered (env : HandlerEnv) (msg : ProcessMessage) (s s' : Worker) : Type 0 where
  processed_now :
      (w : World)
      → process_order_message env.work msg s.world ≡ (ok tt, w)
      → s' ≡ record s { world = w; acks = s.acks + 1; outcomes = s.outcomes ++ success ∷ [] }
      → Delivered env msg s s'
  sent_again :
      (w : World) (e : Error)
      → process_order_message env.work msg s.world ≡ (err e, w)
      → (next_attempt msg).attempt ≤ℤ max_retry_attempts
      → s' ≡ record s {
        world = record w { queue = w.queue ++ next_attempt msg ∷ [] };
        acks = s.acks + 1;
        outcomes = s.outcomes ++ retry ∷ [];
      }
      → Delivered env msg s s'
  given_up :
      (w : World) (e : Error)
      → process_order_message env.work msg s.world ≡ (err e, w)
      → max_retry_attempts ≤ℤ msg.attempt
      → s' ≡ record s {
        world = w;
        dead_letters = s.dead_letters ++ exhausted msg ∷ [];
        acks = s.acks + 1;
        outcomes = s.outcomes ++ dlq ∷ [];
      }
      → Delivered env msg s s'

-- While the channel is open, the processing of a well-formed message always completes, and in one of
-- three ways, each with one acknowledgement and one outcome: it succeeded; it failed below the limit,
-- and the message is queued again with the next attempt, within the limit; or it failed at the limit,
-- and the message is in the dead-letter queue.
pub process-Delivered :
    (env : HandlerEnv) (msg : ProcessMessage) (s : Worker)
    → env.channel_open ≡ true
    → ((process env msg s).0 ≡ ok tt) × Delivered env msg s (process env msg s).1
unfolding process after_failure
process-Delivered env msg s opened = by_result (process_order_message env.work msg s.world) refl
  where
    by_result :
        (r : Result (Unit {0}) × World)
        → process_order_message env.work msg s.world ≡ r
        → ((process env msg s).0 ≡ ok tt) × Delivered env msg s (process env msg s).1
    by_result (ok u, w) e = (ground arith, processed_now w e (ground arith))
    by_result (err x, w) e = elim (Bool-cases (ltb_ℤ msg.attempt max_retry_attempts)) [
      | inl below ↦ (
        ground arith,
        sent_again w x e (ltb_ℤ→lt msg.attempt max_retry_attempts below) (ground arith),
      )
      | inr limit ↦ (ground arith, given_up w x e (ground arith) (ground arith))
    ]

-- A body that does not parse, or an object without a message id or an order id: it goes to the dead-letter queue, with one acknowledgement
-- and one outcome, and nothing is processed; but the body `null` makes the handler fail with nothing
-- acknowledged.
handle_message-rejects :
    (env : HandlerEnv) (p : Payload) (s : Worker)
    → env.channel_open ≡ true
    → (truthy p.message_id ≡ none) ⊎ (truthy p.order_id ≡ none)
    → (handle_message env (object p) s ≡ (
      ok tt,
      record s {
        dead_letters = s.dead_letters ++ invalid (record p { attempt = some (pos 0) }) ∷ [];
        acks = s.acks + 1;
        outcomes = s.outcomes ++ dlq ∷ [];
      },
    ))
      × (handle_message env unparsable s ≡ (
        ok tt,
        record s {
          dead_letters = s.dead_letters ++ raw ∷ [];
          acks = s.acks + 1;
          outcomes = s.outcomes ++ dlq ∷ [];
        },
      ))
      × (handle_message env null s ≡ (err internal, s))
unfolding handle_message
handle_message-rejects env p s opened h = (ground (arith, h), ground arith, refl)

-- The processing publishes nothing.
process_order_message-queue :
    (env : WorkEnv) (msg : ProcessMessage) (w : World)
    → (process_order_message env msg w).1.queue ≡ w.queue
unfolding process_order_message authorize_payment settle
process_order_message-queue env msg w = ground arith

abbrev pub emptied : Worker → Worker
emptied s = record s { world = record (s.world) { queue = [] } }

-- The broker delivers the messages of the queue, one after the other, each in some environment, until
-- the queue is empty. The state when it stops, or none if messages are left after `f` deliveries.
unfoldable pub deliver : (ℕ → HandlerEnv) → ℕ → Worker → Option Worker
deliver envs zero s = elim (s.world).queue [ [] ↦ some s | msg ∷ rest ↦ none ]
deliver envs (suc f) s = elim (s.world).queue [
  | [] ↦ some s
  | msg ∷ rest ↦
      deliver envs f
        (process (envs f) msg (record s { world = record (s.world) { queue = rest } })).1
]

-- What has become of a message, by its last outcome
pub data Final (msg : ProcessMessage) (s s' : Worker) : Outcome → Type 0 where
  served : s'.dead_letters ≡ s.dead_letters → Final msg s s' success
  buried :
      (attempt : ℤ)
      → max_retry_attempts ≤ℤ attempt
      → s'.dead_letters ≡ s.dead_letters ++ exhausted (record msg { attempt = attempt }) ∷ []
      → Final msg s s' dlq

-- What at most `f` deliveries of a message come to: `retries` times it was queued again.
pub record Ends (envs : ℕ → HandlerEnv) (f : ℕ) (msg : ProcessMessage) (s : Worker) : Type 0 where
  pub after : Worker
  pub retries : ℕ
  pub last : Outcome
  pub ran : deliver envs f s ≡ some after
  pub drained : (after.world).queue ≡ []
  pub final : Final msg s after last
  pub outcomes : after.outcomes ≡ s.outcomes ++ (replicate retries retry ++ last ∷ [])
  pub acks : after.acks ≡ s.acks + suc retries
  pub few : suc retries ≤ f

deliver-drained :
    (envs : ℕ → HandlerEnv) (f : ℕ) (s : Worker) → (s.world).queue ≡ [] → deliver envs f s ≡ some s
unfolding deliver
deliver-drained envs zero s h = rw h refl
deliver-drained envs (suc f) s h = rw h refl

deliver-next :
    (envs : ℕ → HandlerEnv) (f : ℕ) (msg : ProcessMessage) (s : Worker)
    → (s.world).queue ≡ msg ∷ []
    → deliver envs (suc f) s ≡ deliver envs f (process (envs f) msg (emptied s)).1
unfolding deliver
deliver-next envs f msg s h = rw h refl

Final-again :
    (msg : ProcessMessage) (s s1 s' : Worker) (o : Outcome)
    → s1.dead_letters ≡ s.dead_letters
    → Final (next_attempt msg) s1 s' o
    → Final msg s s' o
Final-again msg s s1 s' success same (served h) = served (h ∙ same)
Final-again msg s s1 s' dlq same (buried a limit h) =
    buried a limit (h ∙ ap (λ ds. ds ++ exhausted (record msg { attempt = a }) ∷ []) same)
Final-again msg s s1 s' retry same final = elim final [ ]

-- A message that is alone in the queue, with the attempt `a`, is delivered at least once, and at most
-- `4 - a` times where that is more, so at most three times if it was just published, and then the queue is empty. Each delivery is acknowledged once; every
-- one but the last queues the message again, and the last one succeeds, or puts the message in the
-- dead-letter queue with an attempt that is not below the limit, and nothing else gets there. If the channel to the
-- broker is open.
pub deliver-Ends :
    (envs : ℕ → HandlerEnv) (f : ℕ) (msg : ProcessMessage) (s : Worker)
    → ((n : ℕ) → (envs n).channel_open ≡ true)
    → (s.world).queue ≡ msg ∷ []
    → max_retry_attempts +ℤ pos 1 ≤ℤ msg.attempt +ℤ pos f
    → 0 < f
    → Ends envs f msg s
unfolding deliver
deliver-Ends envs zero msg s opened alone enough pos_f = elim pos_f [ ]
deliver-Ends envs (suc f) msg s opened alone enough pos_f =
    by_kind (process-Delivered (envs f) msg (emptied s) (opened f)).1
      (deliver-Ends envs f (next_attempt msg) s1 opened)
  where
    s1 : Worker
    s1 = (process (envs f) msg (emptied s)).1

    by_kind :
        Delivered (envs f) msg (emptied s) s1
        → ((s1.world).queue ≡ next_attempt msg ∷ []
            → max_retry_attempts +ℤ pos 1 ≤ℤ (next_attempt msg).attempt +ℤ pos f
            → 0 < f
            → Ends envs f (next_attempt msg) s1)
        → Ends envs (suc f) msg s
    by_kind (processed_now w e same) later =
        let silent : w.queue ≡ [] =
          ground (arith, e, process_order_message-queue (envs f).work msg (emptied s).world) in
        let shown : s1.outcomes ≡ s.outcomes ++ success ∷ [] = ground (arith, same) in
        record {
          after = s1;
          retries = 0;
          last = success;
          ran =
              deliver-next envs f msg s alone
              ∙ deliver-drained envs f s1 (ground (arith, same, silent));
          drained = ground (arith, same, silent);
          final = served (ground (arith, same));
          outcomes = shown;
          acks = ground (arith, same);
          few = ground arith;
        }
    by_kind (given_up w x e limit same) later =
        let silent : w.queue ≡ [] =
          ground (arith, e, process_order_message-queue (envs f).work msg (emptied s).world) in
        let shown : s1.outcomes ≡ s.outcomes ++ dlq ∷ [] = ground (arith, same) in
        record {
          after = s1;
          retries = 0;
          last = dlq;
          ran =
              deliver-next envs f msg s alone
              ∙ deliver-drained envs f s1 (ground (arith, same, silent));
          drained = ground (arith, same, silent);
          final = buried msg.attempt limit (ground (arith, same));
          outcomes = shown;
          acks = ground (arith, same);
          few = ground arith;
        }
    by_kind (sent_again w x e below same) later =
        let silent : w.queue ≡ [] =
          ground (arith, e, process_order_message-queue (envs f).work msg (emptied s).world) in
        let shown : s1.outcomes ≡ s.outcomes ++ retry ∷ [] = ground (arith, same) in
        let room : 0 < f = omega int_laws in
        let enough' : max_retry_attempts +ℤ pos 1 ≤ℤ (next_attempt msg).attempt +ℤ pos f =
          rw (← +ℤ_suc msg.attempt f) enough in
        let rest = later (ground (arith, same, silent)) enough' room in
        record {
          after = rest.after;
          retries = suc rest.retries;
          last = rest.last;
          ran = deliver-next envs f msg s alone ∙ rest.ran;
          drained = rest.drained;
          final = Final-again msg s s1 rest.after rest.last (ground (arith, same)) rest.final;
          outcomes =
              rest.outcomes
              ∙ ap (λ os. os ++ (replicate rest.retries retry ++ rest.last ∷ [])) shown
              ∙ sym (append-snoc s.outcomes retry (replicate rest.retries retry ++ rest.last ∷ []));
          acks = ground (arith, same, rest.acks);
          few = ground (arith, rest.few);
        }
