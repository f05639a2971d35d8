-- ===== src/Worker/Tests.antt =====
-- The theorems of the worker at concrete inputs.
use rd_shop_backend.Base.{◌≡◌, refl, true, false, none, some, [], ◌∷◌, arith}
use rd_shop_backend.Base.Int.{pos, ◌+ℤ◌}
use rd_shop_backend.Base.Outcome.{ok, err, http, unavailable}
use rd_shop_backend.Orders.Model.{ProcessMessage}
use rd_shop_backend.Worker.{Payload, Worker, HandlerEnv, process}
use rd_shop_backend.Worker.Delivery.{Delivered, process-Delivered, Ends, deliver-Ends}

abbrev env : HandlerEnv
env = record {
  work = record {
    simulate_failure = false;
    payments_disabled = false;
    insert_fault = none;
    authorize = λ amount order. err (http unavailable);
    others = λ d. d;
    meanwhile = λ d. d;
  };
  channel_open = true;
}

abbrev idle : Worker
idle = record {
  world = record {
    db = record { users = []; products = []; orders = []; processed_messages = [] };
    queue = [];
    events = [];
    audit = [];
  };
  dead_letters = [];
  acks = 0;
  outcomes = [];
}

abbrev message : ProcessMessage
message = record { message_id = 200; order_id = 100; correlation_id = some 300; attempt = pos 1 }

process-Delivered_example :
    ((process env message idle).0 ≡ ok tt) × Delivered env message idle (process env message idle).1
process-Delivered_example = process-Delivered env message idle refl

abbrev nameless : Payload
nameless = record {
  message_id = none;
  order_id = some 100;
  correlation_id = some 300;
  attempt = none;
}

abbrev queued : Worker
queued = record idle { world = record (idle.world) { queue = message ∷ [] } }

deliver-Ends_example : Ends (λ n. env) 3 message queued
unfolding ◌+ℤ◌
deliver-Ends_example =
    deliver-Ends (λ n. env) 3 message queued (λ n. refl) refl (omega arith) (omega arith)
