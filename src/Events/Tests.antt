-- ===== src/Events/Tests.antt =====
-- The theorems on the buffer, for three events in batches of two.
use featureflip_go.Base.{ℕ, zero, suc, ◌≡◌, ◌≢◌, refl, true, false, [], ◌∷◌, ◌++◌, arith}
use featureflip_go.Events.{delivered, retryable, Reply, EventProcessor, flush}
use featureflip_go.Events.Laws.{IsBounded, settled_events, flush-conserves}
use featureflip_go.Events.Empties.{flush-empties}

abbrev three_events : EventProcessor ℕ
three_events = record {
  has_client = true;
  batch_size = 2;
  interval = 30;
  max_queue_size = 3;
  buf = 7 ∷ 8 ∷ 9 ∷ [];
  closed = false;
  next_auto_flush_at = 0;
  auto_flush_in_flight = false;
  draining = false;
}

-- The first request is answered, the others fail.
abbrev failing : ℕ → Reply
failing zero = record { outcome = delivered; now = 5 }
failing (suc n) = record { outcome = retryable; now = 6 }

abbrev fine : ℕ → Reply
fine n = record { outcome = delivered; now = n }

fits : IsBounded three_events
fits = omega arith

flush-conserves_example :
    settled_events (flush failing three_events).1 ++ (flush failing three_events).0.buf
    ≡ 7 ∷ 8 ∷ 9 ∷ []
flush-conserves_example = flush-conserves failing three_events refl fits

none_retryable : (i : ℕ) → (fine i).outcome ≢ retryable
none_retryable i e = cc

flush-empties_example : (flush fine three_events).0.buf ≡ []
flush-empties_example = flush-empties fine three_events none_retryable refl refl refl fits
