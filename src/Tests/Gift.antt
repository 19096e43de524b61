-- ===== src/Tests/Gift.antt =====
-- The gift buffer with two gifts and a corrupted item waiting, during an outage.
use mediasoup_socket_io_audi.Prelude.{
  ℕ, ◌+◌, ◌≡◌, refl, [], ◌∷◌, Option, none, some, Bool, true, false, arith, length, take,
}
use mediasoup_socket_io_audi.Gift.Buffer.{Gift, GiftBuffer, max_batch_size}
use mediasoup_socket_io_audi.Gift.Flush.{World, flush, parsed, corrupted, popped, pushed, goes_on}
use mediasoup_socket_io_audi.Gift.Accounting.{accounted, TriedLess, flush-TriedLess}
use mediasoup_socket_io_audi.Gift.Outage.{IsOutage, Buried, survivors, flush_outage, flush_loses}

abbrev gift : ℕ → Option ℕ → Gift
gift id tries = record {
  transaction_id = id;
  sender_socket_id = some 1;
  batch_id = none;
  retry_count = tries;
  payload = 0;
}

abbrev buffer : GiftBuffer
buffer = record {
  queue = some (gift 1 none) ∷ none ∷ some (gift 2 (some 2)) ∷ [];
  dead_letter = [];
  flush_count = 0;
  is_flushing = false;
  successes = 0;
  failures = 0;
  dead_letters = 0;
}

abbrev outage : Bool → World
outage exec_ok = record {
  push_ok = λ i. true;
  llen_ok = true;
  post_batch = λ gs. none;
  post_one = λ i g. none;
  arrivals = some (gift 3 none) ∷ [];
  exec_ok = exec_ok;
}

outage-IsOutage : (exec_ok : Bool) → IsOutage (outage exec_ok)
outage-IsOutage exec_ok = record { no_batch = λ gs. refl; no_single = λ i g. refl }

all_pushed : (exec_ok : Bool) → goes_on (outage exec_ok) buffer ≡ true
unfolding pushed corrupted
all_pushed exec_ok = refl

flush-TriedLess_run : TriedLess 3 (flush 3 (outage true) buffer).0.queue
flush-TriedLess_run =
    flush-TriedLess 3 (outage true) buffer (omega arith, (omega arith, tt)) (omega arith, tt)

outage_run :
    Buried 3 true
      (popped buffer (outage true))
      (parsed (take max_batch_size buffer.queue))
      (flush 3 (outage true) buffer)
outage_run = flush_outage 3 (outage true) buffer refl (all_pushed true) (outage-IsOutage true)

flush_loses_example :
    accounted (flush 3 (outage false) buffer).0
      + length (survivors 3 (parsed (take max_batch_size buffer.queue)))
    ≡ 4
flush_loses_example =
    flush_loses 3 (outage false) buffer refl (all_pushed false) (outage-IsOutage false) refl
