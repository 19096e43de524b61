-- ===== src/Gift/Flush.antt =====
-- `flush` of src/domains/gift/giftBuffer.ts. What Laravel answers, what arrives meanwhile and
-- whether the closing pipeline runs are arguments.
use mediasoup_socket_io_audi.Prelude.{
  ℕ, suc, ◌+◌, ◌-◌, List, [], ◌∷◌, ◌++◌, Option, none, some, Bool, true, false, leb, ◌%◌, ◌==◌,
  ◌&&◌, ◌||◌, not, if◌then◌else◌, length, take, drop,
}
use mediasoup_socket_io_audi.Gift.Buffer.{
  Gift, Item, Failure, BatchResult, Emit, gift_error, failed_permanently, GiftBuffer,
  max_batch_size, dead_letter_max_length, retries, keep_last, failure_errors, sender_balances,
  to_socket,
}

-- The world during one flush: whether the RPUSH of the corrupted item at each place to the dead letters
-- succeeds, whether LLEN does, the answer to the batch POST and to the POST of the gift at each place
-- of the batch (`none` for a request that fails), the items that enqueue adds meanwhile, and
-- whether the pipeline that re-queues succeeds.
pub record World : Type 0 where
  pub push_ok : ℕ → Bool
  pub llen_ok : Bool
  pub post_batch : List Gift → Option BatchResult
  pub post_one : ℕ → Gift → Option BatchResult
  pub arrivals : List Item
  pub exec_ok : Bool

-- The items that parse, and those that do not.
unfoldable pub parsed : List Item → List Gift
parsed [] = []
parsed (none ∷ items) = parsed items
parsed (some g ∷ items) = g ∷ parsed items

unfoldable pub corrupted : List Item → List Item
corrupted [] = []
corrupted (none ∷ items) = none ∷ corrupted items
corrupted (some g ∷ items) = corrupted items

-- What the fallback has done so far: the gifts for the pipeline, the counters and what was emitted.
pub record Fallback : Type 0 where
  pub requeued : List Item
  pub dead : List Item
  pub ok_count : ℕ
  pub failed_count : ℕ
  pub emitted : List Emit

abbrev pub nothing_done : Fallback
nothing_done = record { requeued = []; dead = []; ok_count = 0; failed_count = 0; emitted = [] }

-- A POST of one gift that failed: the gift is re-queued, or dead-lettered at the last attempt.
unfoldable pub retry_or_bury : ℕ → Gift → Fallback → Fallback
retry_or_bury max_retries g r =
    if leb max_retries (retries g + 1)
    then record r {
      dead = some g ∷ r.dead;
      emitted =
          to_socket g.sender_socket_id
            (λ socket. failed_permanently socket g.transaction_id g.batch_id)
          ++ r.emitted;
    }
    else record r { requeued = some (record g { retry_count = some (retries g + 1) }) ∷ r.requeued }

unfoldable pub settle_one : Gift → List Failure → BatchResult → Fallback → Fallback
settle_one g [] result r = record r {
  ok_count = suc r.ok_count;
  emitted = sender_balances result.processed (g ∷ []) ++ r.emitted;
}
settle_one g (f ∷ fs) result r = record r {
  failed_count = suc r.failed_count;
  emitted =
      to_socket g.sender_socket_id
        (λ socket. gift_error socket f.failed_id f.code f.reason g.batch_id)
      ++ r.emitted;
}

unfoldable pub fall_back_one : ℕ → Gift → Option BatchResult → Fallback → Fallback
unfolding settle_one
fall_back_one max_retries g none r = retry_or_bury max_retries g r
fall_back_one max_retries g (some result) r = settle_one g result.failed result r

-- The per-item fallback, from the gift at place `i` on, in the order of the batch.
unfoldable pub fall_back : ℕ → (ℕ → Gift → Option BatchResult) → ℕ → List Gift → Fallback
fall_back max_retries post_one i [] = nothing_done
fall_back max_retries post_one i (g ∷ gs) =
    fall_back_one max_retries g (post_one i g) (fall_back max_retries post_one (suc i) gs)

unfoldable pub trimmed : List Item → List Item → List Item
trimmed dead_letter [] = dead_letter
trimmed dead_letter (g ∷ dead) = keep_last dead_letter_max_length (dead_letter ++ g ∷ dead)

-- The end of the fallback: the counters, and the pipeline if it runs.
unfoldable pub close_fallback : GiftBuffer → Bool → Fallback → GiftBuffer
unfolding trimmed
close_fallback b exec_ok r = record b {
  queue = if exec_ok then b.queue ++ r.requeued else b.queue;
  dead_letter = if exec_ok then trimmed b.dead_letter r.dead else b.dead_letter;
  successes = b.successes + r.ok_count;
  failures = b.failures + r.failed_count;
  dead_letters = b.dead_letters + length r.dead;
}

unfoldable pub close_batch : GiftBuffer → List Gift → BatchResult → GiftBuffer
close_batch b gs result = record b {
  successes = b.successes + (length gs - length result.failed);
  failures = b.failures + length result.failed;
}

unfoldable pub deliver :
    ℕ → World → GiftBuffer → List Gift → Option BatchResult → GiftBuffer × List Emit
deliver max_retries w b gs (some result) = (
  close_batch b gs result,
  failure_errors gs result.failed ++ sender_balances result.processed gs,
)
deliver max_retries w b gs none =
    let r = fall_back max_retries w.post_one 0 gs in (close_fallback b w.exec_ok r, r.emitted)

unfoldable pub deliver_parsed : ℕ → World → GiftBuffer → List Gift → GiftBuffer × List Emit
deliver_parsed max_retries w b [] = (b, [])
deliver_parsed max_retries w b (g ∷ gs) = deliver max_retries w b (g ∷ gs) (w.post_batch (g ∷ gs))

-- The corrupted items that are pushed to the dead letters, from place `i` on, and whether all are; a
-- push that fails ends the flush.
unfoldable pub pushed : (ℕ → Bool) → ℕ → List Item → List Item × Bool
pushed push_ok i [] = ([], true)
pushed push_ok i (c ∷ cs) =
    let rest = pushed push_ok (suc i) cs in if push_ok i then (c ∷ rest.0, rest.1) else ([], false)

abbrev pub pushed_now : World → GiftBuffer → List Item × Bool
pushed_now w b = pushed w.push_ok 0 (corrupted (take max_batch_size b.queue))

-- After ATOMIC_LPOP_N_LUA: the queue less the batch, what arrives, and the corrupted items moved to
-- the dead letters.
unfoldable pub popped : GiftBuffer → World → GiftBuffer
popped b w =
    let dead = (pushed_now w b).0 in
    record b {
      queue = drop max_batch_size b.queue ++ w.arrivals;
      dead_letter = b.dead_letter ++ dead;
      flush_count = suc b.flush_count;
      dead_letters = b.dead_letters + length dead;
    }

-- Every tenth flush that has a gift asks for the length of the dead letters, and a failure of that ends
-- it; so does a push that fails, and the batch is gone.
abbrev pub is_sampled : GiftBuffer → List Gift → Bool
is_sampled b [] = false
is_sampled b (g ∷ gs) = b.flush_count % 10 == 0

abbrev pub goes_on : World → GiftBuffer → Bool
goes_on w b =
    (pushed_now w b).1
    && (w.llen_ok || not (is_sampled (popped b w) (parsed (take max_batch_size b.queue))))

-- flush: nothing while another flush is in flight.
unfoldable pub flush : ℕ → World → GiftBuffer → GiftBuffer × List Emit
unfolding deliver_parsed popped
flush max_retries w b =
    if b.is_flushing
    then (record b { queue = b.queue ++ w.arrivals }, [])
    else (if goes_on w b
        then deliver_parsed max_retries w (popped b w) (parsed (take max_batch_size b.queue))
        else (popped b w, []))
