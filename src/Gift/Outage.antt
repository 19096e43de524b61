-- ===== src/Gift/Outage.antt =====
-- A flush of src/domains/gift/giftBuffer.ts while Laravel or Redis is down.
use mediasoup_socket_io_audi.Prelude.{
  ℕ, suc, ◌+◌, ◌≡◌, refl, List, [], ◌∷◌, ◌++◌, append-nil, none, some, Bool, true, false, leb,
  if◌then◌else◌, length, take, arith, ap, ◌∙◌, subst, sym,
}
use mediasoup_socket_io_audi.Gift.Buffer.{
  Gift, Item, Emit, failed_permanently, GiftBuffer, max_batch_size, retries, to_socket,
}
use mediasoup_socket_io_audi.Gift.Flush.{
  World, parsed, Fallback, retry_or_bury, fall_back_one, fall_back, close_fallback, deliver,
  deliver_parsed, popped, flush, trimmed, goes_on,
}
use mediasoup_socket_io_audi.Gift.Accounting.{flush_idle, accounted, accounted-popped}

-- The gift has had its last attempt.
abbrev pub is_last : ℕ → Gift → Bool
is_last max_retries g = leb max_retries (retries g + 1)

-- The gifts that wait again, each tried once more, in the order of the batch.
unfoldable pub survivors : ℕ → List Gift → List Item
survivors max_retries [] = []
survivors max_retries (g ∷ gs) =
    if is_last max_retries g
    then survivors max_retries gs
    else some (record g { retry_count = some (retries g + 1) }) ∷ survivors max_retries gs

-- The gifts given up, as they were, and what their senders are told.
unfoldable pub buried : ℕ → List Gift → List Item
buried max_retries [] = []
buried max_retries (g ∷ gs) =
    if is_last max_retries g then some g ∷ buried max_retries gs else buried max_retries gs

pub obituaries : ℕ → List Gift → List Emit
obituaries max_retries [] = []
obituaries max_retries (g ∷ gs) =
    if is_last max_retries g
    then to_socket g.sender_socket_id
        (λ socket. failed_permanently socket g.transaction_id g.batch_id)
      ++ obituaries max_retries gs
    else obituaries max_retries gs

-- Every request to Laravel fails.
pub record IsOutage (w : World) : Type 0 where
  pub no_batch : (gs : List Gift) → w.post_batch gs ≡ none
  pub no_single : (i : ℕ) (g : Gift) → w.post_one i g ≡ none

abbrev outage_fallback : ℕ → List Gift → Fallback
outage_fallback max_retries gs = record {
  requeued = survivors max_retries gs;
  dead = buried max_retries gs;
  ok_count = 0;
  failed_count = 0;
  emitted = obituaries max_retries gs;
}

fall_back_outage :
    (max_retries : ℕ) (w : World) (i : ℕ) (gs : List Gift)
    → IsOutage w
    → fall_back max_retries w.post_one i gs ≡ outage_fallback max_retries gs
unfolding fall_back survivors buried obituaries
fall_back_outage max_retries w i [] out = refl
fall_back_outage max_retries w i (g ∷ gs) out =
    ap (fall_back_one max_retries g (w.post_one i g))
      (fall_back_outage max_retries w (suc i) gs out)
    ∙ (ap (λ o. fall_back_one max_retries g o (outage_fallback max_retries gs)) (out.no_single i g)
        ∙ unfold fall_back_one retry_or_bury in ground arith)

-- Where the gifts of a batch are after an outage flush.
abbrev pub Buried : ℕ → Bool → GiftBuffer → List Gift → GiftBuffer × List Emit → Type 0
Buried max_retries exec_ok b gs (b', es) =
    (b'.queue ≡ (if exec_ok then b.queue ++ survivors max_retries gs else b.queue))
    × (b'.dead_letter
        ≡ (if exec_ok then trimmed b.dead_letter (buried max_retries gs) else b.dead_letter))
    × (es ≡ obituaries max_retries gs)
    × (b'.dead_letters ≡ b.dead_letters + length (buried max_retries gs))
    × (b'.successes ≡ b.successes)
    × (b'.failures ≡ b.failures)

deliver_parsed_outage :
    (max_retries : ℕ) (w : World) (b : GiftBuffer) (gs : List Gift)
    → IsOutage w
    → Buried max_retries w.exec_ok b gs (deliver_parsed max_retries w b gs)
unfolding deliver_parsed
deliver_parsed_outage max_retries w b [] out =
    unfold survivors buried obituaries trimmed in
    (ground (arith, append-nil b.queue), ground arith, refl, omega arith, refl, refl)
deliver_parsed_outage max_retries w b (g ∷ gs) out =
    subst (λ o. Buried max_retries w.exec_ok b (g ∷ gs) (deliver max_retries w b (g ∷ gs) o))
      (sym (out.no_batch (g ∷ gs)))
      (unfold deliver in
        subst
          (λ r. Buried max_retries w.exec_ok b (g ∷ gs) (close_fallback b w.exec_ok r, r.emitted))
          (sym (fall_back_outage max_retries w 0 (g ∷ gs) out))
          (unfold close_fallback in (refl, refl, refl, refl, omega arith, omega arith)))

-- While every request to Laravel fails and the commands before the POST succeed, a flush puts each gift of the batch that has attempts left
-- behind the queue, tried once more, in order and behind what arrived meanwhile; moves each of the
-- others to the dead letters, of which the newest are kept; tells their senders and no one else;
-- and, if the closing pipeline fails too, keeps none of the batch in either list.
pub flush_outage :
    (max_retries : ℕ) (w : World) (b : GiftBuffer)
    → b.is_flushing ≡ false
    → goes_on w b ≡ true
    → IsOutage w
    → Buried max_retries w.exec_ok
        (popped b w)
        (parsed (take max_batch_size b.queue))
        (flush max_retries w b)
flush_outage max_retries w b idle runs out =
    subst (Buried max_retries w.exec_ok (popped b w) (parsed (take max_batch_size b.queue)))
      (sym (flush_idle max_retries w b idle runs))
      (deliver_parsed_outage max_retries w (popped b w) (parsed (take max_batch_size b.queue)) out)

length-survivors :
    (max_retries : ℕ) (gs : List Gift)
    → length (survivors max_retries gs) + length (buried max_retries gs) ≡ length gs
unfolding survivors buried
length-survivors max_retries [] = refl
length-survivors max_retries (g ∷ gs) = ground (arith, length-survivors max_retries gs)

-- If the commands of Redis before the POST succeed, Laravel is down and the closing pipeline fails, the gifts of the batch that had
-- attempts left are neither waiting nor counted afterwards: they are lost.
pub flush_loses :
    (max_retries : ℕ) (w : World) (b : GiftBuffer)
    → b.is_flushing ≡ false
    → goes_on w b ≡ true
    → IsOutage w
    → w.exec_ok ≡ false
    → accounted (flush max_retries w b).0
        + length (survivors max_retries (parsed (take max_batch_size b.queue)))
      ≡ accounted b + length w.arrivals
flush_loses max_retries w b idle runs out fails =
    let (q, d, e, n, s, f) = flush_outage max_retries w b idle runs out in
    omega (
      arith,
      ap length (q ∙ if_false w.exec_ok _ _ fails),
      n,
      s,
      f,
      accounted-popped b w runs,
      length-survivors max_retries (parsed (take max_batch_size b.queue)),
    )
  where
    if_false : (t : Bool) (x y : List Item) → t ≡ false → (if t then x else y) ≡ y
    if_false true x y e = cc
    if_false false x y e = refl
