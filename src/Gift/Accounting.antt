-- ===== src/Gift/Accounting.antt =====
-- No gift is lost or counted twice by a flush of src/domains/gift/giftBuffer.ts.
use mediasoup_socket_io_audi.Prelude.{
  ℕ, zero, suc, ◌+◌, ◌≤◌, ◌<◌, ◌≡◌, refl, List, [], ◌∷◌, ◌++◌, Option, none, some, Bool, true,
  false, if◌then◌else◌, length, take, drop, length-append, take-append-drop, arith, Bool-cases, inl,
  inr, ap, ◌∙◌, subst, sym,
}
use mediasoup_socket_io_audi.Gift.Buffer.{
  Gift, Item, Failure, BatchResult, Emit, GiftBuffer, max_batch_size, retries,
}
use mediasoup_socket_io_audi.Gift.Flush.{
  World, parsed, corrupted, Fallback, retry_or_bury, fall_back_one, fall_back, close_fallback,
  close_batch, deliver, deliver_parsed, popped, flush, settle_one, pushed, goes_on,
}

length-parsed :
    (items : List Item) → length (parsed items) + length (corrupted items) ≡ length items
unfolding parsed corrupted
length-parsed [] = refl
length-parsed (none ∷ items) = omega (arith, length-parsed items)
length-parsed (some g ∷ items) = omega (arith, length-parsed items)

abbrev fallback_total : Fallback → ℕ
fallback_total r = length r.requeued + length r.dead + r.ok_count + r.failed_count

fall_back_one_total :
    (max_retries : ℕ) (g : Gift) (o : Option BatchResult) (r : Fallback)
    → fallback_total (fall_back_one max_retries g o r) ≡ suc (fallback_total r)
unfolding fall_back_one retry_or_bury
fall_back_one_total max_retries g none r = ground arith
fall_back_one_total max_retries g (some result) r = settled result.failed
  where
    settled :
        (fs : List Failure) → fallback_total (settle_one g fs result r) ≡ suc (fallback_total r)
    settled [] = unfold settle_one in omega arith
    settled (f ∷ fs) = unfold settle_one in omega arith

pub fall_back_total :
    (max_retries : ℕ) (post_one : ℕ → Gift → Option BatchResult) (i : ℕ) (gs : List Gift)
    → fallback_total (fall_back max_retries post_one i gs) ≡ length gs
unfolding fall_back
fall_back_total max_retries post_one i [] = refl
fall_back_total max_retries post_one i (g ∷ gs) =
    fall_back_one_total max_retries g (post_one i g) (fall_back max_retries post_one (suc i) gs)
    ∙ ap suc (fall_back_total max_retries post_one (suc i) gs)

-- Every gift that was ever queued is waiting or counted once.
abbrev pub accounted : GiftBuffer → ℕ
accounted b = length b.queue + b.successes + b.failures + b.dead_letters

accounted-close_fallback :
    (b : GiftBuffer) (r : Fallback)
    → accounted (close_fallback b true r) ≡ accounted b + fallback_total r
unfolding close_fallback
accounted-close_fallback b r = omega (arith, length-append b.queue r.requeued)

accounted-deliver :
    (max_retries : ℕ) (w : World) (b : GiftBuffer) (gs : List Gift) (o : Option BatchResult)
    → w.exec_ok ≡ true
    → ((r : BatchResult) → o ≡ some r → length r.failed ≤ length gs)
    → accounted (deliver max_retries w b gs o).0 ≡ accounted b + length gs
unfolding deliver close_batch
accounted-deliver max_retries w b gs (some result) ok few = omega (arith, few result refl)
accounted-deliver max_retries w b gs none ok few = rw ok (
    accounted-close_fallback b (fall_back max_retries w.post_one 0 gs)
    ∙ ap (λ (n : ℕ). accounted b + n) (fall_back_total max_retries w.post_one 0 gs))

accounted-deliver_parsed :
    (max_retries : ℕ) (w : World) (b : GiftBuffer) (gs : List Gift)
    → w.exec_ok ≡ true
    → ((r : BatchResult) → w.post_batch gs ≡ some r → length r.failed ≤ length gs)
    → accounted (deliver_parsed max_retries w b gs).0 ≡ accounted b + length gs
unfolding deliver_parsed
accounted-deliver_parsed max_retries w b [] ok few = omega arith
accounted-deliver_parsed max_retries w b (g ∷ gs) ok few =
    accounted-deliver max_retries w b (g ∷ gs) (w.post_batch (g ∷ gs)) ok few

pub pushed_all :
    (push_ok : ℕ → Bool) (i : ℕ) (cs : List Item)
    → (pushed push_ok i cs).1 ≡ true
    → (pushed push_ok i cs).0 ≡ cs
unfolding pushed
pushed_all push_ok i [] h = refl
pushed_all push_ok i (c ∷ cs) h = ground (arith, pushed_all push_ok (suc i) cs)

pub accounted-popped :
    (b : GiftBuffer) (w : World)
    → goes_on w b ≡ true
    → accounted (popped b w) + length (parsed (take max_batch_size b.queue))
      ≡ accounted b + length w.arrivals
unfolding popped
accounted-popped b w runs = omega (
  arith,
  length-append (drop max_batch_size b.queue) w.arrivals,
  length-parsed (take max_batch_size b.queue),
  ap length
      (pushed_all w.push_ok 0 (corrupted (take max_batch_size b.queue)) (ground (arith, runs))),
  length-append (take max_batch_size b.queue) (drop max_batch_size b.queue),
  ap length (take-append-drop max_batch_size b.queue),
)

flush_busy :
    (max_retries : ℕ) (w : World) (b : GiftBuffer)
    → b.is_flushing ≡ true
    → flush max_retries w b ≡ (record b { queue = b.queue ++ w.arrivals }, [])
unfolding flush
flush_busy max_retries w b busy = ground arith

pub flush_idle :
    (max_retries : ℕ) (w : World) (b : GiftBuffer)
    → b.is_flushing ≡ false
    → goes_on w b ≡ true
    → flush max_retries w b
      ≡ deliver_parsed max_retries w (popped b w) (parsed (take max_batch_size b.queue))
unfolding flush
flush_idle max_retries w b idle runs =
    if_false b.is_flushing _ _ idle ∙ if_true (goes_on w b) _ _ runs
  where
    if_false : (t : Bool) (x y : GiftBuffer × List Emit) → t ≡ false → (if t then x else y) ≡ y
    if_false true x y e = cc
    if_false false x y e = refl

    if_true : (t : Bool) (x y : GiftBuffer × List Emit) → t ≡ true → (if t then x else y) ≡ x
    if_true true x y e = refl
    if_true false x y e = cc

pub flush_ends :
    (max_retries : ℕ) (w : World) (b : GiftBuffer)
    → b.is_flushing ≡ false
    → goes_on w b ≡ false
    → flush max_retries w b ≡ (popped b w, [])
unfolding flush
flush_ends max_retries w b idle stops = ground arith

-- Whatever Laravel answers to the batch and to the single gifts, a flush whose closing pipeline
-- runs neither loses nor doubles a gift: what was waiting, and what arrived meanwhile, is waiting
-- again or has been added once to the successes, the failures or the dead letters. Laravel names no
-- more failures than the batch has gifts.
pub accounted-flush :
    (max_retries : ℕ) (w : World) (b : GiftBuffer)
    → goes_on w b ≡ true
    → w.exec_ok ≡ true
    → ((gs : List Gift) (r : BatchResult) → w.post_batch gs ≡ some r → length r.failed ≤ length gs)
    → accounted (flush max_retries w b).0 ≡ accounted b + length w.arrivals
accounted-flush max_retries w b runs ok few = elim (Bool-cases b.is_flushing) [
  | inl busy ↦
      ap (λ x. accounted x.0) (flush_busy max_retries w b busy)
      ∙ omega (arith, length-append b.queue w.arrivals)
  | inr idle ↦
      ap (λ x. accounted x.0) (flush_idle max_retries w b idle runs)
      ∙ (accounted-deliver_parsed max_retries w (popped b w) (parsed (take max_batch_size b.queue))
            ok (few (parsed (take max_batch_size b.queue)))
          ∙ accounted-popped b w runs)
]

-- Every waiting gift has been tried less often than the limit.
abbrev pub TriedLess : ℕ → List Item → Type 0
TriedLess max_retries [] = Unit {0}
TriedLess max_retries (none ∷ items) = TriedLess max_retries items
TriedLess max_retries (some g ∷ items) = (retries g < max_retries) × TriedLess max_retries items

TriedLess-append :
    (n : ℕ) (xs ys : List Item) → TriedLess n xs → TriedLess n ys → TriedLess n (xs ++ ys)
TriedLess-append n [] ys h k = k
TriedLess-append n (none ∷ xs) ys h k = TriedLess-append n xs ys h k
TriedLess-append n (some g ∷ xs) ys h k = (h.0, TriedLess-append n xs ys h.1 k)

TriedLess-drop : (n k : ℕ) (xs : List Item) → TriedLess n xs → TriedLess n (drop k xs)
TriedLess-drop n zero xs h = h
TriedLess-drop n (suc k) [] h = h
TriedLess-drop n (suc k) (none ∷ xs) h = TriedLess-drop n k xs h
TriedLess-drop n (suc k) (some g ∷ xs) h = TriedLess-drop n k xs h.1

fall_back-TriedLess :
    (n : ℕ) (post_one : ℕ → Gift → Option BatchResult) (i : ℕ) (gs : List Gift)
    → TriedLess n (fall_back n post_one i gs).requeued
unfolding fall_back fall_back_one settle_one
fall_back-TriedLess n post_one i [] = tt
fall_back-TriedLess n post_one i (g ∷ gs) =
    one (post_one i g) (fall_back n post_one (suc i) gs) (fall_back-TriedLess n post_one (suc i) gs)
  where
    one :
        (o : Option BatchResult) (r : Fallback)
        → TriedLess n r.requeued
        → TriedLess n (fall_back_one n g o r).requeued
    one none r h = unfold fall_back_one retry_or_bury in ground arith
    one (some result) r h = settled result.failed
      where
        settled : (fs : List Failure) → TriedLess n (settle_one g fs result r).requeued
        settled [] = unfold settle_one in h
        settled (f ∷ fs) = unfold settle_one in h

-- A flush keeps every waiting gift below the limit of attempts, whatever Laravel answers.
pub flush-TriedLess :
    (n : ℕ) (w : World) (b : GiftBuffer)
    → TriedLess n b.queue
    → TriedLess n w.arrivals
    → TriedLess n (flush n w b).0.queue
flush-TriedLess n w b h k = elim (Bool-cases b.is_flushing) [
  | inl busy ↦
      subst (λ x. TriedLess n x.0.queue) (sym (flush_busy n w b busy))
        (TriedLess-append n b.queue w.arrivals h k)
  | inr idle ↦ elim (Bool-cases (goes_on w b)) [
    | inl runs ↦
        subst (λ x. TriedLess n x.0.queue) (sym (flush_idle n w b idle runs))
          (delivered (parsed (take max_batch_size b.queue)))
    | inr stops ↦ subst (λ x. TriedLess n x.0.queue) (sym (flush_ends n w b idle stops)) before
  ]
]
  where
    before : TriedLess n (popped b w).queue
    before =
        unfold popped in
        TriedLess-append n (drop max_batch_size b.queue) w.arrivals
          (TriedLess-drop n max_batch_size b.queue h) k

    closed :
        (ok : Bool) (r : Fallback)
        → TriedLess n r.requeued
        → TriedLess n (close_fallback (popped b w) ok r).queue
    closed true r q =
        unfold close_fallback in TriedLess-append n (popped b w).queue r.requeued before q
    closed false r q = unfold close_fallback in before

    answered :
        (gs : List Gift) (o : Option BatchResult)
        → TriedLess n (deliver n w (popped b w) gs o).0.queue
    answered gs (some result) = unfold deliver close_batch in before
    answered gs none =
        unfold deliver in
        closed w.exec_ok (fall_back n w.post_one 0 gs) (fall_back-TriedLess n w.post_one 0 gs)

    delivered : (gs : List Gift) → TriedLess n (deliver_parsed n w (popped b w) gs).0.queue
    delivered [] = unfold deliver_parsed in before
    delivered (g ∷ gs) = unfold deliver_parsed in answered (g ∷ gs) (w.post_batch (g ∷ gs))
