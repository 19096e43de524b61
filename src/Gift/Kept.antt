-- ===== src/Gift/Kept.antt =====
-- Which gifts a flush of src/domains/gift/giftBuffer.ts puts where.
use mediasoup_socket_io_audi.Prelude.{ℕ, suc, ◌≡◌, List, [], ◌∷◌, ◌++◌, Option, none, some}
use mediasoup_socket_io_audi.Gift.Buffer.{Gift, BatchResult, GiftBuffer}
use mediasoup_socket_io_audi.Gift.Flush.{World, trimmed}
use mediasoup_socket_io_audi.Gift.Outage.{survivors, buried}

-- The gifts of the batch whose own POST fails.
unfoldable pub unanswered : (ℕ → Gift → Option BatchResult) → ℕ → List Gift → List Gift
unanswered post_one i [] = []
unanswered post_one i (g ∷ gs) =
    let rest = unanswered post_one (suc i) gs in
    elim (post_one i g) [ none ↦ g ∷ rest | some r ↦ rest ]

-- Where the batch `gs` is after the buffer `b` has tried to deliver it.
abbrev pub Kept : ℕ → World → GiftBuffer → List Gift → GiftBuffer → Type 0
Kept n w b gs b' =
    ((r : BatchResult)
      → w.post_batch gs ≡ some r
      → (b'.queue ≡ b.queue) × (b'.dead_letter ≡ b.dead_letter))
    × (w.post_batch gs ≡ none
        → (b'.queue ≡ b.queue ++ survivors n (unanswered w.post_one 0 gs))
          × (b'.dead_letter ≡ trimmed b.dead_letter (buried n (unanswered w.post_one 0 gs))))
