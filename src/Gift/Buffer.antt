-- ===== src/Gift/Buffer.antt =====
-- The data of src/domains/gift/giftBuffer.ts: the two Redis lists, the counters, what Laravel
-- answers and what senders are told. An item that `JSON.parse` refuses is `none`. Of a transaction
-- the fields that the buffer reads are kept; `payload` stands for the others. The histograms of
-- waiting and posting times are left out.
use mediasoup_socket_io_audi.Prelude.{
  ℕ, ◌-◌, List, [], ◌∷◌, ◌++◌, Option, none, some, Bool, ◌==◌, has, if◌then◌else◌, length, drop,
}

pub record Gift : Type 0 where
  pub transaction_id : ℕ
  pub sender_socket_id : Option ℕ
  pub batch_id : Option ℕ
  pub retry_count : Option ℕ
  pub payload : ℕ

abbrev pub Item : Type 0
Item = Option Gift

pub record Failure : Type 0 where
  pub failed_id : ℕ
  pub code : ℕ
  pub reason : ℕ
  pub sender : Option ℕ

pub record Processed : Type 0 where
  pub transaction_ids : List ℕ
  pub balance : ℕ

-- An absent `processed` is the empty list.
pub record BatchResult : Type 0 where
  pub failed : List Failure
  pub processed : List Processed

-- `failed_permanently` is the code PROCESSING_FAILED.
pub data Emit : Type 0 where
  gift_error : (socket transaction code reason : ℕ) → Option ℕ → Emit
  failed_permanently : (socket transaction : ℕ) → Option ℕ → Emit
  balance_updated : (socket balance : ℕ) → Emit

-- The lists `gifts:pending` and `gifts:dead_letter`, and the counters of `giftsProcessed`.
pub record GiftBuffer : Type 0 where
  pub queue : List Item
  pub dead_letter : List Item
  pub flush_count : ℕ
  pub is_flushing : Bool
  pub successes : ℕ
  pub failures : ℕ
  pub dead_letters : ℕ

-- MAX_BATCH_SIZE and DEAD_LETTER_MAX_LENGTH.
abbrev pub max_batch_size : ℕ
max_batch_size = 50

abbrev pub dead_letter_max_length : ℕ
dead_letter_max_length = 10000

-- `retryCount ?? 0`
abbrev pub retries : Gift → ℕ
retries g = elim g.retry_count [ none ↦ 0 | some n ↦ n ]

-- enqueue
unfoldable pub enqueue : GiftBuffer → Gift → GiftBuffer
enqueue b g = record b { queue = b.queue ++ some g ∷ [] }

-- LTRIM key -n -1: the last n entries.
abbrev pub keep_last {ℓ} : {A : Type ℓ} → ℕ → List A → List A
keep_last n xs = drop (length xs - n) xs

pub later_or : Option (Option ℕ) → Option ℕ → Option (Option ℕ)
later_or none found = some found
later_or (some later) found = some later

-- The map from transaction to batch: of two gifts with one id the later counts.
unfoldable pub batch_id_of : ℕ → List Gift → Option (Option ℕ)
unfolding later_or
batch_id_of id [] = none
batch_id_of id (g ∷ gs) =
    let rest = batch_id_of id gs in
    if g.transaction_id == id then later_or rest g.batch_id else rest

abbrev pub flat : Option (Option ℕ) → Option ℕ
flat none = none
flat (some b) = b

abbrev pub to_socket : Option ℕ → (ℕ → Emit) → List Emit
to_socket none e = []
to_socket (some socket) e = e socket ∷ []

-- The `gift:error` of each failure row that names a socket.
unfoldable pub failure_errors : List Gift → List Failure → List Emit
failure_errors gs [] = []
failure_errors gs (f ∷ fs) =
    to_socket f.sender
      (λ socket. gift_error socket f.failed_id f.code f.reason (flat (batch_id_of f.failed_id gs)))
    ++ failure_errors gs fs

unfoldable pub source_socket : List ℕ → List Gift → Option ℕ
source_socket ids [] = none
source_socket ids (g ∷ gs) =
    if has g.transaction_id ids then g.sender_socket_id else source_socket ids gs

-- emitSenderBalances
unfoldable pub sender_balances : List Processed → List Gift → List Emit
sender_balances [] gs = []
sender_balances (p ∷ ps) gs =
    to_socket (source_socket p.transaction_ids gs) (λ socket. balance_updated socket p.balance)
    ++ sender_balances ps gs
