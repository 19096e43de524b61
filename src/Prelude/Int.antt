-- ===== src/Prelude/Int.antt =====
-- Signed integers over the native numbers, where a caller can pass a negative one.
use mediasoup_socket_io_audi.Prelude.{ℕ}

-- `negsuc n` is -(n + 1).
pub data ℤ : Type 0 where
  pos : ℕ → ℤ
  negsuc : ℕ → ℤ
