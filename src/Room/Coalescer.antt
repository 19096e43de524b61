-- ===== src/Room/Coalescer.antt =====
-- `StatusCoalescer` of src/domains/room/status-coalescer.ts: the buffered status of each room, and
-- what is sent to Laravel, in the order in which the requests are made. A request that fails is
-- logged and not repeated.
use mediasoup_socket_io_audi.Prelude.{ℕ, List, [], ◌∷◌, ◌++◌, Bool, length}
use mediasoup_socket_io_audi.Prelude.Redis.{Hash, hset, hdel}

-- The fields of a `RoomStatusUpdate` that say whether the room is live and how many are in it.
pub record RoomStatusUpdate : Type 0 where
  pub is_live : Bool
  pub participant_count : ℕ

-- `pending`, a `Map` in insertion order, and the requests made, latest last.
pub record Coalescer : Type 0 where
  pub pending : Hash RoomStatusUpdate
  pub sent : List (ℕ × RoomStatusUpdate)

abbrev pub no_status : Coalescer
no_status = record { pending = []; sent = [] }

-- submit
unfoldable pub submit : Coalescer → ℕ → RoomStatusUpdate → Coalescer
submit c room status = record c { pending = hset room status c.pending }

-- flushNow
unfoldable pub flush_now : Coalescer → ℕ → RoomStatusUpdate → Coalescer
flush_now c room status = record {
  pending = hdel room c.pending;
  sent = c.sent ++ (room, status) ∷ [];
}

-- forget
unfoldable pub forget : Coalescer → ℕ → Coalescer
forget c room = record c { pending = hdel room c.pending }

-- flushAll, and stop.
unfoldable pub flush_all : Coalescer → Coalescer
flush_all c = record { pending = []; sent = c.sent ++ c.pending }

-- pendingCount
abbrev pub pending_count : Coalescer → ℕ
pending_count c = length c.pending
