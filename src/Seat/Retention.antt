-- ===== src/Seat/Retention.antt =====
-- The scripts of src/domains/seat/seat.lua-scripts.ts that hold a seat across a reconnect, and the
-- eviction when a room shrinks. Times are milliseconds of the caller's clock; where `now` lies
-- before the marker the script's difference is negative, and `-`, which stops at 0, gives the same
-- answers, for no grace is negative.
use mediasoup_socket_io_audi.Prelude.{
  ℕ, ◌-◌, List, [], ◌∷◌, Option, none, some, Bool, false, ◌==◌, leb, ltb, if◌then◌else◌, ◌&&◌,
}
use mediasoup_socket_io_audi.Prelude.Redis.{Hash, hset, update}
use mediasoup_socket_io_audi.Seat.Types.{
  SeatAssignment, Cell, RoomSeats, not_seated, Reply, ok, err,
}
use mediasoup_socket_io_audi.Seat.Scan.{evict}

abbrev pub mark : ℕ → SeatAssignment → SeatAssignment
mark now d = record d { disconnected_at = some now }

-- The scan of RESERVE_SEAT_SCRIPT: HSET the marker on every seat of the user.
unfoldable pub reserve_scan : ℕ → ℕ → Hash Cell → Hash Cell → Hash Cell × List ℕ
reserve_scan u now [] h = (h, [])
reserve_scan u now ((idx, none) ∷ all) h = reserve_scan u now all h
reserve_scan u now ((idx, some d) ∷ all) h =
    let (h', reserved) =
      reserve_scan u now all (if d.user_id == u then hset idx (some (mark now d)) h else h) in
    (h', if d.user_id == u then idx ∷ reserved else reserved)

unfoldable pub reserved_reply : List ℕ → Reply (List ℕ)
reserved_reply [] = err not_seated
reserved_reply (idx ∷ reserved) = ok (idx ∷ reserved)

-- RESERVE_SEAT_SCRIPT
unfoldable pub reserve_seat : RoomSeats → ℕ → ℕ → RoomSeats × Reply (List ℕ)
unfolding reserved_reply
reserve_seat s u now =
    let (h, reserved) = reserve_scan u now s.seats s.seats in
    (record s { seats = h }, reserved_reply reserved)

-- The marker is set and still within the grace.
abbrev pub in_grace : ℕ → ℕ → Option ℕ → Bool
in_grace now grace none = false
in_grace now grace (some t) = leb (now - t) grace

-- The marker is set and the grace is over.
abbrev pub past_grace : ℕ → ℕ → Option ℕ → Bool
past_grace now grace none = false
past_grace now grace (some t) = ltb grace (now - t)

abbrev pub reactivate : RoomSeats → ℕ → ℕ → SeatAssignment → RoomSeats
reactivate s u idx d = record s {
  seats = hset idx (some (record d { disconnected_at = none })) s.seats;
  user_seat = update s.user_seat u (some idx);
}

-- The scan of RECLAIM_SEAT_SCRIPT, which returns at the first seat that it restores.
unfoldable pub reclaim_scan : ℕ → ℕ → ℕ → Hash Cell → RoomSeats → RoomSeats × Option (ℕ × Bool)
reclaim_scan u now grace [] s = (s, none)
reclaim_scan u now grace ((idx, none) ∷ all) s = reclaim_scan u now grace all s
reclaim_scan u now grace ((idx, some d) ∷ all) s =
    if (d.user_id == u) && in_grace now grace d.disconnected_at
    then (reactivate s u idx d, some (idx, d.muted))
    else reclaim_scan u now grace all s

-- RECLAIM_SEAT_SCRIPT: answers the seat and whether it is muted.
unfoldable pub reclaim_seat : RoomSeats → ℕ → ℕ → ℕ → RoomSeats × Option (ℕ × Bool)
unfolding reclaim_scan
reclaim_seat s u now grace = reclaim_scan u now grace s.seats s

-- SWEEP_EXPIRED_SEATS_SCRIPT: answers each cleared seat with its user.
unfoldable pub sweep_expired : RoomSeats → ℕ → ℕ → RoomSeats × List (ℕ × ℕ)
sweep_expired s now grace = evict (λ idx d. past_grace now grace d.disconnected_at) s.seats s

-- SHRINK_EVICT_SCRIPT
unfoldable pub shrink_evict : RoomSeats → ℕ → RoomSeats × List (ℕ × ℕ)
shrink_evict s new_seat_count = evict (λ idx d. leb new_seat_count idx) s.seats s
