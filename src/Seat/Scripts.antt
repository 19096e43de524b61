-- ===== src/Seat/Scripts.antt =====
-- The scripts of src/domains/seat/seat.lua-scripts.ts that seat, move, mute and lock: one run of a
-- script is atomic in Redis, and is a function here. EXPIRE, which only postpones the loss of a
-- whole key, writes nothing that a script reads; the loss is a step of its own (Seat/Steps.antt).
use mediasoup_socket_io_audi.Prelude.{
  ℕ, List, [], ◌∷◌, Option, none, some, Bool, true, false, ◌==◌, leb, if◌then◌else◌, ◌&&◌, not,
}
use mediasoup_socket_io_audi.Prelude.Int.{ℤ, pos, negsuc}
use mediasoup_socket_io_audi.Prelude.Redis.{hget, hset, hdel, update, sismember, sadd, srem}
use mediasoup_socket_io_audi.Seat.Types.{
  Cell, RoomSeats, seat_invalid, seat_locked, seat_taken, not_seated, already_locked, not_locked,
  Reply, ok, err, raised, fresh_seat, held_by,
}
use mediasoup_socket_io_audi.Seat.Scan.{purge}

-- The seats other than `i` that show the user.
abbrev pub held_elsewhere : ℕ → ℕ → ℕ → Cell → Bool
held_elsewhere u i idx c = held_by u c && not (idx == i)

-- The single-occupancy heal, HSET of the seat, SET of the reverse index, and the answer.
unfoldable pub heal_and_seat : RoomSeats → ℕ → ℕ → RoomSeats × Reply (ℕ × List ℕ)
heal_and_seat s i u =
    let (healed, cleared) = purge (held_elsewhere u i) s.seats s.seats in
    (
      record s {
        seats = hset i (some (fresh_seat u)) healed;
        user_seat = update s.user_seat u (some i);
      },
      ok (i, cleared),
    )

unfoldable pub take_free : RoomSeats → ℕ → ℕ → Option Cell → RoomSeats × Reply (ℕ × List ℕ)
take_free s i u (some existing) = (s, err seat_taken)
take_free s i u none = heal_and_seat s i u

-- TAKE_SEAT_SCRIPT
unfoldable pub take_seat : RoomSeats → ℤ → ℕ → ℕ → RoomSeats × Reply (ℕ × List ℕ)
unfolding take_free heal_and_seat
take_seat s (negsuc n) u seat_count = (s, err seat_invalid)
take_seat s (pos i) u seat_count =
    if leb seat_count i
    then (s, err seat_invalid)
    else (if sismember i s.locked then (s, err seat_locked) else take_free s i u (hget i s.seats))

unfoldable pub left : List ℕ → Reply (ℕ × List ℕ)
left [] = err not_seated
left (idx ∷ cleared) = ok (idx, idx ∷ cleared)

-- LEAVE_SEAT_SCRIPT
unfoldable pub leave_seat : RoomSeats → ℕ → RoomSeats × Reply (ℕ × List ℕ)
unfolding left
leave_seat s u =
    let (h, cleared) = purge (λ idx c. held_by u c) s.seats s.seats in
    (record s { seats = h; user_seat = update s.user_seat u none }, left cleared)

-- Whoever else sits on the seat loses the reverse index, and the seat is deleted.
unfoldable pub displace : RoomSeats → ℕ → ℕ → Option Cell → RoomSeats
displace s i u none = s
displace s i u (some none) = record s { seats = hdel i s.seats }
displace s i u (some (some d)) = record s {
  seats = hdel i s.seats;
  user_seat = if d.user_id == u then s.user_seat else update s.user_seat d.user_id none;
}

-- ASSIGN_SEAT_SCRIPT
unfoldable pub assign_seat : RoomSeats → ℤ → ℕ → ℕ → RoomSeats × Reply (ℕ × List ℕ)
unfolding displace heal_and_seat
assign_seat s (negsuc n) u seat_count = (s, err seat_invalid)
assign_seat s (pos i) u seat_count =
    if leb seat_count i
    then (s, err seat_invalid)
    else (if sismember i s.locked
        then (s, err seat_locked)
        else heal_and_seat (displace s i u (hget i s.seats)) i u)

unfoldable pub mute_cell : RoomSeats → ℕ → Bool → Option Cell → RoomSeats × Reply Bool
mute_cell s i m none = (s, ok false)
mute_cell s i m (some none) = (s, raised)
mute_cell s i m (some (some d)) =
    (record s { seats = hset i (some (record d { muted = m })) s.seats }, ok true)

-- SET_MUTE_SCRIPT: answers whether there was an occupant.
unfoldable pub set_mute : RoomSeats → ℕ → Bool → RoomSeats × Reply Bool
unfolding mute_cell
set_mute s i m = mute_cell s i m (hget i s.seats)

unfoldable pub lock_cell : RoomSeats → ℕ → Option Cell → RoomSeats × Reply (Option ℕ)
lock_cell s i none = (record s { locked = sadd i s.locked }, ok none)
lock_cell s i (some none) = (s, raised)
lock_cell s i (some (some d)) = (
  record s {
    seats = hdel i s.seats;
    locked = sadd i s.locked;
    user_seat = update s.user_seat d.user_id none;
  },
  ok (some d.user_id),
)

-- LOCK_SEAT_SCRIPT: answers whom it removed from the seat.
unfoldable pub lock_seat : RoomSeats → ℕ → RoomSeats × Reply (Option ℕ)
unfolding lock_cell
lock_seat s i =
    if sismember i s.locked then (s, err already_locked) else lock_cell s i (hget i s.seats)

-- UNLOCK_SEAT_SCRIPT
unfoldable pub unlock_seat : RoomSeats → ℕ → RoomSeats × Reply (Unit {0})
unlock_seat s i =
    if sismember i s.locked
    then (record s { locked = srem i s.locked }, ok tt)
    else (s, err not_locked)
