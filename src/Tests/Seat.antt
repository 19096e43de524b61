-- ===== src/Tests/Seat.antt =====
-- The seat scripts at a room of four seats: user 7 on seat 0, user 8 on seat 2, seat 3 locked.
use mediasoup_socket_io_audi.Prelude.{length, ◌≡◌, refl, none, some, false, has, arith, ◌↔◌}
use mediasoup_socket_io_audi.Prelude.Int.{pos}
use mediasoup_socket_io_audi.Prelude.Redis.{answers, answer_lost, hget, hset, sadd}
use mediasoup_socket_io_audi.Seat.Types.{
  RoomSeats, ok, err, seat_taken, occupant, fresh_seat, empty_room,
}
use mediasoup_socket_io_audi.Seat.Scan.{purge}
use mediasoup_socket_io_audi.Seat.Scripts.{
  heal_and_seat, take_free, take_seat, leave_seat, assign_seat, lock_seat, lock_cell,
}
use mediasoup_socket_io_audi.Seat.Retention.{
  reserve_scan, reserve_seat, reclaim_seat, sweep_expired, shrink_evict, mark,
}
use mediasoup_socket_io_audi.Seat.Steps.{
  take, lock, reserve, run_script, script, Reach, start, next,
}
use mediasoup_socket_io_audi.Seat.Invariant.{Inv}
use mediasoup_socket_io_audi.Seat.Repository.{
  taken_seat, failure, try_take_seat, SeatData, seat_rows, get_seats, get_seat_occupant,
}
use mediasoup_socket_io_audi.Seat.Answers.{Reports, try_take_seat_lem, try_take_seat-again}
use mediasoup_socket_io_audi.Seat.Snapshot.{row_at, Decodes, get_seats_lem, get_seats_consistent}
use mediasoup_socket_io_audi.Seat.Safety.{Reach-Inv}
use mediasoup_socket_io_audi.Seat.Behaviour.{
  seated, Takeable, take_seat_lem, take_seat_refused, leave_seat_lem, assign_seat_lem,
}
use mediasoup_socket_io_audi.Seat.Locks.{lock_seat_excludes}
use mediasoup_socket_io_audi.Seat.Reconnect.{
  take_seat-reserve_seat, reclaim-reserve, reclaim-sweep, shrink_evict_lem,
}

abbrev room : RoomSeats
room =
    run_script (lock 3) (run_script (take (pos 2) 8 4) (run_script (take (pos 0) 7 4) empty_room))

room-Reach : Reach room
room-Reach =
    next (next (next start (script (take (pos 0) 7 4))) (script (take (pos 2) 8 4)))
      (script (lock 3))

Reach-Inv_example : Inv room
Reach-Inv_example = Reach-Inv room-Reach

seat_of_7 : hget 0 room.seats ≡ some (some (fresh_seat 7))
unfolding run_script take_seat lock_seat lock_cell heal_and_seat purge hget hset
seat_of_7 = refl

seat_1_free : hget 1 room.seats ≡ none
unfolding run_script take_seat lock_seat lock_cell heal_and_seat purge hget hset
seat_1_free = refl

seat_1_open : has 1 room.locked ≡ false
unfolding run_script take_seat lock_seat lock_cell heal_and_seat purge hget hset sadd
seat_1_open = refl

seat_0_open : has 0 room.locked ≡ false
unfolding run_script take_seat lock_seat lock_cell heal_and_seat purge hget hset sadd
seat_0_open = refl

seat_1-Takeable : Takeable room 1 4
seat_1-Takeable = (omega arith, seat_1_open, seat_1_free)

room-Inv : Inv room
room-Inv = Reach-Inv room-Reach

take_seat_lem_example :
    hget 0 (take_seat room (pos 1) 7 4).0.seats ≡ seated 1 7 0 (hget 0 room.seats)
take_seat_lem_example = (take_seat_lem room 1 7 4 room-Inv.distinct seat_1-Takeable).0 0

taken_refused : (take_seat room (pos 2) 7 4).1 ≡ err seat_taken
unfolding run_script take_seat take_free lock_seat lock_cell heal_and_seat purge hget hset sadd
taken_refused = refl

take_seat_refused_run : (take_seat room (pos 2) 7 4).0 ≡ room
take_seat_refused_run = (take_seat_refused room 2 7 4 seat_taken taken_refused).0

leave_seat_lem_run : (leave_seat room 7).0.locked ≡ room.locked
leave_seat_lem_run = (leave_seat_lem room 7 room-Inv.distinct).2

assign_seat_lem_run :
    hget 0 (assign_seat room (pos 0) 8 4).0.seats ≡ seated 0 8 0 (hget 0 room.seats)
assign_seat_lem_run = (assign_seat_lem room 0 8 4 room-Inv (omega arith) seat_0_open).0 0

lock_kicks : (lock_seat room 0).1 ≡ ok (some 7)
unfolding run_script take_seat take_free lock_seat lock_cell heal_and_seat purge hget hset sadd
lock_kicks = refl

lock_seat_excludes_run : some 7 ≡ occupant 0 room
lock_seat_excludes_run = (lock_seat_excludes room 0 8 4 (some 7) lock_kicks).0

take_seat-reserve_seat_run :
    take_seat (reserve_seat room 7 1000).0 (pos 0) 9 4
    ≡ ((reserve_seat room 7 1000).0, err seat_taken)
take_seat-reserve_seat_run =
    take_seat-reserve_seat room 0 7 9 4 1000 room-Inv (ground (arith, seat_of_7)) (omega arith)

reclaim-reserve_example :
    (reclaim_seat (reserve_seat room 7 1000).0 7 3000 5000).1 ≡ some (0, false)
reclaim-reserve_example =
    (reclaim-reserve room 0 7 1000 3000 5000 (fresh_seat 7) room-Inv seat_of_7 refl refl
      (omega arith)).0

abbrev held_room : RoomSeats
held_room = run_script (reserve 7 1000) room

held_room-Inv : Inv held_room
held_room-Inv = Reach-Inv (next room-Reach (script (reserve 7 1000)))

held_seat_of_7 : hget 0 held_room.seats ≡ some (some (mark 1000 (fresh_seat 7)))
unfolding run_script take_seat lock_seat lock_cell heal_and_seat purge reserve_seat reserve_scan
    hget hset sadd
held_seat_of_7 = refl

reclaim-sweep_run :
    ((reclaim_seat held_room 7 7000 5000).1 ≡ none)
    ↔ (hget 0 (sweep_expired held_room 7000 5000).0.seats ≡ none)
reclaim-sweep_run =
    reclaim-sweep held_room 0 7 1000 7000 5000 (mark 1000 (fresh_seat 7)) held_room-Inv
      held_seat_of_7 refl refl

shrink_evict_lem_run : hget 0 (shrink_evict room 2).0.seats ≡ hget 0 room.seats
shrink_evict_lem_run = (shrink_evict_lem room 2 0 room-Inv).1 (omega arith)

try_take_seat_lem_run :
    Reports room (take_seat room (pos 1) 9 4) (try_take_seat answer_lost room (pos 1) 9 4)
try_take_seat_lem_run = (try_take_seat_lem answer_lost room (pos 1) 9 4).0

try_take_seat-again_run :
    try_take_seat answers (try_take_seat answer_lost room (pos 1) 9 4).0 (pos 1) 9 4
    ≡ ((try_take_seat answer_lost room (pos 1) 9 4).0, failure taken_seat)
try_take_seat-again_run = (try_take_seat-again room 1 9 4 room-Inv seat_1-Takeable).2

room-Decodes : Decodes room.seats 0 4
unfolding run_script take_seat lock_seat lock_cell heal_and_seat purge hget hset sadd
room-Decodes = (λ e. cc, (λ e. cc, (λ e. cc, (λ e. cc, tt))))

get_seats_lem_run : length (get_seats answers room room 4) ≡ 4
get_seats_lem_run = (get_seats_lem room room 4 room-Decodes).0

abbrev row_of_7 : SeatData
row_of_7 = record { index = 0; user_id = some 7; muted = false; locked = false; reserved = false }

shows_7 : row_at 0 (get_seats answers room room 4) ≡ some row_of_7
unfolding get_seats seat_rows run_script take_seat lock_seat lock_cell heal_and_seat purge hget hset
    sadd
shows_7 = refl

get_seats_consistent_run : get_seat_occupant answers room 0 ≡ some 7
get_seats_consistent_run =
    (get_seats_consistent room 4 0 0 7 row_of_7 row_of_7 room-Inv room-Decodes shows_7 shows_7
      refl).2
