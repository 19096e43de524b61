-- ===== src/Tests/Taking.antt =====
-- Seat 20 of a room whose stored count is 15 and whose count in Laravel is 25.
use mediasoup_socket_io_audi.Prelude.{◌≡◌, refl, none, some, true, arith}
use mediasoup_socket_io_audi.Prelude.Int.{pos}
use mediasoup_socket_io_audi.Prelude.Redis.{answers}
use mediasoup_socket_io_audi.Room.State.{get}
use mediasoup_socket_io_audi.Seat.Types.{empty_room}
use mediasoup_socket_io_audi.Seat.Repository.{try_take_seat}
use mediasoup_socket_io_audi.Seat.Taking.{
  SeatWorld, Refetch, take_seat_handler, take_seat_handler_lem,
}

abbrev world : SeatWorld
world = record { key = none; seats = empty_room }

abbrev refetch : Refetch
refetch = record { max_seats = some 25; read = true; save_link = answers }

take_seat_handler_lem_example :
    (take_seat_handler 15 30 refetch 100 (pos 20) 7 world).1
    ≡ (try_take_seat answers empty_room (pos 20) 7 25).1
unfolding get
take_seat_handler_lem_example =
    ((take_seat_handler_lem 15 30 100 20 7 refetch world).1 25 (omega arith) (omega arith)
      (refl, omega arith, omega arith, refl, refl)).0
