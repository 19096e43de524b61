-- ===== src/Seat/Unread.antt =====
-- Locking a seat whose occupant cannot be read.
use mediasoup_socket_io_audi.Prelude.{ℕ, ◌≡◌, refl, [], ◌∷◌, has, none, some, true, false, arith}
use mediasoup_socket_io_audi.Prelude.Redis.{answers, fails, hget, hget-hdel}
use mediasoup_socket_io_audi.Authority.Verify.{verify_room_manager}
use mediasoup_socket_io_audi.Seat.Types.{RoomSeats, SeatAssignment}
use mediasoup_socket_io_audi.Seat.Scripts.{lock_seat, lock_cell}
use mediasoup_socket_io_audi.Seat.Repository.{get_seat_occupant, try_lock_seat}
use mediasoup_socket_io_audi.Seat.Moderation.{
  Office, gate, seat_cleared, close_all_user_producers, release_music_player, seat_lock,
  lock_seat_handler,
}
use mediasoup_socket_io_audi.Seat.Sanction.{Manages}

-- If the read of the occupant fails, a manager of the room locks an open seat whoever sits on it, the
-- owner included: the seat is emptied, and the occupant's producers and music are closed.
pub lock_seat_handler-unread :
    (before : RoomSeats) (i requester : ℕ) (d : SeatAssignment) (w : Office)
    → Manages w.authority requester
    → has i w.seats.locked ≡ false
    → hget i w.seats.seats ≡ some (some d)
    → let t = lock_seat_handler fails answers before i requester w in
      (t.answer ≡ none)
      × (hget i t.office.seats.seats ≡ none)
      × (t.effects
          ≡ seat_cleared i d.user_id
            ∷ close_all_user_producers d.user_id
            ∷ release_music_player d.user_id
            ∷ seat_lock i true
            ∷ [])
unfolding lock_seat_handler gate verify_room_manager try_lock_seat lock_seat lock_cell
    get_seat_occupant
lock_seat_handler-unread before i requester d w can open_ sits =
    rw (can, open_, sits) (refl, ground (arith, hget-hdel i i w.seats.seats), refl)
