-- ===== src/Tests/Moderation.antt =====
-- A room of user 1 whose admin is user 2; the owner sits on seat 0.
use mediasoup_socket_io_audi.Prelude.{◌≡◌, ◌⊎◌, refl, [], ◌∷◌, none, some, false}
use mediasoup_socket_io_audi.Prelude.Redis.{answers, fails, hget}
use mediasoup_socket_io_audi.Authority.Caches.{admin, can_manage_room}
use mediasoup_socket_io_audi.Seat.Types.{SeatAssignment, empty_room}
use mediasoup_socket_io_audi.Seat.Moderation.{Office, lock_seat_handler}
use mediasoup_socket_io_audi.Seat.Sanction.{locks, act, Outranks, act-Sanctioned}
use mediasoup_socket_io_audi.Seat.Unread.{lock_seat_handler-unread}

abbrev owner_cell : SeatAssignment
owner_cell = record { user_id = 1; muted = false; disconnected_at = none }

abbrev office : Office
office = record {
  authority = record {
    now = 100;
    owner_entry = none;
    roles = [];
    owner_answer = some 1;
    role_answer = λ u. some admin;
  };
  sockets = record { socket_ids = λ u. []; here = λ i. none; fetch_sockets = λ ids. none };
  key = none;
  seats = record empty_room { seats = (0, some owner_cell) ∷ [] };
}

act-Sanctioned_example :
    ((act 15 answers answers office.seats (locks 0) 2 office).office.seats ≡ office.seats)
    ⊎ Outranks office.authority 2 1
unfolding hget
act-Sanctioned_example =
    (act-Sanctioned 15 answers answers office.seats (locks 0) 2 office).1 0 1 refl refl refl refl

lock_seat_handler-unread_example :
    (lock_seat_handler fails answers empty_room 0 2 office).answer ≡ none
unfolding can_manage_room hget
lock_seat_handler-unread_example =
    (lock_seat_handler-unread empty_room 0 2 owner_cell office refl refl refl).0
