-- ===== src/Tests/Invitations.antt =====
-- A room in which user 7 is on seat 0 and seat 1 is locked; user 8 is invited to it.
use mediasoup_socket_io_audi.Prelude.{◌≡◌, refl, [], ◌∷◌, none, some, arith}
use mediasoup_socket_io_audi.Prelude.Int.{pos}
use mediasoup_socket_io_audi.Prelude.Redis.{answers, hget, hset}
use mediasoup_socket_io_audi.Seat.Types.{RoomSeats, empty_room}
use mediasoup_socket_io_audi.Seat.Scan.{purge}
use mediasoup_socket_io_audi.Seat.Scripts.{take_seat, lock_seat, lock_cell, heal_and_seat}
use mediasoup_socket_io_audi.Seat.Steps.{take, lock, run_script, script, start, next}
use mediasoup_socket_io_audi.Seat.Invariant.{Inv}
use mediasoup_socket_io_audi.Seat.Safety.{Reach-Inv}
use mediasoup_socket_io_audi.Seat.Invites.{
  PendingInvite, Invites, create_invite, get_invite, delete_invite, get_invite_by_user,
  create_invite_lem, delete_invite_orphans,
}
use mediasoup_socket_io_audi.Seat.Invitation.{Table, invite_seat, accept_invite}
use mediasoup_socket_io_audi.Seat.Accepting.{Seated, accept_invite_lem, accept_invite-invite_seat}

abbrev room : RoomSeats
room = run_script (lock 1) (run_script (take (pos 0) 7 4) empty_room)

room-Inv : Inv room
room-Inv = Reach-Inv (next (next start (script (take (pos 0) 7 4))) (script (lock 1)))

abbrev no_invites : Invites
no_invites = record { by_seat = λ i. none; by_user = λ u. none }

seat_1_free : hget 1 room.seats ≡ none
unfolding run_script take_seat lock_seat lock_cell heal_and_seat purge hget hset
seat_1_free = refl

unseated_8 : room.user_seat 8 ≡ none
unfolding run_script take_seat lock_seat lock_cell heal_and_seat purge hget hset
unseated_8 = refl

abbrev table : Table
table = record { seats = room; invites = no_invites }

no_invite_yet : get_invite answers no_invites 1 0 ≡ none
unfolding get_invite
no_invite_yet = refl

accept_invite-invite_seat_run :
    Seated
      (invite_seat table none (100 ∷ []) 7 8 1 0).0
      8
      1
      20000
      (accept_invite (invite_seat table none (100 ∷ []) 7 8 1 0).0 8 (some 1) 4 20000)
accept_invite-invite_seat_run =
    accept_invite-invite_seat table (100 ∷ []) 7 8 1 4 0 20000 room-Inv (λ e. omega arith)
      unseated_8 seat_1_free no_invite_yet (omega arith) (omega arith)

abbrev invite : PendingInvite
invite = record { target_user_id = 8; invited_by = 7; seat_index = 1; created_at = 0 }

abbrev invited : Invites
invited = (create_invite answers no_invites 1 8 7 30 0).0

invite_found : get_invite answers invited 1 20000 ≡ some invite
unfolding get_invite create_invite
invite_found = refl

accept_invite_lem_run :
    Seated
      (record { seats = room; invites = invited })
      8
      1
      20000
      (accept_invite (record { seats = room; invites = invited }) 8 (some 1) 4 20000)
accept_invite_lem_run =
    accept_invite_lem (record { seats = room; invites = invited }) 8 1 4 20000 invite room-Inv
      invite_found refl (omega arith) seat_1_free

create_invite_lem_run :
    get_invite_by_user answers answers (create_invite answers no_invites 1 8 7 30 0).0 8 20000
    ≡ some (invite, 1)
create_invite_lem_run = (create_invite_lem no_invites 1 8 7 30 0 20000 (omega arith)).1

delete_invite_orphans_run :
    get_invite_by_user answers answers
      (delete_invite answers answers
        (create_invite answers (create_invite answers no_invites 1 8 7 30 0).0 2 8 7 30 0).0
        1
        20000).0
      8
      20000
    ≡ none
delete_invite_orphans_run =
    (delete_invite_orphans no_invites 1 2 8 7 30 0 20000 (λ e. omega arith) (omega arith)).0
