-- ===== src/Seat/Invitation.antt =====
-- The handlers of src/domains/seat/handlers/invite-seat.handler.ts and invite-response.handler.ts,
-- each run with every call answered and no command of another client between its own. The answer of
-- verifyRoomManager and the sockets of a user, which other services give, are arguments.
use mediasoup_socket_io_audi.Prelude.{
  ℕ, ◌+◌, ◌*◌, List, [], ◌∷◌, Option, none, some, Bool, true, false, ◌==◌, if◌then◌else◌,
}
use mediasoup_socket_io_audi.Prelude.Int.{pos}
use mediasoup_socket_io_audi.Prelude.Redis.{answers}
use mediasoup_socket_io_audi.Seat.Types.{RoomSeats}
use mediasoup_socket_io_audi.Seat.Repository.{
  SeatError, SeatActionResult, success, failure, try_take_seat, try_unlock_seat, get_user_seat,
  get_seat_occupant,
}
use mediasoup_socket_io_audi.Seat.Invites.{
  PendingInvite, Invites, create_invite, get_invite, delete_invite, get_invite_by_user,
}

-- INVITE_EXPIRY_SECONDS
abbrev pub invite_expiry_seconds : ℕ
invite_expiry_seconds = 30

-- The seats of a room and its invitations.
pub record Table : Type 0 where
  pub seats : RoomSeats
  pub invites : Invites

-- What is broadcast to the room (`pending`, `locked`, `updated`) or sent to one socket (`received`).
pub data Event : Type 0 where
  pending : (seat : ℕ) → (is_pending : Bool) → (invited : Option ℕ) → Event
  locked : (seat : ℕ) → (is_locked : Bool) → Event
  updated : (seat user : ℕ) → (is_muted : Bool) → Event
  received : (socket seat invited_by expires_at : ℕ) → Event

pub data Outcome : Type 0 where
  done : Outcome
  cannot_invite_self seat_is_taken seat_occupied invite_pending invite_create_failed no_invite :
      Outcome
  unauthorized : (error : ℕ) → Outcome
  seat_error : SeatError → Outcome

notify : ℕ → ℕ → ℕ → List ℕ → List Event
notify i by expires_at [] = []
notify i by expires_at (socket ∷ sockets) =
    received socket i by expires_at ∷ notify i by expires_at sockets

create : Table → List ℕ → ℕ → ℕ → ℕ → ℕ → Table × Outcome × List Event
create t sockets u target i now =
    let (invites, made) = create_invite answers t.invites i target u invite_expiry_seconds now in
    if made
    then (
      record t { invites = invites },
      done,
      pending i true (some target) ∷ notify i u (now + invite_expiry_seconds * 1000) sockets,
    )
    else (record t { invites = invites }, invite_create_failed, [])

check_invite : Table → List ℕ → ℕ → ℕ → ℕ → ℕ → Option PendingInvite → Table × Outcome × List Event
unfolding create notify
check_invite t sockets u target i now (some invite) = (t, invite_pending, [])
check_invite t sockets u target i now none = create t sockets u target i now

check_seat : Table → List ℕ → ℕ → ℕ → ℕ → ℕ → Option ℕ → Table × Outcome × List Event
unfolding check_invite
check_seat t sockets u target i now (some seated) = (t, seat_occupied, [])
check_seat t sockets u target i now none =
    check_invite t sockets u target i now (get_invite answers t.invites i now)

check_target : Table → List ℕ → ℕ → ℕ → ℕ → ℕ → Option ℕ → Table × Outcome × List Event
unfolding check_seat
check_target t sockets u target i now (some seat) = (t, seat_is_taken, [])
check_target t sockets u target i now none =
    check_seat t sockets u target i now (get_seat_occupant answers t.seats i)

check_manager : Table → List ℕ → ℕ → ℕ → ℕ → ℕ → Option ℕ → Table × Outcome × List Event
unfolding check_target
check_manager t sockets u target i now (some error) = (t, unauthorized error, [])
check_manager t sockets u target i now none =
    check_target t sockets u target i now (get_user_seat answers t.seats target)

-- seat:invite, with the refusal of verifyRoomManager, if it refuses.
unfoldable pub invite_seat :
    Table → Option ℕ → List ℕ → ℕ → ℕ → ℕ → ℕ → Table × Outcome × List Event
unfolding check_manager
invite_seat t refusal sockets u target i now =
    if target == u
    then (t, cannot_invite_self, [])
    else check_manager t sockets u target i now refusal

with_seat : ℕ → Option PendingInvite → Option (PendingInvite × ℕ)
with_seat i none = none
with_seat i (some invite) = some (invite, i)

-- The invitation that a response is about: of the named seat, or of the user.
unfoldable pub find_response : Table → ℕ → Option ℕ → ℕ → Option (PendingInvite × ℕ)
unfolding with_seat
find_response t u (some i) now = with_seat i (get_invite answers t.invites i now)
find_response t u none now = get_invite_by_user answers answers t.invites u now

unfoldable pub unlocked_event : ℕ → SeatActionResult (Unit {0}) → List Event
unlocked_event i (success x) = locked i false ∷ []
unlocked_event i (failure e) = []

unfoldable pub append_updated : List Event → ℕ → ℕ → List Event
append_updated [] i u = updated i u false ∷ []
append_updated (e ∷ es) i u = e ∷ append_updated es i u

unfoldable pub answer_take :
    ℕ
    → ℕ
    → List Event
    → Invites
    → RoomSeats × SeatActionResult (ℕ × List ℕ)
    → Table × Outcome × List Event
answer_take i u es invites (s, success x) =
    (record { seats = s; invites = invites }, done, append_updated es i u)
answer_take i u es invites (s, failure e) =
    (record { seats = s; invites = invites }, seat_error e, es)

-- The invitation is deleted, the seat unlocked whatever that answers, and then taken.
unfoldable pub accept_found : Table → ℕ → ℕ → ℕ → ℕ → Table × Outcome × List Event
unfolding answer_take append_updated unlocked_event
accept_found t u i seat_count now =
    let (invites, deleted) = delete_invite answers answers t.invites i now in
    let (s, unlocked) = try_unlock_seat answers t.seats i in
    answer_take i u (pending i false none ∷ unlocked_event i unlocked) invites
      (try_take_seat answers s (pos i) u seat_count)

unfoldable pub accept_checked :
    Table → ℕ → ℕ → ℕ → Option (PendingInvite × ℕ) → Table × Outcome × List Event
accept_checked t u seat_count now none = (t, no_invite, [])
accept_checked t u seat_count now (some (invite, i)) =
    if invite.target_user_id == u then accept_found t u i seat_count now else (t, no_invite, [])

-- seat:invite:accept
unfoldable pub accept_invite : Table → ℕ → Option ℕ → ℕ → ℕ → Table × Outcome × List Event
unfolding accept_checked find_response
accept_invite t u seat_index seat_count now =
    accept_checked t u seat_count now (find_response t u seat_index now)

unfoldable pub decline_checked :
    Table → ℕ → ℕ → Option (PendingInvite × ℕ) → Table × Outcome × List Event
decline_checked t u now none = (t, no_invite, [])
decline_checked t u now (some (invite, i)) =
    if invite.target_user_id == u
    then (
      record t { invites = (delete_invite answers answers t.invites i now).0 },
      done,
      pending i false none ∷ [],
    )
    else (t, no_invite, [])

-- seat:invite:decline
unfoldable pub decline_invite : Table → ℕ → Option ℕ → ℕ → Table × Outcome × List Event
unfolding decline_checked find_response
decline_invite t u seat_index now = decline_checked t u now (find_response t u seat_index now)
