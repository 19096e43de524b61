-- ===== src/Seat/Accepting.antt =====
-- What accepting an invitation does: src/domains/seat/handlers.
use mediasoup_socket_io_audi.Prelude.{
  ℕ, ◌+◌, ◌*◌, ◌<◌, ◌≡◌, ◌≢◌, refl, List, [], ◌∷◌, none, some, Bool, true, false, has, arith,
  Bool-cases, Option-cases, inl, inr, sym, subst,
}
use mediasoup_socket_io_audi.Prelude.Int.{pos}
use mediasoup_socket_io_audi.Prelude.Redis.{answers, hget, has-srem}
use mediasoup_socket_io_audi.Seat.Types.{RoomSeats, occupant}
use mediasoup_socket_io_audi.Seat.Scripts.{take_seat, unlock_seat}
use mediasoup_socket_io_audi.Seat.Invariant.{Inv}
use mediasoup_socket_io_audi.Seat.Invariant.Seating.{take_seat-Inv}
use mediasoup_socket_io_audi.Seat.Invariant.Locking.{unlock_seat-Inv}
use mediasoup_socket_io_audi.Seat.Behaviour.{Takeable, take_seat_lem}
use mediasoup_socket_io_audi.Seat.Repository.{
  success, try_take_seat, try_unlock_seat, get_user_seat, get_seat_occupant,
}
use mediasoup_socket_io_audi.Seat.Invites.{
  PendingInvite, Invites, create_invite, get_invite, delete_invite, create_invite_lem,
}
use mediasoup_socket_io_audi.Seat.Invitation.{
  Table, Event, pending, locked, updated, Outcome, done, no_invite, invite_seat, find_response,
  accept_found, answer_take, unlocked_event, accept_checked, accept_invite, decline_checked,
  decline_invite, invite_expiry_seconds,
}

-- Unlocking leaves the seats and the index, and the seat unlocked.
unlocked_lem :
    (s : RoomSeats) (i : ℕ)
    → let t = (try_unlock_seat answers s i).0 in
      (t.seats ≡ s.seats) × (t.user_seat ≡ s.user_seat) × (has i t.locked ≡ false)
unfolding try_unlock_seat unlock_seat
unlocked_lem s i = elim (Bool-cases (has i s.locked)) [
  | inl shut ↦ rw shut (refl, refl, ground (arith, has-srem i i s.locked))
  | inr open_ ↦ rw open_ (refl, refl, open_)
]

unlocked-Inv : (s : RoomSeats) (i : ℕ) → Inv s → Inv (try_unlock_seat answers s i).0
unfolding try_unlock_seat
unlocked-Inv s i v = unlock_seat-Inv s i v

try_take_seat-ready :
    (s : RoomSeats) (i u count : ℕ)
    → Inv s
    → Takeable s i count
    → (cleared : List ℕ) × (try_take_seat answers s (pos i) u count
        ≡ ((take_seat s (pos i) u count).0, success (i, cleared)))
unfolding try_take_seat
try_take_seat-ready s i u count v ready =
    let (seats, index, locks, (cleared, reply, listed)) =
      take_seat_lem s i u count v.distinct ready in
    (cleared, ground arith)

-- What the room is told of an accepted invitation.
abbrev pub responses : ℕ → ℕ → Bool → List Event
responses i u true = pending i false none ∷ locked i false ∷ updated i u false ∷ []
responses i u false = pending i false none ∷ updated i u false ∷ []

-- Where an accepted invitation leaves the table.
abbrev pub Seated : Table → ℕ → ℕ → ℕ → Table × Outcome × List Event → Type 0
Seated t u i now (t', r, es) =
    (r ≡ done)
    × (occupant i t'.seats ≡ some u)
    × (has i t'.seats.locked ≡ false)
    × (get_invite answers t'.invites i now ≡ none)
    × Inv t'.seats
    × ((k : ℕ) → i ≢ k → occupant k t'.seats ≢ some u)
    × (es ≡ responses i u (has i t.seats.locked))

deleted_lem :
    (m : Invites) (i now : ℕ) (invite : PendingInvite)
    → get_invite answers m i now ≡ some invite
    → get_invite answers (delete_invite answers answers m i now).0 i now ≡ none
unfolding get_invite delete_invite
deleted_lem m i now invite e = ground arith

accept_found_lem :
    (t : Table) (u i count now : ℕ) (invite : PendingInvite)
    → Inv t.seats
    → get_invite answers t.invites i now ≡ some invite
    → i < count
    → hget i t.seats.seats ≡ none
    → Seated t u i now (accept_found t u i count now)
unfolding accept_found
accept_found_lem t u i count now invite v e lt free =
    let s : RoomSeats = (try_unlock_seat answers t.seats i).0 in
    let (seats, index, open_) = unlocked_lem t.seats i in
    let w : Inv s = unlocked-Inv t.seats i v in
    let ready : Takeable s i count = (lt, open_, ground arith) in
    let (cleared, took) = try_take_seat-ready s i u count w ready in
    let (now_seats, now_index, now_locks, rest) = take_seat_lem s i u count w.distinct ready in
    let after_Inv : Inv (take_seat s (pos i) u count).0 = take_seat-Inv s (pos i) u count w in
    rw took (
      refl,
      ground (arith, now_seats i),
      ground arith,
      deleted_lem t.invites i now invite e,
      after_Inv,
      (λ k ne at. ne (after_Inv.single i k u (ground (arith, now_seats i)) at)),
      told (has i t.seats.locked) refl cleared,
    )
  where
    told :
        (shut : Bool)
        → has i t.seats.locked ≡ shut
        → (cleared : List ℕ)
        → (answer_take i u
            (pending i false none ∷ unlocked_event i (try_unlock_seat answers t.seats i).1)
            (delete_invite answers answers t.invites i now).0
            (
              (take_seat (try_unlock_seat answers t.seats i).0 (pos i) u count).0,
              success (i, cleared),
            )).2
          ≡ responses i u shut
    told true e cleared = unfold try_unlock_seat unlock_seat in ground arith
    told false e cleared = unfold try_unlock_seat unlock_seat in ground arith

-- Accepting an invitation to a free seat in range seats the user there and nowhere else, whether or
-- not the seat was locked, and leaves it unlocked; the invitation is gone, and the room stays
-- well-formed. The room is told that the invitation is no longer pending, that the seat was
-- unlocked, if it was, and who sits there, and nothing else: of a seat that the user held before it
-- is told nothing.
pub accept_invite_lem :
    (t : Table) (u i count now : ℕ) (invite : PendingInvite)
    → Inv t.seats
    → get_invite answers t.invites i now ≡ some invite
    → invite.target_user_id ≡ u
    → i < count
    → hget i t.seats.seats ≡ none
    → Seated t u i now (accept_invite t u (some i) count now)
unfolding accept_invite
accept_invite_lem t u i count now invite v e mine lt free =
    subst (λ r. Seated t u i now r) (sym found)
      (accept_found_lem t u i count now invite v e lt free)
  where
    found : accept_invite t u (some i) count now ≡ accept_found t u i count now
    found = unfold accept_invite find_response accept_checked in ground arith

invite_seat_lem :
    (t : Table) (sockets : List ℕ) (u target i now : ℕ)
    → target ≢ u
    → t.seats.user_seat target ≡ none
    → occupant i t.seats ≡ none
    → get_invite answers t.invites i now ≡ none
    → (invite_seat t none sockets u target i now).0 ≡ record t {
      invites = (create_invite answers t.invites i target u invite_expiry_seconds now).0;
    }
unfolding invite_seat get_user_seat get_seat_occupant create_invite
invite_seat_lem t sockets u target i now other unseated free fresh = ground arith

-- A user whom a manager invites to a free seat, while the user has no seat and the seat no pending
-- invitation, and who accepts before the invitation expires, is seated there.
pub accept_invite-invite_seat :
    (t : Table) (sockets : List ℕ) (u target i count now later : ℕ)
    → Inv t.seats
    → target ≢ u
    → t.seats.user_seat target ≡ none
    → hget i t.seats.seats ≡ none
    → get_invite answers t.invites i now ≡ none
    → i < count
    → later < now + invite_expiry_seconds * 1000
    → let invited = (invite_seat t none sockets u target i now).0 in
      Seated invited target i later (accept_invite invited target (some i) count later)
accept_invite-invite_seat t sockets u target i count now later v other unseated free fresh lt soon =
    rw (invite_seat_lem t sockets u target i now other unseated (ground arith) fresh) (
      accept_invite_lem
        (record t {
          invites = (create_invite answers t.invites i target u invite_expiry_seconds now).0;
        })
        target i count later
        (record { target_user_id = target; invited_by = u; seat_index = i; created_at = now }) v
        (create_invite_lem t.invites i target u invite_expiry_seconds now later soon).0 refl lt
        free)

-- Without an invitation of their own to the named seat nobody can accept or decline one: nothing
-- changes and nothing is sent.
pub accept_invite_refused :
    (t : Table) (u i count now : ℕ)
    → ((invite : PendingInvite)
        → get_invite answers t.invites i now ≡ some invite
        → invite.target_user_id ≢ u)
    → (accept_invite t u (some i) count now ≡ (t, no_invite, []))
      × (decline_invite t u (some i) now ≡ (t, no_invite, []))
unfolding accept_invite decline_invite find_response accept_checked decline_checked
accept_invite_refused t u i count now none_mine =
    elim (Option-cases (get_invite answers t.invites i now)) [
      | inl out ↦ (ground arith, ground arith)
      | inr (invite, at) ↦ let other = none_mine invite at in (ground arith, ground arith)
    ]
