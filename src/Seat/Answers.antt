-- ===== src/Seat/Answers.antt =====
-- What a caller of `SeatRepository` may conclude from a result of src/domains/seat/seat.repository.ts.
use mediasoup_socket_io_audi.Prelude.{
  ℕ, ◌<◌, ◌≡◌, ◌≢◌, ◌⊎◌, refl, List, some, false, has, arith, inl, inr,
}
use mediasoup_socket_io_audi.Prelude.Int.{ℤ, pos, negsuc}
use mediasoup_socket_io_audi.Prelude.Redis.{hget, Link, answers, fails, answer_lost}
use mediasoup_socket_io_audi.Seat.Types.{
  RoomSeats, ScriptError, Reply, ok, err, raised, occupant, fresh_seat,
}
use mediasoup_socket_io_audi.Seat.Scripts.{take_seat, take_free, heal_and_seat}
use mediasoup_socket_io_audi.Seat.Invariant.{Inv}
use mediasoup_socket_io_audi.Seat.Behaviour.{Takeable, take_seat_lem}
use mediasoup_socket_io_audi.Seat.Repository.{
  SeatError, internal_error, taken_seat, SeatActionResult, success, failure, try_take_seat,
  map_error, with_result, call,
}

map_error_public : (e : ScriptError) → map_error e ≢ internal_error
map_error_public ScriptError.seat_invalid h = cc
map_error_public ScriptError.seat_locked h = cc
map_error_public ScriptError.seat_taken h = cc
map_error_public ScriptError.not_seated h = cc
map_error_public ScriptError.already_locked h = cc
map_error_public ScriptError.not_locked h = cc

-- What a result says of the room before (`s`), of what the script makes of it (`r`) and of the room
-- after (`t`): a success means that the script ran and answered so, and a failure other than the
-- internal error that it ran and answered the error of that message.
abbrev pub Reports {ℓ} :
    {A : Type ℓ} → RoomSeats → RoomSeats × Reply A → RoomSeats × SeatActionResult A → Type ℓ
Reports s r (t, success a) = (t ≡ r.0) × (r.1 ≡ ok a)
Reports s r (t, failure e) =
    ((e ≡ internal_error) × ((t ≡ s) ⊎ (t ≡ r.0)))
    ⊎ ((c : ScriptError) × (e ≡ map_error c) × (t ≡ r.0) × (r.1 ≡ err c))

Reports-call {ℓ} :
    {A : Type ℓ} (link : Link) (s : RoomSeats) (r : RoomSeats × Reply A)
    → Reports s r (with_result (call link s r))
Reports-call answers s (t, ok a) = (refl, refl)
Reports-call answers s (t, err e) = inr (e, refl, refl, refl)
Reports-call answers s (t, raised) = inl (refl, inr refl)
Reports-call fails s r = inl (refl, inl refl)
Reports-call answer_lost s r = inl (refl, inr refl)

take_seat_err :
    (s : RoomSeats) (i : ℤ) (u count : ℕ) (e : ScriptError)
    → (take_seat s i u count).1 ≡ err e
    → (take_seat s i u count).0 ≡ s
unfolding take_seat take_free heal_and_seat
take_seat_err s (negsuc n) u count e h = refl
take_seat_err s (pos i) u count e h = ground arith

-- Whether Redis answers, fails or loses the answer: a successful take means that the script seated
-- the user, a take that fails with any message but the internal error changed nothing, and one that
-- fails with the internal error either changed nothing or did what the script does.
pub try_take_seat_lem :
    (link : Link) (s : RoomSeats) (i : ℤ) (u count : ℕ)
    → let (t, r) = try_take_seat link s i u count in
      Reports s (take_seat s i u count) (t, r)
      × ((e : SeatError) → r ≡ failure e → e ≢ internal_error → t ≡ s)
unfolding try_take_seat
try_take_seat_lem link s i u count = (
  Reports-call link s (take_seat s i u count),
  λ e h ne. unchanged link (take_seat s i u count) (λ c k. take_seat_err s i u count c k) e h ne,
)
  where
    unchanged :
        (link : Link) (r : RoomSeats × Reply (ℕ × List ℕ))
        → ((c : ScriptError) → r.1 ≡ err c → r.0 ≡ s)
        → (e : SeatError) → (with_result (call link s r)).1 ≡ failure e
        → e ≢ internal_error
        → (with_result (call link s r)).0 ≡ s
    unchanged answers (t, ok a) keeps e h ne = cc
    unchanged answers (t, err c) keeps e h ne = keeps c refl
    unchanged answers (t, raised) keeps e h ne = absurd (ne (ground arith))
    unchanged fails r keeps e h ne = refl
    unchanged answer_lost r keeps e h ne = absurd (ne (ground arith))

-- A take of a free seat whose answer is lost has seated the user all the same, and the same request
-- sent again fails with SEAT_TAKEN, the seat still the user's.
pub try_take_seat-again :
    (s : RoomSeats) (i u count : ℕ)
    → Inv s
    → Takeable s i count
    → let (t, lost) = try_take_seat answer_lost s (pos i) u count in
      (lost ≡ failure internal_error)
      × (occupant i t ≡ some u)
      × (try_take_seat answers t (pos i) u count ≡ (t, failure taken_seat))
unfolding try_take_seat
try_take_seat-again s i u count v ready =
    let done = take_seat_lem s i u count v.distinct ready in
    let here : hget i (take_seat s (pos i) u count).0.seats ≡ some (some (fresh_seat u)) =
      ground (arith, done.0 i) in
    (
      refl,
      ground (arith, here),
      again (take_seat s (pos i) u count).0 here (ground (arith, done.2)) ready.0,
    )
  where
    again :
        (t : RoomSeats)
        → hget i t.seats ≡ some (some (fresh_seat u))
        → has i t.locked ≡ false
        → i < count
        → with_result (call answers t (take_seat t (pos i) u count)) ≡ (t, failure taken_seat)
    again t at open_ lt = unfold take_seat take_free in ground arith
