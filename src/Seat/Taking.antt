-- ===== src/Seat/Taking.antt =====
-- `takeSeatHandler` of src/domains/seat/handlers/take-seat.handler.ts over the room's state and seats.
-- Redis answers; what Laravel says of the room's seats is an argument. Emits are left out, and so is
-- the occupant that a refusal names.
use mediasoup_socket_io_audi.Prelude.{
  is_some, ℕ, ◌≤◌, ◌<◌, ◌≡◌, refl, List, Option, none, some, Bool, true, false, not, leb, ltb, ◌&&◌,
  ◌⊎◌, Option-cases, ◌||◌, if◌then◌else◌, arith, Bool-cases, inl, inr,
}
use mediasoup_socket_io_audi.Prelude.Int.{ℤ, pos, negsuc}
use mediasoup_socket_io_audi.Prelude.Redis.{Link, answers, after_call, after_call_lem, is_answered}
use mediasoup_socket_io_audi.Room.State.{StateKey, RoomState, laravel, get, save}
use mediasoup_socket_io_audi.Seat.Types.{RoomSeats}
use mediasoup_socket_io_audi.Seat.Scripts.{take_seat}
use mediasoup_socket_io_audi.Seat.Repository.{
  SeatActionResult, success, failure, invalid_seat, try_take_seat,
}

pub record SeatWorld : Type 0 where
  pub key : StateKey
  pub seats : RoomSeats

abbrev pub Taken : Type 0
Taken = SeatActionResult (ℕ × List ℕ)

abbrev pub is_invalid : Taken → Bool
is_invalid (success r) = false
is_invalid (failure e) = elim e [ invalid_seat ↦ true | _ ↦ false ]

-- `roomState?.seatCount ?? config.DEFAULT_SEAT_COUNT`
abbrev pub seat_count_or : ℕ → Option RoomState → ℕ
seat_count_or default_seat_count none = default_seat_count
seat_count_or default_seat_count (some s) = s.seat_count

abbrev pub with_seat_count : ℕ → RoomState → RoomState
with_seat_count n s = record s { seat_count = n; seat_count_source = some laravel }

-- `if (state) { …; await save(state); }`
abbrev pub save_seat_count : ℕ → ℕ → StateKey → Option RoomState → StateKey
save_seat_count n now k none = k
save_seat_count n now k (some s) = save (with_seat_count n s) now

-- The calls of a refetch: the `max_seats` that Laravel gives, `none` where it gives null or the request
-- fails, whether the state is read, and how the save of it ends.
pub record Refetch : Type 0 where
  pub max_seats : Option ℕ
  pub read : Bool
  pub save_link : Link

-- After the bounds; a failure of the read or of the save is caught.
abbrev pub store_seat_count : Refetch → ℕ → ℕ → StateKey → StateKey × Option ℕ
store_seat_count f n now k = if not f.read then (k, none) else (
  after_call f.save_link (save_seat_count n now k (get k now)) k,
  if is_some (get k now) && not (is_answered f.save_link) then none else some n,
)

-- refetchAuthoritativeSeatCount
unfoldable pub refetch_seat_count : ℕ → ℕ → Refetch → ℕ → StateKey → StateKey × Option ℕ
refetch_seat_count max_seat_count local f now k = elim f.max_seats [
  | none ↦ (k, none)
  | some n ↦ if leb n local || ltb max_seat_count n then (k, none) else store_seat_count f n now k
]

abbrev pub retried : ℤ → ℕ → SeatWorld → Taken → StateKey × Option ℕ → SeatWorld × Taken
retried i user w first (k, none) = (record w { key = k }, first)
retried (negsuc i) user w first (k, some n) =
    let (s, r) = try_take_seat answers w.seats (negsuc i) user n in
    (record { key = k; seats = s }, r)
retried (pos i) user w first (k, some n) =
    if ltb i n
    then (let (s, r) = try_take_seat answers w.seats (pos i) user n in
        (record { key = k; seats = s }, r))
    else (record w { key = k }, first)

abbrev pub heal : ℕ → ℕ → Refetch → ℕ → ℤ → ℕ → SeatWorld → Taken → SeatWorld × Taken
heal max_seat_count local f now i user w first =
    if is_invalid first
    then retried i user w first (refetch_seat_count max_seat_count local f now w.key)
    else (w, first)

-- takeSeatHandler
unfoldable pub take_seat_handler :
    (default_seat_count max_seat_count : ℕ) → Refetch → ℕ → ℤ → ℕ → SeatWorld → SeatWorld × Taken
take_seat_handler default_seat_count max_seat_count f now i user w =
    let local = seat_count_or default_seat_count (get w.key now) in
    let (s, first) = try_take_seat answers w.seats i user local in
    heal max_seat_count local f now i user (record w { seats = s }) first

take_beyond :
    (s : RoomSeats) (i user count : ℕ)
    → count ≤ i
    → try_take_seat answers s (pos i) user count ≡ (s, failure invalid_seat)
unfolding try_take_seat take_seat
take_beyond s i user count le =
    let beyond : leb count i ≡ true = ground arith in rw (try_take_seat, take_seat, beyond) refl

take_within :
    (s : RoomSeats) (i user count : ℕ)
    → i < count
    → is_invalid (try_take_seat answers s (pos i) user count).1 ≡ false
unfolding try_take_seat take_seat
take_within s i user count lt = ground arith

-- The refetch that succeeds: Laravel's count is larger and not too large, the state is read and saved.
abbrev pub Believed : ℕ → ℕ → Refetch → ℕ → Type 0
Believed max_seat_count local f n =
    (f.max_seats ≡ some n)
    × (local < n)
    × (n ≤ max_seat_count)
    × (f.read ≡ true)
    × (is_answered f.save_link ≡ true)

count_refetched :
    (max_seat_count local n now : ℕ) (f : Refetch) (k : StateKey)
    → Believed max_seat_count local f n
    → refetch_seat_count max_seat_count local f now k
      ≡ (save_seat_count n now k (get k now), some n)
unfolding refetch_seat_count
count_refetched max_seat_count local n now f k (e, lt, le, r, s) =
    let more : leb n local ≡ false = ground arith in
    let fits : ltb max_seat_count n ≡ false = ground arith in
    let saved = after_call_lem f.save_link (save_seat_count n now k (get k now)) k s in
    elim (Bool-cases (is_some (get k now))) [
      | inl there ↦ rw (refetch_seat_count, e, more, fits, r, saved, s, there) refl
      | inr gone ↦ rw (refetch_seat_count, e, more, fits, r, saved, s, gone) refl
    ]

-- Laravel's count does not have the seat or is too large, or the state is not read, or not saved.
abbrev pub Hopeless : ℕ → ℕ → ℕ → Refetch → StateKey → Type 0
Hopeless max_seat_count now i f k =
    (n : ℕ)
    → f.max_seats ≡ some n
    → (n ≤ i)
      ⊎ ((max_seat_count < n)
          ⊎ ((f.read ≡ false) ⊎ ((is_some (get k now) ≡ true) × (is_answered f.save_link ≡ false))))

refetched :
    (max_seat_count local now i : ℕ) (f : Refetch) (k : StateKey)
    → Hopeless max_seat_count now i f k
    → (n : ℕ) → (refetch_seat_count max_seat_count local f now k).1 ≡ some n
    → ltb i n ≡ false
unfolding refetch_seat_count
refetched max_seat_count local now i f k h n e = elim (Option-cases f.max_seats) [
  | inl unknown ↦ absurd (ground arith)
  | inr (m, known) ↦ elim (h m known) [
    | inl short ↦ ground arith
    | inr other ↦ elim other [
      | inl large ↦ absurd (ground arith)
      | inr lost ↦ elim lost [
        | inl unread ↦ absurd (ground arith)
        | inr (there, unsaved) ↦ absurd (ground arith)
      ]
    ]
  ]
]

retried_refused :
    (i user : ℕ) (w : SeatWorld) (k : StateKey) (o : Option ℕ)
    → ((n : ℕ) → o ≡ some n → ltb i n ≡ false)
    → let t = retried (pos i) user w (failure invalid_seat) (k, o) in
      (t.1 ≡ failure invalid_seat) × (t.0.seats ≡ w.seats)
retried_refused i user w k none h = (refl, refl)
retried_refused i user w k (some n) h = rw (h n refl) (refl, refl)

-- A seat that the room's stored count knows is taken or refused as the repository says, without asking
-- Laravel. A seat beyond it, which Laravel's count has, is taken or refused as if the stored count had
-- been Laravel's, and a stored state has Laravel's count from then on, if that count is not above the
-- largest allowed and the state is read and saved. If Laravel's count does not have the seat either, is
-- missing or above the largest allowed, or the state cannot be read or saved, the seat is refused and
-- nothing of the seats changes. The handler's own read of the state and the seats' calls are answered.
pub take_seat_handler_lem :
    (default_seat_count max_seat_count now i user : ℕ) (f : Refetch) (w : SeatWorld)
    → let local = seat_count_or default_seat_count (get w.key now) in
      let t = take_seat_handler default_seat_count max_seat_count f now (pos i) user w in
      (i < local
        → (t.0.key ≡ w.key)
          × (t.1 ≡ (try_take_seat answers w.seats (pos i) user local).1)
          × (t.0.seats ≡ (try_take_seat answers w.seats (pos i) user local).0))
      × ((n : ℕ)
          → local ≤ i
          → i < n
          → Believed max_seat_count local f n
          → (t.1 ≡ (try_take_seat answers w.seats (pos i) user n).1)
            × (t.0.seats ≡ (try_take_seat answers w.seats (pos i) user n).0)
            × (t.0.key ≡ save_seat_count n now w.key (get w.key now)))
      × (local ≤ i
          → Hopeless max_seat_count now i f w.key
          → (t.1 ≡ failure invalid_seat) × (t.0.seats ≡ w.seats))
unfolding take_seat_handler
take_seat_handler_lem default_seat_count max_seat_count now i user f w =
    let local = seat_count_or default_seat_count (get w.key now) in
    (
      (λ lt.
          let ok_first = take_within w.seats i user local lt in
          rw (take_seat_handler, ok_first) (refl, refl, refl)),
      (λ n le lt b.
          (let has_seat : ltb i n ≡ true = ground arith in
            rw
              (
                take_seat_handler,
                take_beyond w.seats i user local le,
                count_refetched max_seat_count local n now f w.key b,
                has_seat,
              )
              (refl, refl, refl))),
      λ le h.
          rw (take_seat_handler, take_beyond w.seats i user local le)
            (retried_refused i user w _ _ (refetched max_seat_count local now i f w.key h)),
    )
