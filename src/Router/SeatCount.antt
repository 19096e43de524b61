-- ===== src/Router/SeatCount.antt =====
-- `syncRoomSettings` and `applyRoomSeatCount` of src/integrations/laravel/event-router.ts for one room:
-- the state is read with one command of Redis and saved with another.
use mediasoup_socket_io_audi.Prelude.{
  ℕ, ◌+◌, ◌-◌, ◌≤◌, ◌<◌, ◌≡◌, ◌∙◌, refl, List, ◌∷◌, ◌++◌, Option, none, some, Bool, true, false,
  leb, ltb, ◌==◌, ◌&&◌, if◌then◌else◌, arith, Bool-cases, inl, inr,
}
use mediasoup_socket_io_audi.Prelude.Int.{ℤ}
use mediasoup_socket_io_audi.Prelude.Redis.{answers}
use mediasoup_socket_io_audi.Ingest.Ordering.{Key}
use mediasoup_socket_io_audi.Router.Mirror.{accepts_order}
use mediasoup_socket_io_audi.Room.State.{
  StateKey, RoomState, SeatCountSource, default, client, laravel, get, save, with_mode,
  state_ttl_ms,
}
use mediasoup_socket_io_audi.Room.Counts.{
  Change, apply_all, Ascends, get-apply_all-removed, adjust_all, joins, leaves, NeverBelow,
  Refreshed, count_at, adjust_all-balance,
}

abbrev pub is_laravel : Option SeatCountSource → Bool
is_laravel (some laravel) = true
is_laravel (some default) = false
is_laravel (some client) = false
is_laravel none = false

abbrev pub in_bounds : ℕ → ℕ → Bool
in_bounds max_seat_count n = leb 1 n && leb n max_seat_count

-- What applyRoomSeatCount saves of the state that it read, and whether the seats that are too many are
-- evicted; `none` where it returns early.
abbrev pub seat_count_update : ℕ → Option RoomState → Option (RoomState × Bool)
seat_count_update max_seats none = none
seat_count_update max_seats (some s) =
    if s.seat_count == max_seats && is_laravel s.seat_count_source
    then none
    else some (
      record s { seat_count = max_seats; seat_count_source = some laravel },
      ltb max_seats s.seat_count,
    )

abbrev pub save_update : ℕ → StateKey → Option (RoomState × Bool) → StateKey × Option ℕ
save_update now k none = (k, none)
save_update now k (some (s, shrinks)) = (save s now, if shrinks then some s.seat_count else none)

-- applyRoomSeatCount when it has read `read`: the key as it saves it, and the number of seats above
-- which occupants are evicted, if any are.
unfoldable pub apply_room_seat_count : ℕ → Option RoomState → ℕ → StateKey → StateKey × Option ℕ
apply_room_seat_count max_seats read now k = save_update now k (seat_count_update max_seats read)

-- syncRoomSettings, with nothing between the read and the save; `none` for a `max_seats` that is no
-- number. The result is the version marker too.
unfoldable pub sync_room_settings :
    (max_seat_count : ℕ) → Option ℕ → Option ℕ → ℕ → Key × StateKey → Key × StateKey × Option ℕ
sync_room_settings max_seat_count none version now (marker, k) = (marker, k, none)
sync_room_settings max_seat_count (some n) version now (marker, k) =
    if in_bounds max_seat_count n
    then (let (marker', fresh) = accepts_order answers now marker version in
        let (k', evict) = apply_room_seat_count n (get k now) now k in
        if fresh then (marker', k', evict) else (marker', k, none))
    else (marker, k, none)

abbrev pub CountWithin : ℕ → ℕ → StateKey → Type 0
CountWithin max_seat_count now k =
    (s : RoomState) → get k now ≡ some s → (1 ≤ s.seat_count) × (s.seat_count ≤ max_seat_count)

get-save : (s : RoomState) (now : ℕ) → get (save s now) now ≡ some (with_mode s)
unfolding get save
get-save s now = ground arith

abbrev pub stored_count : ℕ → StateKey → Option ℕ
stored_count now k = elim (get k now) [ none ↦ none | some s ↦ some s.seat_count ]

stored_count-save : (s : RoomState) (now : ℕ) → stored_count now (save s now) ≡ some s.seat_count
unfolding get save
stored_count-save s now = ground arith

count_at-save : (s : RoomState) (now : ℕ) → count_at (save s now) now ≡ some s.participant_count
unfolding get save
count_at-save s now = ground arith

applied :
    (max_seat_count now m : ℕ) (k : StateKey) (read : Option RoomState)
    → get k now ≡ read
    → in_bounds max_seat_count m ≡ true
    → CountWithin max_seat_count now k
    → let r = apply_room_seat_count m read now k in
      CountWithin max_seat_count now r.0
      × ((n : ℕ)
          → r.1 ≡ some n
          → ((some m) ≡ (some n)) × ((s : RoomState) → get k now ≡ some s → n < s.seat_count))
      × ((s : RoomState) → read ≡ some s → stored_count now r.0 ≡ some m)
unfolding apply_room_seat_count
applied max_seat_count now m k none e b w =
    (w, (λ n h. absurd (ground arith)), λ s h. absurd (ground arith))
applied max_seat_count now m k (some s) e b w =
    let new : RoomState = record s { seat_count = m; seat_count_source = some laravel } in
    let saved = get-save new now in
    elim (Bool-cases (s.seat_count == m && is_laravel s.seat_count_source)) [
      | inl same ↦
          rw (apply_room_seat_count, same)
            (w, (λ n h. absurd (ground arith)), λ t h. rw (stored_count, e) (ground arith))
      | inr other ↦
          rw (apply_room_seat_count, other)
            (
              (λ t h. ground (arith, saved)),
              (λ n h. (ground arith, λ t g. ground arith)),
              λ t h. stored_count-save new now,
            )
    ]

-- While Redis answers, a room.updated keeps the stored seat count between one and the most that the
-- settings allow; seats are evicted only above a new count that is smaller than the stored one; an event
-- that is stale, or whose count is missing or out of bounds, neither changes the state nor evicts
-- anybody; and one that is neither leaves a stored state with its count.
pub sync_room_settings_lem :
    (max_seat_count now : ℕ) (answer version : Option ℕ) (marker : Key) (k : StateKey)
    → CountWithin max_seat_count now k
    → let r = sync_room_settings max_seat_count answer version now (marker, k) in
      let fresh = (accepts_order answers now marker version).1 in
      CountWithin max_seat_count now r.1
      × ((n : ℕ)
          → r.2 ≡ some n
          → (answer ≡ some n) × ((s : RoomState) → get k now ≡ some s → n < s.seat_count))
      × (fresh ≡ false → (r.1 ≡ k) × (r.2 ≡ none))
      × (((n : ℕ) → answer ≡ some n → in_bounds max_seat_count n ≡ false)
          → (r.1 ≡ k) × (r.2 ≡ none))
      × ((n : ℕ) (s : RoomState)
          → answer ≡ some n
          → in_bounds max_seat_count n ≡ true
          → fresh ≡ true
          → get k now ≡ some s
          → stored_count now r.1 ≡ some n)
unfolding sync_room_settings apply_room_seat_count
sync_room_settings_lem max_seat_count now none version marker k w = (
  w,
  (λ n h. absurd (ground arith)),
  (λ h. (refl, refl)),
  (λ h. (refl, refl)),
  λ n s a. absurd (ground arith),
)
sync_room_settings_lem max_seat_count now (some m) version marker k w =
    elim (Bool-cases (in_bounds max_seat_count m)) [
      | inr out ↦
          rw (sync_room_settings, out)
            (
              w,
              (λ n h. absurd (ground arith)),
              (λ h. (refl, refl)),
              (λ h. (refl, refl)),
              λ n s a b. absurd (ground arith),
            )
      | inl within ↦ elim (Bool-cases (accepts_order answers now marker version).1) [
        | inr stale ↦
            rw (sync_room_settings, within, stale)
              (
                w,
                (λ n h. absurd (ground arith)),
                (λ h. (refl, refl)),
                (λ h. (refl, refl)),
                λ n s a b f. absurd (ground arith),
              )
        | inl fresh ↦
            (let (c, f, g) = applied max_seat_count now m k (get k now) refl within w in
              rw (sync_room_settings, within, fresh)
                (
                  c,
                  f,
                  (λ h. absurd (ground arith)),
                  (λ h. absurd (ground (arith, h m refl))),
                  λ n s a b h e. g s e ∙ a,
                ))
      ]
    ]

-- applyRoomSeatCount saves what it has read with the new count. If the room is closed between the read
-- and the save, its state is back, whatever changes run besides; and if members join and leave in
-- between, the count of participants is again what it was at the read.
pub apply_room_seat_count-apply_all :
    (max_seats from now : ℕ) (s : RoomState)
    → (s.seat_count == max_seats) ≡ false
    → now < from + state_ttl_ms
    → let read = get (save s from) from in
      let saved = λ (k : StateKey). (apply_room_seat_count max_seats read now k).0 in
      ((cs ds : List (ℕ × Change)) (at : ℕ)
        → Ascends at ds now
        → let k = apply_all (save s from) (cs ++ (at, Change.remove) ∷ ds) in
          (get k now ≡ none) × (stored_count now (saved k) ≡ some max_seats))
      × ((ds : List (ℕ × ℤ))
          → NeverBelow s.participant_count ds
          → Refreshed from ds now
          → let k = adjust_all (save s from) ds in
            (count_at k now ≡ some ((s.participant_count + joins ds) - leaves ds))
            × (count_at (saved k) now ≡ some s.participant_count))
unfolding apply_room_seat_count
apply_room_seat_count-apply_all max_seats from now s ne lt =
    let new : RoomState = record (with_mode s) {
      seat_count = max_seats;
      seat_count_source = some laravel;
    } in
    rw (apply_room_seat_count, get-save s from, ne)
      (
        (λ cs ds at t.
            (get-apply_all-removed (save s from) cs ds at now t, stored_count-save new now)),
        λ ds b t. (adjust_all-balance s from now ds b t, count_at-save new now),
      )
