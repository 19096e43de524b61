-- ===== src/Seat/Reconnect.antt =====
-- A seat held across a reconnect: RESERVE_SEAT, RECLAIM_SEAT, SWEEP_EXPIRED_SEATS, SHRINK_EVICT.
use mediasoup_socket_io_audi.Prelude.{
  ℕ, ◌≡◌, ◌↔◌, ◌<◌, ◌≤◌, ◌-◌, refl, Option, none, some, leb, if◌then◌else◌, arith, has, ◌∙◌, ap,
  sym, Bool-cases, inl, inr, le→leb,
}
use mediasoup_socket_io_audi.Prelude.Int.{pos}
use mediasoup_socket_io_audi.Prelude.Redis.{hget, hset, hget-hset}
use mediasoup_socket_io_audi.Seat.Types.{
  SeatAssignment, Cell, RoomSeats, occupant, user_of, err, seat_taken,
}
use mediasoup_socket_io_audi.Seat.Scan.{picks, decoded, hget-evict}
use mediasoup_socket_io_audi.Seat.Scripts.{take_seat}
use mediasoup_socket_io_audi.Seat.Retention.{
  mark, reserve_seat, in_grace, past_grace, reactivate, reclaim_seat, sweep_expired, shrink_evict,
}
use mediasoup_socket_io_audi.Seat.Invariant.{Inv}
use mediasoup_socket_io_audi.Seat.Invariant.Held.{
  stamped, hget-reserve_scan, reserve_seat-Inv, shrink_evict-Inv, reclaim_cases,
}

hget-reserve_seat :
    (s : RoomSeats) (u now j : ℕ)
    → Inv s
    → hget j (reserve_seat s u now).0.seats ≡ stamped u now (hget j s.seats) (hget j s.seats)
unfolding reserve_seat
hget-reserve_seat s u now j v = hget-reserve_scan u now j s.seats s.seats v.distinct

occupant-reserve_seat :
    (s : RoomSeats) (u now j : ℕ) → Inv s → occupant j (reserve_seat s u now).0 ≡ occupant j s
occupant-reserve_seat s u now j v = ground (arith, hget-reserve_seat s u now j v)

-- A held seat stays occupied: TAKE_SEAT refuses it to everybody, the holder too.
pub take_seat-reserve_seat :
    (s : RoomSeats) (i u w count now : ℕ)
    → Inv s
    → occupant i s ≡ some u
    → i < count
    → take_seat (reserve_seat s u now).0 (pos i) w count
      ≡ ((reserve_seat s u now).0, err seat_taken)
take_seat-reserve_seat s i u w count now v at lt =
    taken (reserve_seat s u now).0 (hget i (reserve_seat s u now).0.seats) refl
      (ground (arith, occupant-reserve_seat s u now i v)) (reserve_seat-Inv s u now v)
  where
    taken :
        (t : RoomSeats) (c : Option Cell)
        → hget i t.seats ≡ c
        → user_of c ≡ some u
        → Inv t
        → take_seat t (pos i) w count ≡ (t, err seat_taken)
    taken t none e o x = cc
    taken t (some c) e o x = elim (Bool-cases (has i t.locked)) [
      | inl shut ↦ absurd (ground (arith, x.unlocked i))
      | inr open_ ↦ unfold take_seat in ground arith
    ]

-- Under the invariant the reclaim scan has one seat to look at.
reclaim_seat-held :
    (s : RoomSeats) (i u now grace : ℕ) (d : SeatAssignment)
    → Inv s
    → hget i s.seats ≡ some (some d)
    → d.user_id ≡ u
    → reclaim_seat s u now grace ≡ (
        if in_grace now grace d.disconnected_at
        then (reactivate s u i d, some (i, d.muted))
        else (s, none))
unfolding reclaim_seat
reclaim_seat-held s i u now grace d v at mine =
    elim (reclaim_cases s u now grace s.seats v.distinct) [
      | inl (same, no_) ↦ ground (arith, no_ i d)
      | inr (k, x, there, hers, live, found) ↦
          let here : k ≡ i = v.single k i u (ground arith) (ground arith) in
          let one : x ≡ d = ground arith in ground arith
    ]

-- Holding a seat and reclaiming it within the grace gives back every seat as it was, the mute flag
-- included, with the reverse index of the user pointing at the seat.
pub reclaim-reserve :
    (s : RoomSeats) (i u then_ now grace : ℕ) (d : SeatAssignment)
    → Inv s
    → hget i s.seats ≡ some (some d)
    → d.user_id ≡ u
    → d.disconnected_at ≡ none
    → now - then_ ≤ grace
    → let t = (reclaim_seat (reserve_seat s u then_).0 u now grace).0 in
      ((reclaim_seat (reserve_seat s u then_).0 u now grace).1 ≡ some (i, d.muted))
      × ((j : ℕ) → hget j t.seats ≡ hget j s.seats)
      × (t.user_seat u ≡ some i)
      × (t.locked ≡ s.locked)
reclaim-reserve s i u then_ now grace d v at mine fresh le =
    rw
      (
        reclaim_seat-held (reserve_seat s u then_).0 i u now grace (mark then_ d)
            (reserve_seat-Inv s u then_ v) (ground (arith, hget-reserve_seat s u then_ i v)) mine,
        le→leb (now - then_) grace le,
      )
      (refl, (λ j. back j (hget j s.seats) refl), ground arith, unfold reserve_seat in refl)
  where
    back :
        (j : ℕ) (c : Option Cell)
        → hget j s.seats ≡ c
        → hget j
            (hset i (some (record d { disconnected_at = none })) (reserve_seat s u then_).0.seats)
          ≡ hget j s.seats
    back j c e = ground (
      arith,
      hget-hset j i (some (record d { disconnected_at = none })) (reserve_seat s u then_).0.seats,
      hget-reserve_seat s u then_ j v,
      v.single j i u,
    )

-- The sweep clears exactly the seats whose marker is older than the grace.
pub sweep_expired_lem :
    (s : RoomSeats) (now grace j : ℕ)
    → Inv s
    → hget j (sweep_expired s now grace).0.seats ≡ (
        if picks (decoded (λ idx d. past_grace now grace d.disconnected_at)) j (hget j s.seats)
        then none
        else hget j s.seats)
unfolding sweep_expired
sweep_expired_lem s now grace j v =
    hget-evict (λ idx d. past_grace now grace d.disconnected_at) j s v.distinct

-- At one time a held seat can either be reclaimed by its user or is cleared by the sweep, never
-- both and never neither.
pub reclaim-sweep :
    (s : RoomSeats) (i u t now grace : ℕ) (d : SeatAssignment)
    → Inv s
    → hget i s.seats ≡ some (some d)
    → d.user_id ≡ u
    → d.disconnected_at ≡ some t
    → ((reclaim_seat s u now grace).1 ≡ none) ↔ (hget i (sweep_expired s now grace).0.seats ≡ none)
reclaim-sweep s i u t now grace d v at mine held =
    ground (arith, reclaim_seat-held s i u now grace d v at mine, sweep_expired_lem s now grace i v)

-- After a shrink no decodable seat has an index from the new count on, every seat below it is as it
-- was, and no reverse index names a seat that is out of range.
pub shrink_evict_lem :
    (s : RoomSeats) (count j : ℕ)
    → Inv s
    → let t = (shrink_evict s count).0 in
      ((u : ℕ) → occupant j t ≡ some u → j < count)
      × (j < count → hget j t.seats ≡ hget j s.seats)
      × ((u : ℕ) → t.user_seat u ≡ some j → j < count)
shrink_evict_lem s count j v = (
  λ u e. below u e,
  λ lt. kept (hget j s.seats) refl lt,
  λ u e. below u ((shrink_evict-Inv s count v).indexed u j e),
)
  where
    at : hget j (shrink_evict s count).0.seats ≡ (
        if picks (decoded (λ idx d. leb count idx)) j (hget j s.seats)
        then none
        else hget j s.seats)
    at = unfold shrink_evict in hget-evict (λ idx d. leb count idx) j s v.distinct

    below_cell :
        (u : ℕ) (c : Option Cell)
        → user_of (if picks (decoded (λ idx d. leb count idx)) j c then none else c) ≡ some u
        → j < count
    below_cell u none e = cc
    below_cell u (some none) e = cc
    below_cell u (some (some d)) e = ground arith

    below : (u : ℕ) → occupant j (shrink_evict s count).0 ≡ some u → j < count
    below u e = below_cell u (hget j s.seats) (ap user_of (sym at) ∙ e)

    kept :
        (c : Option Cell)
        → hget j s.seats ≡ c
        → j < count
        → hget j (shrink_evict s count).0.seats ≡ hget j s.seats
    kept none e lt = ground (arith, at)
    kept (some none) e lt = ground (arith, at)
    kept (some (some d)) e lt = ground (arith, at)
