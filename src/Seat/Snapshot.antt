-- ===== src/Seat/Snapshot.antt =====
-- What the reads of src/domains/seat/seat.repository.ts show of a room, and its cleanup.
use mediasoup_socket_io_audi.Prelude.{
  ℕ, zero, suc, ◌+◌, ◌<◌, ◌≡◌, ◌≢◌, refl, List, [], ◌∷◌, Option, none, some, Bool, false,
  if◌then◌else◌, has, arith, length, Bool-cases, inl, inr, ◌∙◌, sym, subst,
}
use mediasoup_socket_io_audi.Prelude.Redis.{Hash, hget, answers, fails, answer_lost}
use mediasoup_socket_io_audi.Seat.Types.{Cell, RoomSeats, occupant, user_of}
use mediasoup_socket_io_audi.Seat.Invariant.{Inv}
use mediasoup_socket_io_audi.Seat.Repository.{
  SeatData, seat_row, seat_rows, get_seats, get_seat_occupant, get_user_seat, clear_seats,
}

-- The row at a place of a list.
abbrev pub row_at : ℕ → List SeatData → Option SeatData
row_at n [] = none
row_at zero (r ∷ rs) = some r
row_at (suc n) (r ∷ rs) = row_at n rs

row_at_bound : (n : ℕ) (rs : List SeatData) (r : SeatData) → row_at n rs ≡ some r → n < length rs
row_at_bound n [] r e = cc
row_at_bound zero (x ∷ rs) r e = omega arith
row_at_bound (suc n) (x ∷ rs) r e = omega (arith, row_at_bound n rs r e)

-- Every seat of the range of `n` seats from `i` on decodes.
abbrev pub Decodes : Hash Cell → ℕ → ℕ → Type 0
Decodes seats i zero = Unit {0}
Decodes seats i (suc n) = (hget i seats ≢ some none) × Decodes seats (suc i) n

row_of_cell :
    (i : ℕ) (shut : Bool) (c : Option Cell)
    → c ≢ some none
    → (r : SeatData) × (seat_row i shut c ≡ some r)
row_of_cell i shut none h = (_, refl)
row_of_cell i shut (some none) h = absurd (h refl)
row_of_cell i shut (some (some d)) h = (_, refl)

abbrev RowsOf : Hash Cell → List ℕ → ℕ → ℕ → List SeatData → Type 0
RowsOf seats shut i n rows =
    (length rows ≡ n)
    × ((k : ℕ) → k < n → row_at k rows ≡ seat_row (i + k) (has (i + k) shut) (hget (i + k) seats))

seat_rows_lem :
    (seats : Hash Cell) (shut : List ℕ) (i n : ℕ)
    → Decodes seats i n
    → (rows : List SeatData) × (seat_rows seats shut i n ≡ some rows) × RowsOf seats shut i n rows
unfolding seat_rows
seat_rows_lem seats shut i zero d = ([], refl, (refl, λ k lt. absurd (omega arith)))
seat_rows_lem seats shut i (suc n) (d, ds) =
    let (rows, eq, (len, at)) = seat_rows_lem seats shut (suc i) n ds in
    let (r, here) = row_of_cell i (has i shut) (hget i seats) d in
    (r ∷ rows, rw (eq, here) refl, (omega arith, λ k lt. place rows r at here k lt))
  where
    place :
        (rows : List SeatData) (r : SeatData)
        → ((k : ℕ)
            → k < n
            → row_at k rows ≡ seat_row (suc i + k) (has (suc i + k) shut) (hget (suc i + k) seats))
        → seat_row i (has i shut) (hget i seats) ≡ some r
        → (k : ℕ) → k < suc n
        → row_at k (r ∷ rows) ≡ seat_row (i + k) (has (i + k) shut) (hget (i + k) seats)
    place rows r at here zero lt =
        subst (λ (j : ℕ). some r ≡ seat_row j (has j shut) (hget j seats)) (omega arith) (sym here)
    place rows r at here (suc k) lt =
        subst (λ (j : ℕ). row_at k rows ≡ seat_row j (has j shut) (hget j seats)) (omega arith)
          (at k (omega arith))

-- If every stored seat below the count decodes, getSeats answers exactly one row for each index
-- below the count, in order, and the row at an index shows the occupant, the mute flag and the
-- marker that HGETALL saw there and the lock that SMEMBERS saw.
pub get_seats_lem :
    (s t : RoomSeats) (count : ℕ)
    → Decodes s.seats 0 count
    → (length (get_seats answers s t count) ≡ count)
      × ((i : ℕ)
          → i < count
          → row_at i (get_seats answers s t count) ≡ seat_row i (has i t.locked) (hget i s.seats))
unfolding get_seats
get_seats_lem s t count d =
    let (rows, eq, (len, at)) = seat_rows_lem s.seats t.locked 0 count d in
    rw eq (
      len,
      λ i lt.
          subst (λ (j : ℕ). row_at i rows ≡ seat_row j (has j t.locked) (hget j s.seats))
            (omega arith) (at i lt),
    )

row_user :
    (i : ℕ) (shut : Bool) (c : Option Cell) (r : SeatData)
    → seat_row i shut c ≡ some r
    → (r.user_id ≡ user_of c) × (r.locked ≡ shut) × (r.index ≡ i)
row_user i shut none r e = ground arith
row_user i shut (some none) r e = cc
row_user i shut (some (some d)) r e = ground arith

-- In a snapshot that no command divides, no two rows show one user, no row is both locked and
-- occupied, and the seat that getUserSeat names shows its user.
pub get_seats_consistent :
    (s : RoomSeats) (count i j u : ℕ) (a b : SeatData)
    → Inv s
    → Decodes s.seats 0 count
    → row_at i (get_seats answers s s count) ≡ some a
    → row_at j (get_seats answers s s count) ≡ some b
    → a.user_id ≡ some u
    → (b.user_id ≡ some u → i ≡ j)
      × (a.locked ≡ false)
      × (get_seat_occupant answers s i ≡ some u)
      × (get_user_seat answers s u ≡ some j → i ≡ j)
unfolding get_seat_occupant get_user_seat
get_seats_consistent s count i j u a b v d at_i at_j who =
    let (len, rows) = get_seats_lem s s count d in
    let lt_i = row_at_bound i (get_seats answers s s count) a at_i in
    let lt_j = row_at_bound j (get_seats answers s s count) b at_j in
    let (user_i, shut_i, idx_i) =
      row_user i (has i s.locked) (hget i s.seats) a (sym (rows i (omega arith)) ∙ at_i) in
    let (user_j, shut_j, idx_j) =
      row_user j (has j s.locked) (hget j s.seats) b (sym (rows j (omega arith)) ∙ at_j) in
    let here : occupant i s ≡ some u = sym user_i ∙ who in
    (
      (λ e. v.single i j u here (sym user_j ∙ e)),
      shut_i ∙ open_of here,
      here,
      λ e. v.single i j u here (v.indexed u j e),
    )
  where
    open_of : occupant i s ≡ some u → has i s.locked ≡ false
    open_of h = elim (Bool-cases (has i s.locked)) [
      | inl shut ↦ absurd (ground (arith, v.unlocked i))
      | inr open_ ↦ open_
    ]

-- Clearing a room deletes the seats and the locks, and the reverse index of every user whom the
-- SCAN found: if it found every index key, afterwards nobody is seated, no seat is locked and no
-- index entry is left. A call that Redis does not run changes nothing, and one whose answer is lost
-- clears as well.
pub clear_seats_lem :
    (s : RoomSeats) (scanned : List ℕ)
    → ((u : ℕ) → has u scanned ≡ false → s.user_seat u ≡ none)
    → let t = clear_seats answers s scanned in
      Inv t
      × ((i : ℕ) → (occupant i t ≡ none) × (has i t.locked ≡ false))
      × ((u : ℕ) → t.user_seat u ≡ none)
      × (clear_seats answer_lost s scanned ≡ t)
      × (clear_seats fails s scanned ≡ s)
unfolding clear_seats hget
clear_seats_lem s scanned all = (
  record {
    distinct = tt;
    single = λ i j u e f. cc;
    unlocked = λ i e. refl;
    indexed = λ u i e. cc (gone u);
  },
  (λ i. (refl, refl)),
  gone,
  refl,
  refl,
)
  where
    gone : (u : ℕ) → (if has u scanned then none else s.user_seat u) ≡ none
    gone u = elim (Bool-cases (has u scanned)) [
      | inl found ↦ rw found refl
      | inr missed ↦ rw missed (all u missed)
    ]
