-- ===== src/Room/Counts.antt =====
-- Histories of the scripts of src/domains/room/roomState.ts on one room's key.
use mediasoup_socket_io_audi.Prelude.{
  ℕ, suc, ◌+◌, ◌-◌, ◌≤◌, ◌<◌, ◌≡◌, refl, List, [], ◌∷◌, ◌++◌, Option, none, some, arith,
  Option-cases, inl, inr,
}
use mediasoup_socket_io_audi.Prelude.Int.{ℤ, pos, negsuc}
use mediasoup_socket_io_audi.Mode.Controller.{RoomMode}
use mediasoup_socket_io_audi.Room.State.{
  StateKey, RoomState, current, get, save, delete, adjust_participant_count,
  reconcile_participant_count, set_mode, state_ttl_ms, add_at_least_zero,
}

-- The calls that change the state of a room that is open.
pub data Change : Type 0 where
  adjust : ℤ → Change
  reconcile : ℕ → Change
  switch : RoomMode → Change
  remove : Change

unfoldable pub apply_change : StateKey → Change → ℕ → StateKey
apply_change k (Change.adjust d) now = (adjust_participant_count k d now).0
apply_change k (Change.reconcile n) now = (reconcile_participant_count k n now).0
apply_change k (Change.switch m) now = (set_mode k m now).0
apply_change k Change.remove now = delete k

-- Each change with the time at which Redis runs it.
unfoldable pub apply_all : StateKey → List (ℕ × Change) → StateKey
apply_all k [] = k
apply_all k ((now, c) ∷ cs) = apply_all (apply_change k c now) cs

-- The times do not run backwards, and end by `last`.
abbrev pub Ascends : ℕ → List (ℕ × Change) → ℕ → Type 0
Ascends from [] last = from ≤ last
Ascends from ((now, c) ∷ cs) last = (from ≤ now) × Ascends now cs last

stays_gone :
    (k : StateKey) (from now : ℕ) → current from k ≡ none → from ≤ now → current now k ≡ none
stays_gone none from now e le = refl
stays_gone (some s) from now e le = ground arith

change_gone :
    (k : StateKey) (c : Change) (now : ℕ)
    → current now k ≡ none
    → current now (apply_change k c now) ≡ none
unfolding apply_change adjust_participant_count reconcile_participant_count set_mode
change_gone k (Change.adjust d) now e = ground arith
change_gone k (Change.reconcile n) now e = ground arith
change_gone k (Change.switch m) now e = ground arith
change_gone k Change.remove now e = refl

-- A script changes a key only to one that is there, so a key that is gone stays gone.
all_gone :
    (k : StateKey) (cs : List (ℕ × Change)) (from last : ℕ)
    → current from k ≡ none
    → Ascends from cs last
    → current last (apply_all k cs) ≡ none
unfolding apply_all
all_gone k [] from last e t = stays_gone k from last e t
all_gone k ((now, c) ∷ cs) from last e (lo, t) =
    all_gone (apply_change k c now) cs now last (change_gone k c now (stays_gone k from now e lo)) t

-- A state that was deleted or has expired is not brought back by any later adjustment or reconciliation
-- of its count, switch of its mode or removal, whatever their order, if nothing saves a state meanwhile.
pub get-apply_all-gone :
    (k : StateKey) (cs : List (ℕ × Change)) (from last : ℕ)
    → get k from ≡ none
    → Ascends from cs last
    → get (apply_all k cs) last ≡ none
unfolding get
get-apply_all-gone k cs from last e t = elim (Option-cases (current from k)) [
  | inl gone ↦ rw (all_gone k cs from last gone t) refl
  | inr (s, here) ↦ ground arith
]

pub apply_all-++ :
    (k : StateKey) (cs ds : List (ℕ × Change))
    → apply_all k (cs ++ ds) ≡ apply_all (apply_all k cs) ds
unfolding apply_all
apply_all-++ k [] ds = refl
apply_all-++ k ((now, c) ∷ cs) ds = apply_all-++ (apply_change k c now) cs ds

-- Once the state is deleted, no later change has one again.
pub get-apply_all-removed :
    (k : StateKey) (cs ds : List (ℕ × Change)) (at last : ℕ)
    → Ascends at ds last
    → get (apply_all k (cs ++ (at, Change.remove) ∷ ds)) last ≡ none
unfolding apply_all apply_change get
get-apply_all-removed k cs ds at last t =
    rw (apply_all-++ k cs ((at, Change.remove) ∷ ds)) (get-apply_all-gone none ds at last refl t)

-- The calls of adjustParticipantCount, each with its time.
unfoldable pub adjust_all : StateKey → List (ℕ × ℤ) → StateKey
adjust_all k [] = k
adjust_all k ((now, d) ∷ ds) = adjust_all (adjust_participant_count k d now).0 ds

abbrev pub joins : List (ℕ × ℤ) → ℕ
joins [] = 0
joins ((now, pos d) ∷ ds) = d + joins ds
joins ((now, negsuc d) ∷ ds) = joins ds

abbrev pub leaves : List (ℕ × ℤ) → ℕ
leaves [] = 0
leaves ((now, pos d) ∷ ds) = leaves ds
leaves ((now, negsuc d) ∷ ds) = suc d + leaves ds

-- No leave is counted that no join was counted for.
abbrev pub NeverBelow : ℕ → List (ℕ × ℤ) → Type 0
NeverBelow n [] = Unit {0}
NeverBelow n ((now, pos d) ∷ ds) = NeverBelow (n + d) ds
NeverBelow n ((now, negsuc d) ∷ ds) = (suc d ≤ n) × NeverBelow (n - suc d) ds

-- Each call, and the reading at `last`, comes before the TTL that the call before it set runs out.
abbrev pub Refreshed : ℕ → List (ℕ × ℤ) → ℕ → Type 0
Refreshed from [] last = last < from + state_ttl_ms
Refreshed from ((now, d) ∷ ds) last = (now < from + state_ttl_ms) × Refreshed now ds last

abbrev pub count_at : StateKey → ℕ → Option ℕ
count_at k last = elim (get k last) [ none ↦ none | some s ↦ some s.participant_count ]

abbrev counted : RoomState → ℤ → ℕ → RoomState
counted s d now = record s {
  participant_count = add_at_least_zero s.participant_count d;
  last_activity_at = now;
}

adjust_participant_count-save :
    (s : RoomState) (d : ℤ) (from now : ℕ)
    → now < from + state_ttl_ms
    → (adjust_participant_count (save s from) d now).0 ≡ save (counted s d now) now
unfolding adjust_participant_count save
adjust_participant_count-save s d from now lt = ground arith

-- From a saved state on, while no call comes later than a TTL after the one before it and no member
-- leaves who was not counted in, the count that is read is the saved one and the joins, less the
-- leaves.
pub adjust_all-balance :
    (s : RoomState) (from last : ℕ) (ds : List (ℕ × ℤ))
    → NeverBelow s.participant_count ds
    → Refreshed from ds last
    → count_at (adjust_all (save s from) ds) last
      ≡ some ((s.participant_count + joins ds) - leaves ds)
unfolding adjust_all
adjust_all-balance s from last [] b t = unfold save in unfold get in ground arith
adjust_all-balance s from last ((now, pos d) ∷ ds) b (t, u) =
    rw (adjust_participant_count-save s (pos d) from now t)
      (ground (arith, adjust_all-balance (counted s (pos d) now) now last ds b u))
adjust_all-balance s from last ((now, negsuc d) ∷ ds) (b, c) (t, u) =
    rw (adjust_participant_count-save s (negsuc d) from now t)
      (ground (arith, adjust_all-balance (counted s (negsuc d) now) now last ds c u))
