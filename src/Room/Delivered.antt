-- ===== src/Room/Delivered.antt =====
-- What Laravel is told in histories of src/domains/room/status-coalescer.ts.
use mediasoup_socket_io_audi.Prelude.{
  ℕ, ◌+◌, ◌≤◌, ◌≡◌, ◌==◌, refl, List, [], ◌∷◌, ◌++◌, Option, none, some, false, if◌then◌else◌,
  arith,
}
use mediasoup_socket_io_audi.Prelude.Redis.{
  Hash, hget, Distinct, hget-hset, hget-hdel, hset-Distinct, hdel-Distinct,
}
use mediasoup_socket_io_audi.Room.Coalescer.{
  Coalescer, RoomStatusUpdate, no_status, submit, flush_now, forget, flush_all,
}

-- The calls of the coalescer; the timer's tick flushes all.
pub data Call : Type 0 where
  submits : ℕ → RoomStatusUpdate → Call
  flushes : ℕ → RoomStatusUpdate → Call
  forgets : ℕ → Call
  tick : Call

unfoldable pub call : Coalescer → Call → Coalescer
call c (Call.submits room status) = submit c room status
call c (Call.flushes room status) = flush_now c room status
call c (Call.forgets room) = forget c room
call c Call.tick = flush_all c

unfoldable pub calls : Coalescer → List Call → Coalescer
calls c [] = c
calls c (x ∷ xs) = calls (call c x) xs

abbrev or_else {ℓ} : {A : Type ℓ} → Option A → Option A → Option A
or_else none b = b
or_else (some a) b = some a

-- The last status of a room in a list of requests.
unfoldable pub last_of {ℓ} : {V : Type ℓ} → ℕ → Hash V → Option V
last_of room [] = none
last_of room ((r, status) ∷ m) = or_else (last_of room m) (if r == room then some status else none)

pub last_of-++ {ℓ} :
    {V : Type ℓ} (room : ℕ) (a b : Hash V)
    → last_of room (a ++ b) ≡ or_else (last_of room b) (last_of room a)
unfolding last_of
last_of-++ room [] b = ground arith
last_of-++ room ((r, v) ∷ a) b = ground (arith, last_of-++ room a b)

last_of-Distinct {ℓ} :
    {V : Type ℓ} (room : ℕ) (m : Hash V) → Distinct m → last_of room m ≡ hget room m
unfolding last_of hget
last_of-Distinct room [] d = refl
last_of-Distinct room ((r, v) ∷ m) d = ground (arith, last_of-Distinct room m d.1)

-- What Laravel will have been told of a room when all that is buffered has been sent.
abbrev pub told : ℕ → Coalescer → Option RoomStatusUpdate
told room c = or_else (hget room c.pending) (last_of room c.sent)

-- The status that the last call about a room asks for, `known` if there is none; a room that is
-- forgotten keeps what was sent.
abbrev pub requested : ℕ → Option RoomStatusUpdate → List Call → Option RoomStatusUpdate
requested room known [] = known
requested room known (Call.submits r status ∷ xs) =
    requested room (if r == room then some status else known) xs
requested room known (Call.flushes r status ∷ xs) =
    requested room (if r == room then some status else known) xs
requested room known (Call.forgets r ∷ xs) = requested room known xs
requested room known (Call.tick ∷ xs) = requested room known xs

abbrev pub Unforgotten : ℕ → List Call → Type 0
Unforgotten room [] = Unit {0}
Unforgotten room (Call.submits r status ∷ xs) = Unforgotten room xs
Unforgotten room (Call.flushes r status ∷ xs) = Unforgotten room xs
Unforgotten room (Call.forgets r ∷ xs) = ((r == room) ≡ false) × Unforgotten room xs
Unforgotten room (Call.tick ∷ xs) = Unforgotten room xs

-- The requests about a room.
unfoldable pub sends {ℓ} : {V : Type ℓ} → ℕ → Hash V → ℕ
sends room [] = 0
sends room ((r, v) ∷ m) = (if r == room then 1 else 0) + sends room m

-- The ticks, and the calls that send a status of the room at once.
abbrev pub chance : ℕ → Call → ℕ
chance room (Call.submits r status) = 0
chance room (Call.flushes r status) = if r == room then 1 else 0
chance room (Call.forgets r) = 0
chance room Call.tick = 1

abbrev pub chances : ℕ → List Call → ℕ
chances room [] = 0
chances room (x ∷ xs) = chance room x + chances room xs

sends-++ {ℓ} :
    {V : Type ℓ} (room : ℕ) (a b : Hash V) → sends room (a ++ b) ≡ sends room a + sends room b
unfolding sends
sends-++ room [] b = omega arith
sends-++ room ((r, v) ∷ a) b = ground (arith, sends-++ room a b)

sends-Distinct {ℓ} :
    {V : Type ℓ} (room : ℕ) (m : Hash V)
    → Distinct m
    → sends room m ≡ elim (hget room m) [ none ↦ 0 | some v ↦ 1 ]
unfolding sends hget
sends-Distinct room [] d = refl
sends-Distinct room ((r, v) ∷ m) d = ground (arith, sends-Distinct room m d.1)

call-Distinct : (c : Coalescer) (x : Call) → Distinct c.pending → Distinct (call c x).pending
unfolding call submit flush_now forget flush_all
call-Distinct c (Call.submits r s) d = hset-Distinct r s c.pending d
call-Distinct c (Call.flushes r s) d = hdel-Distinct r c.pending d
call-Distinct c (Call.forgets r) d = hdel-Distinct r c.pending d
call-Distinct c Call.tick d = tt

told-flush_now :
    (room r : ℕ) (c : Coalescer) (s : RoomStatusUpdate)
    → told room (flush_now c r s) ≡ (if r == room then some s else told room c)
unfolding flush_now last_of
told-flush_now room r c s =
    ground (arith, hget-hdel room r c.pending, last_of-++ room c.sent ((r, s) ∷ []))

told-flush_all :
    (room : ℕ) (c : Coalescer) → Distinct c.pending → told room (flush_all c) ≡ told room c
unfolding flush_all hget
told-flush_all room c d =
    ground (arith, last_of-++ room c.sent c.pending, last_of-Distinct room c.pending d)

told-submit :
    (room r : ℕ) (c : Coalescer) (s : RoomStatusUpdate)
    → told room (submit c r s) ≡ (if r == room then some s else told room c)
unfolding submit
told-submit room r c s = ground (arith, hget-hset room r s c.pending)

told-forget :
    (room r : ℕ) (c : Coalescer) → (r == room) ≡ false → told room (forget c r) ≡ told room c
unfolding forget
told-forget room r c n = ground (arith, hget-hdel room r c.pending)

calls_lem :
    (room : ℕ) (c : Coalescer) (xs : List Call)
    → Distinct c.pending
    → Unforgotten room xs
    → Distinct (calls c xs).pending × (told room (calls c xs) ≡ requested room (told room c) xs)
unfolding calls call
calls_lem room c [] d u = (d, refl)
calls_lem room c (Call.submits r s ∷ xs) d u =
    rw (← told-submit room r c s)
      (calls_lem room (submit c r s) xs (call-Distinct c (Call.submits r s) d) u)
calls_lem room c (Call.flushes r s ∷ xs) d u =
    rw (← told-flush_now room r c s)
      (calls_lem room (flush_now c r s) xs (call-Distinct c (Call.flushes r s) d) u)
calls_lem room c (Call.forgets r ∷ xs) d (n, u) =
    rw (← told-forget room r c n)
      (calls_lem room (forget c r) xs (call-Distinct c (Call.forgets r) d) u)
calls_lem room c (Call.tick ∷ xs) d u =
    rw (← told-flush_all room c d) (calls_lem room (flush_all c) xs (call-Distinct c Call.tick d) u)

-- However its calls mix with the timer's ticks, when the coalescer has stopped, the last status that
-- Laravel was sent of a room is the one that the last call about the room asked for, and none if no
-- call did, as long as the room was not forgotten.
pub last_of-flush_all :
    (room : ℕ) (xs : List Call)
    → Unforgotten room xs
    → last_of room (flush_all (calls no_status xs)).sent ≡ requested room none xs
unfolding flush_all hget last_of
last_of-flush_all room xs u =
    let (d, e) = calls_lem room no_status xs tt u in
    let c : Coalescer = calls no_status xs in
    ground (arith, e, last_of-++ room c.sent c.pending, last_of-Distinct room c.pending d)

sends-call :
    (room : ℕ) (c : Coalescer) (x : Call)
    → Distinct c.pending
    → sends room (call c x).sent ≤ sends room c.sent + chance room x
unfolding call submit flush_now forget flush_all sends
sends-call room c (Call.submits r s) d = omega arith
sends-call room c (Call.flushes r s) d = ground (arith, sends-++ room c.sent ((r, s) ∷ []))
sends-call room c (Call.forgets r) d = omega arith
sends-call room c Call.tick d =
    ground (arith, sends-++ room c.sent c.pending, sends-Distinct room c.pending d)

sends_bound :
    (room : ℕ) (c : Coalescer) (xs : List Call)
    → Distinct c.pending
    → sends room (calls c xs).sent ≤ sends room c.sent + chances room xs
unfolding calls
sends_bound room c [] d = omega arith
sends_bound room c (x ∷ xs) d =
    omega (arith, sends_bound room (call c x) xs (call-Distinct c x d), sends-call room c x d)

-- However many calls there are, no more requests about a room are made than the timer ticked and
-- its status was sent at once: one in each window.
pub sends-calls :
    (room : ℕ) (xs : List Call) → sends room (calls no_status xs).sent ≤ chances room xs
unfolding sends
sends-calls room xs = omega (arith, sends_bound room no_status xs tt)
