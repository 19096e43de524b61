-- ===== src/Audio/Waiting.antt =====
-- The waiting queue of src/domains/audio-player/audio-player.queue.ts: places and duplicates.
use mediasoup_socket_io_audi.Prelude.{
  ℕ, zero, suc, ◌≡◌, ◌≢◌, refl, List, [], ◌∷◌, ◌++◌, Option, none, some, true, false, ◌==◌,
  if◌then◌else◌, length, has, arith, Option-cases, inl, inr, ◌||◌,
}
use mediasoup_socket_io_audi.Audio.Queue.{Music, position_of, enqueue_waiter, enqueue_at}

-- No user waits twice.
abbrev pub IsNodup : List ℕ → Type 0
IsNodup [] = Unit {0}
IsNodup (x ∷ q) = (has x q ≡ false) × IsNodup q

pub has-append : (x u : ℕ) (q : List ℕ) → has x (q ++ u ∷ []) ≡ (has x q || (u == x))
has-append x u [] = ground arith
has-append x u (y ∷ q) = ground (arith, has-append x u q)

pub append-IsNodup : (u : ℕ) (q : List ℕ) → has u q ≡ false → IsNodup q → IsNodup (q ++ u ∷ [])
append-IsNodup u [] h d = (refl, tt)
append-IsNodup u (x ∷ q) h d =
    (ground (arith, has-append x u q), append-IsNodup u q (ground arith) d.1)

pub position_of-none : (u : ℕ) (q : List ℕ) → position_of u q ≡ none → has u q ≡ false
unfolding position_of
position_of-none u [] e = refl
position_of-none u (x ∷ q) e = ground (arith, position_of-none u q)

-- The waiter at a 1-based position.
abbrev pub at_position : ℕ → List ℕ → Option ℕ
at_position zero q = none
at_position (suc n) [] = none
at_position (suc zero) (x ∷ q) = some x
at_position (suc (suc n)) (x ∷ q) = at_position (suc n) q

position_of_pos : (u : ℕ) (q : List ℕ) → position_of u q ≢ some 0
unfolding position_of
position_of_pos u [] e = cc
position_of_pos u (x ∷ q) e = ground arith

position_of-some : (u n : ℕ) (q : List ℕ) → position_of u q ≡ some n → at_position n q ≡ some u
unfolding position_of
position_of-some u zero q e = absurd (position_of_pos u q e)
position_of-some u (suc n) [] e = cc
position_of-some u (suc zero) (x ∷ q) e = ground (arith, position_of_pos u q)
position_of-some u (suc (suc n)) (x ∷ q) e = ground (arith, position_of-some u (suc n) q)

position_of-append :
    (u : ℕ) (q : List ℕ)
    → position_of u q ≡ none
    → position_of u (q ++ u ∷ []) ≡ some (length (q ++ u ∷ []))
unfolding position_of
position_of-append u [] h = ground arith
position_of-append u (x ∷ q) h = ground (arith, position_of-append u q)

has_of_position : (u n : ℕ) (q : List ℕ) → position_of u q ≡ some n → has u q ≡ true
unfolding position_of
has_of_position u n [] e = cc
has_of_position u n (x ∷ q) e = elim (Option-cases (position_of u q)) [
  | inl no_ ↦ ground arith
  | inr (k, at) ↦ ground (arith, has_of_position u k q at)
]

at_end : (u : ℕ) (q : List ℕ) → at_position (length (q ++ u ∷ [])) (q ++ u ∷ []) ≡ some u
at_end u [] = refl
at_end u (x ∷ []) = refl
at_end u (x ∷ y ∷ q) = at_end u (y ∷ q)

pub enqueue_waiter-new :
    (m : Music) (u : ℕ)
    → position_of u m.queue ≡ none
    → enqueue_waiter m u ≡ (record m { queue = m.queue ++ u ∷ [] }, length (m.queue ++ u ∷ []))
unfolding enqueue_waiter
enqueue_waiter-new m u e = rw (e, enqueue_at) refl

pub enqueue_waiter-old :
    (m : Music) (u n : ℕ) → position_of u m.queue ≡ some n → enqueue_waiter m u ≡ (m, n)
unfolding enqueue_waiter
enqueue_waiter-old m u n e = rw (e, enqueue_at) refl

-- Enqueueing leaves the user waiting once, at the answered position, behind everybody who waited
-- before; a user who waits already keeps the place.
pub enqueue_waiter_lem :
    (m : Music) (u : ℕ)
    → IsNodup m.queue
    → let (m', n) = enqueue_waiter m u in
      IsNodup m'.queue
      × (at_position n m'.queue ≡ some u)
      × (m'.queue ≡ (if has u m.queue then m.queue else m.queue ++ u ∷ []))
      × (enqueue_waiter m' u ≡ (m', n))
enqueue_waiter_lem m u d = elim (Option-cases (position_of u m.queue)) [
  | inl new ↦
      let out = position_of-none u m.queue new in
      rw (enqueue_waiter-new m u new, out)
        (
          append-IsNodup u m.queue out d,
          at_end u m.queue,
          refl,
          enqueue_waiter-old (record m { queue = m.queue ++ u ∷ [] }) u _
              (position_of-append u m.queue new),
        )
  | inr (n, at) ↦
      rw (enqueue_waiter-old m u n at, has_of_position u n m.queue at)
        (d, position_of-some u n m.queue at, refl, enqueue_waiter-old m u n at)
]
