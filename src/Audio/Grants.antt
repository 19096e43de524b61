-- ===== src/Audio/Grants.antt =====
-- The walk of src/domains/audio-player/audio-player.queue.ts to the first live waiter.
use mediasoup_socket_io_audi.Prelude.{
  ℕ, zero, suc, ◌<◌, ◌≡◌, refl, List, [], ◌∷◌, Option, none, some, Bool, if◌then◌else◌, length,
  arith, Bool-cases, inl, inr,
}
use mediasoup_socket_io_audi.Audio.Queue.{
  Music, hold, holder, grace_ttl_ms, released, release_and_grant, Walk, granted, drained,
  grant_chain, grant_head,
}

-- The first live user of a line and those behind.
abbrev pub first_live : (ℕ → Bool) → List ℕ → Option (ℕ × List ℕ)
first_live is_live [] = none
first_live is_live (x ∷ q) = if is_live x then some (x, q) else first_live is_live q

-- What a walk leaves behind.
abbrev pub Served : ℕ → Option (ℕ × List ℕ) → Music × Walk → Type 0
Served now none (m, w) = (w ≡ drained) × (m.slot ≡ none) × (m.queue ≡ [])
Served now (some (g, rest)) (m, w) =
    (w ≡ granted g) × (holder now m.slot ≡ some g) × (m.queue ≡ rest)

pub release_and_grant-head :
    (m : Music) (u now x : ℕ) (q : List ℕ)
    → m.queue ≡ x ∷ q
    → holder now m.slot ≡ some u
    → release_and_grant m u now
      ≡ (record m { slot = hold x now grace_ttl_ms; state = none; queue = q }, released (some x))
unfolding release_and_grant
release_and_grant-head m u now x q e h = ground arith

chain_serves :
    (q : List ℕ) (fuel : ℕ) (is_live : ℕ → Bool) (m : Music) (now current : ℕ)
    → m.queue ≡ q
    → length q < fuel
    → holder now m.slot ≡ some current
    → Served now (first_live is_live (current ∷ q)) (grant_chain fuel is_live m now current)
unfolding grant_chain
chain_serves q zero is_live m now current e lt h = absurd (omega arith)
chain_serves [] (suc fuel) is_live m now current e lt h = unfold release_and_grant in ground arith
chain_serves (x ∷ q) (suc fuel) is_live m now current e lt h = elim (Bool-cases (is_live current)) [
  | inl live ↦ ground arith
  | inr dead ↦
      let ih =
        chain_serves q fuel is_live
          (record m { slot = hold x now grace_ttl_ms; state = none; queue = q }) now x refl
          (omega arith) (ground arith) in
      rw (dead, grant_chain, release_and_grant-head m current now x q e h) ih
]

-- The walk from the user who holds the slot passes it to the first live user of the line that the
-- holder and the queue form, keeps those behind in their order and drops the others; if nobody is
-- live it empties the slot and the queue. It always ends so: its rounds never run out, and it meets
-- no rival while no other command comes between.
pub grant_head-Served :
    (is_live : ℕ → Bool) (m : Music) (now head : ℕ)
    → holder now m.slot ≡ some head
    → Served now (first_live is_live (head ∷ m.queue)) (grant_head is_live m now (some head))
unfolding grant_head
grant_head-Served is_live m now head h =
    chain_serves m.queue (suc (length m.queue)) is_live m now head refl (omega arith) h
