-- ===== src/Ingest/Versions.antt =====
-- What the ordering guards make of events that arrive in any order.
use mediasoup_socket_io_audi.Prelude.{
  ℕ, ◌+◌, ◌*◌, ◌≤◌, ◌<◌, ◌≡◌, refl, List, [], ◌∷◌, Option, none, some, true, false, ltb,
  if◌then◌else◌, arith, max, ◌↔◌, ap, Bool-cases, inl, inr, ltb→lt,
}
use mediasoup_socket_io_audi.Prelude.Redis.{Link, answers}
use mediasoup_socket_io_audi.Ingest.Ordering.{
  Key, Marker, stored_version, accept_if_not_older, write_if_newer, written,
}

-- An event with the time of its arrival, its version and what it sets.
pub record Arrival {ℓ} (A : Type ℓ) : Type ℓ where
  pub at : ℕ
  pub version : ℕ
  pub value : A

-- A register that each arrival overwrites which the guard accepts, in one step with it, while Redis
-- answers.
unfoldable pub apply_all {ℓ} : {A : Type ℓ} → ℕ → Key × A → List (Arrival A) → Key × A
apply_all ttl s [] = s
apply_all ttl s (e ∷ es) =
    let (key', ok) = accept_if_not_older answers e.at s.0 e.version ttl in
    apply_all ttl (key', if ok then e.value else s.1) es

-- The arrivals come within one TTL after the time `from`, in the order of their times.
abbrev pub InWindow {ℓ} : {A : Type ℓ} → ℕ → ℕ → List (Arrival A) → Type 0
InWindow ttl from [] = Unit {0}
InWindow ttl from (e ∷ es) = (from ≤ e.at) × (e.at < from + ttl * 1000) × InWindow ttl from es

abbrev pub newest {ℓ} : {A : Type ℓ} → ℕ → List (Arrival A) → ℕ
newest v [] = v
newest v (e ∷ es) = newest (max v e.version) es

-- The value of the last arrival among those of the greatest version.
abbrev pub latest {ℓ} : {A : Type ℓ} → ℕ → A → List (Arrival A) → A
latest v a [] = a
latest v a (e ∷ es) = latest (max v e.version) (if ltb e.version v then a else e.value) es

max_left : (v w : ℕ) → w < v → max v w ≡ v
max_left v w h = omega arith

max_right : (v w : ℕ) → ltb w v ≡ false → max v w ≡ w
max_right v w h = ground arith

pub accept_live :
    (at v version ttl : ℕ) (m : Marker)
    → m.version ≡ some v
    → at < m.deadline
    → accept_if_not_older answers at (some m) version ttl
      ≡ (if ltb version v then (some m, false) else (written at ttl version, true))
unfolding accept_if_not_older
accept_live at v version ttl m e lt = ground arith

-- While Redis answers, and whatever the order of arrival within one TTL, the register ends with the value of the newest
-- version, a tie going to the later arrival, and the key holds that version: a stale event that
-- arrives late changes nothing.
pub apply_all-latest {ℓ} :
    {A : Type ℓ} (ttl from v : ℕ) (a : A) (m : Marker) (es : List (Arrival A))
    → m.version ≡ some v
    → from + ttl * 1000 ≤ m.deadline
    → InWindow ttl from es
    → ((apply_all ttl (some m, a) es).1 ≡ latest v a es)
      × ((deadline : ℕ) × ((apply_all ttl (some m, a) es).0
            ≡ some (record { version = some (newest v es); deadline = deadline })))
unfolding apply_all
apply_all-latest ttl from v a m [] e le w =
    (refl, (m.deadline, ap (λ o. some (record { version = o; deadline = m.deadline })) e))
apply_all-latest ttl from v a m (x ∷ es) e le w = elim (Bool-cases (ltb x.version v)) [
  | inl older ↦
      rw
        (
          accept_live x.at v x.version ttl m e (omega arith),
          apply_all,
          older,
          max_left v x.version (ltb→lt x.version v older),
        )
        (apply_all-latest ttl from v a m es e le w.2)
  | inr newer ↦
      rw
        (
          accept_live x.at v x.version ttl m e (omega arith),
          apply_all,
          newer,
          max_right v x.version newer,
        )
        (apply_all-latest ttl from x.version x.value
          (record { version = some x.version; deadline = x.at + ttl * 1000 }) es refl (omega arith)
          w.2)
]

-- A write of a watermark is refused exactly when a live numeric watermark at least as new is
-- stored; a refused write leaves the key, its expiry included, as it was, and an exact replay
-- within the TTL is refused.
pub write_if_newer_lem :
    (now later value ttl : ℕ) (key : Key)
    → (((write_if_newer answers now key value ttl).1 ≡ false)
        ↔ ((v : ℕ) × (stored_version now key ≡ some v) × (value ≤ v)))
      × ((write_if_newer answers now key value ttl).1 ≡ false
          → (write_if_newer answers now key value ttl).0 ≡ key)
      × ((write_if_newer answers now key value ttl).1 ≡ true
          → later < now + ttl * 1000
          → write_if_newer answers later (write_if_newer answers now key value ttl).0 value ttl
            ≡ ((write_if_newer answers now key value ttl).0, false))
unfolding write_if_newer
write_if_newer_lem now later value ttl key = write_cases (stored_version now key) refl
  where
    write_cases :
        (o : Option ℕ)
        → stored_version now key ≡ o
        → (((write_if_newer answers now key value ttl).1 ≡ false)
            ↔ ((v : ℕ) × (stored_version now key ≡ some v) × (value ≤ v)))
          × ((write_if_newer answers now key value ttl).1 ≡ false
              → (write_if_newer answers now key value ttl).0 ≡ key)
          × ((write_if_newer answers now key value ttl).1 ≡ true
              → later < now + ttl * 1000
              → write_if_newer answers later (write_if_newer answers now key value ttl).0 value ttl
                ≡ ((write_if_newer answers now key value ttl).0, false))
    write_cases none e =
        ((λ h. ground arith, λ h. ground (arith, h.1)), (λ h. ground arith), λ h lt. ground arith)
    write_cases (some v) e = (
      (λ h. (v, e, ground arith), λ h. ground (arith, h.1)),
      (λ h. ground arith),
      λ h lt. ground arith,
    )

-- Both guards fail open: when Redis does not answer they accept, and they never lose a stored
-- version that is newer than the incoming one.
pub guards_fail_open :
    (link : Link) (now version ttl v : ℕ) (key : Key)
    → stored_version now key ≡ some v
    → version < v
    → ((accept_if_not_older link now key version ttl).0 ≡ key)
      × ((write_if_newer link now key version ttl).0 ≡ key)
      × (((accept_if_not_older link now key version ttl).1 ≡ false) ↔ (link ≡ answers))
      × (((write_if_newer link now key version ttl).1 ≡ false) ↔ (link ≡ answers))
unfolding accept_if_not_older write_if_newer
guards_fail_open link now version ttl v key e lt = ground arith
