-- ===== src/Presence/Connections.antt =====
-- `PresenceService` of src/domains/presence/presence.service.ts for one user: the counter in Redis, with
-- its expiry, and the updates that subscribers are sent, latest first.
use mediasoup_socket_io_audi.Prelude.{
  ℕ, zero, suc, ◌+◌, List, ◌∷◌, Option, none, some, Bool, true, false, not, ltb, if◌then◌else◌,
}
use mediasoup_socket_io_audi.Prelude.Int.{ℤ, pos, negsuc}

-- A key that INCR or DECR made has no expiry until EXPIRE sets one.
pub record Counter : Type 0 where
  pub count : ℤ
  pub deadline : Option ℕ

abbrev pub unexpired : ℕ → Counter → Option ℕ → Option Counter
unexpired now c none = some c
unexpired now c (some d) = if ltb now d then some c else none

abbrev pub current : ℕ → Option Counter → Option Counter
current now none = none
current now (some c) = unexpired now c c.deadline

abbrev pub plus_one : ℤ → ℤ
plus_one (pos n) = pos (suc n)
plus_one (negsuc zero) = pos 0
plus_one (negsuc (suc n)) = negsuc n

abbrev pub minus_one : ℤ → ℤ
minus_one (pos zero) = negsuc 0
minus_one (pos (suc n)) = pos n
minus_one (negsuc n) = negsuc (suc n)

abbrev pub add_to : (ℤ → ℤ) → Option Counter → Counter
add_to f none = record { count = f (pos 0); deadline = none }
add_to f (some c) = record c { count = f c.count }

-- INCR, DECR, EXPIRE and EXISTS
unfoldable pub incr : ℕ → Option Counter → Counter
incr now k = add_to plus_one (current now k)

unfoldable pub decr : ℕ → Option Counter → Counter
decr now k = add_to minus_one (current now k)

abbrev pub with_deadline : ℕ → Option Counter → Option Counter
with_deadline d none = none
with_deadline d (some c) = some (record c { deadline = some d })

unfoldable pub expire : ℕ → ℕ → Option Counter → Option Counter
expire ttl now k = with_deadline (now + ttl) (current now k)

abbrev pub exists : ℕ → Option Counter → Bool
exists now k = elim (current now k) [ none ↦ false | some c ↦ true ]

abbrev pub is_one : ℤ → Bool
is_one (pos (suc zero)) = true
is_one (pos zero) = false
is_one (pos (suc (suc n))) = false
is_one (negsuc n) = false

abbrev pub at_most_zero : ℤ → Bool
at_most_zero (pos zero) = true
at_most_zero (pos (suc n)) = false
at_most_zero (negsuc n) = true

pub record Presence : Type 0 where
  pub key : Option Counter
  pub updates : List Bool

-- emitTransition
abbrev pub emit_transition : Bool → Presence → Presence
emit_transition online p = record p { updates = online ∷ p.updates }

abbrev pub emit_if : Bool → Bool → Presence → Presence
emit_if test online p = if test then emit_transition online p else p

-- onConnect, and whether its INCR and its EXPIRE succeed; the rest is skipped after a failure.
unfoldable pub on_connect : Bool → Bool → ℕ → ℕ → Presence → Presence
on_connect incr_ok expire_ok ttl now p =
    if not incr_ok
    then p
    else (let c = incr now p.key in
        if not expire_ok
        then record p { key = some c }
        else emit_if (is_one c.count) true (record p { key = expire ttl now (some c) }))

-- onDisconnect, and whether its DECR and its DEL succeed.
unfoldable pub on_disconnect : Bool → Bool → ℕ → Presence → Presence
on_disconnect decr_ok del_ok now p =
    if decr_ok
    then (let c = decr now p.key in
        if at_most_zero c.count
        then (if del_ok
            then emit_transition false (record p { key = none })
            else record p { key = some c })
        else record p { key = some c })
    else p

-- The sweep of an instance that the user is connected to.
unfoldable pub sweep : ℕ → ℕ → Presence → Presence
sweep ttl now p = record p { key = expire ttl now p.key }

-- What snapshot says of the user.
abbrev pub snapshot : ℕ → Presence → Bool
snapshot now p = exists now p.key
