-- ===== src/Audio/Queue.antt =====
-- The scripts of src/domains/audio-player/audio-player.queue.ts and ACQUIRE_MUSIC_SLOT_LUA of
-- audio-player.handler.ts, the walk to the first live waiter, and the grace timer. Each script is
-- atomic. Times are milliseconds; the slot's TTL is modelled, the two-hour TTL of the state and of
-- the queue, which ends a room that crashed, is not.
use mediasoup_socket_io_audi.Prelude.{
  ℕ, zero, suc, ◌+◌, List, [], ◌∷◌, ◌++◌, Option, none, some, Bool, true, false, ltb, ◌==◌,
  if◌then◌else◌, length, ◌||◌,
}

-- MUSIC_PLAYER_TTL_SECONDS and MUSIC_GRANT_GRACE_TTL_SECONDS, in milliseconds.
abbrev pub player_ttl_ms : ℕ
player_ttl_ms = 7200000

abbrev pub grace_ttl_ms : ℕ
grace_ttl_ms = 15000

-- The key `room:{id}:musicPlayer`: its user and the time at which it expires.
pub record Hold : Type 0 where
  pub user : ℕ
  pub deadline : ℕ

-- The JSON text of `room:{id}:musicState`; a title is a number here.
pub record MusicState : Type 0 where
  pub user_id : ℕ
  pub title : ℕ
  pub duration : ℕ
  pub started_at : ℕ
  pub is_paused : Bool
  pub position : ℕ

pub record Music : Type 0 where
  pub slot : Option Hold
  pub state : Option MusicState
  pub queue : List ℕ

-- GET of the slot.
abbrev pub holder : ℕ → Option Hold → Option ℕ
holder now none = none
holder now (some h) = if ltb now h.deadline then some h.user else none

abbrev pub hold : ℕ → ℕ → ℕ → Option Hold
hold user now ttl = some (record { user = user; deadline = now + ttl })

-- `LPOS` plus one: the 1-based position of a waiter.
unfoldable pub position_of : ℕ → List ℕ → Option ℕ
position_of u [] = none
position_of u (x ∷ q) =
    if x == u then some 1 else elim (position_of u q) [ none ↦ none | some n ↦ some (suc n) ]

unfoldable pub enqueue_at : Music → ℕ → Option ℕ → Music × ℕ
enqueue_at m u (some n) = (m, n)
enqueue_at m u none = (record m { queue = m.queue ++ u ∷ [] }, length (m.queue ++ u ∷ []))

-- ENQUEUE_MUSIC_WAITER_LUA
unfoldable pub enqueue_waiter : Music → ℕ → Music × ℕ
unfolding enqueue_at
enqueue_waiter m u = enqueue_at m u (position_of u m.queue)

pub data Released : Type 0 where
  denied : Option ℕ → Released
  released : Option ℕ → Released

abbrev pub is_user : Option ℕ → ℕ → Bool
is_user none u = false
is_user (some v) u = v == u

pop_into : Music → ℕ → List ℕ → Music × Option ℕ
pop_into m now [] = (record m { slot = none; queue = [] }, none)
pop_into m now (head ∷ rest) =
    (record m { slot = hold head now grace_ttl_ms; queue = rest }, some head)

-- RELEASE_AND_GRANT_LUA
unfoldable pub release_and_grant : Music → ℕ → ℕ → Music × Released
unfolding pop_into
release_and_grant m u now =
    if is_user (holder now m.slot) u
    then (let (m', head) = pop_into (record m { state = none }) now m.queue in (m', released head))
    else (m, denied (holder now m.slot))

unfoldable pub promote_head : Music → ℕ → List ℕ → Music × Option ℕ
promote_head m now [] = (m, none)
promote_head m now (head ∷ rest) =
    (record m { slot = hold head now grace_ttl_ms; queue = rest }, some head)

-- PROMOTE_IF_FREE_LUA
unfoldable pub promote_if_free : Music → ℕ → Music × Option ℕ
unfolding promote_head
promote_if_free m now = elim (holder now m.slot) [
  | some h ↦ (m, none)
  | none ↦ promote_head m now m.queue
]

-- ACQUIRE_MUSIC_SLOT_LUA: `steal` is the dead holder whose slot may be taken.
unfoldable pub acquire_script : Music → ℕ → Option ℕ → ℕ → Music × ℕ
acquire_script m me steal now = elim (holder now m.slot) [
  | none ↦ (record m { slot = hold me now player_ttl_ms }, me)
  | some cur ↦
      if (cur == me) || is_user steal cur
      then (record m { slot = hold me now player_ttl_ms }, me)
      else (m, cur)
]

-- LREM of every entry of the user.
unfoldable pub dequeue : ℕ → List ℕ → List ℕ
dequeue u [] = []
dequeue u (x ∷ q) = if x == u then dequeue u q else x ∷ dequeue u q

-- What a grant walk ends with: a live grantee, whose grant is emitted and whose grace timer is
-- armed; a rival who took the slot; or a drained queue.
pub data Walk : Type 0 where
  granted : ℕ → Walk
  rival : Walk
  drained : Walk
  out_of_fuel : Walk

after_release : (Music → ℕ → Music × Walk) → Music × Released → Music × Walk
after_release walk_on (m, denied cur) = (m, rival)
after_release walk_on (m, released none) = (m, drained)
after_release walk_on (m, released (some next)) = walk_on m next

-- grantChain, with `is_live` for the sockets in the room; each round pops a waiter.
unfoldable pub grant_chain : ℕ → (ℕ → Bool) → Music → ℕ → ℕ → Music × Walk
unfolding after_release
grant_chain zero is_live m now current = (m, out_of_fuel)
grant_chain (suc fuel) is_live m now current = elim (is_live current) [
  | true ↦ (m, granted current)
  | false ↦
      after_release (λ m' next. grant_chain fuel is_live m' now next)
        (release_and_grant m current now)
]

-- The walk that starts at an answered head: a round for the head and one for each waiter.
unfoldable pub grant_head : (ℕ → Bool) → Music → ℕ → Option ℕ → Music × Walk
grant_head is_live m now none = (m, drained)
grant_head is_live m now (some head) = grant_chain (suc (length m.queue)) is_live m now head

-- The body of armGraceTimer.
unfoldable pub grace_timer : (ℕ → Bool) → Music → ℕ → Music × Walk
grace_timer is_live m now =
    let (m', promoted) = promote_if_free m now in grant_head is_live m' now promoted
