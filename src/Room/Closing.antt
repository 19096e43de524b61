-- ===== src/Room/Closing.antt =====
-- Creating and closing a room with src/domains/room/roomManager.ts.
use mediasoup_socket_io_audi.Prelude.{
  is_some, ℕ, [], ◌∷◌, ◌++◌, ◌≡◌, Option, none, some, Bool, true, false, if◌then◌else◌, ◌&&◌, arith,
  Option-cases, inl, inr,
}
use mediasoup_socket_io_audi.Prelude.Redis.{after_call, is_answered, hget}
use mediasoup_socket_io_audi.Room.State.{RoomState, get, save}
use mediasoup_socket_io_audi.Room.Manager.{Manager, Init, opened, ended, new_state, do_create_room}

-- Which steps of a creation must succeed: the state is saved only if there is none.
abbrev pub init_succeeds : Init → Option RoomState → Bool
init_succeeds i s =
    i.initialized && i.read && (if is_some s then true else is_answered i.save_link) && i.accepted

get-save : (now : ℕ) → is_some (get (save (new_state now) now) now) ≡ true
unfolding get save
get-save now = ground arith

-- A creation returns if and only if all that it needs succeeds, and only then is the room hosted: no
-- room is served that is half made. A hosted room has a state, Laravel has been told that it is live,
-- and a state that was there is kept. A creation that fails before the cluster was made keeps the claim;
-- one that fails later gives it up, if the registry's cleanup reaches Redis, and keeps it otherwise.
pub do_create_room_lem :
    (room now : ℕ) (i : Init) (m : Manager)
    → m.hosted ≡ false
    → let (m', returned) = do_create_room room i now m in
      (returned ≡ init_succeeds i (get m.key now))
      × (m'.hosted ≡ returned)
      × (returned ≡ true
          → (is_some (get m'.key now) ≡ true)
            × (m'.coalescer.sent ≡ m.coalescer.sent ++ (room, opened) ∷ [])
            × (m'.claimed ≡ m.claimed))
      × ((s : RoomState) → get m.key now ≡ some s → m'.key ≡ m.key)
      × (returned ≡ false
          → m'.claimed
            ≡ (if i.initialized then after_call i.release_link false m.claimed else m.claimed))
unfolding do_create_room
do_create_room_lem room now i m h = elim (Option-cases (get m.key now)) [
  | inl e ↦ ground (arith, get-save now)
  | inr (s, e) ↦ ground arith
]

-- Laravel was told that the room ended, and no state, tracker entry or buffered status is left.
abbrev pub Gone : ℕ → ℕ → Manager → Manager → Type 0
Gone room now m t =
    (t.hosted ≡ false)
    × (get t.key now ≡ none)
    × (t.zero_since ≡ none)
    × (hget room t.coalescer.pending ≡ none)
    × (t.coalescer.sent ≡ m.coalescer.sent ++ (room, ended) ∷ [])
