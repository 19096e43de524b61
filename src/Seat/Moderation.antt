-- ===== src/Seat/Moderation.antt =====
-- The handlers of src/domains/seat/handlers that leave, lock, unlock, assign, remove and mute, with
-- what they emit and the calls that follow. The two Redis calls of one handler may see different
-- seats and fail on their own; mediasoup's part of closing and pausing producers is left out.
use mediasoup_socket_io_audi.Prelude.{
  ℕ, List, [], ◌∷◌, Option, none, some, Bool, true, false, if◌then◌else◌, ◌++◌, map,
}
use mediasoup_socket_io_audi.Prelude.Int.{ℤ}
use mediasoup_socket_io_audi.Prelude.Redis.{Link}
use mediasoup_socket_io_audi.Authority.Verify.{
  World, AuthResult, allowed, not_authorized, auth_check_failed, verify_room_owner,
  verify_room_manager, verify_room_moderation_target,
}
use mediasoup_socket_io_audi.Room.State.{StateKey, get}
use mediasoup_socket_io_audi.Seat.Types.{RoomSeats}
use mediasoup_socket_io_audi.Seat.Repository.{
  SeatError, unseated, SeatActionResult, success, failure, try_leave_seat, try_assign_seat,
  try_set_mute, try_lock_seat, try_unlock_seat, get_seat_occupant, get_user_seat,
}
use mediasoup_socket_io_audi.Seat.Taking.{seat_count_or}
use mediasoup_socket_io_audi.Seat.Vip.{
  Sockets, is_vip_anti_mute_protected, is_vip_anti_kick_protected,
}

pub record Office : Type 0 where
  pub authority : World
  pub sockets : Sockets
  pub key : StateKey
  pub seats : RoomSeats

pub data Refusal : Type 0 where
  denied : AuthResult → Refusal
  seat_error : SeatError → Refusal
  vip_protected mute_failed unmute_failed : Refusal

-- What the room hears, and the calls on the producers, the music slot, the broadcast and the
-- activity of the room.
pub data Effect : Type 0 where
  seat_cleared : ℕ → ℕ → Effect
  seat_updated : ℤ → ℕ → Effect
  seat_lock : ℕ → Bool → Effect
  user_muted : ℕ → Bool → Effect
  close_all_user_producers release_music_player : ℕ → Effect
  switch_mic : ℕ → Bool → Effect
  on_speaker_change record_activity : Effect

-- `answer` is `none` where the handler answers success.
pub record Outcome : Type 0 where
  pub office : Office
  pub answer : Option Refusal
  pub effects : List Effect

abbrev pub refused : Office → Refusal → Outcome
refused w r = record { office = w; answer = some r; effects = [] }

abbrev pub done : Office → List Effect → Outcome
done w es = record { office = w; answer = none; effects = es }

-- `if (!authorization.allowed) return { success: false, error: authorization.error };`
unfoldable pub gate : Office → World × AuthResult → (Office → Outcome) → Outcome
gate w (a, allowed) act = act (record w { authority = a })
gate w (a, not_authorized) act = refused (record w { authority = a }) (denied not_authorized)
gate w (a, auth_check_failed) act = refused (record w { authority = a }) (denied auth_check_failed)

-- What follows a method of the repository.
abbrev pub after {ℓ} :
    {A : Type ℓ} → Office → RoomSeats × SeatActionResult A → (A → List Effect) → Outcome
after w (s, failure e) es = refused (record w { seats = s }) (seat_error e)
after w (s, success r) es = done (record w { seats = s }) (es r)

-- The `seat:cleared` of each index.
abbrev pub clears : ℕ → List ℕ → List Effect
clears u cleared = map (λ i. seat_cleared i u) cleared

-- leaveSeatHandler
unfoldable pub leave_seat_handler : Link → ℕ → Office → Outcome
leave_seat_handler link user w =
    after w (try_leave_seat link w.seats user) (λ r. clears user r.1 ++ (record_activity ∷ []))

abbrev pub evicts : ℕ → Option ℕ → List Effect
evicts i none = []
evicts i (some kicked) =
    seat_cleared i kicked ∷ close_all_user_producers kicked ∷ release_music_player kicked ∷ []

abbrev pub lock_tier : World → ℕ → Option ℕ → World × AuthResult
lock_tier a requester none = verify_room_manager a requester
lock_tier a requester (some occupant) = verify_room_moderation_target a requester occupant

-- lockSeatHandler, where the occupant is read over `read` from the seats as they were `before`.
unfoldable pub lock_seat_handler : Link → Link → RoomSeats → ℕ → ℕ → Office → Outcome
lock_seat_handler read link before i requester w =
    gate w (lock_tier w.authority requester (get_seat_occupant read before i)) (λ w.
      after w (try_lock_seat link w.seats i) (λ kicked. evicts i kicked ++ (seat_lock i true ∷ [])))

-- unlockSeatHandler
unfoldable pub unlock_seat_handler : Link → ℕ → ℕ → Office → Outcome
unlock_seat_handler link i requester w =
    gate w (verify_room_manager w.authority requester)
      (λ w. after w (try_unlock_seat link w.seats i) (λ r. seat_lock i false ∷ []))

-- assignSeatHandler
unfoldable pub assign_seat_handler : ℕ → Link → ℤ → ℕ → ℕ → Office → Outcome
assign_seat_handler default_seat_count link i target requester w =
    gate w (verify_room_owner w.authority requester) (λ w.
      let count = seat_count_or default_seat_count (get w.key w.authority.now) in
      after w (try_assign_seat link w.seats i target count)
        (λ r. clears target r.1 ++ (seat_updated i target ∷ [])))

abbrev pub remove_unprotected : Link → ℕ → Bool → Office → Outcome
remove_unprotected link target true w = refused w vip_protected
remove_unprotected link target false w =
    after w (try_leave_seat link w.seats target) (λ r. clears target r.1)

-- removeSeatHandler
unfoldable pub remove_seat_handler : Link → ℕ → ℕ → Office → Outcome
remove_seat_handler link target requester w =
    gate w (verify_room_owner w.authority requester)
      (λ w. remove_unprotected link target (is_vip_anti_kick_protected w.sockets target) w)

abbrev pub fail_error : Bool → Refusal
fail_error true = mute_failed
fail_error false = unmute_failed

abbrev pub muted_as : ℕ → Bool → Office → RoomSeats × Bool → Outcome
muted_as target muted w (s, false) = refused (record w { seats = s }) (fail_error muted)
muted_as target muted w (s, true) =
    done (record w { seats = s })
      (switch_mic target muted ∷ user_muted target muted ∷ on_speaker_change ∷ [])

abbrev pub mute_at : Link → ℕ → Bool → Office → Option ℕ → Outcome
mute_at link target muted w none = refused w (seat_error unseated)
mute_at link target muted w (some i) = muted_as target muted w (try_set_mute link w.seats i muted)

-- The guard applies only when muting.
abbrev pub mute_protected : Sockets → ℕ → Bool → Bool
mute_protected s target true = is_vip_anti_mute_protected s target
mute_protected s target false = false

-- The handlers of createMuteHandler: muteSeatHandler and unmuteSeatHandler. The seat of the target
-- is read over `read` from the seats as they were `before`.
unfoldable pub mute_handler : Link → Link → RoomSeats → Bool → ℕ → ℕ → Office → Outcome
mute_handler read link before muted target requester w =
    gate w (verify_room_moderation_target w.authority requester target) (λ w.
      if mute_protected w.sockets target muted
      then refused w vip_protected
      else mute_at link target muted w (get_user_seat read before target))
