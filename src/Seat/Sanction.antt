-- ===== src/Seat/Sanction.antt =====
-- Who may do what to the seats through the handlers of Seat/Moderation.
use mediasoup_socket_io_audi.Prelude.{
  ℕ, ◌≡◌, ◌≢◌, ◌⊎◌, refl, Option, none, some, Bool, true, false, ◌==◌, subst, inl, inr, arith,
  if◌then◌else◌, Bool-cases, Option-cases,
}
use mediasoup_socket_io_audi.Prelude.Int.{ℤ}
use mediasoup_socket_io_audi.Prelude.Redis.{Link, answers}
use mediasoup_socket_io_audi.Authority.Caches.{manages, fetch_room_owner, can_manage_room}
use mediasoup_socket_io_audi.Authority.Verify.{
  World, AuthResult, allowed, not_authorized, auth_check_failed, verify_room_owner,
  verify_room_manager, verify_room_moderation_target, verify_room_moderation_target_lem,
}
use mediasoup_socket_io_audi.Seat.Types.{RoomSeats, occupant}
use mediasoup_socket_io_audi.Seat.Repository.{get_seat_occupant, get_user_seat}
use mediasoup_socket_io_audi.Seat.Vip.{is_vip_anti_mute_protected, is_vip_anti_kick_protected}
use mediasoup_socket_io_audi.Seat.Moderation.{
  Office, Outcome, gate, lock_seat_handler, unlock_seat_handler, assign_seat_handler,
  remove_seat_handler, mute_handler, remove_unprotected, mute_protected, lock_tier, mute_at,
  refused, vip_protected,
}

abbrev pub found : World → Option ℕ
found a = (fetch_room_owner a.now a.owner_answer a.owner_entry).1

abbrev pub Manages : World → ℕ → Type 0
Manages a user = (can_manage_room a.now user (a.role_answer user) a.roles).1 ≡ true

-- The owner over everyone; a manager over himself and over who neither owns the room nor is known to
-- manage it.
abbrev pub Outranks : World → ℕ → ℕ → Type 0
Outranks a requester target =
    (found a ≡ some requester)
    ⊎ (Manages a requester
        × ((requester ≡ target)
            ⊎ ((found a ≢ some target) × (manages (a.role_answer target) ≡ false))))

pub data Action : Type 0 where
  locks unlocks : ℕ → Action
  assigns : ℤ → ℕ → Action
  removes : ℕ → Action
  mutes : Bool → ℕ → Action

-- The handler of an action of `requester`: reads go over `read` to the seats as they were `before`.
unfoldable pub act : ℕ → Link → Link → RoomSeats → Action → ℕ → Office → Outcome
act count read link before (locks i) requester w = lock_seat_handler read link before i requester w
act count read link before (unlocks i) requester w = unlock_seat_handler link i requester w
act count read link before (assigns i target) requester w =
    assign_seat_handler count link i target requester w
act count read link before (removes target) requester w =
    remove_seat_handler link target requester w
act count read link before (mutes muted target) requester w =
    mute_handler read link before muted target requester w

abbrev pub Evicts : World → ℕ → Option ℕ → Type 0
Evicts a requester none = Manages a requester
Evicts a requester (some occupant) = Outranks a requester occupant

abbrev pub Sanctioned : Link → RoomSeats → Office → ℕ → Action → Type 0
Sanctioned read before w requester (locks i) =
    Evicts w.authority requester (get_seat_occupant read before i)
Sanctioned read before w requester (unlocks i) = Manages w.authority requester
Sanctioned read before w requester (assigns i target) = found w.authority ≡ some requester
Sanctioned read before w requester (removes target) =
    (found w.authority ≡ some requester) × (is_vip_anti_kick_protected w.sockets target ≡ false)
Sanctioned read before w requester (mutes muted target) =
    Outranks w.authority requester target
    × (muted ≡ true → is_vip_anti_mute_protected w.sockets target ≡ false)

-- A handler whose check does not allow the action leaves the seats.
gated :
    (w : Office) (r : World × AuthResult) (f : Office → Outcome) {P : Type 0}
    → (r.1 ≡ allowed → ((f (record w { authority = r.0 })).office.seats ≡ w.seats) ⊎ P)
    → ((gate w r f).office.seats ≡ w.seats) ⊎ P
unfolding gate
gated w (a, allowed) f h = h refl
gated w (a, not_authorized) f h = inl refl
gated w (a, auth_check_failed) f h = inl refl

owner_lem :
    (a : World) (requester : ℕ)
    → (verify_room_owner a requester).1 ≡ allowed
    → found a ≡ some requester
unfolding verify_room_owner
owner_lem a requester h = elim (Option-cases (found a)) [
  | inl unknown ↦ ground arith
  | inr (o, known) ↦ ground arith
]

manager_lem :
    (a : World) (requester : ℕ)
    → (verify_room_manager a requester).1 ≡ allowed
    → Manages a requester
unfolding verify_room_manager
manager_lem a requester h = ground arith

target_lem :
    (a : World) (requester target : ℕ)
    → (verify_room_moderation_target a requester target).1 ≡ allowed
    → Outranks a requester target
target_lem a requester target h =
    let (unknown_lem, owner_may, other, own) =
      verify_room_moderation_target_lem a requester target in
    elim (Option-cases (found a)) [
      | inl unknown ↦ absurd (ground (arith, unknown_lem unknown))
      | inr (o, known) ↦ elim (Bool-cases (requester == o)) [
        | inl same ↦ inl (ground arith)
        | inr differs ↦
            let (can, rank) = other o known (ground arith) h in
            inr (
              can,
              elim rank [
                | inl self ↦ inl self
                | inr (ne, plain) ↦ inr ((λ e. ne (ground arith)), plain)
              ],
            )
      ]
    ]

evict_lem :
    (a : World) (requester : ℕ) (occupant : Option ℕ)
    → (lock_tier a requester occupant).1 ≡ allowed
    → Evicts a requester occupant
evict_lem a requester none h = manager_lem a requester h
evict_lem a requester (some occupant) h = target_lem a requester occupant h

remove_lem :
    (w : Office) (link : Link) (target : ℕ) (kept : Bool) {P : Type 0}
    → P
    → ((remove_unprotected link target kept w).office.seats ≡ w.seats) ⊎ (P × (kept ≡ false))
remove_lem w link target true p = inl refl
remove_lem w link target false p = inr (p, refl)

mute_lem :
    (w : Office) (read link : Link) (before : RoomSeats) (target : ℕ) (muted : Bool) {P : Type 0}
    → P
    → ((if mute_protected w.sockets target muted
          then refused w vip_protected
          else mute_at link target muted w (get_user_seat read before target)).office.seats
        ≡ w.seats)
      ⊎ (P × (muted ≡ true → is_vip_anti_mute_protected w.sockets target ≡ false))
mute_lem w read link before target false p = inr (p, λ e. ground arith)
mute_lem w read link before target true p =
    elim (Bool-cases (is_vip_anti_mute_protected w.sockets target)) [
      | inl kept ↦ inl (rw kept refl)
      | inr plain ↦ inr (p, λ e. plain)
    ]

act_lem :
    (count : ℕ) (read link : Link) (before : RoomSeats) (a : Action) (requester : ℕ) (w : Office)
    → ((act count read link before a requester w).office.seats ≡ w.seats)
      ⊎ Sanctioned read before w requester a
unfolding act lock_seat_handler unlock_seat_handler assign_seat_handler remove_seat_handler
    mute_handler
act_lem count read link before (locks i) requester w =
    gated w (lock_tier w.authority requester (get_seat_occupant read before i)) _
      (λ h. inr (evict_lem w.authority requester (get_seat_occupant read before i) h))
act_lem count read link before (unlocks i) requester w =
    gated w (verify_room_manager w.authority requester) _
      (λ h. inr (manager_lem w.authority requester h))
act_lem count read link before (assigns i target) requester w =
    gated w (verify_room_owner w.authority requester) _
      (λ h. inr (owner_lem w.authority requester h))
act_lem count read link before (removes target) requester w =
    gated w (verify_room_owner w.authority requester) _ (λ h.
      remove_lem (record w { authority = (verify_room_owner w.authority requester).0 }) link target
        _ (owner_lem w.authority requester h))
act_lem count read link before (mutes muted target) requester w =
    gated w (verify_room_moderation_target w.authority requester target) _ (λ h.
      mute_lem
        (record w { authority = (verify_room_moderation_target w.authority requester target).0 })
        read link before target muted (target_lem w.authority requester target h))

-- A handler leaves the seats as they are unless its tier allows the action that it is asked for: the
-- owner alone assigns and removes, a manager unlocks and locks a seat that reads as empty, and who
-- mutes or unmutes a user, or locks a seat that reads as that user's, outranks the user. A request to
-- remove or to mute a user whom the VIP guard protects leaves the seats as they are too. So if the
-- occupant of a seat to lock is read, and the seats are still the same when it is locked, nobody loses
-- the seat to a user who does not outrank him.
pub act-Sanctioned :
    (count : ℕ) (read link : Link) (before : RoomSeats) (a : Action) (requester : ℕ) (w : Office)
    → let t = act count read link before a requester w in
      ((t.office.seats ≡ w.seats) ⊎ Sanctioned read before w requester a)
      × ((i v : ℕ)
          → a ≡ locks i
          → read ≡ answers
          → before ≡ w.seats
          → occupant i w.seats ≡ some v
          → (t.office.seats ≡ w.seats) ⊎ Outranks w.authority requester v)
unfolding get_seat_occupant
act-Sanctioned count read link before a requester w = (
  act_lem count read link before a requester w,
  λ i v ea er eb eo.
      rw (ea, er, eb)
        (elim (act_lem count answers link w.seats (locks i) requester w) [
          | inl same ↦ inl same
          | inr ok_ ↦ inr (subst (Evicts w.authority requester) eo ok_)
        ]),
)
