-- ===== src/Seat/Invites.antt =====
-- `SeatInviteRepository` of src/domains/seat/seat-invite.repository.ts: an invitation under the key
-- of its seat, and a reverse index under the key of the invited user, both with a TTL. A stored
-- text that `JSON.parse` refuses is `none`. A TTL is positive.
use mediasoup_socket_io_audi.Prelude.{
  ℕ, ◌+◌, ◌*◌, ◌<◌, ◌≡◌, ◌≢◌, Option, none, some, Bool, true, false, ltb, ◌==◌, if◌then◌else◌,
  arith,
}
use mediasoup_socket_io_audi.Prelude.Redis.{update, Link, answers, fails, answer_lost}

pub record PendingInvite : Type 0 where
  pub target_user_id : ℕ
  pub invited_by : ℕ
  pub seat_index : ℕ
  pub created_at : ℕ

-- A value with the time at which its key expires.
pub record Expiring {ℓ} (A : Type ℓ) : Type ℓ where
  pub value : A
  pub deadline : ℕ

pub record Invites : Type 0 where
  pub by_seat : ℕ → Option (Expiring (Option PendingInvite))
  pub by_user : ℕ → Option (Expiring ℕ)

-- GET
abbrev pub unexpired {ℓ} : {A : Type ℓ} → ℕ → Option (Expiring A) → Option A
unexpired now none = none
unexpired now (some e) = if ltb now e.deadline then some e.value else none

abbrev pub invited : Invites → ℕ → ℕ → ℕ → ℕ → ℕ → Invites
invited m i u by ttl now = record {
  by_seat = update m.by_seat i (
      some (record {
        value =
            some (record { target_user_id = u; invited_by = by; seat_index = i; created_at = now });
        deadline = now + ttl * 1000;
      }));
  by_user = update m.by_user u (some (record { value = i; deadline = now + ttl * 1000 }));
}

-- createInvite: one pipeline.
unfoldable pub create_invite : Link → Invites → ℕ → ℕ → ℕ → ℕ → ℕ → Invites × Bool
create_invite answers m i u by ttl now = (invited m i u by ttl now, true)
create_invite fails m i u by ttl now = (m, false)
create_invite answer_lost m i u by ttl now = (invited m i u by ttl now, false)

abbrev pub parsed_invite : Option (Option PendingInvite) → Option PendingInvite
parsed_invite none = none
parsed_invite (some invite) = invite

-- getInvite: a text that does not parse is caught, and answers null.
unfoldable pub get_invite : Link → Invites → ℕ → ℕ → Option PendingInvite
get_invite answers m i now = parsed_invite (unexpired now (m.by_seat i))
get_invite fails m i now = none
get_invite answer_lost m i now = none

without : Invites → ℕ → Option PendingInvite → Invites
without m i none = record m { by_seat = update m.by_seat i none }
without m i (some invite) = record {
  by_seat = update m.by_seat i none;
  by_user = update m.by_user invite.target_user_id none;
}

exec : Link → Invites → Invites → Invites × Bool
exec answers m m' = (m', true)
exec fails m m' = (m, false)
exec answer_lost m m' = (m', false)

-- What the answer to GET leads to; a text that does not parse ends the method before the pipeline.
delete_read : Link → Invites → ℕ → Option (Option PendingInvite) → Invites × Bool
delete_read link m i none = exec link m (without m i none)
delete_read link m i (some none) = (m, false)
delete_read link m i (some (some invite)) = exec link m (without m i (some invite))

-- deleteInvite: a GET and a pipeline, with no other command between.
unfoldable pub delete_invite : Link → Link → Invites → ℕ → ℕ → Invites × Bool
unfolding delete_read exec without
delete_invite answers link m i now = delete_read link m i (unexpired now (m.by_seat i))
delete_invite fails link m i now = (m, false)
delete_invite answer_lost link m i now = (m, false)

if_targets : ℕ → ℕ → Option PendingInvite → Option (PendingInvite × ℕ)
if_targets u i none = none
if_targets u i (some invite) = if invite.target_user_id == u then some (invite, i) else none

find_invite : Link → Invites → ℕ → ℕ → Option ℕ → Option (PendingInvite × ℕ)
find_invite link m u now none = none
find_invite link m u now (some i) = if_targets u i (get_invite link m i now)

-- getInviteByUser
unfoldable pub get_invite_by_user : Link → Link → Invites → ℕ → ℕ → Option (PendingInvite × ℕ)
unfolding find_invite if_targets get_invite
get_invite_by_user answers link m u now = find_invite link m u now (unexpired now (m.by_user u))
get_invite_by_user fails link m u now = none
get_invite_by_user answer_lost link m u now = none

-- Until it expires, an invitation is found under its seat and under its user, who is the only user
-- of whom it answers; no invitation of another seat is changed, and once it is deleted neither look-up
-- finds it.
pub create_invite_lem :
    (m : Invites) (i u by ttl now later : ℕ)
    → later < now + ttl * 1000
    → let n = (create_invite answers m i u by ttl now).0 in
      let invite : PendingInvite = record {
        target_user_id = u;
        invited_by = by;
        seat_index = i;
        created_at = now;
      } in
      (get_invite answers n i later ≡ some invite)
      × (get_invite_by_user answers answers n u later ≡ some (invite, i))
      × ((j : ℕ) → i ≢ j → get_invite answers n j later ≡ get_invite answers m j later)
      × ((w : ℕ) (found : PendingInvite)
          → u ≢ w
          → get_invite_by_user answers answers n w later ≢ some (found, i))
      × (get_invite answers (delete_invite answers answers n i later).0 i later ≡ none)
      × (get_invite_by_user answers answers (delete_invite answers answers n i later).0 u later
          ≡ none)
unfolding create_invite get_invite get_invite_by_user delete_invite
create_invite_lem m i u by ttl now later lt = (
  ground arith,
  ground arith,
  (λ j ne. ground arith),
  (λ w found ne e. ground arith),
  ground arith,
  ground arith,
)

-- What getInviteByUser answers is an invitation of that user which getInvite finds under that seat.
pub get_invite_by_user_lem :
    (a b : Link) (m : Invites) (u i now : ℕ) (invite : PendingInvite)
    → get_invite_by_user a b m u now ≡ some (invite, i)
    → (invite.target_user_id ≡ u) × (get_invite answers m i now ≡ some invite)
unfolding get_invite get_invite_by_user
get_invite_by_user_lem a b m u i now invite e = ground arith

-- A user who is invited to a second seat, and whose invitation to the first is then deleted, is no
-- longer found by user, though the invitation to the second seat is still pending.
pub delete_invite_orphans :
    (m : Invites) (i j u by ttl now later : ℕ)
    → i ≢ j
    → later < now + ttl * 1000
    → let n = (create_invite answers (create_invite answers m i u by ttl now).0 j u by ttl now).0 in
      let k = (delete_invite answers answers n i later).0 in
      (get_invite_by_user answers answers k u later ≡ none)
      × (get_invite answers k j later
          ≡ some (record { target_user_id = u; invited_by = by; seat_index = j; created_at = now }))
unfolding create_invite get_invite get_invite_by_user delete_invite
delete_invite_orphans m i j u by ttl now later ne lt = ground arith
