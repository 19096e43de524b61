-- ===== src/Mode/Hysteresis.antt =====
-- The room mode does not flap: src/domains/room/mode.
use mediasoup_socket_io_audi.Prelude.{
  ℕ, ◌-◌, ◌≤◌, ◌<◌, ◌≡◌, ◌≢◌, ◌↔◌, ◌⊎◌, inl, inr, refl, List, [], ◌∷◌, Option, none, some, true,
  false, arith, Option-cases, Bool-cases, subst, sym,
}
use mediasoup_socket_io_audi.Mode.Controller.{
  RoomMode, interactive, broadcast, promote, demote, hold, ModeDecisionInput, decide,
}
use mediasoup_socket_io_audi.Mode.Service.{
  Config, Room, Heartbeat, Flip, evaluate, evaluate_mode, state_after,
}

-- A decision promotes exactly an interactive room that has reached the upper threshold and has a
-- speaker, demotes exactly a broadcast room at or under the lower threshold, and where the lower
-- threshold is under the upper one, deciding again on the same counts holds the mode decided.
pub decide_lem :
    (i : ModeDecisionInput)
    → (((decide i).transition ≡ promote) ↔ (
        (i.current_mode ≡ interactive)
        × (i.up_threshold ≤ i.listener_count)
        × (1 ≤ i.speaker_count)))
      × (((decide i).transition ≡ demote)
          ↔ ((i.current_mode ≡ broadcast) × (i.listener_count ≤ i.down_threshold)))
      × (((decide i).changed ≡ true) ↔ ((decide i).mode ≢ i.current_mode))
      × (i.down_threshold < i.up_threshold
          → decide (record i { current_mode = (decide i).mode })
            ≡ record { mode = (decide i).mode; changed = false; transition = hold })
unfolding decide
decide_lem i = (
  (λ e. ground arith, λ e. ground arith),
  (λ e. ground arith, λ e. ground arith),
  (λ e f. ground arith, λ e. ground arith),
  λ lt. ground arith,
)

-- Every heartbeat of the history, latest first, that read the room's state, back to one of them at the
-- time `t`, was in the demote zone.
abbrev pub InZoneSince : ℕ → ℕ → List Heartbeat → Type 0
InZoneSince down t [] = ⊥
InZoneSince down t (h ∷ hs) =
    (h.reads ≡ true → h.listener_count ≤ down)
    × (((h.reads ≡ true) × (h.now ≡ t)) ⊎ InZoneSince down t hs)

-- The streak that a room remembers is one of its history.
abbrev pub IsStreak : ℕ → List Heartbeat → Option ℕ → Type 0
IsStreak down hs none = Unit {0}
IsStreak down hs (some t) = InZoneSince down t hs

evaluate_unread :
    (c : Config) (r : Room) (h : Heartbeat) → h.reads ≡ false → evaluate c r h ≡ (r, none, [])
unfolding evaluate
evaluate_unread c r h fails = ground arith

-- What a heartbeat of an open room does to the streak, and when it demotes.
evaluate-IsStreak :
    (c : Config) (r : Room) (h : Heartbeat) (hs : List Heartbeat) (m : RoomMode)
    → r.mode ≡ some m
    → IsStreak c.threshold_down hs r.demote_eligible_since
    → IsStreak c.threshold_down (h ∷ hs) (evaluate c r h).0.demote_eligible_since
      × (m ≡ broadcast
          → (evaluate c r h).1 ≡ some interactive
          → (t : ℕ) × InZoneSince c.threshold_down t (h ∷ hs) × (c.demote_grace_ms ≤ h.now - t))
evaluate-IsStreak c r h hs m open_ s = elim (Bool-cases h.reads) [
  | inl reads ↦ cases m r.demote_eligible_since reads open_ refl
  | inr fails ↦
      subst
        (λ (x : Room × Option RoomMode × List Flip).
          IsStreak c.threshold_down (h ∷ hs) x.0.demote_eligible_since
          × (m ≡ broadcast
              → x.1 ≡ some interactive
              → (t : ℕ) × InZoneSince c.threshold_down t (h ∷ hs)
                × (c.demote_grace_ms ≤ h.now - t)))
        (sym (evaluate_unread c r h fails))
        (kept r.demote_eligible_since fails s, λ b f. absurd (ground arith))
]
  where
    kept :
        (e : Option ℕ)
        → h.reads ≡ false
        → IsStreak c.threshold_down hs e
        → IsStreak c.threshold_down (h ∷ hs) e
    kept none fails z = tt
    kept (some t) fails z = ((λ reads. absurd (ground arith)), inr z)

    cases :
        (m : RoomMode) (e : Option ℕ)
        → h.reads ≡ true
        → r.mode ≡ some m
        → r.demote_eligible_since ≡ e
        → IsStreak c.threshold_down (h ∷ hs) (evaluate c r h).0.demote_eligible_since
          × (m ≡ broadcast
              → (evaluate c r h).1 ≡ some interactive
              → (t : ℕ) × InZoneSince c.threshold_down t (h ∷ hs) × (c.demote_grace_ms ≤ h.now - t))
    cases interactive e reads em ee =
        unfold evaluate evaluate_mode decide in (ground arith, λ b f. cc)
    cases broadcast none reads em ee =
        unfold evaluate evaluate_mode decide in
        (ground arith, λ b f. (h.now, ground arith, ground arith))
    cases broadcast (some t) reads em ee =
        unfold evaluate evaluate_mode decide in
        (ground arith, λ b f. (t, ground arith, ground arith))

evaluate_open :
    (c : Config) (r : Room) (h : Heartbeat)
    → h.closes ≡ false
    → (m : RoomMode) × (r.mode ≡ some m)
    → (m : RoomMode) × ((evaluate c r h).0.mode ≡ some m)
evaluate_open c r h stays (m, e) = elim (Option-cases (evaluate c r h).0.mode) [
  | inl gone ↦ absurd (never m e gone)
  | inr (k, at) ↦ (k, at)
]
  where
    never : (m : RoomMode) → r.mode ≡ some m → (evaluate c r h).0.mode ≢ none
    never interactive e n = unfold evaluate evaluate_mode decide in ground arith
    never broadcast e n = unfold evaluate evaluate_mode decide in ground arith

-- The room is open at every heartbeat.
abbrev pub StaysOpen : List Heartbeat → Type 0
StaysOpen [] = Unit {0}
StaysOpen (h ∷ hs) = (h.closes ≡ false) × StaysOpen hs

history-IsStreak :
    (c : Config) (r : Room) (hs : List Heartbeat)
    → StaysOpen hs
    → r.demote_eligible_since ≡ none
    → (m : RoomMode) × (r.mode ≡ some m)
    → ((m : RoomMode) × ((state_after c r hs).mode ≡ some m))
      × IsStreak c.threshold_down hs (state_after c r hs).demote_eligible_since
unfolding state_after
history-IsStreak c r [] o e open_ = (open_, subst (IsStreak c.threshold_down []) (sym e) tt)
history-IsStreak c r (h ∷ hs) o e open_ =
    let ((m, at), s) = history-IsStreak c r hs o.1 e open_ in
    (
      evaluate_open c (state_after c r hs) h o.0 (m, at),
      (evaluate-IsStreak c (state_after c r hs) h hs m at s).0,
    )

-- A broadcast room is demoted only after it has been in the demote zone for the whole grace period
-- without a break: if the latest heartbeat of a history demotes it, then every heartbeat that read the
-- room's state since one at least the grace period before, that one and the latest included, was at or under the lower
-- threshold.
pub demote_needs_streak :
    (c : Config) (r : Room) (h : Heartbeat) (hs : List Heartbeat)
    → StaysOpen hs
    → r.demote_eligible_since ≡ none
    → (m : RoomMode) × (r.mode ≡ some m)
    → (state_after c r hs).mode ≡ some broadcast
    → (evaluate c (state_after c r hs) h).1 ≡ some interactive
    → (t : ℕ) × InZoneSince c.threshold_down t (h ∷ hs) × (c.demote_grace_ms ≤ h.now - t)
demote_needs_streak c r h hs o e open_ was demoted =
    (evaluate-IsStreak c (state_after c r hs) h hs broadcast was
        (history-IsStreak c r hs o e open_).1).1
      refl demoted
