-- ===== src/Maintenance/Window.antt =====
-- The maintenance window over time: who opens and closes it, and when.
use huddle.Prelude.{
  ℕ, ◌+◌, ◌≡◌, ◌⊎◌, inl, inr, refl, sym, ap, subst, ◌∙◌, String, Option, none, some, List, [], ◌∷◌,
  Bool, true, false, not, ◌&&◌, if◌then◌else◌, ltb, Bool-cases, Option-cases, arith,
}
use huddle.Fault.{Exception, err}
use huddle.Maintenance.{
  Phase, MaintenanceState, MaintenanceCleanup, World, Configuration, is_empty, phase_of, next_start,
  is_owner, require_owner, change, trimmed, status, can_activate, require_admissions_open,
}
use huddle.Maintenance.Worker.{RoomCleanup, Environment, is_active, tick}
use huddle.Maintenance.Sweep.{IsIdle, IsQuiet, tick_through, in_lock-IsIdle, in_lock-IsQuiet}

empty : (cs : List MaintenanceCleanup) → is_empty cs ≡ true → cs ≡ []
empty [] e = refl
empty (c ∷ cs) e = cc e

module _ (inner : RoomCleanup) (config : Configuration) where
  -- What happens to the window: time passes, somebody asks for a change, the worker sweeps with
  -- whatever LiveKit, Egress and the cleanup answer.
  pub data Step : World inner.Rooms → World inner.Rooms → Type 0 where
    wait : (n : ℕ) (w : World inner.Rooms) → Step w (record w { now = w.now + n })
    ask :
        (enabled : Bool) (message : Option String) (actor_id : String) (w : World inner.Rooms)
        → Step w (change inner.Rooms config enabled message actor_id w).1
    sweeping : (env : Environment) (w : World inner.Rooms) → Step w (tick inner env w).1

  pub data Reaches : World inner.Rooms → World inner.Rooms → Type 0 where
    here : {w : World inner.Rooms} → Reaches w w
    and_then : {w w' w'' : World inner.Rooms} → Step w w' → Reaches w' w'' → Reaches w w''

  -- There is no room to clean up after, or the maintenance is active.
  abbrev pub IsClosed : World inner.Rooms → Type 0
  IsClosed w =
      (w.cleanup ≡ []) ⊎ ((s : MaintenanceState) × (w.state ≡ some s) × (is_active w.now s ≡ true))

  tick_shut :
      (env : Environment) (w : World inner.Rooms) (s : MaintenanceState)
      → w.state ≡ some s
      → is_active w.now s ≡ true
      → IsClosed (tick inner env w).1
  tick_shut env w s is_state active =
      let (state, now) =
        tick_through inner env (IsIdle inner env w.state w.now) w (refl, refl)
          (in_lock-IsIdle inner env w.state w) in
      inr (s, state ∙ is_state, ap (λ t. is_active t s) now ∙ active)

  tick_quiet :
      (env : Environment) (w : World inner.Rooms)
      → w.cleanup ≡ []
      → ((s : MaintenanceState) → w.state ≡ some s → is_active w.now s ≡ false)
      → IsClosed (tick inner env w).1
  tick_quiet env w nothing inactive =
      let (state, now, still) =
        tick_through inner env (IsQuiet inner env w.state w.now) w (refl, refl, nothing)
          (in_lock-IsQuiet inner env w.state w nothing inactive) in
      inl still

  tick-IsClosed :
      (env : Environment) (w : World inner.Rooms) → IsClosed w → IsClosed (tick inner env w).1
  tick-IsClosed env w (inr (s, is_state, active)) = tick_shut env w s is_state active
  tick-IsClosed env w (inl nothing) = elim (Option-cases w.state) [
    | inl e ↦ tick_quiet env w nothing (λ s is_state. absurd (cc (e, is_state)))
    | inr (s, e) ↦ elim (Bool-cases (is_active w.now s)) [
      | inl active ↦ tick_shut env w s e active
      | inr inactive ↦
          tick_quiet env w nothing (λ s' is_state. ground (arith, e, is_state, inactive))
    ]
  ]

  -- The world of an accepted change.
  abbrev changed : Bool → Option String → String → World inner.Rooms → World inner.Rooms
  changed enabled message actor_id w = record w {
    state = some (record {
      enabled = enabled;
      starts_at = next_start w.now enabled w.state;
      message = trimmed inner.Rooms config message;
      actor_id = actor_id;
    });
  }

  change_cases :
      (enabled : Bool) (message : Option String) (actor_id : String) (w : World inner.Rooms)
      → (change inner.Rooms config enabled message actor_id w).1 ≡ (
          if is_owner inner.Rooms config (some actor_id)
            && not (not enabled && not (is_empty w.cleanup))
          then changed enabled message actor_id w
          else w)
  unfolding change require_owner
  change_cases enabled message actor_id w = ground arith

  accepted-IsClosed :
      (enabled : Bool) (message : Option String) (actor_id : String) (w : World inner.Rooms)
      → not enabled && not (is_empty w.cleanup) ≡ false
      → IsClosed w
      → IsClosed (changed enabled message actor_id w)
  accepted-IsClosed enabled message actor_id w allowed (inl nothing) = inl nothing
  accepted-IsClosed true message actor_id w allowed (inr (s, e, active)) =
      inr (_, refl, ground (arith, e, active))
  accepted-IsClosed false message actor_id w allowed (inr (s, e, active)) =
      inl (empty w.cleanup (ground (arith, allowed)))

  change-IsClosed :
      (enabled : Bool) (message : Option String) (actor_id : String) (w : World inner.Rooms)
      → IsClosed w
      → IsClosed (change inner.Rooms config enabled message actor_id w).1
  change-IsClosed enabled message actor_id w closed =
      subst IsClosed (sym (change_cases enabled message actor_id w))
        (elim (Bool-cases (
          is_owner inner.Rooms config (some actor_id)
          && not (not enabled && not (is_empty w.cleanup)))) [
            | inl e ↦
                rw (e) (accepted-IsClosed enabled message actor_id w (ground (arith, e)) closed)
            | inr e ↦ rw (e) closed
          ])

  step-IsClosed : (w w' : World inner.Rooms) → Step w w' → IsClosed w → IsClosed w'
  step-IsClosed _ _ (wait n w) (inl nothing) = inl nothing
  step-IsClosed _ _ (wait n w) (inr (s, e, active)) = inr (s, e, ground (arith, active))
  step-IsClosed _ _ (ask enabled message actor_id w) closed =
      change-IsClosed enabled message actor_id w closed
  step-IsClosed _ _ (sweeping env w) closed = tick-IsClosed env w closed

  -- Whatever happens, in any order and however often, there is either no room left to clean up after,
  -- or the maintenance is on and its warning is over: nobody, not even the owner, reopens the rooms
  -- while a cleanup is due.
  pub Reaches-IsClosed : (w w' : World inner.Rooms) → Reaches w w' → IsClosed w → IsClosed w'
  Reaches-IsClosed w w' here closed = closed
  Reaches-IsClosed w w'' (and_then step rest) closed =
      Reaches-IsClosed _ w'' rest (step-IsClosed w _ step closed)

  -- The phase after a warning of `n` milliseconds, with the marked routes shut.
  abbrev pub IsWarned : ℕ → World inner.Rooms → Type 0
  IsWarned n w =
      ((status inner.Rooms config w).phase
        ≡ (if ltb n 300_000 then Phase.scheduled else Phase.active))
      × (can_activate inner.Rooms config true w ≡ (err (Exception.refused 503), w))

  warned :
      (n : ℕ) (w : World inner.Rooms) (s : MaintenanceState)
      → w.state ≡ some s
      → s.enabled ≡ true
      → s.starts_at + n ≡ w.now + 300_000
      → IsWarned n w
  unfolding status can_activate require_admissions_open
  warned n w s e enabled late = (ground (arith, e, enabled, late), ground (arith, e, enabled))

  first_start :
      (now : ℕ) (o : Option MaintenanceState)
      → phase_of now o ≡ Phase.off
      → next_start now true o ≡ now + 300_000
  first_start now none closed = refl
  first_start now (some s) closed = ground arith

  -- Let the owner enable the maintenance while it is off, and let it be enabled once more `n`
  -- milliseconds later, by anybody who may or may not, with whatever message. A further `m` milliseconds
  -- later, nothing else having happened, the phase is the warning if the whole time is under five
  -- minutes since the first change, and active otherwise, and the marked routes let nobody in.
  pub change_warning :
      (message message' : Option String) (owner other : String) (n m : ℕ) (w : World inner.Rooms)
      → is_owner inner.Rooms config (some owner) ≡ true
      → phase_of w.now w.state ≡ Phase.off
      → let w1 = (change inner.Rooms config true message owner w).1 in
        let w2 =
          (change inner.Rooms config true message' other (record w1 { now = w1.now + n })).1 in
        IsWarned (n + m) (record w2 { now = w2.now + m })
  change_warning message message' owner other n m w allowed closed =
      let w1 = changed true message owner w in
      let step : (change inner.Rooms config true message owner w).1 ≡ w1 =
        change_cases true message owner w ∙ rw (allowed) refl in
      let later = record w1 { now = w1.now + n } in
      let start = first_start w.now w.state closed in
      let Holds : World inner.Rooms → Type 0 =
        λ x. IsWarned (n + m) (record x { now = x.now + m }) in
      let twice : Holds (change inner.Rooms config true message' other later).1 =
        subst Holds (sym (change_cases true message' other later))
          (elim (Bool-cases (is_owner inner.Rooms config (some other))) [
            | inl e ↦ rw (e) (
                warned (n + m) (record (changed true message' other later) { now = later.now + m })
                  _ refl refl (ground (arith, start)))
            | inr e ↦ rw (e) (
                warned (n + m) (record later { now = later.now + m }) _ refl refl
                  (ground (arith, start)))
          ]) in
      subst
        (λ x.
          Holds (change inner.Rooms config true message' other (record x { now = x.now + n })).1)
        (sym step) twice
