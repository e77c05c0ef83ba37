-- ===== src/ControlState/Holder.antt =====
-- Who can take a room's lock: histories of calls, and what they leave of the lock.
use huddle.Prelude.{
  ap, ◌∙◌, ℕ, ◌+◌, ◌≤◌, ◌≡◌, ◌≢◌, ◌⊎◌, String, none, some, List, [], ◌∷◌, Bool, true, false, not,
  if◌then◌else◌, is_some, arith, ite,
}
use huddle.Records.{
  PendingRequest, ActiveGrant, text, pending_json, active_json, Key, as_text, owner_key,
  pending_key, active_key, Key-discrete,
}
use huddle.Redis.{Store, value_of}
use huddle.Redis.Strings.{entry, string_laws, entry_later}
use huddle.ControlState.{
  create_pending, consume_pending, release_pending, activate, update_active, clear_active,
  issue_bootstrap, consume_bootstrap, revoke_bootstrap,
}
use huddle.ControlState.History.{
  Call, creates, consumes, releases, clears, activates, updates, revokes, issues, redeems, named,
  call, run,
}
use huddle.ControlState.Lock.{
  holder, session, HeldIn, IsLocked, IsFair, call-IsLocked, release_pending-owner,
  release_pending-active,
}

-- The pairing survives the passing of time, since the two deadlines are one.
IsLocked-later : (now later : ℕ) (r : Store) → now ≤ later → IsLocked now r → IsLocked later r
IsLocked-later now later r h inv room = ground (
  arith,
  inv room,
  entry_later now later r (active_key room) h,
  entry_later now later r (owner_key room) h,
)

module _ (digest : String → String) where
  -- Every call of a history is fair where it is made.
  abbrev pub AllFair : ℕ → List (ℕ × Call) → Store → Type 0
  AllFair now [] r = Unit
  AllFair now ((wait, c) ∷ cs) r =
      IsFair (now + wait) c r × AllFair (now + wait) cs (call digest (now + wait) c r)

  -- After any history of calls in which no call gives up the request behind the active session,
  -- every active grant is under the lock of its room, with the deadline of the lock, if it was so
  -- at the start.
  pub run-IsLocked :
      (now : ℕ) (cs : List (ℕ × Call)) (r : Store)
      → AllFair now cs r
      → IsLocked now r
      → IsLocked (run digest now cs r).0 (run digest now cs r).1
  unfolding run
  run-IsLocked now [] r fair inv = inv
  run-IsLocked now ((wait, c) ∷ cs) r (f, fair) inv =
      run-IsLocked (now + wait) cs (call digest (now + wait) c r) fair (
        call-IsLocked digest (now + wait) c r f
          (IsLocked-later now (now + wait) r (omega arith) inv))

  module _ (now : ℕ) (room id : String) (r : Store) (inv : HeldIn now room r)
      (held : holder now r room ≡ some id) where
    create_pending-holder :
        (fails : Bool) (q : PendingRequest)
        → q.request_id ≢ id
        → holder now (create_pending now fails q r).1 room ≡ some id
    unfolding create_pending
    create_pending-holder fails q ne = grind (arith, string_laws)

    consume_pending-holder :
        (a i : String) → holder now (consume_pending now a i r).1 room ≡ some id
    unfolding consume_pending
    consume_pending-holder a i = grind (arith, string_laws)

    release_pending-holder :
        (a i : String) → i ≢ id → holder now (release_pending now a i r).1 room ≡ some id
    release_pending-holder a i ne = ground (arith, release_pending-owner now a i r room)

    clear_active-holder :
        (a i : String) → i ≢ id → holder now (clear_active now a i r).1 room ≡ some id
    unfolding clear_active
    clear_active-holder a i ne = grind (arith, string_laws)

    activate-holder :
        (g : ActiveGrant) → g.session_id ≢ id → holder now (activate now g r).1 room ≡ some id
    unfolding activate
    activate-holder g ne = grind (arith, string_laws)

    update_active-holder :
        (g : ActiveGrant) → g.session_id ≢ id → holder now (update_active now g r).1 room ≡ some id
    unfolding update_active
    update_active-holder g ne = grind (arith, string_laws)

    revoke_bootstrap-holder :
        (g : ActiveGrant) → holder now (revoke_bootstrap now g r).1 room ≡ some id
    unfolding revoke_bootstrap
    revoke_bootstrap-holder g = grind (arith, string_laws)

    issue_bootstrap-holder :
        (code : String) (g : ActiveGrant)
        → g.session_id ≢ id
        → holder now (issue_bootstrap now digest code g r).1 room ≡ some id
    unfolding issue_bootstrap
    issue_bootstrap-holder code g ne = grind (arith, string_laws)

    consume_bootstrap-holder :
        (a i code : String) → holder now (consume_bootstrap now digest a i code r).1 room ≡ some id
    unfolding consume_bootstrap
    consume_bootstrap-holder a i code = grind (arith, string_laws)

    -- While a request or session holds the lock of a room whose grant is paired with it, a call
    -- that names another request or session leaves the lock with its holder.
    pub call-holder : (c : Call) → named c ≢ id → holder now (call digest now c r) room ≡ some id
    unfolding call
    call-holder (creates fails q) ne = create_pending-holder fails q ne
    call-holder (consumes a i) ne = consume_pending-holder a i
    call-holder (releases a i) ne = release_pending-holder a i ne
    call-holder (clears a i) ne = clear_active-holder a i ne
    call-holder (activates g) ne = activate-holder g ne
    call-holder (updates g) ne = update_active-holder g ne
    call-holder (revokes g) ne = revoke_bootstrap-holder g
    call-holder (issues code g) ne = issue_bootstrap-holder code g ne
    call-holder (redeems a i code) ne = consume_bootstrap-holder a i code

-- Creating a request for a room succeeds exactly when nothing holds the room's lock. A refused
-- creation changes no entry. A creation that succeeds leaves the request pending and the lock with
-- it, both for thirty seconds, and no other entry changes.
pub create_pending_lem :
    (now : ℕ) (q : PendingRequest) (r : Store) (j : Key)
    → let free = not (is_some (entry now r (owner_key q.room))) in
      ((create_pending now false q r).0 ≡ some free)
      × (entry now (create_pending now false q r).1 j ≡ (
          if free
          then ite
              (Key-discrete (pending_key q.room) j)
              (some (record { value = pending_json q; expires_at = some (now + 30_000) }))
              (ite
                (Key-discrete (owner_key q.room) j)
                (some (record { value = text q.request_id; expires_at = some (now + 30_000) }))
                (entry now r j))
          else entry now r j))
unfolding create_pending
create_pending_lem now q r j = grind (arith, string_laws)

-- If the write of the request is rejected, the creation throws and no entry differs from before it
-- began, where the room was free.
pub create_pending_rollback :
    (now : ℕ) (q : PendingRequest) (r : Store) (j : Key)
    → entry now r (owner_key q.room) ≡ none
    → ((create_pending now true q r).0 ≡ none)
      × (entry now (create_pending now true q r).1 j ≡ entry now r j)
unfolding create_pending
create_pending_rollback now q r j free = grind (arith, string_laws)

-- A request that holds the lock of a room without an active grant becomes the active session: the
-- grant and the lock then live for thirty-one minutes, and no other entry changes.
pub activate_lem :
    (now : ℕ) (g : ActiveGrant) (r : Store) (j : Key)
    → holder now r g.room ≡ some g.session_id
    → entry now r (active_key g.room) ≡ none
    → ((activate now g r).0 ≡ true)
      × (entry now (activate now g r).1 j
          ≡ ite
              (Key-discrete (owner_key g.room) j)
              (some (record { value = text g.session_id; expires_at = some (now + 1_860_000) }))
              (ite
                (Key-discrete (active_key g.room) j)
                (some (record { value = active_json g; expires_at = some (now + 1_860_000) }))
                (entry now r j)))
unfolding activate
activate_lem now g r j held free = grind (arith, string_laws)

-- Activation is refused, and changes no entry, when another request holds the lock or nothing does,
-- and when the room already has an active grant.
pub activate_refused :
    (now : ℕ) (g : ActiveGrant) (r : Store) (j : Key)
    → (holder now r g.room ≢ some g.session_id) ⊎ (is_some (entry now r (active_key g.room)) ≡ true)
    → ((activate now g r).0 ≡ false) × (entry now (activate now g r).1 j ≡ entry now r j)
unfolding activate
activate_refused now g r j why = grind (arith, string_laws)

update_active_unlocked :
    (now : ℕ) (g : ActiveGrant) (r : Store)
    → entry now r (owner_key g.room) ≡ none
    → (update_active now g r).0 ≡ false
unfolding update_active
update_active_unlocked now g r gone = grind (arith, string_laws)

pub release_pending_unlocks :
    (now : ℕ) (room id : String) (r : Store)
    → HeldIn now room r
    → session now r room ≡ some id
    → entry now (release_pending now room id r).1 (owner_key room) ≡ none
release_pending_unlocks now room id r inv active =
    ground (arith, release_pending-owner now room id r room)

-- Giving up a request after it became the active session of its room, under the lock and with the
-- lock's deadline, takes the lock away and leaves the session: another request is then accepted
-- beside the active session, and the session cannot be updated any more.
pub release_pending_drops_lock :
    (now : ℕ) (room id : String) (q : PendingRequest) (g : ActiveGrant) (r : Store)
    → HeldIn now room r
    → session now r room ≡ some id
    → q.room ≡ room
    → g.room ≡ room
    → let r' = (release_pending now room id r).1 in
      (session now r' room ≡ some id)
      × (holder now r' room ≡ none)
      × ((create_pending now false q r').0 ≡ some true)
      × ((update_active now g r').0 ≡ false)
release_pending_drops_lock now room id q g r inv active same_room same_grant =
    let gone = release_pending_unlocks now room id r inv active in
    (
      rw (release_pending-active now room id r room) active,
      ap (λ o. as_text (value_of o)) gone,
      (create_pending_lem now q _ (owner_key room)).0 ∙ rw (same_room, gone),
      update_active_unlocked now g _ (rw same_grant gone),
    )
