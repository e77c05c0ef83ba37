-- ===== src/ControlState/Lock.antt =====
-- The room lock of remote-control.state.ts: one pending request or active session in a room.
use huddle.Prelude.{
  ℕ, ◌≡◌, ◌≢◌, String, Option, none, some, Bool, if◌then◌else◌, arith, ite, String-discrete,
}
use huddle.Records.{
  PendingRequest, ActiveGrant, Value, text, active_json, as_text, as_active, owner_key, active_key,
}
use huddle.Redis.{Store, Entry, value_of}
use huddle.Redis.Strings.{entry, string_laws}
use huddle.ControlState.{
  is_id, create_pending, consume_pending, release_pending, activate, update_active, clear_active,
  issue_bootstrap, consume_bootstrap, revoke_bootstrap,
}
use huddle.ControlState.History.{
  Call, creates, consumes, releases, clears, activates, updates, revokes, issues, redeems, call,
}

-- The holder of a room's lock.
abbrev pub holder : ℕ → Store → String → Option String
holder now r room = as_text (value_of (entry now r (owner_key room)))

abbrev pub session_of : Option ActiveGrant → Option String
session_of none = none
session_of (some g) = some g.session_id

-- An active grant is of its room, and its session holds the room's lock until the same deadline.
abbrev pub HeldBy : String → Value → Option ℕ → Option Entry → Type 0
HeldBy room (active_json g) at o =
    (g.room ≡ room) × (o ≡ some (record { value = text g.session_id; expires_at = at }))
HeldBy room _ at o = ⊥

abbrev pub Held : String → Option Entry → Option Entry → Type 0
Held room none o = Unit
Held room (some e) o = HeldBy room e.value e.expires_at o

abbrev pub IsLocked : ℕ → Store → Type 0
IsLocked now r =
    (room : String) → Held room (entry now r (active_key room)) (entry now r (owner_key room))

-- The room's lock and active grant, once a method has run.
abbrev pub HeldIn : ℕ → String → Store → Type 0
HeldIn now room r = Held room (entry now r (active_key room)) (entry now r (owner_key room))

-- The session of the active grant in a room.
abbrev pub session : ℕ → Store → String → Option String
session now r room = session_of (as_active (value_of (entry now r (active_key room))))

module _ (now : ℕ) (a id : String) (r : Store) where
  pub release_pending-active :
      (room : String)
      → entry now (release_pending now a id r).1 (active_key room) ≡ entry now r (active_key room)
  unfolding release_pending
  release_pending-active room = grind (arith, string_laws)

  pub release_pending-owner :
      (room : String)
      → entry now (release_pending now a id r).1 (owner_key room) ≡ (
          if is_id id (holder now r a)
          then ite (String-discrete a room) none (entry now r (owner_key room))
          else entry now r (owner_key room))
  unfolding release_pending
  release_pending-owner room = grind (arith, string_laws)

module _ (now : ℕ) (room : String) (r : Store) (inv : HeldIn now room r) where
  create_pending-Held :
      (fails : Bool) (q : PendingRequest) → HeldIn now room (create_pending now fails q r).1
  unfolding create_pending
  create_pending-Held fails q = grind (arith, string_laws)

  consume_pending-Held : (a id : String) → HeldIn now room (consume_pending now a id r).1
  unfolding consume_pending
  consume_pending-Held a id = grind (arith, string_laws)

  clear_active-Held : (a id : String) → HeldIn now room (clear_active now a id r).1
  unfolding clear_active
  clear_active-Held a id = grind (arith, string_laws)

  activate-Held : (g : ActiveGrant) → HeldIn now room (activate now g r).1
  unfolding activate
  activate-Held g = grind (arith, string_laws)

  update_active-Held : (g : ActiveGrant) → HeldIn now room (update_active now g r).1
  unfolding update_active
  update_active-Held g = grind (arith, string_laws)

  revoke_bootstrap-Held : (g : ActiveGrant) → HeldIn now room (revoke_bootstrap now g r).1
  unfolding revoke_bootstrap
  revoke_bootstrap-Held g = grind (arith, string_laws)

  release_pending-Held :
      (a id : String) → session now r a ≢ some id → HeldIn now room (release_pending now a id r).1
  release_pending-Held a id ne =
      grind (arith, release_pending-active now a id r room, release_pending-owner now a id r room)

module _ (digest : String → String) (now : ℕ) (room : String) (r : Store)
    (inv : HeldIn now room r) where
  issue_bootstrap-Held :
      (code : String) (g : ActiveGrant) → HeldIn now room (issue_bootstrap now digest code g r).1
  unfolding issue_bootstrap
  issue_bootstrap-Held code g = grind (arith, string_laws)

  consume_bootstrap-Held :
      (a id code : String) → HeldIn now room (consume_bootstrap now digest a id code r).1
  unfolding consume_bootstrap
  consume_bootstrap-Held a id code = grind (arith, string_laws)

-- Giving up a request that has become the active session is the one call that breaks the pairing.
abbrev pub IsFair : ℕ → Call → Store → Type 0
IsFair now (releases a id) r = session now r a ≢ some id
IsFair now _ r = Unit

-- Any call but one that gives up the request behind the active session keeps every active grant
-- under the lock of its room, with the deadline of the lock.
pub call-IsLocked :
    (digest : String → String) (now : ℕ) (c : Call) (r : Store)
    → IsFair now c r
    → IsLocked now r
    → IsLocked now (call digest now c r)
unfolding call
call-IsLocked digest now (creates fails q) r fair inv room =
    create_pending-Held now room r (inv room) fails q
call-IsLocked digest now (consumes a id) r fair inv room =
    consume_pending-Held now room r (inv room) a id
call-IsLocked digest now (releases a id) r fair inv room =
    release_pending-Held now room r (inv room) a id fair
call-IsLocked digest now (clears a id) r fair inv room =
    clear_active-Held now room r (inv room) a id
call-IsLocked digest now (activates g) r fair inv room = activate-Held now room r (inv room) g
call-IsLocked digest now (updates g) r fair inv room = update_active-Held now room r (inv room) g
call-IsLocked digest now (revokes g) r fair inv room = revoke_bootstrap-Held now room r (inv room) g
call-IsLocked digest now (issues code g) r fair inv room =
    issue_bootstrap-Held digest now room r (inv room) code g
call-IsLocked digest now (redeems a id code) r fair inv room =
    consume_bootstrap-Held digest now room r (inv room) a id code
