-- ===== src/ControlState/History.antt =====
-- The methods of remote-control.state.ts that change the store, as calls that clients make in any
-- order, and the history of a store as a list of calls with their instants.
use huddle.Prelude.{ℕ, ◌+◌, String, Bool, List, [], ◌∷◌}
use huddle.Records.{PendingRequest, ActiveGrant}
use huddle.Redis.{Store}
use huddle.ControlState.{
  create_pending, consume_pending, release_pending, activate, update_active, clear_active,
  issue_bootstrap, consume_bootstrap, revoke_bootstrap,
}

pub data Call : Type 0 where
  creates : Bool → PendingRequest → Call
  consumes releases clears : String → String → Call
  activates updates revokes : ActiveGrant → Call
  issues : String → ActiveGrant → Call
  redeems : String → String → String → Call

-- The request or session that the caller names. The id of a request becomes that of its session.
abbrev pub named : Call → String
named (creates fails q) = q.request_id
named (consumes room id) = id
named (releases room id) = id
named (clears room id) = id
named (activates g) = g.session_id
named (updates g) = g.session_id
named (revokes g) = g.session_id
named (issues code g) = g.session_id
named (redeems room id code) = id

module _ (digest : String → String) where
  unfoldable pub call : ℕ → Call → Store → Store
  call now (creates fails q) r = (create_pending now fails q r).1
  call now (consumes room id) r = (consume_pending now room id r).1
  call now (releases room id) r = (release_pending now room id r).1
  call now (clears room id) r = (clear_active now room id r).1
  call now (activates g) r = (activate now g r).1
  call now (updates g) r = (update_active now g r).1
  call now (revokes g) r = (revoke_bootstrap now g r).1
  call now (issues code g) r = (issue_bootstrap now digest code g r).1
  call now (redeems room id code) r = (consume_bootstrap now digest room id code r).1

  -- Each call comes `wait` milliseconds after the one before it.
  unfoldable pub run : ℕ → List (ℕ × Call) → Store → ℕ × Store
  unfolding call
  run now [] r = (now, r)
  run now ((wait, c) ∷ cs) r = run (now + wait) cs (call (now + wait) c r)
