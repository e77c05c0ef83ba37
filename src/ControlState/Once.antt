-- ===== src/ControlState/Once.antt =====
-- What can be consumed once: a pending request, and a bootstrap code.
use huddle.Prelude.{
  ℕ, ◌+◌, ◌≤◌, ◌≡◌, ◌≢◌, String, none, some, ltb, if◌then◌else◌, is_some, arith, List, [], ◌∷◌,
  Bool, false, same, All, ite, String-discrete,
}
use huddle.Records.{
  PendingRequest, ActiveGrant, Key, bootstrap_json, as_pending, as_bootstrap, pending_key,
  bootstrap_key, Key-discrete,
}
use huddle.Redis.{Store, value_of}
use huddle.Redis.Strings.{entry, string_laws, entry_later}
use huddle.ControlState.{
  bootstrap_for, pending_for, is_id, create_pending, consume_pending, release_pending, activate,
  update_active, clear_active, issue_bootstrap, consume_bootstrap, revoke_bootstrap,
}
use huddle.ControlState.History.{
  Call, creates, consumes, releases, clears, activates, updates, revokes, issues, redeems, call,
  run,
}
use huddle.ControlState.Lock.{holder}

-- Consuming a request answers it exactly when the caller names the holder of the lock and the
-- pending record is of that request and room. It takes the pending record away when the caller
-- names the holder, and otherwise changes no entry.
pub consume_pending_lem :
    (now : ℕ) (room id : String) (r : Store) (j : Key)
    → let mine = is_id id (holder now r room) in
      ((consume_pending now room id r).0 ≡ (
        if mine
        then pending_for room id (as_pending (value_of (entry now r (pending_key room))))
        else none))
      × (entry now (consume_pending now room id r).1 j ≡ (
          if mine
          then ite (Key-discrete (pending_key room) j) none (entry now r j)
          else entry now r j))
unfolding consume_pending
consume_pending_lem now room id r j = grind (arith, string_laws)

-- The call asks for a new pending request of the room.
abbrev pub creates_in : String → Call → Bool
creates_in room (creates fails q) = same q.room room
creates_in room _ = false

module _ (digest : String → String) where
  call_quiet :
      (now : ℕ) (room : String) (c : Call) (r : Store)
      → creates_in room c ≡ false
      → entry now r (pending_key room) ≡ none
      → entry now (call digest now c r) (pending_key room) ≡ none
  unfolding call create_pending consume_pending release_pending clear_active activate update_active
      revoke_bootstrap issue_bootstrap consume_bootstrap
  call_quiet now room (creates fails q) r quiet gone = grind (arith, string_laws)
  call_quiet now room (consumes a i) r quiet gone = grind (arith, string_laws)
  call_quiet now room (releases a i) r quiet gone = grind (arith, string_laws)
  call_quiet now room (clears a i) r quiet gone = grind (arith, string_laws)
  call_quiet now room (activates g) r quiet gone = grind (arith, string_laws)
  call_quiet now room (updates g) r quiet gone = grind (arith, string_laws)
  call_quiet now room (revokes g) r quiet gone = grind (arith, string_laws)
  call_quiet now room (issues code g) r quiet gone = grind (arith, string_laws)
  call_quiet now room (redeems a i code) r quiet gone = grind (arith, string_laws)

  run_quiet :
      (now : ℕ) (room : String) (cs : List (ℕ × Call)) (r : Store)
      → All (λ (step : ℕ × Call). creates_in room step.1 ≡ false) cs
      → entry now r (pending_key room) ≡ none
      → entry (run digest now cs r).0 (run digest now cs r).1 (pending_key room) ≡ none
  unfolding run
  run_quiet now room [] r quiet gone = gone
  run_quiet now room ((wait, c) ∷ cs) r (q, quiet) gone =
      run_quiet (now + wait) room cs (call digest (now + wait) c r) quiet (
        call_quiet (now + wait) room c r q
          (ground (arith, gone, entry_later now (now + wait) r (pending_key room) (omega arith))))

  -- Of two calls that consume a pending request of a room, the second gets nothing, whichever request
  -- it names and whatever calls come between the two, as long as none of those asks for a new request
  -- of the room.
  pub consume_pending_once :
      (now wait : ℕ) (room id id' : String) (p : PendingRequest) (cs : List (ℕ × Call)) (r : Store)
      → (consume_pending now room id r).0 ≡ some p
      → All (λ (step : ℕ × Call). creates_in room step.1 ≡ false) cs
      → let (later, r') = run digest now cs (consume_pending now room id r).1 in
        (consume_pending (later + wait) room id' r').0 ≡ none
  consume_pending_once now wait room id id' p cs r got quiet =
      let r1 = (consume_pending now room id r).1 in
      let (later, r') = run digest now cs r1 in
      let gone : entry now r1 (pending_key room) ≡ none =
        ground (arith, got, consume_pending_lem now room id r (pending_key room)) in
      let still : entry later r' (pending_key room) ≡ none = run_quiet now room cs r1 quiet gone in
      ground (
        arith,
        still,
        consume_pending_lem (later + wait) room id' r' (pending_key room),
        entry_later later (later + wait) r' (pending_key room) (omega arith),
      )

  consume_bootstrap_lem :
      (now : ℕ) (room id code : String) (r : Store) (j : Key)
      → ((consume_bootstrap now digest room id code r).0
          ≡ bootstrap_for
              (digest code)
              room
              id
              (as_bootstrap (value_of (entry now r (bootstrap_key (digest code))))))
        × (entry now (consume_bootstrap now digest room id code r).1 j
            ≡ ite (Key-discrete (bootstrap_key (digest code)) j) none (entry now r j))
  unfolding consume_bootstrap
  consume_bootstrap_lem now room id code r j = grind (arith, string_laws)

  issue_bootstrap-entry :
      (now : ℕ) (code d : String) (g : ActiveGrant) (r : Store)
      → entry now (issue_bootstrap now digest code g r).1 (bootstrap_key d)
        ≡ ite
            (String-discrete (digest code) d)
            (if is_some (issue_bootstrap now digest code g r).0
              then some (record {
                value = bootstrap_json (record {
                  room = g.room;
                  session_id = g.session_id;
                  digest = digest code;
                  expires_at = now + 120_000;
                });
                expires_at = some (now + 120_000);
              })
              else none)
            (if is_id d g.bootstrap_digest then none else entry now r (bootstrap_key d))
  unfolding issue_bootstrap
  issue_bootstrap-entry now code d g r = grind (arith, string_laws)

  -- A bootstrap code is redeemed at most once, whenever the second attempt comes and whatever room
  -- and session it names.
  pub consume_bootstrap_once :
      (now later : ℕ) (room room' id id' code : String) (r : Store)
      → now ≤ later
      → (consume_bootstrap later digest room' id' code
          (consume_bootstrap now digest room id code r).1).0
        ≡ none
  consume_bootstrap_once now later room room' id id' code r h =
      let k = bootstrap_key (digest code) in
      let r' = (consume_bootstrap now digest room id code r).1 in
      ground (
        arith,
        consume_bootstrap_lem now room id code r k,
        consume_bootstrap_lem later room' id' code r' k,
        entry_later now later r' k h,
      )

  -- A code issued for an active grant, when the next call on the store is the one that redeems it, is
  -- redeemed by the session of the grant until two minutes have passed, and not after that.
  pub consume-issue_bootstrap :
      (now later : ℕ) (code : String) (g : ActiveGrant) (r : Store)
      → now ≤ later
      → (issue_bootstrap now digest code g r).0 ≡ some (code, now + 120_000)
      → (consume_bootstrap later digest g.room g.session_id code
          (issue_bootstrap now digest code g r).1).0
        ≡ (if ltb later (now + 120_000)
            then some (record {
              room = g.room;
              session_id = g.session_id;
              digest = digest code;
              expires_at = now + 120_000;
            })
            else none)
  consume-issue_bootstrap now later code g r h got =
      let k = bootstrap_key (digest code) in
      let r' = (issue_bootstrap now digest code g r).1 in
      ground (
        arith,
        consume_bootstrap_lem later g.room g.session_id code r' k,
        issue_bootstrap-entry now code (digest code) g r,
        entry_later now later r' k h,
      )

  -- Reissuing takes back the code that the grant names.
  pub issue_bootstrap_replaces :
      (now : ℕ) (old new : String) (g : ActiveGrant) (r : Store) (room id : String)
      → g.bootstrap_digest ≡ some (digest old)
      → digest old ≢ digest new
      → (consume_bootstrap now digest room id old (issue_bootstrap now digest new g r).1).0 ≡ none
  issue_bootstrap_replaces now old new g r room id e ne = ground (
    arith,
    consume_bootstrap_lem now room id old (issue_bootstrap now digest new g r).1
        (bootstrap_key (digest old)),
    issue_bootstrap-entry now new (digest old) g r,
  )
