-- ===== src/ControlState.antt =====
-- apps/api/src/rooms/remote-control.state.ts: the Remote Control lock, grant and bootstrap codes
-- of a room, in Redis. `now` is `Date.now()`, and stands still during one method.
pub mod Lock
pub mod Once
pub mod Holder
pub mod History
use huddle.Prelude.{
  ℕ, ◌+◌, ◌*◌, ◌/◌, String, Option, none, some, List, [], ◌∷◌, Bool, true, false, not, ◌&&◌,
  if◌then◌else◌, is_some, same,
}
use huddle.Records.{
  PendingRequest, ActiveGrant, BootstrapGrant, Value, text, pending_json, active_json,
  bootstrap_json, as_text, as_pending, as_active, as_bootstrap, owner_key, pending_key, active_key,
  bootstrap_key,
}
use huddle.Redis
use huddle.Redis.{always, nx, xx}
use huddle.Act.{Act, pure, ◌>>=◌, ◌>>◌, when}

abbrev pub request_ttl_ms : ℕ
request_ttl_ms = 30_000

abbrev pub renewal_ms : ℕ
renewal_ms = 30 * 60_000

abbrev pub bootstrap_ttl_ms : ℕ
bootstrap_ttl_ms = 2 * 60_000

abbrev pub active_storage_ttl_seconds : ℕ
active_storage_ttl_seconds = 31 * 60

-- `Math.ceil(ms / 1000)`
abbrev pub ceil_seconds : ℕ → ℕ
ceil_seconds ms = (ms + 999) / 1000

-- `text === id`, where the text may be null.
abbrev pub is_id : String → Option String → Bool
is_id id none = false
is_id id (some s) = same s id

-- The tests on what was read: a record of another request, session or room counts as absent.
abbrev pub pending_for : String → String → Option PendingRequest → Option PendingRequest
pending_for room id none = none
pending_for room id (some p) = if same p.request_id id && same p.room room then some p else none

abbrev pub pending_in : String → Option PendingRequest → Option PendingRequest
pending_in room none = none
pending_in room (some p) = if same p.room room then some p else none

abbrev pub active_in : String → Option ActiveGrant → Option ActiveGrant
active_in room none = none
active_in room (some g) = if same g.room room then some g else none

abbrev pub is_session : String → Option ActiveGrant → Bool
is_session id none = false
is_session id (some g) = same g.session_id id

abbrev pub bootstrap_for : String → String → String → Option BootstrapGrant → Option BootstrapGrant
bootstrap_for digest room id none = none
bootstrap_for digest room id (some b) =
    if same b.digest digest && (same b.room room && same b.session_id id) then some b else none

module _ (now : ℕ) where
  unfoldable pub has_owner : String → Act Bool
  has_owner room = do owner ← Redis.get now (owner_key room); pure (is_some owner)

  unfoldable pub release_owner : String → String → Act (Unit {0})
  release_owner room expected_id = do
    owner ← Redis.get now (owner_key room)
    when (is_id expected_id (as_text owner)) (Redis.del (owner_key room ∷ []))

  -- `write_fails` says whether the client rejects the second SET; the method then releases the
  -- lock and throws, which is the result `none`.
  unfoldable pub create_pending : Bool → PendingRequest → Act (Option Bool)
  unfolding release_owner
  create_pending write_fails request = do
    owner ←
        Redis.set now (owner_key request.room) (text request.request_id)
          (some (ceil_seconds request_ttl_ms)) nx
    if not owner
        then pure (some false)
        else (if write_fails
            then (do release_owner request.room request.request_id; pure none)
            else (do
              Redis.set now (pending_key request.room) (pending_json request)
                  (some (ceil_seconds request_ttl_ms)) always
              pure (some true)))

  unfoldable pub get_pending : String → String → Act (Option PendingRequest)
  get_pending room request_id = do
    raw ← Redis.get now (pending_key room)
    pure (pending_for room request_id (as_pending raw))

  unfoldable pub get_pending_for_room : String → Act (Option PendingRequest)
  get_pending_for_room room = do
    raw ← Redis.get now (pending_key room)
    pure (pending_in room (as_pending raw))

  unfoldable pub consume_pending : String → String → Act (Option PendingRequest)
  consume_pending room request_id = do
    owner ← Redis.get now (owner_key room)
    if not (is_id request_id (as_text owner)) then pure none else do
      raw ← Redis.getdel now (pending_key room)
      pure (pending_for room request_id (as_pending raw))

  unfoldable pub release_pending : String → String → Act (Unit {0})
  unfolding get_pending release_owner
  release_pending room request_id = do
    pending ← get_pending room request_id
    when (is_some pending) (Redis.del (pending_key room ∷ []))
    release_owner room request_id

  unfoldable pub activate : ActiveGrant → Act Bool
  activate grant = do
    owner ← Redis.get now (owner_key grant.room)
    if not (is_id grant.session_id (as_text owner)) then pure false else do
      active ←
          Redis.set now (active_key grant.room) (active_json grant)
            (some active_storage_ttl_seconds) nx
      if not active then pure false else do
        extended_owner ←
            Redis.set now (owner_key grant.room) (text grant.session_id)
              (some active_storage_ttl_seconds) xx
        if not extended_owner
            then (do Redis.del (active_key grant.room ∷ []); pure false)
            else pure true

  unfoldable pub get_active : String → Act (Option ActiveGrant)
  get_active room = do raw ← Redis.get now (active_key room); pure (active_in room (as_active raw))

  unfoldable pub update_active : ActiveGrant → Act Bool
  unfolding get_active
  update_active grant = do
    current ← get_active grant.room
    if not (is_session grant.session_id current) then pure false else do
      active ←
          Redis.set now (active_key grant.room) (active_json grant)
            (some active_storage_ttl_seconds) xx
      owner ←
          Redis.set now (owner_key grant.room) (text grant.session_id)
            (some active_storage_ttl_seconds) xx
      pure (active && owner)

  unfoldable pub clear_active : String → String → Act Bool
  unfolding get_active release_owner
  clear_active room session_id = do
    current ← get_active room
    if not (is_session session_id current)
        then pure false
        else do Redis.del (active_key room ∷ []); release_owner room session_id; pure true

  revoke_digest : Option String → Act (Unit {0})
  revoke_digest none = pure tt
  revoke_digest (some d) = do Redis.del (bootstrap_key d ∷ []); pure tt

  unfoldable pub revoke_bootstrap : ActiveGrant → Act (Unit {0})
  unfolding revoke_digest
  revoke_bootstrap grant = revoke_digest grant.bootstrap_digest

  -- `digest` is the SHA-256 of node:crypto and `code` the fresh random code. The result `none` is
  -- the error that the method throws.
  module _ (digest : String → String) where
    unfoldable pub issue_bootstrap : String → ActiveGrant → Act (Option (String × ℕ))
    unfolding revoke_bootstrap update_active
    issue_bootstrap code grant = do
      revoke_bootstrap grant
      let expires_at = now + bootstrap_ttl_ms
      Redis.set now (bootstrap_key (digest code))
          (bootstrap_json (record {
            room = grant.room;
            session_id = grant.session_id;
            digest = digest code;
            expires_at = expires_at;
          }))
          (some (ceil_seconds bootstrap_ttl_ms)) always
      updated ← update_active (record grant { bootstrap_digest = some (digest code) })
      if not updated
          then (do Redis.del (bootstrap_key (digest code) ∷ []); pure none)
          else pure (some (code, expires_at))

    unfoldable pub consume_bootstrap : String → String → String → Act (Option BootstrapGrant)
    consume_bootstrap room session_id code = do
      raw ← Redis.getdel now (bootstrap_key (digest code))
      pure (bootstrap_for (digest code) room session_id (as_bootstrap raw))
