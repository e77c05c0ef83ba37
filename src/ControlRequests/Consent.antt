-- ===== src/ControlRequests/Consent.antt =====
-- What an approval has established.
use huddle.Prelude.{ℕ, ◌<◌, ◌≡◌, ◌≢◌, ◌⊎◌, String, Option, some, Bool, true, false, not, arith}
use huddle.Records.{PendingRequest}
use huddle.ControlState.{has_owner, get_pending}
use huddle.ControlRepo.{Sessions}
use huddle.Fault.{ok, err}
use huddle.ControlWorld.{
  Environment, World, CallParticipant, ConnectedParticipant, not_found, not_allowed,
  is_request_expired, SessionSummary, RequestSummary,
}
use huddle.ControlSteps.{
  expire_pending, require_pending, require_room, connected_participant, presentation_active,
  require_protocol_version,
}
use huddle.ControlRequests.{approve, request_control, get_request, deny, withdraw}

-- A connected participant who is no Control Agent.
abbrev pub is_person : Option (Option ConnectedParticipant) → Bool
is_person (some (some c)) = not c.is_control_agent
is_person _ = false

module _ (db : Sessions) (env : Environment) where
  -- A request that is pending is found until it expires.
  require_pending_found :
      (room id : String) (q : PendingRequest) (w : World db.Table)
      → (get_pending w.now room id w.redis).0 ≡ some q
      → ((is_request_expired q w.now ≡ true)
          × ((require_pending db env room id w).0 ≡ err not_found))
        ⊎ ((is_request_expired q w.now ≡ false)
            × (require_pending db env room id w
                ≡ (ok q, record w { redis = (get_pending w.now room id w.redis).1 })))
  unfolding require_pending expire_pending
  require_pending_found room id q w pending = ground arith

  -- An approval that succeeds was made with protocol version 2 by the Sharer whom the pending
  -- request names, before the request expired, while both people were connected, neither was a
  -- Control Agent and nobody was presenting.
  pub approve_sound :
      (code slug id : String) (p : CallParticipant) (version : ℕ) (q : PendingRequest)
      (w : World db.Table) {granted : SessionSummary × String × ℕ}
      → (get_pending w.now slug id w.redis).0 ≡ some q
      → (approve db env code slug id p version w).0 ≡ ok granted
      → (version ≡ 2)
        × (p.identity ≡ q.sharer_identity)
        × (w.now < q.expires_at)
        × (env.screen_share w.livekit slug ≡ some false)
        × (is_person (env.connected w.livekit slug q.controller_identity) ≡ true)
        × (is_person (env.connected w.livekit slug q.sharer_identity) ≡ true)
  unfolding approve require_protocol_version require_room connected_participant presentation_active
  approve_sound code slug id p version q w pending done =
      ground (arith, require_pending_found slug id q w pending)

  request_needs_room :
      (slug sharer : String) (p : CallParticipant) (version : ℕ) (w : World db.Table)
      {shown : RequestSummary}
      → (request_control db env slug p sharer version w).0 ≡ ok shown
      → (version ≡ 2) × (p.identity ≢ sharer) × ((has_owner w.now slug w.redis).0 ≡ false)
  unfolding request_control require_protocol_version require_room
  request_needs_room slug sharer p version w done = ground arith

  request_needs_people :
      (slug sharer : String) (p : CallParticipant) (version : ℕ) (w : World db.Table)
      {shown : RequestSummary}
      → (request_control db env slug p sharer version w).0 ≡ ok shown
      → (env.screen_share w.livekit slug ≡ some false)
        × (is_person (env.connected w.livekit slug p.identity) ≡ true)
        × (is_person (env.connected w.livekit slug sharer) ≡ true)
  unfolding request_control require_protocol_version require_room connected_participant
      presentation_active
  request_needs_people slug sharer p version w done = ground arith

  -- A request for control that succeeds was made with protocol version 2, not for oneself, in a room
  -- that nothing held, while both people were connected, neither was a Control Agent and nobody was
  -- presenting.
  pub request_control_sound :
      (slug sharer : String) (p : CallParticipant) (version : ℕ) (w : World db.Table)
      {shown : RequestSummary}
      → (request_control db env slug p sharer version w).0 ≡ ok shown
      → (version ≡ 2)
        × (p.identity ≢ sharer)
        × ((has_owner w.now slug w.redis).0 ≡ false)
        × (env.screen_share w.livekit slug ≡ some false)
        × (is_person (env.connected w.livekit slug p.identity) ≡ true)
        × (is_person (env.connected w.livekit slug sharer) ≡ true)
  request_control_sound slug sharer p version w done =
      let (protocol, other, free) = request_needs_room slug sharer p version w done in
      let (quiet, controller, person) = request_needs_people slug sharer p version w done in
      (protocol, other, free, quiet, controller, person)

  -- Somebody who is neither the Sharer nor the Controller of a pending request is not allowed to
  -- read, deny or withdraw it, and nothing but the look-up happens.
  pub bystander_refused :
      (slug id : String) (p : CallParticipant) (q : PendingRequest) (w : World db.Table)
      → (get_pending w.now slug id w.redis).0 ≡ some q
      → w.now < q.expires_at
      → p.identity ≢ q.sharer_identity
      → p.identity ≢ q.controller_identity
      → let w' = record w { redis = (get_pending w.now slug id w.redis).1 } in
        (get_request db env slug id p w ≡ (err not_allowed, w'))
        × (deny db env slug id p w ≡ (err not_allowed, w'))
        × (withdraw db env slug id p w ≡ (err not_allowed, w'))
  unfolding get_request deny withdraw
  bystander_refused slug id p q w pending fresh no_sharer no_controller =
      ground (arith, require_pending_found slug id q w pending)
