-- ===== src/ShareConsents.antt =====
-- The Recording Share Consents of apps/api/src/rooms/rooms.state.ts, in Redis. `now` is `Date.now()`, and
-- stands still during one method.
use huddle.Prelude.{ℕ, String, Option, none, some, List, [], ◌∷◌, not, ◌&&◌, if◌then◌else◌, same}
use huddle.Records.{
  RecordingShareConsent, Key, text, consent_json, as_text, as_consent, consent_key,
  consent_identity_key, consent_index_key,
}
use huddle.Redis
use huddle.Redis.{always}
use huddle.Act.{Act, pure, ◌>>=◌, ◌>>◌, when}
use huddle.RoomState.{is_empty}

abbrev pub consent_for :
    String → String → String → Option RecordingShareConsent → Option RecordingShareConsent
consent_for room room_sid user_id none = none
consent_for room room_sid user_id (some c) =
    if same c.room room && (same c.room_sid room_sid && same c.user_id user_id)
    then some c
    else none

abbrev pub consent_with_identity :
    String → Option RecordingShareConsent → Option RecordingShareConsent
consent_with_identity identity none = none
consent_with_identity identity (some c) = if same c.identity identity then some c else none

-- The consents that are there, and the keys of a list of consents.
abbrev pub present :
    Option RecordingShareConsent → List RecordingShareConsent → List RecordingShareConsent
present none consents = consents
present (some c) consents = c ∷ consents

abbrev pub consent_keys : String → String → List RecordingShareConsent → List Key
consent_keys room room_sid [] = []
consent_keys room room_sid (c ∷ cs) =
    consent_key room room_sid c.user_id
    ∷ consent_identity_key room room_sid c.identity
    ∷ consent_keys room room_sid cs

module _ (now : ℕ) where
  unfoldable pub get_recording_share_consent :
      String → String → String → Act (Option RecordingShareConsent)
  get_recording_share_consent room room_sid user_id = do
    raw ← Redis.get now (consent_key room room_sid user_id)
    pure (consent_for room room_sid user_id (as_consent raw))

  drop_consent_identity : String → String → String → Option RecordingShareConsent → Act (Unit {0})
  drop_consent_identity room room_sid identity none = pure tt
  drop_consent_identity room room_sid identity (some previous) =
      when (not (same previous.identity identity))
        (Redis.del (consent_identity_key room room_sid previous.identity ∷ []))

  -- The time in the argument is replaced.
  unfoldable pub add_recording_share_consent : RecordingShareConsent → Act RecordingShareConsent
  unfolding get_recording_share_consent drop_consent_identity
  add_recording_share_consent params = do
    previous ← get_recording_share_consent params.room params.room_sid params.user_id
    drop_consent_identity params.room params.room_sid params.identity previous
    let consent = record params { consented_at = now }
    Redis.set now (consent_key params.room params.room_sid params.user_id) (consent_json consent)
        none always
    Redis.set now (consent_identity_key params.room params.room_sid params.identity)
        (text params.user_id) none always
    Redis.sadd now (consent_index_key params.room params.room_sid) (params.user_id ∷ [])
    pure consent

  consent_of_user : String → String → String → Option String → Act (Option RecordingShareConsent)
  unfolding get_recording_share_consent
  consent_of_user room room_sid identity none = pure none
  consent_of_user room room_sid identity (some user_id) = if same user_id "" then pure none else (do
    consent ← get_recording_share_consent room room_sid user_id
    pure (consent_with_identity identity consent))

  unfoldable pub get_recording_share_consent_by_identity :
      String → String → String → Act (Option RecordingShareConsent)
  unfolding consent_of_user
  get_recording_share_consent_by_identity room room_sid identity = do
    user_id ← Redis.get now (consent_identity_key room room_sid identity)
    consent_of_user room room_sid identity (as_text user_id)

  consents_of_users : String → String → List String → Act (List RecordingShareConsent)
  unfolding get_recording_share_consent
  consents_of_users room room_sid [] = pure []
  consents_of_users room room_sid (user_id ∷ user_ids) = do
    consent ← get_recording_share_consent room room_sid user_id
    consents ← consents_of_users room room_sid user_ids
    pure (present consent consents)

  unfoldable pub list_recording_share_consents : String → String → Act (List RecordingShareConsent)
  unfolding consents_of_users
  list_recording_share_consents room room_sid = do
    user_ids ← Redis.smembers now (consent_index_key room room_sid)
    if is_empty user_ids then pure [] else consents_of_users room room_sid user_ids

  unfoldable pub clear_recording_share_consents : String → String → Act (Unit {0})
  unfolding list_recording_share_consents
  clear_recording_share_consents room room_sid = do
    consents ← list_recording_share_consents room room_sid
    let keys = consent_keys room room_sid consents
    when (not (is_empty keys)) (Redis.del keys)
    Redis.del (consent_index_key room room_sid ∷ [])
    pure tt
