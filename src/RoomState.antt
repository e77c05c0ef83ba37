-- ===== src/RoomState.antt =====
-- apps/api/src/rooms/rooms.state.ts: waiting-room knocks and Direct Rejoin Grants of a room, in
-- Redis. `now` is `Date.now()`, and stands still during one method; the ids
-- of `randomUUID()` are arguments.
pub mod Knocks
pub mod Waiting
pub mod Rejoin
pub mod Clearing
use huddle.Prelude.{
  ℕ, ◌*◌, String, Option, none, some, List, [], ◌∷◌, map, Bool, true, false, not, ◌&&◌, ◌||◌,
  if◌then◌else◌, is_some, same, keep,
}
use huddle.Records.{
  KnockStatus, Knock, DirectRejoinGrant, RecordingShareConsent, Key, Value, text, knock_json,
  rejoin_json, consent_json, as_text, as_knock, as_rejoin, as_consent, knock_key, index_key,
  direct_rejoin_key, direct_rejoin_identity_key, direct_rejoin_index_key, consent_key,
  consent_identity_key, consent_index_key,
}
use huddle.Redis
use huddle.Redis.{always}
use huddle.Act.{Act, pure, ◌>>=◌, ◌>>◌, when}

abbrev pub knock_ttl_seconds : ℕ
knock_ttl_seconds = 60 * 60

-- `for (const x of xs) await body(x);`
unfoldable pub for_each {ℓ} : {A : Type ℓ} → (A → Act (Unit {0})) → List A → Act (Unit {0})
for_each body [] = pure tt
for_each body (x ∷ xs) = do body x; for_each body xs

abbrev pub is_empty {ℓ} : {A : Type ℓ} → List A → Bool
is_empty [] = true
is_empty (x ∷ xs) = false

abbrev pub is_pending : KnockStatus → Bool
is_pending KnockStatus.pending = true
is_pending _ = false

-- `text === id`, where the text may be absent.
abbrev pub is_user : String → Option String → Bool
is_user id none = false
is_user id (some s) = same s id

abbrev pub knock_in : String → Option Knock → Option Knock
knock_in room none = none
knock_in room (some k) = if same k.room room then some k else none

-- The loop of `listPendingKnocks`: the pending knocks, and the ids whose knock has expired.
abbrev pub pending_knocks : List (Option Value) → List Knock
pending_knocks [] = []
pending_knocks (some (knock_json k) ∷ raws) =
    let rest = pending_knocks raws in if is_pending k.status then k ∷ rest else rest
pending_knocks (_ ∷ raws) = pending_knocks raws

abbrev pub expired_ids : List String → List (Option Value) → List String
expired_ids (id ∷ ids) (none ∷ raws) = id ∷ expired_ids ids raws
expired_ids (id ∷ ids) (some v ∷ raws) = expired_ids ids raws
expired_ids _ _ = []

abbrev pub rejoin_for : String → String → Option DirectRejoinGrant → Option DirectRejoinGrant
rejoin_for room user_id none = none
rejoin_for room user_id (some g) =
    if same g.room room && same g.user_id user_id then some g else none

abbrev pub with_identity : String → Option DirectRejoinGrant → Option DirectRejoinGrant
with_identity identity none = none
with_identity identity (some g) = if same g.identity identity then some g else none

abbrev pub is_grant : String → Option DirectRejoinGrant → Bool
is_grant grant_id none = false
is_grant grant_id (some g) = same g.grant_id grant_id

-- The grants among the raw values that belong to a LiveKit room instance.
abbrev pub grants_of : String → List (Option Value) → List DirectRejoinGrant
grants_of room_sid [] = []
grants_of room_sid (some (rejoin_json g) ∷ raws) =
    let rest = grants_of room_sid raws in if same g.room_sid room_sid then g ∷ rest else rest
grants_of room_sid (_ ∷ raws) = grants_of room_sid raws

module _ (now : ℕ) where
  unfoldable pub write_knock : Knock → Act (Unit {0})
  write_knock k = do
    Redis.set now (knock_key k.room k.knock_id) (knock_json k) (some knock_ttl_seconds) always
    pure tt

  unfoldable pub add_knock : String → String → String → Option String → Option String → Act Knock
  unfolding write_knock
  add_knock id room name image user_id = do
    let knock : Knock = record {
      knock_id = id;
      room = room;
      name = name;
      user_id = user_id;
      image = image;
      status = KnockStatus.pending;
      requested_at = now;
      identity = none;
      token = none;
    }
    write_knock knock
    Redis.sadd now (index_key room) (id ∷ [])
    Redis.expire now (index_key room) knock_ttl_seconds
    pure knock

  unfoldable pub get_knock : String → String → Act (Option Knock)
  get_knock room id = do
    raw ← Redis.get now (knock_key room id)
    pure (knock_in room (as_knock raw))

  unfoldable pub list_pending_knocks : String → Act (List Knock)
  list_pending_knocks room = do
    ids ← Redis.smembers now (index_key room)
    if is_empty ids then pure [] else (do
      raws ← Redis.mget now (map (knock_key room) ids)
      let expired = expired_ids ids raws
      when (not (is_empty expired)) (Redis.srem now (index_key room) expired)
      pure (pending_knocks raws))

  unfoldable pub remove_knock : String → String → Act (Unit {0})
  remove_knock room id = do
    Redis.del (knock_key room id ∷ [])
    Redis.srem now (index_key room) (id ∷ [])
    pure tt

  unfoldable pub update_pending_knocks_for_user :
      String → String → String → Option String → Act (Unit {0})
  unfolding list_pending_knocks write_knock
  update_pending_knocks_for_user room user_id name image = do
    knocks ← list_pending_knocks room
    for_each
        (λ k.
          when (is_user user_id k.user_id) (write_knock (record k { name = name; image = image })))
        knocks

  unfoldable pub remove_pending_knocks_for_user : String → String → Act (Unit {0})
  unfolding list_pending_knocks remove_knock
  remove_pending_knocks_for_user room user_id = do
    knocks ← list_pending_knocks room
    for_each (λ k. when (is_user user_id k.user_id) (remove_knock room k.knock_id)) knocks

  -- The method changes the caller's object, which is the result here.
  unfoldable pub resolve_knock : Knock → KnockStatus → Option (String × String) → Act Knock
  unfolding write_knock
  resolve_knock k status none = do
    let knock = record k { status = status }
    write_knock knock
    pure knock
  resolve_knock k status (some (identity, token)) = do
    let knock = record k { status = status; identity = some identity; token = some token }
    write_knock knock
    pure knock

  unfoldable pub clear_knocks : String → Act (Unit {0})
  clear_knocks room = do
    ids ← Redis.smembers now (index_key room)
    when (not (is_empty ids)) (Redis.del (map (knock_key room) ids))
    Redis.del (index_key room ∷ [])
    pure tt

  unfoldable pub get_direct_rejoin_grant : String → String → Act (Option DirectRejoinGrant)
  get_direct_rejoin_grant room user_id = do
    raw ← Redis.get now (direct_rejoin_key room user_id)
    pure (rejoin_for room user_id (as_rejoin raw))

  drop_identity : String → Option DirectRejoinGrant → Act (Unit {0})
  drop_identity room none = pure tt
  drop_identity room (some previous) = do
    Redis.del (direct_rejoin_identity_key room previous.identity ∷ [])
    pure tt

  unfoldable pub add_direct_rejoin_grant :
      String → String → String → String → String → Act DirectRejoinGrant
  unfolding get_direct_rejoin_grant drop_identity
  add_direct_rejoin_grant grant_id room room_sid user_id identity = do
    previous ← get_direct_rejoin_grant room user_id
    drop_identity room previous
    let grant : DirectRejoinGrant = record {
      grant_id = grant_id;
      room = room;
      room_sid = room_sid;
      user_id = user_id;
      identity = identity;
      created_at = now;
    }
    Redis.set now (direct_rejoin_key room user_id) (rejoin_json grant) none always
    Redis.set now (direct_rejoin_identity_key room identity) (text user_id) none always
    Redis.sadd now (direct_rejoin_index_key room) (user_id ∷ [])
    pure grant

  -- An empty user id is falsy.
  grant_of_user : String → String → Option String → Act (Option DirectRejoinGrant)
  unfolding get_direct_rejoin_grant
  grant_of_user room identity none = pure none
  grant_of_user room identity (some user_id) =
      if same user_id ""
      then pure none
      else (do grant ← get_direct_rejoin_grant room user_id; pure (with_identity identity grant))

  unfoldable pub get_direct_rejoin_grant_by_identity :
      String → String → Act (Option DirectRejoinGrant)
  unfolding grant_of_user
  get_direct_rejoin_grant_by_identity room identity = do
    user_id ← Redis.get now (direct_rejoin_identity_key room identity)
    grant_of_user room identity (as_text user_id)

  unfoldable pub remove_direct_rejoin_grant : DirectRejoinGrant → Act (Unit {0})
  unfolding get_direct_rejoin_grant
  remove_direct_rejoin_grant g = do
    current ← get_direct_rejoin_grant g.room g.user_id
    when (is_grant g.grant_id current) (do
      Redis.del
          (direct_rejoin_key g.room g.user_id ∷ direct_rejoin_identity_key g.room g.identity ∷ [])
      Redis.srem now (direct_rejoin_index_key g.room) (g.user_id ∷ []))

  revoke_found : Option DirectRejoinGrant → Act (Option DirectRejoinGrant)
  revoke_found none = pure none
  revoke_found (some g) = do remove_direct_rejoin_grant g; pure (some g)

  unfoldable pub revoke_direct_rejoin_grant_by_identity :
      String → String → Act (Option DirectRejoinGrant)
  unfolding revoke_found
  revoke_direct_rejoin_grant_by_identity room identity = do
    grant ← get_direct_rejoin_grant_by_identity room identity
    revoke_found grant

  -- The removals run one after the other here.
  unfoldable pub clear_direct_rejoin_grants : String → String → Act (Unit {0})
  clear_direct_rejoin_grants room room_sid = do
    user_ids ← Redis.smembers now (direct_rejoin_index_key room)
    if is_empty user_ids then pure tt else (do
      raws ← Redis.mget now (map (direct_rejoin_key room) user_ids)
      for_each remove_direct_rejoin_grant (grants_of room_sid raws))
