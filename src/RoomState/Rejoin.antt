-- ===== src/RoomState/Rejoin.antt =====
-- Direct Rejoin Grants: who may come back to a call without knocking, and until when.
use huddle.Prelude.{
  ◌∙◌, ℕ, ◌≡◌, ◌≢◌, refl, String, Option, none, some, Bool, true, false, ◌&&◌, if◌then◌else◌, same,
  arith, ite,
}
use huddle.Records.{
  DirectRejoinGrant, Key, text, Key-discrete, rejoin_json, as_rejoin, as_text, direct_rejoin_key,
  direct_rejoin_identity_key,
}
use huddle.Redis.{Store, value_of}
use huddle.Redis.Strings.{entry, string_laws}
use huddle.RoomState.{
  rejoin_for, with_identity, is_grant, get_direct_rejoin_grant, add_direct_rejoin_grant,
  get_direct_rejoin_grant_by_identity, remove_direct_rejoin_grant,
  revoke_direct_rejoin_grant_by_identity,
}

-- The grant that a user holds in a room.
abbrev pub held : ℕ → String → String → Store → Option DirectRejoinGrant
held now room user_id r =
    rejoin_for room user_id (as_rejoin (value_of (entry now r (direct_rejoin_key room user_id))))

-- The user that an identity of a room leads to.
abbrev pub pointed : ℕ → String → String → Store → Option String
pointed now room identity r =
    as_text (value_of (entry now r (direct_rejoin_identity_key room identity)))

abbrev pub holder_of : ℕ → String → String → Store → Option String → Option DirectRejoinGrant
holder_of now room identity r none = none
holder_of now room identity r (some user_id) =
    if same user_id "" then none else with_identity identity (held now room user_id r)

abbrev pub new_grant : ℕ → String → String → String → String → String → DirectRejoinGrant
new_grant now grant_id room room_sid user_id identity = record {
  grant_id = grant_id;
  room = room;
  room_sid = room_sid;
  user_id = user_id;
  identity = identity;
  created_at = now;
}

pub get_direct_rejoin_grant-held :
    (now : ℕ) (room user_id : String) (r : Store)
    → (get_direct_rejoin_grant now room user_id r).0 ≡ held now room user_id r
unfolding get_direct_rejoin_grant
get_direct_rejoin_grant-held now room user_id r = grind (arith, string_laws)

pub get_direct_rejoin_grant-entry :
    (now : ℕ) (room user_id : String) (r : Store) (j : Key)
    → entry now (get_direct_rejoin_grant now room user_id r).1 j ≡ entry now r j
unfolding get_direct_rejoin_grant
get_direct_rejoin_grant-entry now room user_id r j = grind (arith, string_laws)

pub by_identity_lem :
    (now : ℕ) (room identity : String) (r : Store)
    → (get_direct_rejoin_grant_by_identity now room identity r).0
      ≡ holder_of now room identity r (pointed now room identity r)
unfolding get_direct_rejoin_grant_by_identity get_direct_rejoin_grant
by_identity_lem now room identity r = grind (arith, string_laws)

by_identity-entry :
    (now : ℕ) (room identity : String) (r : Store) (j : Key)
    → entry now (get_direct_rejoin_grant_by_identity now room identity r).1 j ≡ entry now r j
unfolding get_direct_rejoin_grant_by_identity get_direct_rejoin_grant
by_identity-entry now room identity r j = grind (arith, string_laws)

-- Is the key the one from the identity of the grant?
abbrev names : String → Key → Option DirectRejoinGrant → Bool
names room j none = false
names room j (some g) = ite (Key-discrete (direct_rejoin_identity_key room g.identity) j) true false

pub add_lem :
    (now : ℕ) (id room room_sid user_id identity : String) (r : Store) (j : Key)
    → entry now (add_direct_rejoin_grant now id room room_sid user_id identity r).1 j
      ≡ ite
          (Key-discrete (direct_rejoin_identity_key room identity) j)
          (some (record { value = text user_id; expires_at = none }))
          (ite
            (Key-discrete (direct_rejoin_key room user_id) j)
            (some (record {
              value = rejoin_json (new_grant now id room room_sid user_id identity);
              expires_at = none;
            }))
            (if names room j (held now room user_id r) then none else entry now r j))
unfolding add_direct_rejoin_grant
add_lem now id room room_sid user_id identity r j =
    grind (arith, string_laws, get_direct_rejoin_grant-held, get_direct_rejoin_grant-entry)

pub remove_lem :
    (now : ℕ) (g : DirectRejoinGrant) (r : Store) (j : Key)
    → entry now (remove_direct_rejoin_grant now g r).1 j ≡ (
        if is_grant g.grant_id (held now g.room g.user_id r)
        then ite (Key-discrete (direct_rejoin_key g.room g.user_id) j) none (
            ite
              (Key-discrete (direct_rejoin_identity_key g.room g.identity) j)
              none
              (entry now r j))
        else entry now r j)
unfolding remove_direct_rejoin_grant
remove_lem now g r j =
    grind (arith, string_laws, get_direct_rejoin_grant-held, get_direct_rejoin_grant-entry)

-- A new grant is what its user and its identity lead to. The identity that the user's grant had
-- before leads nowhere, unless it is the new one. The grants of other users stay.
pub add_direct_rejoin_grant_lem :
    (now : ℕ) (id room room_sid user_id identity other : String) (r : Store)
    → user_id ≢ ""
    → other ≢ user_id
    → let r' = (add_direct_rejoin_grant now id room room_sid user_id identity r).1 in
      let grant = new_grant now id room room_sid user_id identity in
      ((get_direct_rejoin_grant now room user_id r').0 ≡ some grant)
      × ((get_direct_rejoin_grant_by_identity now room identity r').0 ≡ some grant)
      × ((get_direct_rejoin_grant now room other r').0
          ≡ (get_direct_rejoin_grant now room other r).0)
add_direct_rejoin_grant_lem now id room room_sid user_id identity other r named apart =
    let r' = (add_direct_rejoin_grant now id room room_sid user_id identity r).1 in
    let effect = λ (j : Key). add_lem now id room room_sid user_id identity r j in
    (
      get_direct_rejoin_grant-held now room user_id r'
          ∙ ground (arith, effect (direct_rejoin_key room user_id)),
      by_identity_lem now room identity r'
          ∙ ground (
            arith,
            effect (direct_rejoin_key room user_id),
            effect (direct_rejoin_identity_key room identity),
          ),
      ground (
        arith,
        get_direct_rejoin_grant-held now room other r,
        get_direct_rejoin_grant-held now room other r',
        effect (direct_rejoin_key room other),
      ),
    )

-- When a user's grant is replaced under another identity, the identity of the old grant leads
-- nowhere.
pub add_direct_rejoin_grant_replaces :
    (now : ℕ) (id room room_sid user_id identity : String) (old : DirectRejoinGrant) (r : Store)
    → (get_direct_rejoin_grant now room user_id r).0 ≡ some old
    → old.identity ≢ identity
    → (get_direct_rejoin_grant_by_identity now room old.identity
        (add_direct_rejoin_grant now id room room_sid user_id identity r).1).0
      ≡ none
add_direct_rejoin_grant_replaces now id room room_sid user_id identity old r before apart =
    let r' = (add_direct_rejoin_grant now id room room_sid user_id identity r).1 in
    ground (
      arith,
      get_direct_rejoin_grant-held now room user_id r,
      by_identity_lem now room old.identity r',
      add_lem now id room room_sid user_id identity r
          (direct_rejoin_identity_key room old.identity),
    )

-- Removing a grant ends it if it is still the grant of its user; a grant that has been replaced is
-- not current, and its removal leaves the new one. No other user's grant changes.
pub remove_direct_rejoin_grant_lem :
    (now : ℕ) (g : DirectRejoinGrant) (room user_id : String) (r : Store)
    → (get_direct_rejoin_grant now room user_id (remove_direct_rejoin_grant now g r).1).0 ≡ (
        if same g.room room
          && (same g.user_id user_id
              && is_grant g.grant_id (get_direct_rejoin_grant now room user_id r).0)
        then none
        else (get_direct_rejoin_grant now room user_id r).0)
remove_direct_rejoin_grant_lem now g room user_id r = ground (
  arith,
  get_direct_rejoin_grant-held now room user_id r,
  get_direct_rejoin_grant-held now room user_id (remove_direct_rejoin_grant now g r).1,
  remove_lem now g r (direct_rejoin_key room user_id),
)

revoke_found_lem :
    (now : ℕ) (room identity : String) (g : DirectRejoinGrant) (r : Store)
    → (get_direct_rejoin_grant_by_identity now room identity r).0 ≡ some g
    → revoke_direct_rejoin_grant_by_identity now room identity r ≡ (
      some g,
      (remove_direct_rejoin_grant now g
          (get_direct_rejoin_grant_by_identity now room identity r).1).1,
    )
unfolding revoke_direct_rejoin_grant_by_identity
revoke_found_lem now room identity g r found = ground arith

-- Revoking by identity answers the grant that the identity leads to, and ends it: neither the
-- identity nor its user leads to a grant afterwards.
pub revoke_direct_rejoin_grant_by_identity_lem :
    (now : ℕ) (room identity : String) (g : DirectRejoinGrant) (r : Store)
    → (get_direct_rejoin_grant_by_identity now room identity r).0 ≡ some g
    → let r' = (revoke_direct_rejoin_grant_by_identity now room identity r).1 in
      ((revoke_direct_rejoin_grant_by_identity now room identity r).0 ≡ some g)
      × ((get_direct_rejoin_grant now room g.user_id r').0 ≡ none)
      × ((get_direct_rejoin_grant_by_identity now room identity r').0 ≡ none)
revoke_direct_rejoin_grant_by_identity_lem now room identity g r found =
    let r1 = (get_direct_rejoin_grant_by_identity now room identity r).1 in
    let r' = (remove_direct_rejoin_grant now g r1).1 in
    let user_key = direct_rejoin_key room g.user_id in
    let identity_key = direct_rejoin_identity_key room identity in
    rw (revoke_found_lem now room identity g r found) (
      refl,
      ground (
        arith,
        by_identity_lem now room identity r,
        by_identity-entry now room identity r user_key,
        get_direct_rejoin_grant-held now room g.user_id r',
        remove_lem now g r1 user_key,
      ),
      ground (
        arith,
        by_identity_lem now room identity r,
        by_identity_lem now room identity r',
        by_identity-entry now room identity r user_key,
        by_identity-entry now room identity r identity_key,
        remove_lem now g r1 user_key,
        remove_lem now g r1 identity_key,
      ),
    )
