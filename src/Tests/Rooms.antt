-- ===== src/Tests/Rooms.antt =====
-- Room state: a guest that knocks, is admitted, and may rejoin the call.
use huddle.Prelude.{◌≢◌, ◌≡◌, refl, String, none, some, [], ◌∷◌, String-discrete}
use huddle.Dict
use huddle.Records.{Knock, KnockStatus, DirectRejoinGrant, Key-discrete}
use huddle.Redis
use huddle.Redis.{Store, empty}
use huddle.Redis.Strings.{entry}
use huddle.Redis.Sets.{members}
use huddle.RoomState.{
  add_knock, get_knock, list_pending_knocks, remove_knock, resolve_knock, clear_knocks, for_each,
  get_direct_rejoin_grant, add_direct_rejoin_grant, get_direct_rejoin_grant_by_identity,
  remove_direct_rejoin_grant, revoke_direct_rejoin_grant_by_identity, clear_direct_rejoin_grants,
}
use huddle.RoomState.Knocks.{new_knock}
use huddle.RoomState.Rejoin.{new_grant, remove_direct_rejoin_grant_lem}
use huddle.RoomState.Clearing.{IsKeyed, add_direct_rejoin_grant-IsKeyed}

unfoldable pub redis : Unit {0}
unfolding entry members Redis.get Redis.set Redis.mget Redis.sadd Redis.srem Redis.smembers
    Redis.del Redis.del_one Redis.expire Dict.get Dict.set Dict.remove Key-discrete String-discrete
redis = tt

unfoldable pub methods : Unit {0}
unfolding redis add_knock get_knock list_pending_knocks remove_knock resolve_knock clear_knocks
    for_each get_direct_rejoin_grant add_direct_rejoin_grant get_direct_rejoin_grant_by_identity
    remove_direct_rejoin_grant revoke_direct_rejoin_grant_by_identity clear_direct_rejoin_grants
methods = tt

abbrev pub room : String
room = "abc-defg-hij"

-- Two knocks, one of them by an account.
abbrev pub knocked : Store
knocked =
    (add_knock 2000 "k2" room "Bo" none (some "u2")
      (add_knock 1000 "k1" room "Ann" none none empty).1).1

abbrev pub ann : Knock
ann = new_knock 1000 "k1" room "Ann" none none

abbrev pub bo : Knock
bo = new_knock 2000 "k2" room "Bo" none (some "u2")

waiting_room :
    ((list_pending_knocks 3000 room knocked).0 ≡ ann ∷ bo ∷ [])
    × ((list_pending_knocks 3000 room (resolve_knock 3000 ann KnockStatus.denied none knocked).1).0
        ≡ bo ∷ [])
    × ((list_pending_knocks 3_601_500 room knocked).0 ≡ bo ∷ [])
    × ((get_knock 3000 room "k2" (clear_knocks 2500 room knocked).1).0 ≡ none)
unfolding methods
waiting_room = (refl, refl, refl, refl)

denied≢pending : KnockStatus.denied ≢ KnockStatus.pending
denied≢pending e = cc

abbrev pub granted : Store
granted = (add_direct_rejoin_grant 3000 "g1" room "RM_1" "u2" "bo-1" empty).1

abbrev pub bo_grant : DirectRejoinGrant
bo_grant = new_grant 3000 "g1" room "RM_1" "u2" "bo-1"

remove_direct_rejoin_grant_lem_example :
    (get_direct_rejoin_grant 3000 room "u2" (remove_direct_rejoin_grant 3000 bo_grant granted).1).0
    ≡ none
unfolding methods
remove_direct_rejoin_grant_lem_example =
    remove_direct_rejoin_grant_lem 3000 bo_grant room "u2" granted

empty-IsKeyed : IsKeyed 3000 room empty
unfolding methods
empty-IsKeyed i g e = cc

granted-IsKeyed : IsKeyed 3000 room granted
granted-IsKeyed =
    add_direct_rejoin_grant-IsKeyed 3000 "g1" room "RM_1" "u2" "bo-1" room empty empty-IsKeyed
