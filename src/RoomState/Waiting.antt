-- ===== src/RoomState/Waiting.antt =====
-- What withdrawing, answering and clearing knocks does to the host's list of pending knocks.
use huddle.Prelude.{
  ap, ◌∙◌, ℕ, ◌+◌, ◌≤◌, ◌≡◌, ◌≢◌, refl, String, Option, none, some, List, [], ◌∷◌, ◌&&◌,
  if◌then◌else◌, same, arith, ite, ltb, map, has,
}
use huddle.Records.{Knock, KnockStatus, Key, Key-discrete, knock_json, knock_key, index_key}
use huddle.Redis
use huddle.Redis.{Store, Entry, value_of, drop_member}
use huddle.Redis.Strings.{entry, string_laws, entry-smembers, entry-del, entry_later, among}
use huddle.Redis.Sets.{members, smembers-members, members-del, set_laws}
use huddle.RoomState.{get_knock, list_pending_knocks, remove_knock, resolve_knock, clear_knocks}
use huddle.RoomState.Knocks.{listed, get_knock_lem, list_pending_knocks_lem}

listed_frame_drop :
    (now : ℕ) (room id : String) (r r' : Store) (ids : List String)
    → ((i : String) → i ≢ id → entry now r' (knock_key room i) ≡ entry now r (knock_key room i))
    → listed now room r' (drop_member id ids) ≡ listed now room r (drop_member id ids)
listed_frame_drop now room id r r' [] same_at = refl
listed_frame_drop now room id r r' (i ∷ ids) same_at =
    ground (arith, same_at i, listed_frame_drop now room id r r' ids same_at)

-- The ids of the knocks that are not pending show nothing.
listed_drop :
    (now : ℕ) (room id : String) (r : Store) (ids : List String)
    → listed now room r (id ∷ []) ≡ []
    → listed now room r ids ≡ listed now room r (drop_member id ids)
listed_drop now room id r [] gone = refl
listed_drop now room id r (i ∷ ids) gone = ground (arith, listed_drop now room id r ids gone)

remove_knock-entry :
    (now : ℕ) (room id : String) (r : Store) (j : Key)
    → entry now (remove_knock now room id r).1 j
      ≡ ite (Key-discrete (knock_key room id) j) none (entry now r j)
unfolding remove_knock
remove_knock-entry now room id r j = grind (arith, string_laws)

remove_knock-members :
    (now : ℕ) (room id : String) (r : Store)
    → members now (remove_knock now room id r).1 (index_key room)
      ≡ drop_member id (members now r (index_key room))
unfolding remove_knock
remove_knock-members now room id r = grind (arith, set_laws)

-- A withdrawn knock cannot be read any more and leaves the host's list; the other pending knocks
-- stay, in their order.
pub list_pending_knocks-remove_knock :
    (now : ℕ) (room id : String) (r : Store)
    → let r' = (remove_knock now room id r).1 in
      ((get_knock now room id r').0 ≡ none)
      × ((list_pending_knocks now room r').0
          ≡ listed now room r (drop_member id (members now r (index_key room))))
list_pending_knocks-remove_knock now room id r =
    let r' = (remove_knock now room id r).1 in
    let entries = λ (j : Key). remove_knock-entry now room id r j in
    (
      ground (arith, get_knock_lem now room id r', entries (knock_key room id)),
      list_pending_knocks_lem now room r'
          ∙ ap (listed now room r') (remove_knock-members now room id r)
          ∙ listed_frame_drop now room id r r' (members now r (index_key room))
              (λ i ne. ground (arith, entries (knock_key room i))),
    )

resolve_knock-entry :
    (now : ℕ) (k : Knock) (status : KnockStatus) (grant : Option (String × String)) (r : Store)
    (j : Key)
    → entry now (resolve_knock now k status grant r).1 j
      ≡ ite
          (Key-discrete (knock_key k.room k.knock_id) j)
          (some (record {
            value = knock_json (resolve_knock now k status grant r).0;
            expires_at = some (now + 3_600_000);
          }))
          (entry now r j)
unfolding resolve_knock
resolve_knock-entry now k status none r j = grind (arith, string_laws)
resolve_knock-entry now k status (some g) r j = grind (arith, string_laws)

resolve_knock-members :
    (now : ℕ) (k : Knock) (status : KnockStatus) (grant : Option (String × String)) (r : Store)
    (j : Key)
    → members now (resolve_knock now k status grant r).1 j ≡ members now r j
unfolding resolve_knock
resolve_knock-members now k status none r j = grind (arith, set_laws)
resolve_knock-members now k status (some g) r j = grind (arith, set_laws)

resolve_knock-status :
    (now : ℕ) (k : Knock) (status : KnockStatus) (grant : Option (String × String)) (r : Store)
    → ((resolve_knock now k status grant r).0.status ≡ status)
      × ((resolve_knock now k status grant r).0.room ≡ k.room)
unfolding resolve_knock
resolve_knock-status now k status none r = (refl, refl)
resolve_knock-status now k status (some g) r = (refl, refl)

-- An answered knock shows its answer to the guest for another hour, leaves the host's list, and
-- the other pending knocks stay, in their order.
pub list_pending_knocks-resolve_knock :
    (now later : ℕ) (k : Knock) (status : KnockStatus) (grant : Option (String × String))
    (r : Store)
    → now ≤ later
    → status ≢ KnockStatus.pending
    → let r' = (resolve_knock now k status grant r).1 in
      ((get_knock later k.room k.knock_id r').0 ≡ (
        if ltb later (now + 3_600_000) then some (resolve_knock now k status grant r).0 else none))
      × ((resolve_knock now k status grant r).0.status ≡ status)
      × ((list_pending_knocks now k.room r').0
          ≡ listed now k.room r (drop_member k.knock_id (members now r (index_key k.room))))
list_pending_knocks-resolve_knock now later k status grant r h answered =
    let r' = (resolve_knock now k status grant r).1 in
    let ids = members now r (index_key k.room) in
    let entries = λ (j : Key). resolve_knock-entry now k status grant r j in
    (
      ground (
        arith,
        get_knock_lem later k.room k.knock_id r',
        entry_later now later r' (knock_key k.room k.knock_id) h,
        entries (knock_key k.room k.knock_id),
        resolve_knock-status now k status grant r,
      ),
      (resolve_knock-status now k status grant r).0,
      list_pending_knocks_lem now k.room r'
          ∙ ap (listed now k.room r')
              (resolve_knock-members now k status grant r (index_key k.room))
          ∙ listed_drop now k.room k.knock_id r' ids (
              ground (
                arith,
                answered,
                entries (knock_key k.room k.knock_id),
                resolve_knock-status now k status grant r,
              ))
          ∙ listed_frame_drop now k.room k.knock_id r r' ids
              (λ i ne. ground (arith, entries (knock_key k.room i))),
    )

among-map :
    (room other id : String) (ids : List String)
    → among (knock_key other id) (map (knock_key room) ids) ≡ (same other room && has id ids)
among-map room other id [] = ground arith
among-map room other id (i ∷ ids) = ground (arith, among-map room other id ids)

clear_knocks_lem :
    (now : ℕ) (room : String) (r : Store) (j : Key)
    → (entry now (clear_knocks now room r).1 j ≡ (
        if among j (index_key room ∷ map (knock_key room) (members now r (index_key room)))
        then none
        else entry now r j))
      × (members now (clear_knocks now room r).1 (index_key room) ≡ [])
unfolding clear_knocks
clear_knocks_lem now room r j =
    let index = index_key room in
    let r1 = (Redis.smembers now index r).1 in
    let keys = map (knock_key room) (members now r index) in
    let r2 = (Redis.del keys r1).1 in
    ground (
      arith,
      smembers-members now index r,
      entry-smembers now index j r,
      entry-del now keys j r1,
      entry-del now (index ∷ []) j r1,
      entry-del now (index ∷ []) j r2,
      members-del now (index ∷ []) index r1,
      members-del now (index ∷ []) index r2,
    )

-- When a room finishes, the knocks that its index names are the ones that cannot be read any more,
-- those of other rooms stay, and the host's list is empty.
pub clear_knocks_ends :
    (now : ℕ) (room other id : String) (r : Store)
    → let r' = (clear_knocks now room r).1 in
      ((get_knock now other id r').0 ≡ (
        if same other room && has id (members now r (index_key room))
        then none
        else (get_knock now other id r).0))
      × ((list_pending_knocks now room r').0 ≡ [])
clear_knocks_ends now room other id r =
    let r' = (clear_knocks now room r).1 in
    let effect = clear_knocks_lem now room r (knock_key other id) in
    (
      ground (
        arith,
        effect.0,
        among-map room other id (members now r (index_key room)),
        get_knock_lem now other id r,
        get_knock_lem now other id r',
      ),
      list_pending_knocks_lem now room r' ∙ ap (listed now room r') effect.1,
    )
