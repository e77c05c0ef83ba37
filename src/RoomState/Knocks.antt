-- ===== src/RoomState/Knocks.antt =====
-- The waiting room: what a guest sees of a knock, and what the host sees of the pending ones.
use mathlib.Core.List.{map-map}
use mathlib.Core.Path.{fun_ext}
use huddle.Prelude.{
  ap, ◌∙◌, ℕ, ◌+◌, ◌≤◌, ◌≡◌, ◌≢◌, refl, String, Option, none, some, List, [], ◌∷◌, ◌++◌, false,
  if◌then◌else◌, arith, ite, ltb, map, has,
}
use huddle.Records.{Knock, KnockStatus, Key-discrete, knock_json, as_knock, knock_key, index_key}
use huddle.Redis
use huddle.Redis.{Store, Entry, value_of, drop_member}
use huddle.Redis.Strings.{entry, string_laws, entry-smembers, entry_later, mget-entry}
use huddle.Redis.Sets.{members, smembers-members, set_laws}
use huddle.RoomState.{knock_in, pending_knocks, add_knock, get_knock, list_pending_knocks}

-- What is stored under the keys of some knocks, and the pending ones among them.
abbrev pub listed : ℕ → String → Store → List String → List Knock
listed now room r ids = pending_knocks (map (λ id. value_of (entry now r (knock_key room id))) ids)

abbrev pub new_knock : ℕ → String → String → String → Option String → Option String → Knock
new_knock now id room name image user_id = record {
  knock_id = id;
  room = room;
  name = name;
  user_id = user_id;
  image = image;
  status = KnockStatus.pending;
  requested_at = now;
  identity = none;
  token = none;
}

pub get_knock_lem :
    (now : ℕ) (room id : String) (r : Store)
    → (get_knock now room id r).0
      ≡ knock_in room (as_knock (value_of (entry now r (knock_key room id))))
unfolding get_knock
get_knock_lem now room id r = grind (arith, string_laws)

add_knock-entry :
    (now : ℕ) (id room name : String) (image user_id : Option String) (a i : String) (r : Store)
    → entry now (add_knock now id room name image user_id r).1 (knock_key a i)
      ≡ ite
          (Key-discrete (knock_key room id) (knock_key a i))
          (some (record {
            value = knock_json (new_knock now id room name image user_id);
            expires_at = some (now + 3_600_000);
          }))
          (entry now r (knock_key a i))
unfolding add_knock
add_knock-entry now id room name image user_id a i r = grind (arith, string_laws)

add_knock-members :
    (now : ℕ) (id room name : String) (image user_id : Option String) (r : Store)
    → members now (add_knock now id room name image user_id r).1 (index_key room)
      ≡ Redis.add_member (members now r (index_key room)) id
unfolding add_knock
add_knock-members now id room name image user_id r = grind (arith, set_laws)

-- A guest can read a new knock for one hour, and not afterwards.
pub get_knock-add_knock :
    (now later : ℕ) (id room name : String) (image user_id : Option String) (r : Store)
    → now ≤ later
    → (get_knock later room id (add_knock now id room name image user_id r).1).0 ≡ (
        if ltb later (now + 3_600_000)
        then some (new_knock now id room name image user_id)
        else none)
get_knock-add_knock now later id room name image user_id r h =
    let r' = (add_knock now id room name image user_id r).1 in
    ground (
      arith,
      get_knock_lem later room id r',
      entry_later now later r' (knock_key room id) h,
      add_knock-entry now id room name image user_id room id r,
    )

raws_lem :
    (now : ℕ) (room : String) (ids : List String) (r : Store)
    → (Redis.mget now (map (knock_key room) ids) (Redis.smembers now (index_key room) r).1).0
      ≡ map (λ id. value_of (entry now r (knock_key room id))) ids
raws_lem now room ids r =
    mget-entry now (map (knock_key room) ids) (Redis.smembers now (index_key room) r).1
    ∙ map-map _ (knock_key room) ids
    ∙ ap (λ f. map f ids)
        (fun_ext λ id. ap value_of (entry-smembers now (index_key room) (knock_key room id) r))

pub list_pending_knocks_lem :
    (now : ℕ) (room : String) (r : Store)
    → (list_pending_knocks now room r).0 ≡ listed now room r (members now r (index_key room))
unfolding list_pending_knocks
list_pending_knocks_lem now room r =
    let ids = (Redis.smembers now (index_key room) r).0 in
    ground (arith, smembers-members now (index_key room) r, raws_lem now room ids r)

listed-append :
    (now : ℕ) (room : String) (r : Store) (ids : List String) (id : String)
    → listed now room r (ids ++ id ∷ []) ≡ listed now room r ids ++ listed now room r (id ∷ [])
listed-append now room r [] id = refl
listed-append now room r (i ∷ ids) id = ground (arith, listed-append now room r ids id)

-- Two stores that agree on the knocks of the listed ids show the same pending knocks.
listed_frame :
    (now : ℕ) (room id : String) (r r' : Store) (ids : List String)
    → ((i : String) → i ≢ id → entry now r' (knock_key room i) ≡ entry now r (knock_key room i))
    → has id ids ≡ false
    → listed now room r' ids ≡ listed now room r ids
listed_frame now room id r r' [] same_at h = refl
listed_frame now room id r r' (i ∷ ids) same_at h =
    ground (arith, same_at i, listed_frame now room id r r' ids same_at)

-- A knock with a new id comes last in the host's list of pending knocks, and the others keep their
-- places.
pub list_pending_knocks-add_knock :
    (now : ℕ) (id room name : String) (image user_id : Option String) (r : Store)
    → has id (members now r (index_key room)) ≡ false
    → (list_pending_knocks now room (add_knock now id room name image user_id r).1).0
      ≡ (list_pending_knocks now room r).0 ++ new_knock now id room name image user_id ∷ []
list_pending_knocks-add_knock now id room name image user_id r fresh =
    let r' = (add_knock now id room name image user_id r).1 in
    let ids = members now r (index_key room) in
    let entries = λ (i : String). add_knock-entry now id room name image user_id room i r in
    ground (
      arith,
      list_pending_knocks_lem now room r,
      list_pending_knocks_lem now room r',
      add_knock-members now id room name image user_id r,
      listed-append now room r' ids id,
      listed_frame now room id r r' ids (λ i ne. ground (arith, entries i)) fresh,
      entries id,
    )
