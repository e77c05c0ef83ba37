-- ===== src/Tests/Sessions.antt =====
-- Remote Control's service on a table of audit rows that is a list.
use huddle.Prelude.{
  ℕ, ◌≡◌, refl, String, String-discrete, Option, none, some, List, [], ◌∷◌, Bool, arith,
  if◌then◌else◌, ite,
}
use huddle.ControlRepo.{Sessions, SessionRow, SessionStatus, RequestParams, rewritten, has_status}

-- `create` gives each row the id "q9".
abbrev new_row : ℕ → RequestParams → SessionRow
new_row now p = record {
  id = "q9";
  room_id = p.room_id;
  row_slug = "abc-defg-hij";
  sharer_identity = p.sharer_identity;
  sharer_name = p.sharer_name;
  controller_identity = p.controller_identity;
  controller_name = p.controller_name;
  status = SessionStatus.requested;
  agent_identity = none;
  end_reason = none;
  created_at = now;
  started_at = none;
  renewal_due_at = none;
  ended_at = none;
}

abbrev find : String → List SessionRow → Option SessionRow
find id [] = none
find id (x ∷ xs) = let later = find id xs in ite (String-discrete x.id id) (some x) later

abbrev first : (SessionRow → Bool) → List SessionRow → Option SessionRow
first p [] = none
first p (x ∷ xs) = let later = first p xs in if p x then some x else later

abbrev many : (SessionRow → Bool) → List SessionRow → List SessionRow
many p [] = []
many p (x ∷ xs) = let later = many p xs in if p x then x ∷ later else later

abbrev update :
    String
    → (SessionStatus → Bool)
    → (SessionRow → SessionRow)
    → List SessionRow
    → ℕ × List SessionRow
update id p f [] = (0, [])
update id p f (x ∷ xs) =
    let (n, later) = update id p f xs in
    ite (String-discrete x.id id) (if p x.status then (1, f x ∷ xs) else (0, x ∷ xs)) (n, x ∷ later)

pub update_count :
    (id : String) (p : SessionStatus → Bool) (f : SessionRow → SessionRow) (t : List SessionRow)
    → (update id p f t).0 ≡ (if has_status p (find id t) then 1 else 0)
update_count id p f [] = refl
update_count id p f (x ∷ xs) = ground (arith, update_count id p f xs)

pub find-update :
    (id j : String) (p : SessionStatus → Bool) (f : SessionRow → SessionRow) (t : List SessionRow)
    → ((row : SessionRow) → (f row).id ≡ row.id)
    → find j (update id p f t).1 ≡ ite (String-discrete id j) (rewritten p f (find j t)) (find j t)
find-update id j p f [] keeps = ground arith
find-update id j p f (x ∷ xs) keeps = ground (arith, keeps x, find-update id j p f xs keeps)

abbrev pub db : Sessions
db = record {
  Table = List SessionRow;
  create = λ now p t. (new_row now p, new_row now p ∷ t);
  find_unique = find;
  find_first = first;
  find_many = many;
  update_where = update;
  create_fits = λ now p t. (refl, refl, refl, refl, refl);
  find_unique-create = λ now p t id. refl;
  update_where_count = update_count;
  find_unique-update_where = find-update;
}
