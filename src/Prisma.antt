-- ===== src/Prisma.antt =====
-- Prisma's delegate for a table whose rows have a unique id: what the repositories of apps/api/src
-- call, with what they rely on. A `where` is a test on rows; a test that follows a relation asks the
-- other table. `find_first` takes the key of its `orderBy`. Laws are named after the calls.
use huddle.Prelude.{
  ℕ, ◌≤◌, ◌≡◌, String, String-discrete, Option, none, some, List, [], Bool, true, false, ◌&&◌,
  if◌then◌else◌, same, ite, All, ◌∙◌, arith,
}

abbrev pub updated {ℓ} : {Row : Type ℓ} → (Row → Bool) → (Row → Row) → Option Row → Option Row
updated p f none = none
updated p f (some row) = if p row then some (f row) else some row

abbrev pub holds {ℓ} : {A : Type ℓ} → (A → Bool) → Option A → Bool
holds p none = false
holds p (some a) = p a

pub record Delegate (Row : Type 0) (key : Row → String) : Type 1 where
  pub Table : Type 0
  pub find_unique : String → Table → Option Row
  pub find_first : (Row → Bool) → (Row → ℕ) → Table → Option Row
  pub find_many : (Row → Bool) → Table → List Row
  pub create : Row → Table → Table
  pub update_many : (Row → Bool) → (Row → Row) → Table → ℕ × Table
  pub delete_many : (Row → Bool) → Table → Table
  pub find_unique_key : (k : String) (t : Table) (r : Row) → find_unique k t ≡ some r → key r ≡ k
  pub find_first_found :
      (p : Row → Bool) (order : Row → ℕ) (t : Table) (r : Row)
      → find_first p order t ≡ some r
      → (p r ≡ true) × (find_unique (key r) t ≡ some r)
  pub find_first_least :
      (p : Row → Bool) (order : Row → ℕ) (t : Table) (k : String) (s : Row)
      → find_unique k t ≡ some s
      → p s ≡ true
      → (r : Row) × (find_first p order t ≡ some r) × (order r ≤ order s)
  pub find_many_found :
      (p : Row → Bool) (t : Table)
      → All (λ r. (p r ≡ true) × (find_unique (key r) t ≡ some r)) (find_many p t)
  pub find_many_none :
      (p : Row → Bool) (t : Table) (k : String) (r : Row)
      → find_many p t ≡ []
      → find_unique k t ≡ some r
      → p r ≡ false
  pub find_many_all :
      (P : Row → Type 0) (p : Row → Bool) (t : Table) (k : String) (r : Row)
      → All P (find_many p t)
      → find_unique k t ≡ some r
      → p r ≡ true
      → P r
  pub update_many_count :
      (k : String) (p : Row → Bool) (f : Row → Row) (t : Table)
      → (update_many (λ r. same (key r) k && p r) f t).0
        ≡ (if holds p (find_unique k t) then 1 else 0)
  pub find_unique-update_many :
      (k : String) (p : Row → Bool) (f : Row → Row) (t : Table)
      → ((r : Row) → key (f r) ≡ key r)
      → find_unique k (update_many p f t).1 ≡ updated p f (find_unique k t)
  pub find_unique-create :
      (k : String) (r : Row) (t : Table)
      → find_unique (key r) t ≡ none
      → find_unique k (create r t) ≡ ite (String-discrete (key r) k) (some r) (find_unique k t)
  pub find_unique-delete_many :
      (k : String) (p : Row → Bool) (t : Table)
      → find_unique k (delete_many p t)
        ≡ (if holds p (find_unique k t) then none else find_unique k t)

-- `update({ where: { id }, data })`, for a row that is there.
abbrev pub update_unique :
    {Row : Type 0} {key : Row → String} (db : Delegate Row key)
    → String
    → (Row → Row)
    → db.Table
    → db.Table
update_unique {key = key} db k f t = (db.update_many (λ r. same (key r) k) f t).1

pub updated_kept :
    {Row : Type 0} (p : Row → Bool) (f : Row → Row) (o : Option Row) (r : Row)
    → o ≡ some r
    → p r ≡ false
    → updated p f o ≡ some r
updated_kept p f o r found kept = ground arith

pub updated_hit :
    {Row : Type 0} (p : Row → Bool) (f : Row → Row) (o : Option Row) (r : Row)
    → o ≡ some r
    → p r ≡ true
    → updated p f o ≡ some (f r)
updated_hit p f o r found hit = ground arith

module _ {Row : Type 0} {key : Row → String} (db : Delegate Row key) where
  -- A row that the test passes by stays, and one that it meets changes.
  pub find_unique-update_kept :
      (k : String) (p : Row → Bool) (f : Row → Row) (t : db.Table) (r : Row)
      → ((s : Row) → key (f s) ≡ key s)
      → db.find_unique k t ≡ some r
      → p r ≡ false
      → db.find_unique k (db.update_many p f t).1 ≡ some r
  find_unique-update_kept k p f t r keyed found kept =
      db.find_unique-update_many k p f t keyed ∙ updated_kept p f _ r found kept

  pub find_unique-update_hit :
      (k : String) (p : Row → Bool) (f : Row → Row) (t : db.Table) (r : Row)
      → ((s : Row) → key (f s) ≡ key s)
      → db.find_unique k t ≡ some r
      → p r ≡ true
      → db.find_unique k (db.update_many p f t).1 ≡ some (f r)
  find_unique-update_hit k p f t r keyed found hit =
      db.find_unique-update_many k p f t keyed ∙ updated_hit p f _ r found hit

  -- `update` finds the row by its key.
  pub find_unique-update_unique :
      (k : String) (f : Row → Row) (t : db.Table) (r : Row)
      → ((s : Row) → key (f s) ≡ key s)
      → db.find_unique k t ≡ some r
      → db.find_unique k (update_unique db k f t) ≡ some (f r)
  find_unique-update_unique k f t r keyed found =
      find_unique-update_hit k (λ s. same (key s) k) f t r keyed found
        (ground (arith, db.find_unique_key k t r found))
