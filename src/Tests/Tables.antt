-- ===== src/Tests/Tables.antt =====
-- A table of the database as a list of rows: the row that is nearest to the front stands for its key.
use huddle.Prelude.{
  ℕ, ◌≤◌, ◌≡◌, ◌≢◌, inl, inr, refl, sym, ap, ◌∙◌, subst, String, Option, none, some, List, [], ◌∷◌,
  Bool, true, false, not, ◌&&◌, if◌then◌else◌, same, has, keep, length, leb, All, arith, Bool-cases,
  Option-cases,
}
use huddle.Prisma.{Delegate, updated, holds}

module _ {Row : Type 0} (key : Row → String) where
  abbrev find_unique : String → List Row → Option Row
  find_unique k [] = none
  find_unique k (r ∷ rs) = let rest = find_unique k rs in if same (key r) k then some r else rest

  abbrev live : List String → List Row → List Row
  live seen [] = []
  live seen (r ∷ rs) =
      let hidden = live seen rs in
      let shown = live (key r ∷ seen) rs in if has (key r) seen then hidden else r ∷ shown

  abbrev find_many : (Row → Bool) → List Row → List Row
  find_many p t = keep p (live [] t)

  abbrev least : (Row → ℕ) → List Row → Option Row
  least order [] = none
  least order (r ∷ rs) = elim (least order rs) [
    | none ↦ some r
    | some s ↦ if leb (order r) (order s) then some r else some s
  ]

  abbrev change : (Row → Bool) → (Row → Row) → List Row → List Row
  change p f [] = []
  change p f (r ∷ rs) = let rest = change p f rs in (if p r then f r else r) ∷ rest

  pub weaken :
      {P Q : Row → Type 0} → ((r : Row) → P r → Q r) → (rs : List Row) → All P rs → All Q rs
  weaken f [] every = tt
  weaken f (r ∷ rs) (one, every) = (f r one, weaken f rs every)

  abbrev IsLive : (Row → Bool) → List String → List Row → Row → Type 0
  IsLive p seen t r = (p r ≡ true) × (find_unique (key r) t ≡ some r) × (has (key r) seen ≡ false)

  pub live_all :
      (p : Row → Bool) (seen : List String) (t : List Row)
      → All (IsLive p seen t) (keep p (live seen t))
  live_all p seen [] = tt
  live_all p seen (r ∷ rs) = elim (Bool-cases (has (key r) seen)) [
    | inl e ↦ rw (e) (
        weaken (λ s (hit, found, unseen). (hit, ground (arith, e, found, unseen), unseen))
          (keep p (live seen rs)) (live_all p seen rs))
    | inr e ↦
        let rest =
          weaken {Q = IsLive p seen (r ∷ rs)}
            (λ s (hit, found, unseen). (hit, ground (arith, found, unseen), ground (arith, unseen)))
            (keep p (live (key r ∷ seen) rs)) (live_all p (key r ∷ seen) rs) in
        elim (Bool-cases (p r)) [
          | inl hit ↦ rw (e, hit) ((hit, ground arith, e), rest)
          | inr miss ↦ rw (e, miss) rest
        ]
  ]

  later :
      (P : Row → Type 0) (p : Row → Bool) (r : Row) (rs : List Row)
      → All P (keep p (r ∷ rs))
      → All P (keep p rs)
  later P p r rs every = elim (Bool-cases (p r)) [
    | inl e ↦
        let eq : keep p (r ∷ rs) ≡ r ∷ keep p rs = rw (e) refl in
        let parts : All P (r ∷ keep p rs) = subst (All P) eq every in parts.1
    | inr e ↦ let eq : keep p (r ∷ rs) ≡ keep p rs = rw (e) refl in subst (All P) eq every
  ]

  pub live_each :
      (P : Row → Type 0) (p : Row → Bool) (k : String) (seen : List String) (t : List Row) (s : Row)
      → All P (keep p (live seen t))
      → find_unique k t ≡ some s
      → has k seen ≡ false
      → p s ≡ true
      → P s
  live_each P p k seen [] s every found unseen hit = absurd (cc found)
  live_each P p k seen (r ∷ rs) s every found unseen hit = elim (Bool-cases (same (key r) k)) [
    | inl e ↦
        let one : r ≡ s = ground (arith, e, found) in
        let shown : has (key r) seen ≡ false = ground (arith, e, unseen) in
        let now : All P (r ∷ keep p (live (key r ∷ seen) rs)) =
          let eq : keep p (live seen (r ∷ rs)) ≡ r ∷ keep p (live (key r ∷ seen) rs) =
            rw (shown, ap p one ∙ hit) refl in
          subst (All P) eq every in
        subst P one now.0
    | inr e ↦ elim (Bool-cases (has (key r) seen)) [
      | inl h ↦
          let eq : live seen (r ∷ rs) ≡ live seen rs = rw (h) refl in
          live_each P p k seen rs s (subst (λ xs. All P (keep p xs)) eq every)
            (ground (arith, e, found)) unseen hit
      | inr h ↦
          let eq : live seen (r ∷ rs) ≡ r ∷ live (key r ∷ seen) rs = rw (h) refl in
          live_each P p k (key r ∷ seen) rs s
            (later P p r (live (key r ∷ seen) rs) (subst (λ xs. All P (keep p xs)) eq every))
            (ground (arith, e, found)) (ground (arith, e, unseen)) hit
    ]
  ]

  pub least_found :
      (order : Row → ℕ) (P : Row → Type 0) (rs : List Row) (m : Row)
      → All P rs
      → least order rs ≡ some m
      → P m
  least_found order P [] m every found = absurd (cc found)
  least_found order P (r ∷ rs) m (one, every) found = elim (Option-cases (least order rs)) [
    | inl e ↦ let eq : r ≡ m = ground (arith, e, found) in subst P eq one
    | inr (s, e) ↦ elim (Bool-cases (leb (order r) (order s))) [
      | inl before ↦ let eq : r ≡ m = ground (arith, e, before, found) in subst P eq one
      | inr after ↦ least_found order P rs m every (ground (arith, e, after, found))
    ]
  ]

  least-none : (order : Row → ℕ) (rs : List Row) → least order rs ≡ none → rs ≡ []
  least-none order [] e = refl
  least-none order (r ∷ rs) e = absurd (ground (arith, e, Option-cases (least order rs)))

  -- The least is there, and below all.
  least_all :
      (order : Row → ℕ) (rs : List Row) (m : Row)
      → least order rs ≡ some m
      → All (λ s. order m ≤ order s) rs
  least_all order [] m found = tt
  least_all order (r ∷ rs) m found = elim (Option-cases (least order rs)) [
    | inl e ↦ (
      ground (arith, e, found),
      subst (All (λ s. order m ≤ order s)) (sym (least-none order rs e)) tt,
    )
    | inr (s, e) ↦ (
      ground (arith, e, found),
      weaken (λ x le. ground (arith, e, found, le)) rs (least_all order rs s e),
    )
  ]

  pub change_found :
      (p : Row → Bool) (f : Row → Row) (k : String) (t : List Row)
      → ((r : Row) → key (f r) ≡ key r)
      → find_unique k (change p f t) ≡ updated p f (find_unique k t)
  change_found p f k [] keyed = refl
  change_found p f k (r ∷ rs) keyed = ground (arith, keyed r, change_found p f k rs keyed)

  pub kept_found :
      (q : Row → Bool) (k : String) (seen : List String) (t : List Row)
      → find_unique k (keep q (live seen t)) ≡ (
          if has k seen
          then none
          else (if holds q (find_unique k t) then find_unique k t else none))
  kept_found q k seen [] = ground arith
  kept_found q k seen (r ∷ rs) =
      ground (arith, kept_found q k seen rs, kept_found q k (key r ∷ seen) rs)

  pub count_of :
      (k : String) (p : Row → Bool) (seen : List String) (t : List Row)
      → length (keep (λ r. same (key r) k && p r) (live seen t))
        ≡ (if has k seen then 0 else (if holds p (find_unique k t) then 1 else 0))
  count_of k p seen [] = ground arith
  count_of k p seen (r ∷ rs) = ground (arith, count_of k p seen rs, count_of k p (key r ∷ seen) rs)

  pub found_key : (k : String) (t : List Row) (r : Row) → find_unique k t ≡ some r → key r ≡ k
  found_key k [] r found = cc found
  found_key k (x ∷ xs) r found = elim (Bool-cases (same (key x) k)) [
    | inl e ↦ ground (arith, e, found)
    | inr e ↦ found_key k xs r (ground (arith, e, found))
  ]

  least-some :
      (order : Row → ℕ) (rs : List Row) (s : Row) → rs ≢ [] → (m : Row) × (least order rs ≡ some m)
  least-some order rs s there = elim (Option-cases (least order rs)) [
    | inl e ↦ absurd (there (least-none order rs e))
    | inr m ↦ m
  ]

  pub least_below :
      (p : Row → Bool) (order : Row → ℕ) (t : List Row) (k : String) (s : Row)
      → find_unique k t ≡ some s
      → p s ≡ true
      → (m : Row) × (least order (find_many p t) ≡ some m) × (order m ≤ order s)
  least_below p order t k s found hit =
      let (m, e) = least-some order (find_many p t) s (λ nothing.
        live_each (λ _. ⊥) p k [] t s (subst (All (λ _. ⊥)) (sym nothing) tt) found refl hit) in
      (
        m,
        e,
        live_each (λ x. order m ≤ order x) p k [] t s (least_all order (find_many p t) m e) found
            refl hit,
      )

  abbrev pub listed : Delegate Row key
  listed = record {
    Table = List Row;
    find_unique = find_unique;
    find_first = λ p order t. least order (find_many p t);
    find_many = find_many;
    create = λ r t. r ∷ t;
    update_many = λ p f t. (length (find_many p t), change p f t);
    delete_many = λ p t. keep (λ r. not (p r)) (live [] t);
    find_unique_key = found_key;
    find_first_found = λ p order t r found.
        least_found order (λ x. (p x ≡ true) × (find_unique (key x) t ≡ some x)) (find_many p t) r
          (weaken (λ x (hit, there, unseen). (hit, there)) (find_many p t) (live_all p [] t)) found;
    find_first_least = least_below;
    find_many_found =
        λ p t. weaken (λ x (hit, there, unseen). (hit, there)) (find_many p t) (live_all p [] t);
    find_many_none = λ p t k r nothing found. elim (Bool-cases (p r)) [
      | inl hit ↦
          absurd
            (live_each (λ _. ⊥) p k [] t r (subst (All (λ _. ⊥)) (sym nothing) tt) found refl hit)
      | inr miss ↦ miss
    ];
    find_many_all = λ P p t k r every found hit. live_each P p k [] t r every found refl hit;
    update_many_count = λ k p f t. count_of k p [] t;
    find_unique-update_many = λ k p f t keyed. change_found p f k t keyed;
    find_unique-create = λ k r t fresh. ground arith;
    find_unique-delete_many = λ k p t. kept_found (λ r. not (p r)) k [] t ∙ ground arith;
  }
