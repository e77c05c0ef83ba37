-- ===== src/Layout/Pages.antt =====
-- The pages of participants.
use huddle.Prelude.{
  take, drop, ◌∙◌, ap, ℕ, ◌+◌, ◌*◌, ◌-◌, ◌/◌, ◌≡◌, ◌≤◌, ◌<◌, refl, sym, List, [], ◌∷◌, ◌++◌, Bool,
  true, false, if◌then◌else◌, arith, length, suc, zero, All, max,
}
use huddle.Layout.{
  ℤ, pages_from, page_count, page_capacity, build_participant_pages, reconcile_page_index,
}

enough :
    (portrait : Bool) (n : ℕ)
    → n
      ≤ max 1 ((n + (page_capacity portrait - 1)) / page_capacity portrait) * page_capacity portrait
unfolding page_capacity
enough true n = omega arith
enough false n = omega arith

no_more :
    (portrait : Bool) (n : ℕ)
    → (max 1 ((n + (page_capacity portrait - 1)) / page_capacity portrait) - 1)
        * (if portrait then 4 else 8)
      < max 1 n
unfolding page_capacity
no_more true n = omega arith
no_more false n = omega arith

reconciled : (index : ℤ) (n : ℕ) → 0 < n → reconcile_page_index index n < n
unfolding reconcile_page_index
reconciled (ℤ.pos i) n h = omega (arith, h)
reconciled (ℤ.negsuc i) n h = h

next : (c p : ℕ) → suc p * c ≡ p * c + c
next c p = omega arith

suc-sum : (m n : ℕ) → suc (m + n) ≡ suc m + n
suc-sum m n = omega arith

zero_sum : (n : ℕ) → 0 + n ≡ n
zero_sum n = omega arith

zero_product : (n : ℕ) → 0 * n ≡ 0
zero_product n = omega arith

suc-add : (p n : ℕ) → suc p + n ≡ p + suc n
suc-add p n = omega arith

module _ {ℓ} {A : Type ℓ} where
  abbrev pub concat : List (List A) → List A
  concat [] = []
  concat (xs ∷ xss) = xs ++ concat xss

  take-drop : (n : ℕ) (xs : List A) → take n xs ++ drop n xs ≡ xs
  take-drop zero xs = refl
  take-drop (suc n) [] = refl
  take-drop (suc n) (x ∷ xs) = ap (λ l. x ∷ l) (take-drop n xs)

  drop-none : (n : ℕ) → drop {A = A} n [] ≡ []
  drop-none zero = refl
  drop-none (suc n) = refl

  drop-drop : (m n : ℕ) (xs : List A) → drop n (drop m xs) ≡ drop (m + n) xs
  drop-drop zero n xs = ap (λ k. drop k xs) (sym (zero_sum n))
  drop-drop (suc m) n [] = drop-none n ∙ sym (drop-none (suc m + n))
  drop-drop (suc m) n (x ∷ xs) = drop-drop m n xs ∙ ap (λ k. drop k (x ∷ xs)) (suc-sum m n)

  drop_all : (n : ℕ) (xs : List A) → length xs ≤ n → drop n xs ≡ []
  drop_all zero [] h = refl
  drop_all (suc n) [] h = refl
  drop_all zero (x ∷ xs) h = absurd (omega (arith, h))
  drop_all (suc n) (x ∷ xs) h = drop_all n xs (omega (arith, h))

  length-take : (n : ℕ) (xs : List A) → length (take n xs) ≤ n
  length-take zero xs = omega arith
  length-take (suc n) [] = omega arith
  length-take (suc n) (x ∷ xs) = omega (arith, length-take n xs)

  concat-pages_from :
      (c p n : ℕ) (xs : List A)
      → length xs ≤ (p + n) * c
      → concat (pages_from c p n xs) ≡ drop (p * c) xs
  concat-pages_from c p zero xs h = sym (drop_all (p * c) xs (ground (arith, h)))
  concat-pages_from c p (suc n) xs h =
      ap (λ l. take c (drop (p * c) xs) ++ l)
        (concat-pages_from c (suc p) n xs (rw (suc-add p n) h)
          ∙ (ap (λ k. drop k xs) (next c p) ∙ sym (drop-drop (p * c) c xs)))
      ∙ take-drop c (drop (p * c) xs)

  pages_from-length : (c p n : ℕ) (xs : List A) → length (pages_from c p n xs) ≡ n
  pages_from-length c p zero xs = refl
  pages_from-length c p (suc n) xs = omega (arith, pages_from-length c (suc p) n xs)

  pages_from-fits : (c p n : ℕ) (xs : List A) → All (λ page. length page ≤ c) (pages_from c p n xs)
  pages_from-fits c p zero xs = tt
  pages_from-fits c p (suc n) xs = (length-take c _, pages_from-fits c (suc p) n xs)

  -- The pages hold every participant once, in the order given; no page holds more than four in
  -- portrait or eight in landscape; there is no page more than that needs, but at least one; and any
  -- page index, also a negative one, brought into range, is the index of a page.
  pub build_participant_pages_lem :
      (items : List A) (portrait : Bool) (index : ℤ)
      → let pages = build_participant_pages items portrait in
        (concat pages ≡ items)
        × All (λ page. length page ≤ (if portrait then 4 else 8)) pages
        × ((length pages - 1) * (if portrait then 4 else 8) < max 1 (length items))
        × (reconcile_page_index index (length pages) < length pages)
  unfolding build_participant_pages page_capacity
  build_participant_pages_lem items portrait index =
      let c = page_capacity portrait in
      let count = page_count c items in
      (
        concat-pages_from c 0 count items (rw (zero_sum count) (enough portrait (length items)))
            ∙ ap (λ k. drop k items) (zero_product c),
        pages_from-fits c 0 count items,
        rw (pages_from-length c 0 count items) (no_more portrait (length items)),
        rw (pages_from-length c 0 count items) (reconciled index count (omega arith)),
      )
