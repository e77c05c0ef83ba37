-- ===== src/Layout/Speakers.antt =====
-- The promotion of a participant who speaks onto the visible tiles.
use huddle.Prelude.{
  ◌≡◌, ◌≢◌, inl, inr, Bool-cases, All, ltb, is_some, if◌then◌else◌, refl, String, List, [], ◌∷◌,
  Bool, true, false, not, ◌&&◌, ◌||◌, arith, length, has, String-discrete,
}
use huddle.Layout.{
  Tile, spoke, earliest, shown, replace_tile, candidates, evict, promote_speaking_participant,
}

if-All :
    (Q : Tile → Type 0) (b : Bool) (x : Tile) (xs : List Tile)
    → (b ≡ true → Q x)
    → All Q xs
    → All Q (if b then x ∷ xs else xs)
if-All Q true x xs q qs = (q refl, qs)
if-All Q false x xs q qs = qs

module _ (P : Tile → Type 0) where
  earliest-All : (t : Tile) (ts : List Tile) → P t → All P ts → P (earliest t ts)
  earliest-All t [] p ps = p
  earliest-All t (x ∷ xs) p (px, ps) = elim (Bool-cases (ltb (spoke x) (spoke t))) [
    | inl e ↦ rw (e) (earliest-All x xs px ps)
    | inr e ↦ rw (e) (earliest-All t xs p ps)
  ]

  candidates-All :
      (ids : List String) (ts : List Tile)
      → All P ts
      → All (λ t. P t × (has t.identity ids ≡ false)) (candidates ids ts)
  candidates-All ids [] ps = tt
  candidates-All ids (x ∷ xs) (p, ps) =
      let rest = candidates-All ids xs ps in
      if-All (λ t. P t × (has t.identity ids ≡ false)) (not (has x.identity ids) && not x.speaking)
        x (candidates ids xs) (λ e. (p, ground (arith, e))) rest

-- Every tile is shown among the tiles.
shown-cons :
    (x : Tile) (visible ts : List Tile)
    → All (λ t. shown t.identity visible ≡ true) ts
    → All (λ t. shown t.identity (x ∷ visible) ≡ true) ts
shown-cons x visible [] h = tt
shown-cons x visible (t ∷ ts) (h, hs) = (ground (arith, h), shown-cons x visible ts hs)

visible_shown : (visible : List Tile) → All (λ t. shown t.identity visible ≡ true) visible
visible_shown [] = tt
visible_shown (x ∷ xs) = (ground arith, shown-cons x xs xs (visible_shown xs))

shown-replace_tile :
    (old : String) (incoming : Tile) (j : String) (visible : List Tile)
    → j ≢ old
    → shown j visible ≡ true
    → shown j (replace_tile old incoming visible) ≡ true
shown-replace_tile old incoming j [] ne h = h
shown-replace_tile old incoming j (x ∷ xs) ne h =
    ground (arith, shown-replace_tile old incoming j xs ne)

length-replace_tile :
    (old : String) (incoming : Tile) (visible : List Tile)
    → length (replace_tile old incoming visible) ≡ length visible
length-replace_tile old incoming [] = refl
length-replace_tile old incoming (x ∷ xs) = omega (arith, length-replace_tile old incoming xs)

shown-incoming :
    (old : String) (incoming : Tile) (visible : List Tile)
    → shown old visible ≡ true
    → shown incoming.identity (replace_tile old incoming visible) ≡ true
shown-incoming old incoming [] h = absurd (cc h)
shown-incoming old incoming (x ∷ xs) h = ground (arith, shown-incoming old incoming xs)

protected_stays :
    (old : String) (incoming : Tile) (ids : List String) (j : String) (visible : List Tile)
    → has old ids ≡ false
    → (has j ids && shown j visible && not (shown j (replace_tile old incoming visible))) ≡ false
protected_stays old incoming ids j visible free = elim (String-discrete j old) [
  | yes e ↦ ground (arith, e, free)
  | no ne ↦ ground (arith, shown-replace_tile old incoming j visible ne)
]

-- A tile that is neither protected nor speaking.
abbrev pub any_free : List String → List Tile → Bool
any_free ids [] = false
any_free ids (x ∷ xs) = (not (has x.identity ids) && not x.speaking) || any_free ids xs

evict-some :
    (visible : List Tile) (incoming : Tile) (ids : List String) (ts : List Tile)
    → is_some (evict visible incoming (candidates ids ts)).1 ≡ any_free ids ts
evict-some visible incoming ids [] = refl
evict-some visible incoming ids (x ∷ xs) = ground (arith, evict-some visible incoming ids xs)

-- The outcome of a promotion among given candidates.
evict_lem :
    (visible : List Tile) (incoming : Tile) (ids : List String) (j : String) (cs : List Tile)
    → All (λ t. (shown t.identity visible ≡ true) × (has t.identity ids ≡ false)) cs
    → (length (evict visible incoming cs).0 ≡ length visible)
      × ((has j ids && shown j visible && not (shown j (evict visible incoming cs).0)) ≡ false)
      × (shown incoming.identity (evict visible incoming cs).0
          ≡ is_some (evict visible incoming cs).1 || shown incoming.identity visible)
evict_lem visible incoming ids j [] ps = (refl, ground arith, refl)
evict_lem visible incoming ids j (c ∷ cs) (p, ps) =
    let (seen, free) =
      earliest-All (λ t. (shown t.identity visible ≡ true) × (has t.identity ids ≡ false)) c cs p
        ps in
    let old = (earliest c cs).identity in
    (
      length-replace_tile old incoming visible,
      protected_stays old incoming ids j visible free,
      shown-incoming old incoming visible seen,
    )

-- As many tiles are shown after a promotion as before; a tile is evicted exactly if the participant
-- who speaks was not shown and some tile is neither protected nor speaking; the participant is shown
-- after it exactly if a tile was evicted or the participant was shown before; and a protected identity
-- that was shown stays shown.
pub promote_speaking_participant_lem :
    (visible : List Tile) (incoming : Tile) (ids : List String) (j : String)
    → let (next, evicted) = promote_speaking_participant visible incoming ids in
      (length next ≡ length visible)
      × (is_some evicted ≡ not (shown incoming.identity visible) && any_free ids visible)
      × (shown incoming.identity next ≡ is_some evicted || shown incoming.identity visible)
      × ((has j ids && shown j visible && not (shown j next)) ≡ false)
unfolding promote_speaking_participant
promote_speaking_participant_lem visible incoming ids j =
    let parts =
      evict_lem visible incoming ids j (candidates ids visible) (
        candidates-All (λ t. shown t.identity visible ≡ true) ids visible
          (visible_shown visible)) in
    ground (arith, parts, evict-some visible incoming ids visible)
