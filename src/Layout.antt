-- ===== src/Layout.antt =====
-- apps/web/src/components/call/participantLayout.ts: where the participants of a call are shown. A
-- stored preference is its parsed JSON. `sort` on a key is a stable insertion sort.
pub mod Pages
pub mod Speakers
use huddle.Prelude.{
  take, drop, ℕ, ◌+◌, ◌*◌, ◌-◌, ◌/◌, ◌==◌, leb, ltb, min, max, String, Option, none, some, List, [],
  ◌∷◌, ◌++◌, map, Bool, true, false, not, ◌&&◌, ◌||◌, if◌then◌else◌, same, has, keep, length, suc,
  zero, zero,
}

pub data SelfViewMode : Type 0 where
  auto float grid : SelfViewMode

pub data SelfViewCorner : Type 0 where
  tl tr bl br : SelfViewCorner

pub record SelfViewPreference : Type 0 where
  pub mode : SelfViewMode
  pub corner : SelfViewCorner
  pub minimized : Bool

-- The fields of the stored object: a version that is absent is 1, and a field that is no text, or no
-- Boolean, is absent.
pub record StoredPreference : Type 0 where
  pub version_is_one : Bool
  pub stored_mode : Option String
  pub stored_corner : Option String
  pub stored_minimized : Bool

abbrev pub default_self_view_preference : SelfViewPreference
default_self_view_preference = record {
  mode = SelfViewMode.auto;
  corner = SelfViewCorner.bl;
  minimized = false;
}

abbrev pub mode_of : Option String → SelfViewMode
mode_of none = SelfViewMode.auto
mode_of (some s) =
    if same s "float"
    then SelfViewMode.float
    else (if same s "grid" then SelfViewMode.grid else SelfViewMode.auto)

abbrev pub corner_of : Option String → SelfViewCorner
corner_of none = SelfViewCorner.bl
corner_of (some s) =
    if same s "tl"
    then SelfViewCorner.tl
    else (if same s "tr"
        then SelfViewCorner.tr
        else (if same s "br" then SelfViewCorner.br else SelfViewCorner.bl))

-- `none` is a missing value, or one that is no JSON object.
abbrev pub parse_self_view_preference : Option StoredPreference → SelfViewPreference
parse_self_view_preference none = default_self_view_preference
parse_self_view_preference (some parsed) =
    if not parsed.version_is_one then default_self_view_preference else record {
      mode = mode_of parsed.stored_mode;
      corner = corner_of parsed.stored_corner;
      minimized = parsed.stored_minimized;
    }

abbrev pub self_view_should_grid : SelfViewMode → ℕ → Bool
self_view_should_grid SelfViewMode.grid remote_count = true
self_view_should_grid SelfViewMode.float remote_count = false
self_view_should_grid SelfViewMode.auto remote_count = ltb 1 remote_count

unfoldable pub page_capacity : Bool → ℕ
page_capacity portrait = if portrait then 4 else 8

-- A participant as the promotion of speakers reads it.
pub record Tile : Type 0 where
  pub identity : String
  pub speaking : Bool
  pub last_spoke_at : Option ℕ

abbrev pub spoke : Tile → ℕ
spoke t = elim t.last_spoke_at [ none ↦ 0 | some n ↦ n ]

-- The first among those that spoke the longest ago: the head of the stable sort.
abbrev pub earliest : Tile → List Tile → Tile
earliest t [] = t
earliest t (x ∷ xs) = earliest (if ltb (spoke x) (spoke t) then x else t) xs

abbrev pub shown : String → List Tile → Bool
shown identity [] = false
shown identity (x ∷ xs) = same x.identity identity || shown identity xs

abbrev pub replace_tile : String → Tile → List Tile → List Tile
replace_tile identity incoming [] = []
replace_tile identity incoming (x ∷ xs) =
    (if same x.identity identity then incoming else x) ∷ replace_tile identity incoming xs

abbrev pub candidates : List String → List Tile → List Tile
candidates protected_identities =
    keep (λ item. not (has item.identity protected_identities) && not item.speaking)

abbrev pub evict : List Tile → Tile → List Tile → List Tile × Option Tile
evict visible incoming [] = (visible, none)
evict visible incoming (c ∷ cs) =
    let evicted = earliest c cs in (replace_tile evicted.identity incoming visible, some evicted)

unfoldable pub promote_speaking_participant :
    List Tile → Tile → List String → List Tile × Option Tile
promote_speaking_participant visible incoming protected_identities =
    if shown incoming.identity visible
    then (visible, none)
    else evict visible incoming (candidates protected_identities visible)

module _ {ℓ} {A : Type ℓ} where
  -- The items of `count` pages from a page on.
  abbrev pub pages_from : ℕ → ℕ → ℕ → List A → List (List A)
  pages_from capacity page zero items = []
  pages_from capacity page (suc count) items =
      take capacity (drop (page * capacity) items) ∷ pages_from capacity (suc page) count items

  -- `Math.max(1, Math.ceil(items.length / capacity))`
  abbrev pub page_count : ℕ → List A → ℕ
  page_count capacity items = max 1 ((length items + (capacity - 1)) / capacity)

  -- The items of each page; its index is its place and the number of pages is the length.
  unfoldable pub build_participant_pages : List A → Bool → List (List A)
  build_participant_pages items portrait =
      pages_from (page_capacity portrait) 0 (page_count (page_capacity portrait) items) items

-- A page index may be negative.
pub data ℤ : Type 0 where
  pos : ℕ → ℤ
  negsuc : ℕ → ℤ

-- `Math.max(0, i)`
abbrev pub at_least_zero : ℤ → ℕ
at_least_zero (ℤ.pos n) = n
at_least_zero (ℤ.negsuc n) = 0

-- `Math.min(i, n)`
abbrev pub at_most : ℤ → ℕ → ℤ
at_most (ℤ.pos i) n = ℤ.pos (min i n)
at_most (ℤ.negsuc i) n = ℤ.negsuc i

-- On natural numbers `page_count - 1` is `Math.max(0, pageCount - 1)`.
unfoldable pub reconcile_page_index : ℤ → ℕ → ℕ
reconcile_page_index page_index page_count = at_least_zero (at_most page_index (page_count - 1))
