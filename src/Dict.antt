-- ===== src/Dict.antt =====
-- JavaScript's `Map` as an association list in insertion order, over any key type with decidable
-- equality. Writing an existing key keeps its place. Clients use the laws in `dict_laws`.
use huddle.Prelude.{◌≡◌, refl, Option, none, some, List, [], ◌∷◌, arith, ite}

module _ {ℓ} {K V : Type ℓ} (d : Discrete K) where
  -- map.get(k)
  unfoldable pub get : K → List (K × V) → Option V
  get k [] = none
  get k ((j, v) ∷ m) = ite (d j k) (some v) (get k m)

  -- map.set(k, v)
  unfoldable pub set : K → V → List (K × V) → List (K × V)
  set k v [] = (k, v) ∷ []
  set k v ((j, w) ∷ m) = ite (d j k) ((k, v) ∷ m) ((j, w) ∷ set k v m)

  -- map.delete(k)
  unfoldable pub remove : K → List (K × V) → List (K × V)
  remove k [] = []
  remove k ((j, w) ∷ m) = ite (d j k) (remove k m) ((j, w) ∷ remove k m)

  pub get-set :
      (j k : K) (v : V) (m : List (K × V)) → get j (set k v m) ≡ ite (d k j) (some v) (get j m)
  unfolding get set
  get-set j k v [] = refl
  get-set j k v ((i, w) ∷ m) = ground (arith, get-set j k v m)

  pub get-remove : (j k : K) (m : List (K × V)) → get j (remove k m) ≡ ite (d k j) none (get j m)
  unfolding get remove
  get-remove j k [] = ground arith
  get-remove j k ((i, w) ∷ m) = ground (arith, get-remove j k m)

pub ruleset dict_laws = (get-set, get-remove)
