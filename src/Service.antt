-- ===== src/Service.antt =====
-- An async method of a service: it changes the world, and returns or throws. What it changed
-- before it threw stays changed.
use huddle.Prelude.{Bool, true, false, List, [], ◌∷◌, ◌≡◌, refl}
use huddle.Fault.{Exception, Result, ok, err}

abbrev pub M {ℓ} : Type 0 → Type ℓ → Type ℓ
M W A = W → Result A × W

abbrev pub pure {ℓ} : {W : Type 0} {A : Type ℓ} → A → M W A
pure a w = (ok a, w)

abbrev pub throw {ℓ} : {W : Type 0} {A : Type ℓ} → Exception → M W A
throw e w = (err e, w)

-- Goes on after a step, or passes its exception on.
abbrev pub proceed {ℓ κ} :
    {W : Type 0} {A : Type ℓ} {B : Type κ} → (A → M W B) → Result A → W → Result B × W
proceed f (ok a) w = f a w
proceed f (err e) w = (err e, w)

infixl 5 ◌>>=◌ ◌>>◌
abbrev pub ◌>>=◌ {ℓ κ} : {W : Type 0} {A : Type ℓ} {B : Type κ} → M W A → (A → M W B) → M W B
◌>>=◌ m f w = let (a, w') = m w in proceed f a w'

abbrev pub ◌>>◌ {ℓ κ} : {W : Type 0} {A : Type ℓ} {B : Type κ} → M W A → M W B → M W B
m >> k = m >>= λ _. k

abbrev pub handle {ℓ} :
    {W : Type 0} {A : Type ℓ} → (Exception → M W A) → Result A → W → Result A × W
handle h (ok a) w = (ok a, w)
handle h (err e) w = h e w

-- `try { m } catch (e) { h(e) }`
abbrev pub try_catch {ℓ} : {W : Type 0} {A : Type ℓ} → M W A → (Exception → M W A) → M W A
try_catch m h w = let (a, w') = m w in handle h a w'

abbrev pub after {ℓ} : {A : Type ℓ} → Result A → Result (Unit {0}) → Result A
after a (ok u) = a
after a (err e) = err e

-- `try { m } finally { f }`
abbrev pub finally {ℓ} : {W : Type 0} {A : Type ℓ} → M W A → M W (Unit {0}) → M W A
finally m f w = let (a, w') = m w in let (u, w'') = f w' in (after a u, w'')

-- `if (b) throw e;`
abbrev pub throw_if : {W : Type 0} → Bool → Exception → M W (Unit {0})
throw_if true e = throw e
throw_if false e = pure tt

-- `if (b) await m;`
abbrev pub when {ℓ} : {W : Type 0} {A : Type ℓ} → Bool → M W A → M W (Unit {0})
when true m = do m; pure tt
when false m = pure tt

-- `for (const x of xs) await body(x);`
unfoldable pub each {ℓ} : {W : Type 0} {A : Type ℓ} → (A → M W (Unit {0})) → List A → M W (Unit {0})
each body [] = pure tt
each body (x ∷ xs) = do body x; each body xs

-- What one round of the body keeps, the loop keeps, also when it is left by an exception.
pub proceed_keeps {ℓ} :
    {W : Type 0} {A : Type 0} (P : W → Type ℓ) (step : A → M W (Unit {0})) (a : Result A) (w : W)
    → ((x : A) → P (step x w).1)
    → P w
    → P (proceed step a w).1
proceed_keeps P step (ok x) w after before = after x
proceed_keeps P step (err e) w after before = before

pub each_keeps {ℓ} :
    {W : Type 0} {A : Type 0} (P : W → Type ℓ) (body : A → M W (Unit {0}))
    → ((x : A) (w : W) → P w → P (body x w).1)
    → (xs : List A) (w : W) → P w
    → P (each body xs w).1
unfolding each
each_keeps P body one [] w before = before
each_keeps P body one (x ∷ xs) w before =
    let next = one x w before in
    proceed_keeps P (λ _. each body xs) (body x w).0 (body x w).1
      (λ _. each_keeps P body one xs (body x w).1 next) next

-- A loop whose body never throws does not throw.
pub each_ok :
    {W : Type 0} {A : Type 0} (body : A → M W (Unit {0}))
    → ((x : A) (w : W) → (body x w).0 ≡ ok tt)
    → (xs : List A) (w : W) → (each body xs w).0 ≡ ok tt
unfolding each
each_ok body one [] w = refl
each_ok body one (x ∷ xs) w = rw (one x w) (each_ok body one xs (body x w).1)
