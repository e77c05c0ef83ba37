-- ===== src/Act.antt =====
-- An async method on the Redis client: it reads and changes the store and returns a value. `await`
-- is the bind of a `do` block.
use huddle.Prelude.{Bool, true, false}
use huddle.Redis.{Store}

abbrev pub Act {ℓ} : Type ℓ → Type ℓ
Act A = Store → A × Store

abbrev pub pure {ℓ} : {A : Type ℓ} → A → Act A
pure a r = (a, r)

infixl 5 ◌>>=◌ ◌>>◌
abbrev pub ◌>>=◌ {ℓ κ} : {A : Type ℓ} {B : Type κ} → Act A → (A → Act B) → Act B
◌>>=◌ m f r = let (a, r') = m r in f a r'

abbrev pub ◌>>◌ {ℓ κ} : {A : Type ℓ} {B : Type κ} → Act A → Act B → Act B
m >> k = m >>= λ _. k

-- `if (b) await m;`
abbrev pub when {ℓ} : {A : Type ℓ} → Bool → Act A → Act (Unit {0})
when true m = do m; pure tt
when false m = pure tt
