-- ===== src/Prelude/Nullish.antt =====
-- `left ?? right`, where null and undefined are `none`.
use mathlib.Core.Option.{Option, none, some}

module _ {ℓ} {A : Type ℓ} where
  abbrev pub or_else : Option A → Option A → Option A
  or_else none r = r
  or_else (some a) r = some a

  abbrev pub or_default : Option A → A → A
  or_default none d = d
  or_default (some a) d = a

-- An early `return null`.
infixl 5 ◌>>=◌
abbrev pub ◌>>=◌ {ℓ κ} : {A : Type ℓ} {B : Type κ} → Option A → (A → Option B) → Option B
none >>= k = none
some a >>= k = k a
