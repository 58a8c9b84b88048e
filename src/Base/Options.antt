-- ===== src/Base/Options.antt =====
-- Values that may be missing, as JavaScript's tests and `??` treat them.
use Prim.Native.String.{String}
use mathlib.Core.Bool.{Bool, true, false}
use mathlib.Core.Option.{Option, none, some}
use mathlib.Core.Path.{◌≡◌, refl}
use sync_bridge_platform.Base.Tests.{if◌then◌else◌}
use sync_bridge_platform.Base.Text.{is_empty}

-- An empty text counts as none.
abbrev pub present : Option String → Option String
present none = none
present (some text) = if is_empty text then none else some text

module _ {ℓ} {A : Type ℓ} where
  abbrev pub is_there : Option A → Bool
  is_there none = false
  is_there (some a) = true

  -- `value ?? fallback`
  abbrev pub or_else : Option A → A → A
  or_else (some a) fallback = a
  or_else none fallback = fallback

  abbrev pub or_else_option : Option A → Option A → Option A
  or_else_option (some a) other = some a
  or_else_option none other = other

-- What holds of a value that may be missing, and of its fallback, holds of the one taken.
pub or_else-keeps {ℓ κ} :
    {A : Type ℓ} (P : A → Type κ) (o : Option A) (fallback : A)
    → ((a : A) → o ≡ some a → P a)
    → P fallback
    → P (or_else o fallback)
or_else-keeps P none fallback h k = k
or_else-keeps P (some a) fallback h k = h a refl
