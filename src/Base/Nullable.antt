-- ===== src/Base/Nullable.antt =====
-- JavaScript's `null` and `undefined` as `none`, and chains of reads that stop there.
use mathlib.Core.Option.{Option, none, some}
use Prim.Native.String.{String}
use cccollab.Base.Tests.{if◌then◌else◌}
use cccollab.Base.Text.{is_empty}

infixl 5 ◌>>=◌
abbrev pub ◌>>=◌ {ℓ κ} : {A : Type ℓ} {B : Type κ} → Option A → (A → Option B) → Option B
none >>= f = none
some a >>= f = f a

-- A text that is truthy: there, and not "".
abbrev pub truthy : Option String → Option String
truthy none = none
truthy (some s) = if is_empty s then none else some s

-- `o ?? d`
abbrev pub or_else {ℓ} : {A : Type ℓ} → Option A → A → A
or_else none d = d
or_else (some a) d = a

-- `o ?? p`, where `p` may be missing too
abbrev pub or_option {ℓ} : {A : Type ℓ} → Option A → Option A → Option A
or_option none p = p
or_option (some a) p = some a
