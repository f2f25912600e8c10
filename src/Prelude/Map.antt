-- ===== src/Prelude/Map.antt =====
-- Go maps with string keys, as functions: the program's results do not depend on their order.
use mathlib.Core.Path.{◌≡◌}
use mathlib.Core.Logic.{◌≢◌}
use mathlib.Core.Option.{Option, none, some}
use native.Mathlib.Omega.{arith}
use deins_complete.Prelude.Tests.{if◌then◌else◌}
use deins_complete.Prelude.Text.{Str, str_eq, str_eq_iff, str_eq_refl}

abbrev pub Map : Type 0 → Type 0
Map V = Str → Option V

abbrev pub empty : {V : Type 0} → Map V
empty k = none

-- m[key] = v
unfoldable pub put : {V : Type 0} → Str → V → Map V → Map V
put key v m k = if str_eq key k then some v else m k

-- m[key], with the zero value for a key that is missing
abbrev pub get_or_zero : {V : Type 0} → V → Option V → V
get_or_zero zero none = zero
get_or_zero zero (some v) = v

pub put_self : {V : Type 0} (key : Str) (v : V) (m : Map V) → put key v m key ≡ some v
unfolding put
put_self key v m = ground (arith, str_eq_refl key)

pub put_ne : {V : Type 0} (key k : Str) (v : V) (m : Map V) → key ≢ k → put key v m k ≡ m k
unfolding put
put_ne key k v m h = ground (arith, str_eq_iff key k)
