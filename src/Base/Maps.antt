-- ===== src/Base/Maps.antt =====
-- Go's `map[string]string`: `none` is the nil map, which reads as empty.
use mathlib.Core.Path.{◌≡◌, refl}
use mathlib.Core.Bool.{Bool, false}
use mathlib.Core.Option.{Option, none, some}
use mathlib.Core.List.{List, [], ◌∷◌}
use Prim.Native.String.{String}
use native.Mathlib.Omega.{arith}
use text.Mathlib.TextEquality.{eq_iff}
use machine_controller.Base.Tests.{◌==◌, if◌then◌else◌}

abbrev pub Pairs : Type 0
Pairs = List (String × String)

abbrev pub StringMap : Type 0
StringMap = Option Pairs

abbrev pub find : String → Pairs → Option String
find k [] = none
find k ((j, v) ∷ m) = if j == k then some v else find k m

abbrev pub put : String → String → Pairs → Pairs
put k v [] = (k, v) ∷ []
put k v ((j, w) ∷ m) = if j == k then (k, v) ∷ m else (j, w) ∷ put k v m

abbrev pub drop_key : String → Pairs → Pairs
drop_key k [] = []
drop_key k ((j, w) ∷ m) = let rest = drop_key k m in if j == k then rest else (j, w) ∷ rest

abbrev pub lookup : String → StringMap → Option String
lookup k none = none
lookup k (some m) = find k m

-- `m[k]`, with the zero value for a missing key.
abbrev pub index : String → StringMap → String
index k m = elim (lookup k m) [ none ↦ "" | some v ↦ v ]

-- `v', exists := m[k]; exists && v' == v`
abbrev pub has_value : String → String → StringMap → Bool
has_value k v m = elim (lookup k m) [ none ↦ false | some w ↦ v == w ]

-- `m[k] = v` on a nil map panics: `none`.
abbrev pub assign : String → String → StringMap → Option StringMap
assign k v none = none
assign k v (some m) = some (some (put k v m))

pub find-put :
    (k j v : String) (m : Pairs) → find j (put k v m) ≡ (if k == j then some v else find j m)
find-put k j v [] = refl
find-put k j v ((i, w) ∷ m) = ground (arith, eq_iff k j, eq_iff i k, eq_iff i j, find-put k j v m)

pub find-drop_key :
    (k j : String) (m : Pairs) → find j (drop_key k m) ≡ (if k == j then none else find j m)
find-drop_key k j [] = ground arith
find-drop_key k j ((i, w) ∷ m) =
    ground (arith, eq_iff k j, eq_iff i k, eq_iff i j, find-drop_key k j m)
