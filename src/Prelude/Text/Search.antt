-- ===== src/Prelude/Text/Search.antt =====
-- The functions of Go's `strings` that the program uses, on bytes.
use Prim.Native.Nat.{ℕ, suc, ◌+◌, ◌-◌}
use mathlib.Core.Bool.{Bool, true, false, ◌&&◌}
use mathlib.Core.Option
use mathlib.Core.Option.{Option, none, some}
use mathlib.Core.List.{List, [], ◌∷◌, ◌++◌}
use deins_complete.Prelude.Tests.{◌==◌, if◌then◌else◌}
use deins_complete.Prelude.Lists.{length, take, drop}
use deins_complete.Prelude.Text.Equality.{Str}

-- strings.HasPrefix(s, p)
unfoldable pub has_prefix : Str → Str → Bool
has_prefix s [] = true
has_prefix [] (x ∷ p) = false
has_prefix (y ∷ s) (x ∷ p) = y == x && has_prefix s p

-- strings.HasSuffix(s, p)
unfoldable pub has_suffix : Str → Str → Bool
unfolding has_prefix
has_suffix [] p = has_prefix [] p
has_suffix (y ∷ s) p = if length p == length (y ∷ s) then has_prefix (y ∷ s) p else has_suffix s p

-- strings.TrimPrefix(s, p)
unfoldable pub trim_prefix : Str → Str → Str
unfolding has_prefix
trim_prefix s p = if has_prefix s p then drop (length p) s else s

-- strings.TrimSuffix(s, p)
unfoldable pub trim_suffix : Str → Str → Str
unfolding has_suffix
trim_suffix s p = if has_suffix s p then take (length s - length p) s else s

-- strings.Index(s, p), with `none` for -1
unfoldable pub index : Str → Str → Option ℕ
unfolding has_prefix
index [] p = if has_prefix [] p then some 0 else none
index (x ∷ s) p = if has_prefix (x ∷ s) p then some 0 else Option.map suc (index s p)

-- strings.LastIndex(s, c) for one byte, with `none` for -1
unfoldable pub last_index : Str → ℕ → Option ℕ
last_index [] c = none
last_index (x ∷ s) c = elim (last_index s c) [
  | some i ↦ some (suc i)
  | none ↦ if x == c then some 0 else none
]

-- strings.Count(s, c) for one byte
unfoldable pub count : Str → ℕ → ℕ
count [] c = 0
count (x ∷ s) c = (if x == c then 1 else 0) + count s c

abbrev pub cons_head : ℕ → List Str → List Str
cons_head x [] = (x ∷ []) ∷ []
cons_head x (l ∷ ls) = (x ∷ l) ∷ ls

-- strings.Split(s, c) for one byte
unfoldable pub split : Str → ℕ → List Str
split [] c = [] ∷ []
split (x ∷ s) c = let rest = split s c in if x == c then [] ∷ rest else cons_head x rest

-- strings.Join(lines, sep)
unfoldable pub join : List Str → Str → Str
join [] sep = []
join (l ∷ []) sep = l
join (l ∷ m ∷ ls) sep = l ++ (sep ++ join (m ∷ ls) sep)

-- strings.ReplaceAll(s, "\r\n", "\n")
unfoldable pub replace_crlf : Str → Str
replace_crlf [] = []
replace_crlf (x ∷ []) = x ∷ []
replace_crlf (x ∷ y ∷ s) = elim (x == 13 && y == 10) [
  | true ↦ 10 ∷ replace_crlf s
  | false ↦ x ∷ replace_crlf (y ∷ s)
]

-- strings.ReplaceAll(s, "\r", "\n")
unfoldable pub replace_cr : Str → Str
replace_cr [] = []
replace_cr (x ∷ s) = (if x == 13 then 10 else x) ∷ replace_cr s

-- strings.TrimRight(s, c) for one byte
unfoldable pub trim_right : Str → ℕ → Str
trim_right [] c = []
trim_right (x ∷ s) c = elim (trim_right s c) [
  | [] ↦ if x == c then [] else x ∷ []
  | y ∷ r ↦ x ∷ y ∷ r
]
