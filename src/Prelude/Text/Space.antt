-- ===== src/Prelude/Text/Space.antt =====
-- White space and letter case, on the UTF-8 bytes of a Go string.
-- `strings.TrimSpace` removes the runes of `unicode.IsSpace`; each of them is matched here by its
-- encoding. `to_lower` maps the ASCII letters and the two other runes whose lower case is an ASCII
-- letter (U+0130 and U+212A), so it agrees with `strings.ToLower` in every comparison with ASCII
-- text; other runes are left as they are.
pub mod Kept
use Prim.Native.Nat.{ℕ, zero, suc, ◌+◌}
use mathlib.Core.Bool.{Bool, ◌&&◌, ◌||◌}
use mathlib.Core.Option.{Option, none, some}
use mathlib.Core.List.{[], ◌∷◌, reverse}
use deins_complete.Prelude.Tests.{leb, ◌==◌, if◌then◌else◌}
use deins_complete.Prelude.Text.Equality.{Str}

-- '\t', '\n', '\v', '\f', '\r', ' '
unfoldable pub ascii_space : ℕ → Bool
ascii_space c = (leb 9 c && leb c 13) || c == 32

-- U+0085, U+00A0
abbrev space_two : ℕ → ℕ → Bool
space_two a b = a == 0xC2 && (b == 0x85 || b == 0xA0)

-- U+1680, U+2000 to U+200A, U+2028, U+2029, U+202F, U+205F, U+3000
abbrev space_three : ℕ → ℕ → ℕ → Bool
space_three a b c =
    (a == 0xE1 && b == 0x9A && c == 0x80)
    || (a == 0xE2
        && b == 0x80
        && ((leb 0x80 c && leb c 0x8A) || c == 0xA8 || c == 0xA9 || c == 0xAF))
    || (a == 0xE2 && b == 0x81 && c == 0x9F)
    || (a == 0xE3 && b == 0x80 && c == 0x80)

-- The number of bytes of the white space rune that a text begins with, or 0.
space_len : Str → ℕ
unfolding ascii_space
space_len [] = 0
space_len (a ∷ []) = if ascii_space a then 1 else 0
space_len (a ∷ b ∷ []) = if ascii_space a then 1 else if space_two a b then 2 else 0
space_len (a ∷ b ∷ c ∷ s) =
    if ascii_space a then 1 else if space_two a b then 2 else if space_three a b c then 3 else 0

-- The same at the end of a text, given the text backwards.
space_len_back : Str → ℕ
unfolding ascii_space
space_len_back [] = 0
space_len_back (a ∷ []) = if ascii_space a then 1 else 0
space_len_back (a ∷ b ∷ []) = if ascii_space a then 1 else if space_two b a then 2 else 0
space_len_back (a ∷ b ∷ c ∷ s) =
    if ascii_space a then 1 else if space_two b a then 2 else if space_three c b a then 3 else 0

-- `n` more bytes belong to a rune that is removed.
skip_space : ℕ → Str → Str
unfolding space_len
skip_space n [] = []
skip_space (suc n) (a ∷ s) = skip_space n s
skip_space zero (a ∷ s) = elim (space_len (a ∷ s)) [ zero ↦ a ∷ s | suc n ↦ skip_space n s ]

skip_space_back : ℕ → Str → Str
unfolding space_len_back
skip_space_back n [] = []
skip_space_back (suc n) (a ∷ s) = skip_space_back n s
skip_space_back zero (a ∷ s) = elim (space_len_back (a ∷ s)) [
  | zero ↦ a ∷ s
  | suc n ↦ skip_space_back n s
]

-- strings.TrimSpace
unfoldable pub trim_space : Str → Str
unfolding skip_space skip_space_back
trim_space s = reverse (skip_space_back 0 (reverse (skip_space 0 s)))

abbrev lower_byte : ℕ → ℕ
lower_byte c = if leb 65 c && leb c 90 then c + 32 else c

-- A rune whose lower case is an ASCII letter: that letter, and the number of further bytes.
folded : Str → Option (ℕ × ℕ)
folded (a ∷ b ∷ []) = if a == 0xC4 && b == 0xB0 then some (105, 1) else none
folded (a ∷ b ∷ c ∷ s) =
    if a == 0xC4 && b == 0xB0
    then some (105, 1)
    else if a == 0xE2 && b == 0x84 && c == 0xAA
    then some (107, 2)
    else none
folded _ = none

lower_from : ℕ → Str → Str
unfolding folded
lower_from n [] = []
lower_from (suc n) (a ∷ s) = lower_from n s
lower_from zero (a ∷ s) = elim (folded (a ∷ s)) [
  | some (c, n) ↦ c ∷ lower_from n s
  | none ↦ lower_byte a ∷ lower_from 0 s
]

-- strings.ToLower
unfoldable pub to_lower : Str → Str
unfolding lower_from
to_lower s = lower_from 0 s
