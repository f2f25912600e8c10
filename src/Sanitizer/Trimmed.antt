-- ===== src/Sanitizer/Trimmed.antt =====
-- The text that is offered has no blank line at either end.
use deins_complete.Prelude.{
  ◌≡◌, ◌≢◌, ◌⊎◌, refl, [], ◌∷◌, List, All, arith, false, Bool-cases, inl, inr,
}
use deins_complete.Prelude.Text.{Str}
use deins_complete.Prelude.Text.Space.{trim_space}
use deins_complete.Prelude.Text.Search.{split, join}
use deins_complete.Prelude.Text.Laws.{split-join, Without, join_by}
use deins_complete.Completion.Types.{Request}
use deins_complete.Completion.Policy.{max_lines_for_intent}
use deins_complete.Sanitizer.{
  Config, sanitize, unwrapped, newline, limit_lines, limit_chars, trim_blank_lines,
  drop_blank_front, drop_blank_back, keep_before, is_blank,
}
use deins_complete.Sanitizer.Lines.{trimmed-Without}

-- A line with a byte that is not white space.
abbrev pub IsShown : Str → Type 0
IsShown l = trim_space l ≢ []

-- The first line is shown, where there is one.
abbrev pub StartsShown : List Str → Type 0
StartsShown [] = Unit {0}
StartsShown (l ∷ ls) = IsShown l

-- The last line is shown, where there is one.
abbrev pub EndsShown : List Str → Type 0
EndsShown [] = Unit {0}
EndsShown (l ∷ []) = IsShown l
EndsShown (l ∷ m ∷ ls) = EndsShown (m ∷ ls)

-- An empty text, or one whose first and last line are not blank.
abbrev pub IsTrimmed : Str → Type 0
IsTrimmed s = (s ≡ []) ⊎ (StartsShown (split s newline) × EndsShown (split s newline))

shown_lem : (l : Str) → is_blank l ≡ false → IsShown l
unfolding is_blank
shown_lem l h = ground arith

drop_blank_front-StartsShown : (ls : List Str) → StartsShown (drop_blank_front ls)
unfolding drop_blank_front
drop_blank_front-StartsShown [] = tt
drop_blank_front-StartsShown (l ∷ ls) = elim (Bool-cases (is_blank l)) [
  | inl e ↦ rw e (drop_blank_front-StartsShown ls)
  | inr e ↦ rw e (shown_lem l e)
]

keep_before-StartsShown : (l : Str) (ls : List Str) → IsShown l → StartsShown (keep_before l ls)
unfolding keep_before
keep_before-StartsShown l [] h = elim (Bool-cases (is_blank l)) [ inl e ↦ rw e tt | inr e ↦ rw e h ]
keep_before-StartsShown l (m ∷ ls) h = h

drop_blank_back-StartsShown : (ls : List Str) → StartsShown ls → StartsShown (drop_blank_back ls)
unfolding drop_blank_back
drop_blank_back-StartsShown [] h = tt
drop_blank_back-StartsShown (l ∷ ls) h = keep_before-StartsShown l (drop_blank_back ls) h

keep_before-EndsShown : (l : Str) (ls : List Str) → EndsShown ls → EndsShown (keep_before l ls)
unfolding keep_before
keep_before-EndsShown l [] h = elim (Bool-cases (is_blank l)) [
  | inl e ↦ rw e tt
  | inr e ↦ rw e (shown_lem l e)
]
keep_before-EndsShown l (m ∷ ls) h = h

drop_blank_back-EndsShown : (ls : List Str) → EndsShown (drop_blank_back ls)
unfolding drop_blank_back
drop_blank_back-EndsShown [] = tt
drop_blank_back-EndsShown (l ∷ ls) =
    keep_before-EndsShown l (drop_blank_back ls) (drop_blank_back-EndsShown ls)

joined-IsTrimmed :
    (ls : List Str)
    → All (Without newline) ls
    → StartsShown ls
    → EndsShown ls
    → IsTrimmed (join_by ls newline)
joined-IsTrimmed [] h starts ends = unfold join in inl refl
joined-IsTrimmed (l ∷ ls) h starts ends =
    inr (rw (split-join newline (l ∷ ls) (λ x. cc) h) (starts, ends))

trim_blank_lines-IsTrimmed : (s : Str) → IsTrimmed (trim_blank_lines s)
trim_blank_lines-IsTrimmed s =
    let front = drop_blank_front (split s newline) in
    unfold trim_blank_lines in
    joined-IsTrimmed (drop_blank_back front) (trimmed-Without s)
      (drop_blank_back-StartsShown front (drop_blank_front-StartsShown (split s newline)))
      (drop_blank_back-EndsShown front)

-- The sanitized text is empty, or its first and its last line each hold a byte that is not white
-- space.
pub sanitize-IsTrimmed :
    (config : Config) (req : Request) (raw : Str) → IsTrimmed (sanitize config req raw)
unfolding sanitize
sanitize-IsTrimmed config req raw =
    let limited =
      limit_lines (unwrapped req raw) (max_lines_for_intent req.intent config.max_lines) in
    ground (arith, trim_blank_lines-IsTrimmed (limit_chars limited config.max_chars))
