-- ===== src/Sanitizer.antt =====
-- api/internal/completion/sanitizer/sanitizer.go: from a provider's raw text to the text that is
-- offered at the cursor. `sanitize` composes the steps in the order of `Sanitize`.
pub mod Lines
pub mod Bounds
pub mod Clean
pub mod Overlap
pub mod Trimmed
mod Tests
use deins_complete.Prelude.{
  ℕ, zero, suc, ◌-◌, Bool, true, false, ◌||◌, Option, none, some, List, [], ◌∷◌, leb, ltb, ◌==◌,
  if◌then◌else◌, length, take, drop, min,
}
use deins_complete.Prelude.Int.{ℤ, pos, negsuc}
use deins_complete.Prelude.Text.{Str, str, str_eq}
use deins_complete.Prelude.Text.Search.{
  has_prefix, trim_prefix, trim_suffix, index, last_index, split, join, replace_crlf, replace_cr,
}
use deins_complete.Prelude.Text.Space.{trim_space, to_lower}
use deins_complete.Completion.Types.{Request}
use deins_complete.Completion.Policy.{is_one_of, max_lines_for_intent}

-- The configuration accepts 100 to 20000 characters, so `max_chars` is a natural number.
pub record Config : Type 0 where
  pub max_lines : ℤ
  pub max_chars : ℕ

abbrev pub newline : ℕ
newline = 10

pub normalize_newlines : Str → Str
unfolding replace_crlf replace_cr
normalize_newlines s = replace_cr (replace_crlf s)

-- strings.TrimSpace(line) == ""
pub is_blank : Str → Bool
unfolding trim_space
is_blank line = elim (trim_space line) [ [] ↦ true | _ ∷ _ ↦ false ]

pub wrong_language : Str → Str → Bool
unfolding is_one_of has_prefix trim_space to_lower
wrong_language language text =
    let lower = to_lower (trim_space text) in
    let name = to_lower language in
    if is_one_of name
      (str "typescript" ∷ str "typescriptreact" ∷ str "javascript" ∷ str "javascriptreact" ∷ [])
    then has_prefix lower (str "def ")
      || has_prefix lower (str "package main")
      || has_prefix lower (str "func ")
    else if str_eq name (str "python")
    then has_prefix lower (str "package main")
      || has_prefix lower (str "func ")
      || has_prefix lower (str "const ")
    else if str_eq name (str "go")
    then has_prefix lower (str "def ") || has_prefix lower (str "import {")
    else false

-- What stands behind the opening line of a fence.
pub fence_body : Str → Str
unfolding index trim_suffix
fence_body rest = elim (index rest (newline ∷ str "```")) [
  | some end ↦ take end rest
  | none ↦ trim_suffix rest (str "```")
]

pub strip_fence : Str → Str
unfolding has_prefix index trim_suffix trim_space fence_body
strip_fence s =
    let t = trim_space s in
    if has_prefix t (str "```")
    then elim (index t (newline ∷ [])) [ none ↦ [] | some first ↦ fence_body (drop (suc first) t) ]
    else trim_suffix s (newline ∷ str "```")

abbrev pub is_explanation : Str → Bool
is_explanation line = is_one_of (to_lower (trim_space line)) (
    str "here is the completion:"
    ∷ str "the code should be:"
    ∷ str "you can use:"
    ∷ str "completion:"
    ∷ str "typescript:"
    ∷ str "typescript"
    ∷ [])

-- `text` is the text whose lines are given.
pub explanation_dropped : Str → List Str → Str
unfolding is_one_of to_lower trim_space join
explanation_dropped text (line ∷ next ∷ lines) =
    if is_explanation line then join (next ∷ lines) (newline ∷ []) else text
explanation_dropped text _ = text

pub strip_explanation : Str → Str
unfolding explanation_dropped split
strip_explanation s = explanation_dropped s (split s newline)

pub drop_blank_front : List Str → List Str
unfolding is_blank
drop_blank_front [] = []
drop_blank_front (line ∷ lines) =
    let rest = drop_blank_front lines in if is_blank line then rest else line ∷ lines

-- A line before those that are kept: it goes too if none is kept and it is blank.
pub keep_before : Str → List Str → List Str
unfolding is_blank
keep_before line [] = if is_blank line then [] else line ∷ []
keep_before line (kept ∷ more) = line ∷ kept ∷ more

pub drop_blank_back : List Str → List Str
unfolding keep_before
drop_blank_back [] = []
drop_blank_back (line ∷ lines) = keep_before line (drop_blank_back lines)

pub trim_blank_lines : Str → Str
unfolding drop_blank_front drop_blank_back split join
trim_blank_lines s = join (drop_blank_back (drop_blank_front (split s newline))) (newline ∷ [])

-- The loop, with the number of blank lines just seen.
pub collapse_from : ℕ → List Str → List Str
unfolding is_blank
collapse_from blanks [] = []
collapse_from blanks (line ∷ lines) =
    let after_blank = collapse_from (suc blanks) lines in
    let after_text = collapse_from 0 lines in
    if is_blank line
    then (if ltb 1 (suc blanks) then after_blank else line ∷ after_blank)
    else line ∷ after_text

pub collapse_blank_lines : Str → Str
unfolding collapse_from split join
collapse_blank_lines s = join (collapse_from 0 (split s newline)) (newline ∷ [])

pub overlap_limit : Str → Str → ℕ
overlap_limit a b = min 1000 (min (length a) (length b))

-- The loop from `i` down to 1: the first length at which a's end is b's beginning.
pub overlap_from : ℕ → Str → Str → ℕ
unfolding str_eq
overlap_from zero a b = 0
overlap_from (suc i) a b =
    let rest = overlap_from i a b in
    if str_eq (drop (length a - suc i) a) (take (suc i) b) then suc i else rest

pub overlap : Str → Str → ℕ
unfolding overlap_from overlap_limit
overlap a b = overlap_from (overlap_limit a b) a b

-- `n` bytes of the text repeat the prefix: they go, with one space behind them.
pub prefix_removed : ℕ → Str → Str
unfolding trim_prefix
prefix_removed zero text = text
prefix_removed (suc n) text = trim_prefix (drop (suc n) text) (b' ' ∷ [])

pub remove_prefix_overlap : Str → Str → Str
unfolding overlap prefix_removed
remove_prefix_overlap prefix text = prefix_removed (overlap prefix text) text

-- The loop from `i` down to 2: the text without the end that begins the suffix.
pub suffix_cut : ℕ → Str → Str → Str
unfolding str_eq
suffix_cut zero text suffix = text
suffix_cut (suc zero) text suffix = text
suffix_cut (suc (suc i)) text suffix =
    let n = suc (suc i) in
    let rest = suffix_cut (suc i) text suffix in
    if str_eq (drop (length text - n) text) (take n suffix)
    then take (length text - n) text
    else rest

pub remove_suffix_overlap : Str → Str → Str
unfolding suffix_cut overlap_limit
remove_suffix_overlap text suffix = suffix_cut (overlap_limit text suffix) text suffix

pub limit_lines : Str → ℤ → Str
unfolding split join
limit_lines s (negsuc n) = []
limit_lines s (pos zero) = []
limit_lines s (pos (suc n)) =
    let lines = split s newline in
    join (if ltb (suc n) (length lines) then take (suc n) lines else lines) (newline ∷ [])

pub limit_chars : Str → ℕ → Str
unfolding last_index
limit_chars s most = if leb (length s) most then s else elim (last_index (take most s) newline) [
  | some (suc cut) ↦ take (suc cut) s
  | _ ↦ take most s
]

-- The text once fences, explanations and what the cursor's surroundings repeat are removed.
pub unwrapped : Request → Str → Str
unwrapped req raw =
    let prefix = normalize_newlines req.context.prefix in
    let suffix = normalize_newlines req.context.suffix in
    let text = trim_blank_lines (strip_explanation (strip_fence (normalize_newlines raw))) in
    collapse_blank_lines
      (trim_blank_lines (remove_suffix_overlap (remove_prefix_overlap prefix text) suffix))

unfoldable pub sanitize : Config → Request → Str → Str
sanitize config req raw =
    let text = unwrapped req raw in
    if wrong_language req.context.language text
    then []
    else trim_blank_lines (
        limit_chars (limit_lines text (max_lines_for_intent req.intent config.max_lines))
          config.max_chars)
