-- ===== src/Completion/Policy.antt =====
-- api/internal/completion/policy.go: what an intent allows.
pub mod Limits
use deins_complete.Prelude.{
  ◌&&◌, ℕ, Bool, true, false, ◌||◌, Option, none, some, List, [], ◌∷◌, ◌++◌, ltb, if◌then◌else◌,
}
use deins_complete.Prelude.Int.{ℤ, pos, ltb_ℤ}
use deins_complete.Prelude.Text.{Str, str, str_eq}
use deins_complete.Completion.Types.{CodeStyle}

-- The keys of `validIntents`.
unfoldable pub valid_intents : List Str
valid_intents =
    []
    ∷ str "component-props"
    ∷ str "member-access"
    ∷ str "function-arguments"
    ∷ str "tailwind-class"
    ∷ str "object-fields"
    ∷ str "import"
    ∷ str "function-body"
    ∷ str "condition-expression"
    ∷ str "type-definition"
    ∷ str "general"
    ∷ []

unfoldable pub is_one_of : Str → List Str → Bool
is_one_of s [] = false
is_one_of s (t ∷ ts) = str_eq s t || is_one_of s ts

unfoldable pub valid_intent : Str → Bool
unfolding is_one_of valid_intents
valid_intent intent = is_one_of intent valid_intents

unfoldable pub min_int : ℤ → ℤ → ℤ
min_int a b = if ltb_ℤ a b then a else b

unfoldable pub max_tokens_for_intent : Str → ℤ → ℤ
unfolding is_one_of
max_tokens_for_intent intent configured =
    let limit =
      if str_eq intent (str "member-access")
      then pos 48
      else if is_one_of intent (
          str "function-arguments"
          ∷ str "tailwind-class"
          ∷ str "import"
          ∷ str "condition-expression"
          ∷ [])
      then pos 64
      else if str_eq intent (str "component-props")
      then pos 96
      else if str_eq intent (str "object-fields")
      then pos 128
      else if str_eq intent (str "type-definition")
      then pos 160
      else configured in
    if ltb_ℤ configured limit then configured else limit

unfoldable pub max_lines_for_intent : Str → ℤ → ℤ
unfolding is_one_of min_int
max_lines_for_intent intent configured =
    if is_one_of intent (
      str "member-access"
      ∷ str "function-arguments"
      ∷ str "tailwind-class"
      ∷ str "import"
      ∷ str "condition-expression"
      ∷ [])
    then min_int configured (pos 1)
    else if str_eq intent (str "component-props")
    then min_int configured (pos 2)
    else if str_eq intent (str "object-fields")
    then min_int configured (pos 8)
    else if str_eq intent (str "type-definition")
    then min_int configured (pos 12)
    else configured

-- MaxLinesForIntent(intent, 2) == 1
unfoldable pub single_line_intent : Str → Bool
unfolding max_lines_for_intent
single_line_intent intent = elim (max_lines_for_intent intent (pos 2)) [
  | pos n ↦ ltb 0 n && ltb n 2
  | ℤ.negsuc n ↦ false
]
