-- ===== src/Completion/Policy/Limits.antt =====
-- The limits of policy.go: a table by intent under the configured limit, and their agreement with
-- the intents that complete a single line.
use deins_complete.Prelude.{
  ℕ, ◌≤◌, ◌≡◌, true, false, ◌⊎◌, arith, if◌then◌else◌, List, [], ◌∷◌, Option, none, some,
}
use deins_complete.Prelude.Int.{ℤ, to_ℕ, pos, negsuc}
use deins_complete.Prelude.Text.{Str, str, str_eq}
use deins_complete.Completion.Policy.{
  min_int, max_tokens_for_intent, max_lines_for_intent, single_line_intent,
}

-- The limit that a table of intents gives.
unfoldable pub limit_in : List (Str × ℕ) → Str → Option ℕ
limit_in [] intent = none
limit_in ((key, limit) ∷ table) intent =
    if str_eq intent key then some limit else limit_in table intent

abbrev pub capped : ℤ → Option ℕ → ℤ
capped configured none = configured
capped configured (some limit) = min_int configured (pos limit)

abbrev pub token_limits : List (Str × ℕ)
token_limits =
    (str "member-access", 48)
    ∷ (str "function-arguments", 64)
    ∷ (str "tailwind-class", 64)
    ∷ (str "import", 64)
    ∷ (str "condition-expression", 64)
    ∷ (str "component-props", 96)
    ∷ (str "object-fields", 128)
    ∷ (str "type-definition", 160)
    ∷ []

min_int_refl : (a : ℤ) → min_int a a ≡ a
unfolding min_int
min_int_refl (pos n) = ground arith
min_int_refl (negsuc n) = ground arith

-- The token limit of an intent is the smaller of the configured limit and its entry in the table,
-- and the configured limit where the table has no entry.
pub max_tokens-table :
    (intent : Str) (configured : ℤ)
    → max_tokens_for_intent intent configured ≡ capped configured (limit_in token_limits intent)
unfolding max_tokens_for_intent limit_in min_int
max_tokens-table intent (pos n) = ground arith
max_tokens-table intent (negsuc n) = ground arith

-- No intent has more lines than are configured. Where two at least are configured, a single-line
-- intent has exactly one and any other intent two at least.
pub single_line-max_lines :
    (intent : Str) (configured : ℕ)
    → 2 ≤ configured
    → let lines = max_lines_for_intent intent (pos configured) in
      (to_ℕ lines ≤ configured)
      × (((single_line_intent intent ≡ true) × (lines ≡ pos 1))
          ⊎ ((single_line_intent intent ≡ false) × (2 ≤ to_ℕ lines)))
unfolding max_lines_for_intent single_line_intent
single_line-max_lines intent c h = (ground arith, ground arith)
