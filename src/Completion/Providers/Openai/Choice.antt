-- ===== src/Completion/Providers/Openai/Choice.antt =====
-- Which candidate is chosen.
use mathlib.Core.List.{Memᴰ}
use mathlib.Core.List.Memᴰ.{head, tail}
use deins_complete.Prelude.{
  ℕ, ◌-◌, ◌^◌, ◌≤◌, ◌<◌, ◌≡◌, refl, sym, ◌∙◌, ◌⊎◌, inl, inr, true, false, List, [], ◌∷◌, ltb,
  ltb→lt, ltb_false→le, arith, Bool-cases,
}
use deins_complete.Prelude.Lists.{All}
use deins_complete.Prelude.Text.{Str, is_empty}
use deins_complete.Prelude.Text.Space.{trim_space}
use deins_complete.Completion.Types.{Request}
use deins_complete.Completion.Providers.Openai.{
  ChatChoice, candidate_penalty, best_from, best_choice,
}

abbrev pub IsBlank : ChatChoice → Type 0
IsBlank c = is_empty (trim_space c.content) ≡ true

abbrev pub penalty : Request → ChatChoice → ℕ
penalty request c = candidate_penalty request (trim_space c.content)

-- A text of one of the choices that is not blank, at a cost that no other such choice is below.
pub record Best (request : Request) (choices : List ChatChoice) (text : Str) : Type 0 where
  pub choice : ChatChoice
  pub offered : Memᴰ choice choices
  pub is_text : choice.content ≡ text
  pub not_blank : is_empty (trim_space choice.content) ≡ false
  pub least : All (λ c. IsBlank c ⊎ (penalty request choice ≤ penalty request c)) choices

module _ (request : Request) where
  -- What the loop ends with, from a text and its score.
  Found : Str → ℕ → List ChatChoice → Str → Type 0
  Found best score choices text =
      ((text ≡ best) × All (λ c. IsBlank c ⊎ (score ≤ penalty request c)) choices)
      ⊎ ((choice : ChatChoice) × Memᴰ choice choices
          × (choice.content ≡ text)
          × (is_empty (trim_space choice.content) ≡ false)
          × (penalty request choice < score)
          × All (λ c. IsBlank c ⊎ (penalty request choice ≤ penalty request c)) choices)

  blank_skipped :
      (best : Str) (score : ℕ) (c : ChatChoice) (cs : List ChatChoice)
      → IsBlank c
      → best_from request best score (c ∷ cs) ≡ best_from request best score cs
  unfolding best_from
  blank_skipped best score c cs blank = rw blank refl

  worse_skipped :
      (best : Str) (score : ℕ) (c : ChatChoice) (cs : List ChatChoice)
      → is_empty (trim_space c.content) ≡ false
      → ltb (penalty request c) score ≡ false
      → best_from request best score (c ∷ cs) ≡ best_from request best score cs
  unfolding best_from
  worse_skipped best score c cs full worse = rw (full, worse) refl

  better_taken :
      (best : Str) (score : ℕ) (c : ChatChoice) (cs : List ChatChoice)
      → is_empty (trim_space c.content) ≡ false
      → ltb (penalty request c) score ≡ true
      → best_from request best score (c ∷ cs) ≡ best_from request c.content (penalty request c) cs
  unfolding best_from
  better_taken best score c cs full better = rw (full, better) refl

  best_from-Found :
      (best : Str) (score : ℕ) (choices : List ChatChoice)
      → Found best score choices (best_from request best score choices)
  unfolding best_from Found
  best_from-Found best score [] = inl (refl, tt)
  best_from-Found best score (c ∷ cs) = elim (Bool-cases (is_empty (trim_space c.content))) [
    | inl blank ↦ elim (best_from-Found best score cs) [
      | inl (e, all) ↦ inl (blank_skipped best score c cs blank ∙ e, (inl blank, all))
      | inr (x, m, e, n, l, all) ↦
          inr (x, tail m, e ∙ sym (blank_skipped best score c cs blank), n, l, (inl blank, all))
    ]
    | inr full ↦ elim (Bool-cases (ltb (penalty request c) score)) [
      | inl better ↦
          let taken = better_taken best score c cs full better in
          let below = ltb→lt (penalty request c) score better in
          elim (best_from-Found c.content (penalty request c) cs) [
            | inl (e, all) ↦
                inr (c, head refl, sym (taken ∙ e), full, below, (inr (omega arith), all))
            | inr (x, m, e, n, l, all) ↦
                inr (x, tail m, e ∙ sym taken, n, omega arith, (inr (omega arith), all))
          ]
      | inr worse ↦
          let skipped = worse_skipped best score c cs full worse in
          let above = ltb_false→le (penalty request c) score worse in
          elim (best_from-Found best score cs) [
            | inl (e, all) ↦ inl (skipped ∙ e, (inr above, all))
            | inr (x, m, e, n, l, all) ↦
                inr (x, tail m, e ∙ sym skipped, n, l, (inr (omega arith), all))
          ]
    ]
  ]

  blank_lem :
      (choices : List ChatChoice)
      → All (λ c. penalty request c < 2 ^ 63 - 1) choices
      → All (λ c. IsBlank c ⊎ (2 ^ 63 - 1 ≤ penalty request c)) choices
      → All IsBlank choices
  blank_lem [] small all = tt
  blank_lem (c ∷ cs) (s, small) (inl blank, all) = (blank, blank_lem cs small all)
  blank_lem (c ∷ cs) (s, small) (inr large, all) = absurd (omega arith)

  -- The text that is chosen is that of a choice that is not blank and costs the least of these, or
  -- empty where all are blank, if no cost reaches the greatest int.
  pub best_choice-Best :
      (choices : List ChatChoice)
      → All (λ c. penalty request c < 2 ^ 63 - 1) choices
      → ((best_choice request choices ≡ []) × All IsBlank choices)
        ⊎ Best request choices (best_choice request choices)
  unfolding best_choice Found
  best_choice-Best choices small = elim (best_from-Found [] (2 ^ 63 - 1) choices) [
    | inl (e, all) ↦ inl (e, blank_lem choices small all)
    | inr (x, m, e, n, _, all) ↦
        inr (record { choice = x; offered = m; is_text = e; not_blank = n; least = all })
  ]
