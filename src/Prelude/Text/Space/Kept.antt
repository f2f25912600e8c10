-- ===== src/Prelude/Text/Space/Kept.antt =====
-- Trimming white space keeps bytes of the text only.
use Prim.Native.Nat.{ℕ, zero, suc}
use mathlib.Core.List.{[], ◌∷◌, reverse, reverse_aux}
use deins_complete.Prelude.Lists.{All}
use deins_complete.Prelude.Text.Equality.{Str}
use deins_complete.Prelude.Text.Space.{
  space_len, space_len_back, skip_space, skip_space_back, trim_space,
}

module _ (P : ℕ → Type 0) where
  All-reverse_aux : (s t : Str) → All P s → All P t → All P (reverse_aux s t)
  All-reverse_aux [] t h k = k
  All-reverse_aux (x ∷ s) t (p, h) k = All-reverse_aux s (x ∷ t) h (p, k)

  skip_space-All : (n : ℕ) (s : Str) → All P s → All P (skip_space n s)
  unfolding skip_space
  skip_space-All zero [] h = tt
  skip_space-All (suc n) [] h = tt
  skip_space-All (suc n) (x ∷ s) (p, h) = skip_space-All n s h
  skip_space-All zero (x ∷ s) (p, h) =
      (elim (space_len (x ∷ s)) as (λ m. All P (elim m [ zero ↦ x ∷ s | suc n ↦ skip_space n s ])) [
        | zero ↦ (p, h)
        | suc n ↦ skip_space-All n s h
      ])

  skip_space_back-All : (n : ℕ) (s : Str) → All P s → All P (skip_space_back n s)
  unfolding skip_space_back
  skip_space_back-All zero [] h = tt
  skip_space_back-All (suc n) [] h = tt
  skip_space_back-All (suc n) (x ∷ s) (p, h) = skip_space_back-All n s h
  skip_space_back-All zero (x ∷ s) (p, h) =
      (elim (space_len_back (x ∷ s))
        as (λ m. All P (elim m [ zero ↦ x ∷ s | suc n ↦ skip_space_back n s ])) [
          | zero ↦ (p, h)
          | suc n ↦ skip_space_back-All n s h
        ])

  pub trim_space-All : (s : Str) → All P s → All P (trim_space s)
  unfolding trim_space
  trim_space-All s h =
      let front = skip_space 0 s in
      let back = skip_space_back 0 (reverse front) in
      All-reverse_aux back []
        (skip_space_back-All 0 (reverse front) (All-reverse_aux front [] (skip_space-All 0 s h) tt))
        tt
