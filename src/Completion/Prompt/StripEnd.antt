-- ===== src/Completion/Prompt/StripEnd.antt =====
-- The end token of a model is taken off the end of its text.
use deins_complete.Prelude.{
  ◌-◌, ◌≡◌, refl, ap, true, [], ◌∷◌, ◌++◌, leb, length, take, drop, length-append, arith,
}
use deins_complete.Prelude.Text.{Str, str_eq_refl}
use deins_complete.Completion.Prompt.{strip_end}

take-append : (s t : Str) → take (length s) (s ++ t) ≡ s
take-append [] t = refl
take-append (x ∷ s) t = ap (λ r. x ∷ r) (take-append s t)

drop-append : (s t : Str) → drop (length s) (s ++ t) ≡ t
drop-append [] t = refl
drop-append (x ∷ s) t = drop-append s t

append_nil : (s : Str) → s ++ [] ≡ s
append_nil [] = refl
append_nil (x ∷ s) = ap (λ r. x ∷ r) (append_nil s)

-- Stripping the end token from a text that ends with it gives the text before it.
pub strip_end-append : (text end : Str) → strip_end (text ++ end) end ≡ text
unfolding strip_end
strip_end-append text [] = append_nil text
strip_end-append text (x ∷ end) =
    let cut : length (text ++ x ∷ end) - length (x ∷ end) ≡ length text =
      omega (arith, length-append text (x ∷ end)) in
    let fits : leb (length (x ∷ end)) (length (text ++ x ∷ end)) ≡ true =
      ground (arith, length-append text (x ∷ end)) in
    rw (cut, fits, drop-append text (x ∷ end), str_eq_refl (x ∷ end)) (take-append text (x ∷ end))
