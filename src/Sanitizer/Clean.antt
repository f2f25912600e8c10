-- ===== src/Sanitizer/Clean.antt =====
-- No carriage return reaches the text that is offered: every step keeps bytes of the text, or adds
-- line breaks.
use deins_complete.Prelude.{
  ℕ, zero, suc, ◌-◌, ◌≢◌, [], ◌∷◌, List, length, take, drop, All, All-take, All-drop, All-append,
  arith, Bool, true, false, Bool-cases, Option-cases, ltb, inl, inr, if◌then◌else◌, ◌==◌,
}
use deins_complete.Prelude.Int.{ℤ, pos, negsuc}
use deins_complete.Prelude.Text.{Str, str, str_eq}
use deins_complete.Prelude.Text.Search.{
  split, join, trim_prefix, trim_suffix, replace_crlf, replace_cr, has_prefix, has_suffix, index,
  cons_head,
}
use deins_complete.Prelude.Text.Space.{trim_space}
use deins_complete.Prelude.Text.Space.Kept.{trim_space-All}
use deins_complete.Prelude.Text.Laws.{Without}
use deins_complete.Completion.Types.{Request}
use deins_complete.Completion.Policy.{max_lines_for_intent}
use deins_complete.Sanitizer.{
  Config, newline, sanitize, unwrapped, wrong_language, normalize_newlines, fence_body, strip_fence,
  explanation_dropped, strip_explanation, trim_blank_lines, drop_blank_front, drop_blank_back,
  collapse_from, collapse_blank_lines, overlap, overlap_limit, prefix_removed, is_explanation,
  remove_prefix_overlap, suffix_cut, remove_suffix_overlap, limit_lines, limit_chars,
}
use deins_complete.Sanitizer.Lines.{
  drop_blank_front-All, drop_blank_back-All, collapse_from-All, limit_chars-take,
}

-- No byte of the text is a carriage return.
abbrev pub Clean : Str → Type 0
Clean = Without 13

replace_cr-Clean : (s : Str) → Clean (replace_cr s)
unfolding replace_cr
replace_cr-Clean [] = tt
replace_cr-Clean (x ∷ s) = (ground arith, replace_cr-Clean s)

normalize_newlines-Clean : (s : Str) → Clean (normalize_newlines s)
unfolding normalize_newlines
normalize_newlines-Clean s = replace_cr-Clean (replace_crlf s)

if-Clean : (b : Bool) (s t : Str) → Clean s → Clean t → Clean (if b then s else t)
if-Clean true s t h k = h
if-Clean false s t h k = k

take-Clean : (n : ℕ) (s : Str) → Clean s → Clean (take n s)
take-Clean = All-take (λ x. x ≢ 13)

drop-Clean : (n : ℕ) (s : Str) → Clean s → Clean (drop n s)
drop-Clean = All-drop (λ x. x ≢ 13)

trim_suffix-Clean : (s p : Str) → Clean s → Clean (trim_suffix s p)
unfolding trim_suffix
trim_suffix-Clean s p h =
    if-Clean (has_suffix s p) (take (length s - length p) s) s
      (take-Clean (length s - length p) s h) h

trim_prefix-Clean : (s p : Str) → Clean s → Clean (trim_prefix s p)
unfolding trim_prefix
trim_prefix-Clean s p h =
    if-Clean (has_prefix s p) (drop (length p) s) s (drop-Clean (length p) s h) h

cons_head-Clean : (x : ℕ) (ls : List Str) → x ≢ 13 → All Clean ls → All Clean (cons_head x ls)
cons_head-Clean x [] p h = ((p, tt), tt)
cons_head-Clean x (l ∷ ls) p (k, h) = ((p, k), h)

split-Clean : (s : Str) (c : ℕ) → Clean s → All Clean (split s c)
unfolding split
split-Clean [] c h = (tt, tt)
split-Clean (x ∷ s) c (p, h) = elim (Bool-cases (x == c)) [
  | inl e ↦ rw e (tt, split-Clean s c h)
  | inr e ↦ rw e (cons_head-Clean x (split s c) p (split-Clean s c h))
]

join-Clean : (ls : List Str) → All Clean ls → Clean (join ls (newline ∷ []))
unfolding join
join-Clean [] h = tt
join-Clean (l ∷ []) (p, _) = p
join-Clean (l ∷ m ∷ ls) (p, h) =
    All-append (λ x. x ≢ 13) l (newline ∷ join (m ∷ ls) (newline ∷ [])) p
      (omega arith, join-Clean (m ∷ ls) h)

fence_body-Clean : (s : Str) → Clean s → Clean (fence_body s)
unfolding fence_body
fence_body-Clean s h = elim (Option-cases (index s (newline ∷ str "```"))) [
  | inl e ↦ rw (e, fence_body) (trim_suffix-Clean s (str "```") h)
  | inr (n, e) ↦ rw (e, fence_body) (take-Clean n s h)
]

strip_fence-Clean : (s : Str) → Clean s → Clean (strip_fence s)
unfolding strip_fence
strip_fence-Clean s h =
    let t = trim_space s in
    let kept = trim_space-All (λ x. x ≢ 13) s h in
    elim (Bool-cases (has_prefix t (str "```"))) [
      | inr e ↦ rw e (trim_suffix-Clean s (newline ∷ str "```") h)
      | inl e ↦ rw e (elim (Option-cases (index t (newline ∷ []))) [
        | inl none_found ↦ rw none_found tt
        | inr (n, found) ↦ rw found (fence_body-Clean (drop (suc n) t) (drop-Clean (suc n) t kept))
      ])
    ]

explanation_dropped-Clean :
    (s : Str) (ls : List Str) → Clean s → All Clean ls → Clean (explanation_dropped s ls)
unfolding explanation_dropped
explanation_dropped-Clean s (l ∷ m ∷ ls) h (_, k) =
    if-Clean (is_explanation l) (join (m ∷ ls) (newline ∷ [])) s (join-Clean (m ∷ ls) k) h
explanation_dropped-Clean s (l ∷ []) h k = h
explanation_dropped-Clean s [] h k = h

strip_explanation-Clean : (s : Str) → Clean s → Clean (strip_explanation s)
unfolding strip_explanation
strip_explanation-Clean s h =
    explanation_dropped-Clean s (split s newline) h (split-Clean s newline h)

trim_blank_lines-Clean : (s : Str) → Clean s → Clean (trim_blank_lines s)
unfolding trim_blank_lines
trim_blank_lines-Clean s h =
    let ls = split s newline in
    join-Clean (drop_blank_back (drop_blank_front ls)) (
      drop_blank_back-All Clean (drop_blank_front ls)
        (drop_blank_front-All Clean ls (split-Clean s newline h)))

collapse_blank_lines-Clean : (s : Str) → Clean s → Clean (collapse_blank_lines s)
unfolding collapse_blank_lines
collapse_blank_lines-Clean s h =
    let ls = split s newline in
    join-Clean (collapse_from 0 ls) (collapse_from-All Clean 0 ls (split-Clean s newline h))

prefix_removed-Clean : (n : ℕ) (s : Str) → Clean s → Clean (prefix_removed n s)
unfolding prefix_removed
prefix_removed-Clean zero s h = h
prefix_removed-Clean (suc n) s h =
    trim_prefix-Clean (drop (suc n) s) (b' ' ∷ []) (drop-Clean (suc n) s h)

remove_prefix_overlap-Clean : (p s : Str) → Clean s → Clean (remove_prefix_overlap p s)
unfolding remove_prefix_overlap
remove_prefix_overlap-Clean p s h = prefix_removed-Clean (overlap p s) s h

suffix_cut-Clean : (n : ℕ) (s t : Str) → Clean s → Clean (suffix_cut n s t)
unfolding suffix_cut
suffix_cut-Clean zero s t h = h
suffix_cut-Clean (suc zero) s t h = h
suffix_cut-Clean (suc (suc n)) s t h =
    let k = suc (suc n) in
    if-Clean (str_eq (drop (length s - k) s) (take k t)) (take (length s - k) s)
      (suffix_cut (suc n) s t) (take-Clean (length s - k) s h) (suffix_cut-Clean (suc n) s t h)

remove_suffix_overlap-Clean : (s t : Str) → Clean s → Clean (remove_suffix_overlap s t)
unfolding remove_suffix_overlap
remove_suffix_overlap-Clean s t h = suffix_cut-Clean (overlap_limit s t) s t h

limit_lines-Clean : (s : Str) (n : ℤ) → Clean s → Clean (limit_lines s n)
unfolding limit_lines
limit_lines-Clean s (negsuc n) h = tt
limit_lines-Clean s (pos zero) h = tt
limit_lines-Clean s (pos (suc n)) h =
    let ls = split s newline in
    let clean = split-Clean s newline h in
    elim (Bool-cases (ltb (suc n) (length ls))) [
      | inl e ↦ rw e (join-Clean (take (suc n) ls) (All-take Clean (suc n) ls clean))
      | inr e ↦ rw e (join-Clean ls clean)
    ]

limit_chars-Clean : (s : Str) (most : ℕ) → Clean s → Clean (limit_chars s most)
limit_chars-Clean s most h = let (k, e, _) = limit_chars-take s most in rw e (take-Clean k s h)

unwrapped-Clean : (req : Request) (raw : Str) → Clean (unwrapped req raw)
unfolding unwrapped
unwrapped-Clean req raw = collapse_blank_lines-Clean _ (
    trim_blank_lines-Clean _ (
      remove_suffix_overlap-Clean _ _ (
        remove_prefix_overlap-Clean _ _ (
          trim_blank_lines-Clean _
            (strip_explanation-Clean _ (strip_fence-Clean _ (normalize_newlines-Clean raw)))))))

-- Whatever the provider's text, the sanitized text holds no carriage return.
pub sanitize-Clean : (config : Config) (req : Request) (raw : Str) → Clean (sanitize config req raw)
unfolding sanitize
sanitize-Clean config req raw =
    let text = unwrapped req raw in
    let most = max_lines_for_intent req.intent config.max_lines in
    let cut = limit_chars (limit_lines text most) config.max_chars in
    if-Clean (wrong_language req.context.language text) [] (trim_blank_lines cut) tt (
      trim_blank_lines-Clean cut (
        limit_chars-Clean (limit_lines text most) config.max_chars
          (limit_lines-Clean text most (unwrapped-Clean req raw))))
