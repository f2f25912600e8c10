-- ===== src/Sanitizer/Bounds.antt =====
-- The text that is offered stays within the configured sizes.
use deins_complete.Prelude.{
  true, ◌∷◌, ℕ, zero, suc, ◌-◌, ◌⊎◌, ◌≤◌, ◌<◌, ◌≡◌, refl, [], length, arith, inl, inr,
}
use deins_complete.Prelude.Int.{ℤ, pos, negsuc, ltb_ℤ, to_ℕ}
use deins_complete.Prelude.Text.{Str}
use deins_complete.Prelude.Text.Search.{count}
use deins_complete.Prelude.Text.Laws.{count-take}
use deins_complete.Completion.Types.{Request}
use deins_complete.Completion.Policy.{max_lines_for_intent}
use deins_complete.Sanitizer.{
  Config, sanitize, unwrapped, newline, limit_lines, limit_chars, trim_blank_lines,
}
use deins_complete.Sanitizer.Lines.{
  length-trim_blank_lines, count-trim_blank_lines, count-limit_lines, limit_chars-take,
}

length-limit_chars : (s : Str) (most : ℕ) → length (limit_chars s most) ≤ most
length-limit_chars s most = let (k, e, h) = limit_chars-take s most in rw e h

count-limit_chars : (s : Str) (most : ℕ) → count (limit_chars s most) newline ≤ count s newline
count-limit_chars s most = let (k, e, h) = limit_chars-take s most in rw e (count-take newline k s)

-- The sanitized text has at most the configured number of characters.
pub length-sanitize :
    (config : Config) (req : Request) (raw : Str)
    → length (sanitize config req raw) ≤ config.max_chars
unfolding sanitize
length-sanitize config req raw =
    let limited =
      limit_lines (unwrapped req raw) (max_lines_for_intent req.intent config.max_lines) in
    ground (
      arith,
      length-trim_blank_lines (limit_chars limited config.max_chars),
      length-limit_chars limited config.max_chars,
    )

count-nil : count [] newline ≡ 0
unfolding count
count-nil = refl

limit_lines_none : (s : Str) (n : ℤ) → ltb_ℤ n (pos 1) ≡ true → limit_lines s n ≡ []
unfolding limit_lines
limit_lines_none s (negsuc n) h = refl
limit_lines_none s (pos zero) h = refl
limit_lines_none s (pos (suc n)) h = ground arith

limit_chars-nil : (most : ℕ) → limit_chars [] most ≡ []
unfolding limit_chars
limit_chars-nil most = ground arith

pub trim_blank_lines-nil : trim_blank_lines [] ≡ []
trim_blank_lines-nil = list_of_length (trim_blank_lines []) (length-trim_blank_lines [])
  where
    list_of_length : (s : Str) → length s ≤ 0 → s ≡ []
    list_of_length [] h = refl
    list_of_length (x ∷ s) h = absurd (omega arith)

lines_lem :
    (config : Config) (req : Request) (raw : Str)
    → ((n : ℕ)
        → max_lines_for_intent req.intent config.max_lines ≡ pos (suc n)
        → count (sanitize config req raw) newline ≤ n)
      × (ltb_ℤ (max_lines_for_intent req.intent config.max_lines) (pos 1) ≡ true
          → sanitize config req raw ≡ [])
unfolding sanitize
lines_lem config req raw = (
  λ n allowed.
      let limited = limit_lines (unwrapped req raw) (pos (suc n)) in
      rw allowed (
        ground (
          arith,
          count-trim_blank_lines (limit_chars limited config.max_chars),
          count-limit_chars limited config.max_chars,
          count-limit_lines (unwrapped req raw) n,
          count-nil,
        )),
  λ h.
      rw (limit_lines_none (unwrapped req raw) _ h, limit_chars-nil, trim_blank_lines-nil)
        (ground arith),
)

breaks_lem :
    (s : Str) (most : ℤ)
    → ((n : ℕ) → most ≡ pos (suc n) → count s newline ≤ n)
    → (ltb_ℤ most (pos 1) ≡ true → s ≡ [])
    → (count s newline ≤ to_ℕ most - 1) × ((0 < to_ℕ most) ⊎ (s ≡ []))
breaks_lem s (pos zero) h k = rw (k refl) (rw count-nil (omega arith), inr refl)
breaks_lem s (pos (suc n)) h k = (omega (arith, h n refl), inl (omega arith))
breaks_lem s (negsuc n) h k = rw (k refl) (rw count-nil (omega arith), inr refl)

-- The sanitized text has at most the lines that its intent allows: fewer line breaks than lines are
-- allowed, and no text at all where none is allowed.
pub lines-sanitize :
    (config : Config) (req : Request) (raw : Str)
    → let most = to_ℕ (max_lines_for_intent req.intent config.max_lines) in
      (count (sanitize config req raw) newline ≤ most - 1)
      × ((0 < most) ⊎ (sanitize config req raw ≡ []))
lines-sanitize config req raw =
    let (some_lines, no_lines) = lines_lem config req raw in
    breaks_lem (sanitize config req raw) (max_lines_for_intent req.intent config.max_lines)
      some_lines no_lines
