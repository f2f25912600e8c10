-- ===== src/Sanitizer/Lines.antt =====
-- What trimming, collapsing and limiting do to the lines of a text.
use deins_complete.Prelude.{
  ℕ, zero, suc, ◌+◌, ◌-◌, ◌≤◌, List, [], ◌∷◌, ltb, leb, length, take, All, All-take, ◌≡◌, refl, ap,
  arith, Bool-cases, Option-cases, sym, take_of_length, inl, inr, length-append, length-take,
}
use deins_complete.Prelude.Int.{pos}
use deins_complete.Prelude.Text.{Str}
use deins_complete.Prelude.Text.Search.{split, join, count, last_index}
use deins_complete.Prelude.Text.Laws.{
  Without, join_by, split-Without, join-split, length-split, count-join, last_index_lt,
}
use deins_complete.Sanitizer.{
  newline, is_blank, drop_blank_front, drop_blank_back, keep_before, trim_blank_lines, limit_lines,
  limit_chars, collapse_from,
}

-- Bytes that a text takes up behind a line: none, or a separator and the text.
abbrev behind : List Str → ℕ
behind [] = 0
behind (l ∷ ls) = suc (length (join_by (l ∷ ls) newline))

length-join : (l : Str) (ls : List Str) → length (join_by (l ∷ ls) newline) ≡ length l + behind ls
unfolding join
length-join l [] = omega arith
length-join l (m ∷ ls) = omega (arith, length-append l (newline ∷ join_by (m ∷ ls) newline))

-- Lines that are dropped at the front.
module _ (P : Str → Type 0) where
  pub drop_blank_front-All : (ls : List Str) → All P ls → All P (drop_blank_front ls)
  unfolding drop_blank_front
  drop_blank_front-All [] h = tt
  drop_blank_front-All (l ∷ ls) (p, h) = ground (arith, drop_blank_front-All ls h)

  keep_before-All : (l : Str) (ls : List Str) → P l → All P ls → All P (keep_before l ls)
  unfolding keep_before
  keep_before-All l [] p h = ground arith
  keep_before-All l (m ∷ ls) p h = (p, h)

  pub drop_blank_back-All : (ls : List Str) → All P ls → All P (drop_blank_back ls)
  unfolding drop_blank_back
  drop_blank_back-All [] h = tt
  drop_blank_back-All (l ∷ ls) (p, h) =
      keep_before-All l (drop_blank_back ls) p (drop_blank_back-All ls h)

  pub collapse_from-All : (n : ℕ) (ls : List Str) → All P ls → All P (collapse_from n ls)
  unfolding collapse_from
  collapse_from-All n [] h = tt
  collapse_from-All n (l ∷ ls) (p, h) =
      ground (arith, collapse_from-All (suc n) ls h, collapse_from-All 0 ls h)

length-drop_blank_front : (ls : List Str) → length (drop_blank_front ls) ≤ length ls
unfolding drop_blank_front
length-drop_blank_front [] = omega arith
length-drop_blank_front (l ∷ ls) = ground (arith, length-drop_blank_front ls)

length-keep_before : (l : Str) (ls : List Str) → length (keep_before l ls) ≤ suc (length ls)
unfolding keep_before
length-keep_before l [] = ground arith
length-keep_before l (m ∷ ls) = omega arith

length-drop_blank_back : (ls : List Str) → length (drop_blank_back ls) ≤ length ls
unfolding drop_blank_back
length-drop_blank_back [] = omega arith
length-drop_blank_back (l ∷ ls) =
    omega (arith, length-keep_before l (drop_blank_back ls), length-drop_blank_back ls)

behind-drop_blank_front : (ls : List Str) → behind (drop_blank_front ls) ≤ behind ls
unfolding drop_blank_front
behind-drop_blank_front [] = omega arith
behind-drop_blank_front (l ∷ ls) = elim (Bool-cases (is_blank l)) [
  | inl e ↦ rw e (omega (arith, length-join l ls, behind-drop_blank_front ls))
  | inr n ↦ rw n (omega arith)
]

behind-keep_before :
    (l : Str) (ls : List Str) → behind (keep_before l ls) ≤ suc (length l + behind ls)
unfolding keep_before
behind-keep_before l [] = ground (arith, length-join l [])
behind-keep_before l (m ∷ ls) = omega (arith, length-join l (m ∷ ls))

behind-drop_blank_back : (ls : List Str) → behind (drop_blank_back ls) ≤ behind ls
unfolding drop_blank_back
behind-drop_blank_back [] = omega arith
behind-drop_blank_back (l ∷ ls) =
    omega (
      arith,
      behind-keep_before l (drop_blank_back ls),
      behind-drop_blank_back ls,
      length-join l ls,
    )

join_le_behind : (ls : List Str) → length (join_by ls newline) ≡ behind ls - 1
join_le_behind [] = unfold join in refl
join_le_behind (l ∷ ls) = omega arith

-- Trimming blank lines never makes a text longer.
pub length-trim_blank_lines : (s : Str) → length (trim_blank_lines s) ≤ length s
unfolding trim_blank_lines
length-trim_blank_lines s =
    let ls = split s newline in
    let front = drop_blank_front ls in
    omega (
      arith,
      join_le_behind (drop_blank_back front),
      behind-drop_blank_back front,
      behind-drop_blank_front ls,
      join_le_behind ls,
      ap length (join-split newline s),
    )

-- The lines that trimming keeps hold no line break.
pub trimmed-Without :
    (s : Str) → All (Without newline) (drop_blank_back (drop_blank_front (split s newline)))
trimmed-Without s = drop_blank_back-All _ _ (drop_blank_front-All _ _ (split-Without newline s))

-- Trimming blank lines adds no line break.
pub count-trim_blank_lines : (s : Str) → count (trim_blank_lines s) newline ≤ count s newline
unfolding trim_blank_lines
count-trim_blank_lines s =
    let ls = split s newline in
    let front = drop_blank_front ls in
    omega (
      arith,
      count-join newline (drop_blank_back front) (trimmed-Without s),
      length-drop_blank_back front,
      length-drop_blank_front ls,
      length-split newline s,
    )

limited-Without : (n : ℕ) (s : Str) → All (Without newline) (take (suc n) (split s newline))
limited-Without n s = All-take (Without newline) (suc n) (split s newline) (split-Without newline s)

-- At most `n + 1` lines have at most `n` line breaks.
pub count-limit_lines : (s : Str) (n : ℕ) → count (limit_lines s (pos (suc n))) newline ≤ n
unfolding limit_lines
count-limit_lines s n = elim (Bool-cases (ltb (suc n) (length (split s newline)))) [
  | inl more ↦ rw more (
      omega (
        arith,
        count-join newline (take (suc n) (split s newline)) (limited-Without n s),
        length-take (suc n) (split s newline),
      ))
  | inr few ↦
      rw few (ground (arith, count-join newline (split s newline) (split-Without newline s)))
]

-- A text cut to a number of characters is a beginning of the text, of at most that length.
pub limit_chars-take :
    (s : Str) (most : ℕ) → (k : ℕ) × (limit_chars s most ≡ take k s) × (length (take k s) ≤ most)
unfolding limit_chars
limit_chars-take s most = elim (Bool-cases (leb (length s) most)) [
  | inl fits ↦ (length s, rw fits (sym (take_of_length s)), rw take_of_length (ground arith))
  | inr long ↦ rw long (elim (Option-cases (last_index (take most s) newline)) [
    | inl e ↦ (most, rw e, omega (arith, length-take most s))
    | inr (zero, e) ↦ (most, rw e, omega (arith, length-take most s))
    | inr (suc cut, e) ↦ (
      suc cut,
      rw e,
      omega (
        arith,
        length-take most s,
        length-take (suc cut) s,
        last_index_lt (take most s) newline (suc cut) e,
      ),
    )
  ])
]
