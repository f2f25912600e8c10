-- ===== src/Prelude/Text/Laws.antt =====
-- Splitting and joining, and what cutting keeps of a text.
use deins_complete.Prelude.Tests.{◌==◌, Bool-cases, Option-cases}
use deins_complete.Prelude.Lists.{length, take, All}
use deins_complete.Prelude.Text.Equality.{Str}
use deins_complete.Prelude.Text.Search.{split, join, index, count, cons_head, last_index}
use Prim.Native.Nat.{ℕ, zero, suc, ◌+◌, ◌-◌, ◌≤◌, ◌<◌}
use mathlib.Core.Path.{◌≡◌, refl}
use mathlib.Core.Logic.{◌≢◌, inl, inr}
use mathlib.Core.Option.{none, some}
use mathlib.Core.List.{List, [], ◌∷◌, ◌++◌}
use native.Mathlib.Omega.{arith}

-- No byte of a text is `c`.
abbrev pub Without : ℕ → Str → Type 0
Without c s = All (λ x. x ≢ c) s

-- Joined by the one byte `c`.
abbrev pub join_by : List Str → ℕ → Str
join_by ls c = join ls (c ∷ [])

module _ (c : ℕ) where
  All-cons_head :
      (x : ℕ) (ls : List Str) → x ≢ c → All (Without c) ls → All (Without c) (cons_head x ls)
  All-cons_head x [] h k = ((h, tt), tt)
  All-cons_head x (l ∷ ls) h (k, ks) = ((h, k), ks)

  -- The parts of a split hold no separator.
  pub split-Without : (s : Str) → All (Without c) (split s c)
  unfolding split
  split-Without [] = (tt, tt)
  split-Without (x ∷ s) = elim (Bool-cases (x == c)) [
    | inl e ↦ rw e (tt, split-Without s)
    | inr n ↦ rw n (All-cons_head x (split s c) (ground arith) (split-Without s))
  ]

  join-cons_head : (x : ℕ) (ls : List Str) → join_by (cons_head x ls) c ≡ x ∷ join_by ls c
  unfolding join
  join-cons_head x [] = refl
  join-cons_head x (l ∷ []) = refl
  join-cons_head x (l ∷ m ∷ ls) = refl

  cons_head-ne_nil : (x : ℕ) (ls : List Str) → cons_head x ls ≢ []
  cons_head-ne_nil x [] h = cc
  cons_head-ne_nil x (l ∷ ls) h = cc

  pub split-ne_nil : (s : Str) → split s c ≢ []
  unfolding split
  split-ne_nil [] h = cc
  split-ne_nil (x ∷ s) h = elim (Bool-cases (x == c)) [
    | inl e ↦ ground arith
    | inr n ↦ cons_head-ne_nil x (split s c) (ground arith)
  ]

  join-nil_cons : (ls : List Str) → ls ≢ [] → join_by ([] ∷ ls) c ≡ c ∷ join_by ls c
  unfolding join
  join-nil_cons [] h = absurd (h refl)
  join-nil_cons (l ∷ ls) h = refl

  -- Joining what was split gives the text back.
  pub join-split : (s : Str) → join_by (split s c) c ≡ s
  unfolding split
  join-split [] = unfold join in refl
  join-split (x ∷ s) = elim (Bool-cases (x == c)) [
    | inl e ↦ rw e (ground (arith, join-nil_cons (split s c) (split-ne_nil s), join-split s))
    | inr n ↦ rw n (ground (arith, join-cons_head x (split s c), join-split s))
  ]

  pub split_of_Without : (l : Str) → Without c l → split l c ≡ l ∷ []
  unfolding split
  split_of_Without [] h = refl
  split_of_Without (x ∷ l) (p, h) = ground (arith, split_of_Without l h)

  pub split-append : (l s : Str) → Without c l → split (l ++ c ∷ s) c ≡ l ∷ split s c
  unfolding split
  split-append [] s h = ground arith
  split-append (x ∷ l) s (p, h) = ground (arith, split-append l s h)

  -- Splitting what was joined gives back lines without the separator.
  pub split-join : (ls : List Str) → ls ≢ [] → All (Without c) ls → split (join_by ls c) c ≡ ls
  unfolding join
  split-join [] n h = absurd (n refl)
  split-join (l ∷ []) n (p, _) = split_of_Without l p
  split-join (l ∷ m ∷ ls) n (p, h) =
      ground (arith, split-append l (join_by (m ∷ ls) c) p, split-join (m ∷ ls) (λ e. cc) h)

  length-cons_head : (x : ℕ) (ls : List Str) → ls ≢ [] → length (cons_head x ls) ≡ length ls
  length-cons_head x [] h = absurd (h refl)
  length-cons_head x (l ∷ ls) h = refl

  -- There is one part more than there are separators.
  pub length-split : (s : Str) → length (split s c) ≡ suc (count s c)
  unfolding split count
  length-split [] = refl
  length-split (x ∷ s) = elim (Bool-cases (x == c)) [
    | inl e ↦ rw e (omega (arith, length-split s))
    | inr n ↦ rw n (omega (arith, length-cons_head x (split s c) (split-ne_nil s), length-split s))
  ]

  pub count-take : (n : ℕ) (s : Str) → count (take n s) c ≤ count s c
  unfolding count
  count-take zero s = omega arith
  count-take (suc n) [] = omega arith
  count-take (suc n) (x ∷ s) = omega (arith, count-take n s)

  count-append : (s t : Str) → count (s ++ t) c ≡ count s c + count t c
  unfolding count
  count-append [] t = omega arith
  count-append (x ∷ s) t = omega (arith, count-append s t)

  count_of_Without : (s : Str) → Without c s → count s c ≡ 0
  unfolding count
  count_of_Without [] h = refl
  count_of_Without (x ∷ s) (p, h) = ground (arith, count_of_Without s h)

  -- A join of lines has one separator less than there are lines.
  pub count-join : (ls : List Str) → All (Without c) ls → count (join_by ls c) c ≡ length ls - 1
  unfolding join
  count-join [] h = unfold count in refl
  count-join (l ∷ []) (p, _) = omega (arith, count_of_Without l p)
  count-join (l ∷ m ∷ ls) (p, h) = omega (
    arith,
    count-append l (c ∷ join_by (m ∷ ls) c),
    count_of_Without l p,
    one,
    count-join (m ∷ ls) h,
  )
    where
      one : count (c ∷ join_by (m ∷ ls) c) c ≡ suc (count (join_by (m ∷ ls) c) c)
      one = unfold count in ground arith

-- A byte that is found stands inside the text.
pub last_index_lt : (s : Str) (c i : ℕ) → last_index s c ≡ some i → i < length s
unfolding last_index
last_index_lt [] c i h = cc
last_index_lt (x ∷ s) c i h = elim (Option-cases (last_index s c)) [
  | inl e ↦ ground arith
  | inr (j, e) ↦ ground (arith, last_index_lt s c j e)
]

module _ (c : ℕ) where
  -- A text in which a byte is not found does not hold it.
  pub Without-of_index : (s : Str) → index s (c ∷ []) ≡ none → Without c s
  unfolding index
  Without-of_index [] h = tt
  Without-of_index (x ∷ s) h = ground (arith, Without-of_index s)

  -- What stands before the first occurrence of a byte does not hold it.
  pub Without-take-index : (s : Str) (n : ℕ) → index s (c ∷ []) ≡ some n → Without c (take n s)
  unfolding index
  Without-take-index s zero h = tt
  Without-take-index [] (suc n) h = tt
  Without-take-index (x ∷ s) (suc n) h = ground (arith, Without-take-index s n)

  -- A byte that a first part does not hold is found behind it.
  pub index-append :
      (s t : Str) (n : ℕ) → Without c s → index (s ++ t) (c ∷ []) ≡ some n → length s ≤ n
  unfolding index
  index-append [] t n w h = omega arith
  index-append (x ∷ s) t zero w h = ground arith
  index-append (x ∷ s) t (suc n) (p, w) h = ground (arith, index-append s t n w)
