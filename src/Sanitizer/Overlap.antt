-- ===== src/Sanitizer/Overlap.antt =====
-- `overlap` finds the longest end of one text that begins the other.
use deins_complete.Prelude.{
  ℕ, zero, suc, ◌-◌, ◌≤◌, ◌<◌, ◌≡◌, ◌⊎◌, length, take, drop, min, arith, Bool-cases, inl, inr,
}
use native.Mathlib.Decide.{ℕ_discrete}
use deins_complete.Prelude.Text.{Str, str_eq, str_eq_iff}
use deins_complete.Sanitizer.{overlap, overlap_from, overlap_limit}

-- The last `i` bytes of `a` are the first `i` of `b`.
abbrev pub Meets : Str → Str → ℕ → Type 0
Meets a b i = drop (length a - i) a ≡ take i b

overlap_from_le : (n : ℕ) (a b : Str) → overlap_from n a b ≤ n
unfolding overlap_from
overlap_from_le zero a b = omega arith
overlap_from_le (suc n) a b = ground (arith, overlap_from_le n a b)

overlap_from-Meets : (n : ℕ) (a b : Str) → 0 < overlap_from n a b → Meets a b (overlap_from n a b)
unfolding overlap_from
overlap_from-Meets zero a b h = absurd (omega arith)
overlap_from-Meets (suc n) a b h =
    elim (Bool-cases (str_eq (drop (length a - suc n) a) (take (suc n) b))) [
      | inl e ↦ rw e ((str_eq_iff _ _).0 e)
      | inr e ↦ ground (arith, overlap_from-Meets n a b)
    ]

overlap_from_longest : (n : ℕ) (a b : Str) (i : ℕ) → overlap_from n a b < i → i ≤ n → ¬ Meets a b i
unfolding overlap_from
overlap_from_longest zero a b i h k m = absurd (omega arith)
overlap_from_longest (suc n) a b i h k m =
    elim (Bool-cases (str_eq (drop (length a - suc n) a) (take (suc n) b))) [
      | inl e ↦ ground arith
      | inr e ↦ elim (ℕ_discrete i (suc n)) [
        | yes same ↦ cc (e, (str_eq_iff _ _).1 (rw same at m))
        | no other ↦ overlap_from_longest n a b i (ground arith) (omega arith) m
      ]
    ]

-- `overlap a b` is within the limit, and a length at which the end of `a` is the beginning of `b`
-- unless it is 0.
pub overlap-Meets :
    (a b : Str)
    → (overlap a b ≤ min 1000 (min (length a) (length b)))
      × ((overlap a b ≡ 0) ⊎ Meets a b (overlap a b))
unfolding overlap overlap_limit
overlap-Meets a b =
    let n = min 1000 (min (length a) (length b)) in
    (overlap_from_le n a b, ground (arith, overlap_from-Meets n a b))

-- At no greater length within the limit is the end of `a` the beginning of `b`.
pub overlap_longest :
    (a b : Str) (i : ℕ) → overlap a b < i → i ≤ min 1000 (min (length a) (length b)) → ¬ Meets a b i
unfolding overlap overlap_limit
overlap_longest a b i h k = overlap_from_longest (min 1000 (min (length a) (length b))) a b i h k
