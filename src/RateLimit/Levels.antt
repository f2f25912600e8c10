-- ===== src/RateLimit/Levels.antt =====
-- The tokens that an installation has at a time, where they are a whole number or at least one.
use native.Mathlib.Nat.{suc-mul, mul-le-mul, mul-le-mul_right, le-div_iff_mul-le}
use deins_complete.Prelude.{
  ℕ, zero, suc, ◌+◌, ◌-◌, ◌*◌, ◌/◌, ◌^◌, ◌≤◌, ◌<◌, ◌≡◌, ◌≢◌, ◌⊎◌, refl, true, false, Bool-cases,
  Option, none, some, ltb, leb, inl, inr, lt→ltb, ltb→lt, le→ltb_false, arith,
}
use deins_complete.Prelude.Text.{Str}
use deins_complete.Prelude.Map.{put, put_self, put_ne}
use deins_complete.Prelude.Float.{
  float_one, float_one_pos, to_float, to_float_lem, add_float, sub_float, mul_float, div_float,
  rounded, rounded_whole, rounded_zero, one-le_rounded,
}
use deins_complete.RateLimit.{
  Bucket, InMemory, minute, day, fresh, minutes, refilled, keep_fresh, allow,
}

-- The tokens of `id` for a call at `now`.
unfoldable pub level : InMemory → Str → ℕ → ℕ
level l id now = refilled l.burst l.per_minute now (fresh now l.buckets id)

to_float_zero : to_float 0 ≡ 0
unfolding to_float
to_float_zero = let z : 0 * float_one ≡ 0 = omega arith in rw z (rounded_zero 1 (omega arith))

to_float_ge : (n : ℕ) → 1 ≤ n → float_one ≤ to_float n
unfolding to_float
to_float_ge n h =
    one-le_rounded (n * float_one) 1 (omega arith) (omega (arith, mul-le-mul_right float_one h))

float_pos : 0 < to_float minute
float_pos = omega (arith, to_float_ge minute (omega arith), float_one_pos)

-- No time refills nothing.
minutes_zero : minutes 0 ≡ 0
unfolding minutes add_float div_float
minutes_zero =
    let z : 0 * float_one ≡ 0 = omega arith in
    let d = rounded_zero (to_float minute) float_pos in
    rw (to_float_zero, z, d) (rounded_zero 1 (omega arith))

-- A bucket with a whole number of tokens has as many in the nanosecond in which it was written.
refilled_written :
    (burst rate now n : ℕ)
    → n ≤ burst
    → burst < 2 ^ 53
    → refilled burst rate now (some (record { tokens = n * float_one; last = now })) ≡ n * float_one
unfolding refilled add_float mul_float
refilled_written burst rate now n h k =
    let same : now - now ≡ 0 = omega arith in
    let nothing : 0 * to_float rate ≡ 0 = omega arith in
    let all : n * float_one + 0 ≡ n * float_one = omega arith in
    rw
      (
        same,
        minutes_zero,
        nothing,
        rounded_zero float_one float_one_pos,
        all,
        rounded_whole n (omega arith),
        to_float_lem burst k,
      )
      (omega (arith, mul-le-mul_right float_one h))

keep_fresh_idem :
    (now : ℕ) (o : Option Bucket) → keep_fresh now (keep_fresh now o) ≡ keep_fresh now o
keep_fresh_idem now none = refl
keep_fresh_idem now (some b) = elim (Bool-cases (ltb day (now - b.last))) [
  | inl e ↦ rw e refl
  | inr e ↦ rw (e, e) refl
]

keep_fresh_now :
    (now tokens : ℕ)
    → let b : Bucket = record { tokens = tokens; last = now } in keep_fresh now (some b) ≡ some b
keep_fresh_now now tokens = let same : now - now ≡ 0 = omega arith in rw same refl

level_written :
    (l : InMemory) (now n : ℕ) (id : Str) (tokens : ℕ)
    → tokens ≡ n * float_one
    → n ≤ l.burst
    → l.burst < 2 ^ 53
    → refilled l.burst l.per_minute now
        (fresh now (put id (record { tokens = tokens; last = now }) (fresh now l.buckets)) id)
      ≡ n * float_one
unfolding fresh
level_written l now n id tokens e h k =
    rw (put_self, keep_fresh_now now tokens, e) (refilled_written l.burst l.per_minute now n h k)

-- A call takes one of a whole number of tokens, if there is one.
pub allow_whole :
    (l : InMemory) (now n : ℕ) (id : Str)
    → l.burst < 2 ^ 53
    → n ≤ l.burst
    → level l id now ≡ n * float_one
    → ((allow l now id).0.allowed ≡ leb 1 n)
      × (level (allow l now id).1 id now ≡ (n - 1) * float_one)
unfolding allow level sub_float
allow_whole l now zero id k h e =
    let tokens = refilled l.burst l.per_minute now (fresh now l.buckets id) in
    let small : ltb tokens float_one ≡ true =
      lt→ltb tokens float_one (omega (arith, e, float_one_pos)) in
    rw small (refl, level_written l now 0 id tokens e h k)
allow_whole l now (suc n) id k h e =
    let tokens = refilled l.burst l.per_minute now (fresh now l.buckets id) in
    let difference : tokens - float_one ≡ n * float_one = omega (arith, e, suc-mul n float_one) in
    let large : ltb tokens float_one ≡ false =
      le→ltb_false tokens float_one (omega (arith, e, suc-mul n float_one)) in
    let left : rounded (tokens - float_one) 1 ≡ n * float_one =
      rw difference (rounded_whole n (omega arith)) in
    let before : suc n - 1 ≡ n = omega arith in
    rw (large, before) (ground arith, level_written l now n id _ left (omega arith) k)

-- A call leaves the tokens of every other installation as they are.
pub allow-level_ne :
    (l : InMemory) (now : ℕ) (id other : Str)
    → id ≢ other
    → level (allow l now id).1 other now ≡ level l other now
unfolding allow level
allow-level_ne l now id other ne =
    let kept : (b : Bucket)
        → fresh now (put id b (fresh now l.buckets)) other ≡ fresh now l.buckets other =
      λ b.
        unfold fresh in
        rw (put_ne id other b (fresh now l.buckets) ne) (keep_fresh_idem now (l.buckets other)) in
    elim (Bool-cases (ltb (refilled l.burst l.per_minute now (fresh now l.buckets id)) float_one)) [
      | inl few ↦ rw few (rw (kept _) refl)
      | inr enough ↦ rw enough (rw (kept _) refl)
    ]

-- A bucket that was last used a minute ago or earlier, or is missing, has a token.
minutes_ge : (d : ℕ) → minute ≤ d → float_one ≤ minutes d
unfolding minutes add_float
minutes_ge d h =
    let whole : float_one ≤ to_float (d / minute) =
      to_float_ge (d / minute) ((le-div_iff_mul-le (ltb→lt 0 minute refl)).1 (omega arith)) in
    one-le_rounded _ 1 (omega arith) (omega arith)

refilled_rested :
    (burst rate now : ℕ) (b : Bucket)
    → 1 ≤ burst
    → 1 ≤ rate
    → minute ≤ now - b.last
    → float_one ≤ refilled burst rate now (keep_fresh now (some b))
unfolding refilled add_float mul_float
refilled_rested burst rate now b hb hr h =
    let full = to_float_ge burst hb in
    let product : float_one * float_one ≤ minutes (now - b.last) * to_float rate =
      mul-le-mul (minutes_ge (now - b.last) h) (to_float_ge rate hr) in
    let refill = one-le_rounded _ float_one float_one_pos product in
    let sum : float_one
        ≤ rounded (b.tokens + rounded (minutes (now - b.last) * to_float rate) float_one) 1 =
      one-le_rounded _ 1 (omega arith) (omega arith) in
    elim (Bool-cases (ltb day (now - b.last))) [
      | inl stale ↦ rw stale full
      | inr used ↦ rw used (omega arith)
    ]

-- The last use of a bucket, which may have been deleted since.
abbrev pub LastUsed : ℕ → Option Bucket → Type 0
LastUsed last o = (o ≡ none) ⊎ ((b : Bucket) × (o ≡ some b) × (b.last ≡ last))

refilled-LastUsed :
    (burst rate last now : ℕ) (o : Option Bucket)
    → 1 ≤ burst
    → 1 ≤ rate
    → last + minute ≤ now
    → LastUsed last o
    → float_one ≤ refilled burst rate now (keep_fresh now o)
unfolding refilled
refilled-LastUsed burst rate last now o hb hr h (inl e) = rw e (to_float_ge burst hb)
refilled-LastUsed burst rate last now o hb hr h (inr (b, e, k)) =
    rw e (refilled_rested burst rate now b hb hr (omega (arith, k)))

keep_fresh-LastUsed :
    (now last : ℕ) (o : Option Bucket) → LastUsed last o → LastUsed last (keep_fresh now o)
keep_fresh-LastUsed now last o (inl e) = inl (rw e refl)
keep_fresh-LastUsed now last o (inr (b, e, k)) = elim (Bool-cases (ltb day (now - b.last))) [
  | inl stale ↦ inl (rw (e, stale) refl)
  | inr used ↦ inr (b, rw (e, used) refl, k)
]

-- A request a minute or more after the last one of its installation is admitted.
pub allow-LastUsed :
    (l : InMemory) (last now : ℕ) (id : Str)
    → 1 ≤ l.burst
    → 1 ≤ l.per_minute
    → last + minute ≤ now
    → LastUsed last (l.buckets id)
    → (allow l now id).0.allowed ≡ true
unfolding allow fresh
allow-LastUsed l last now id hb hr h used =
    let tokens = refilled l.burst l.per_minute now (keep_fresh now (l.buckets id)) in
    let large : ltb tokens float_one ≡ false =
      le→ltb_false tokens float_one
        (refilled-LastUsed l.burst l.per_minute last now (l.buckets id) hb hr h used) in
    rw large refl

-- A call is the last one of its installation.
pub allow-LastUsed_self :
    (l : InMemory) (now : ℕ) (id : Str) → LastUsed now ((allow l now id).1.buckets id)
unfolding allow
allow-LastUsed_self l now id =
    let kept : (b : Bucket) → b.last ≡ now → LastUsed now (put id b (fresh now l.buckets) id) =
      λ b e. inr (b, put_self id b (fresh now l.buckets), e) in
    elim (Bool-cases (ltb (refilled l.burst l.per_minute now (fresh now l.buckets id)) float_one)) [
      | inl few ↦ rw few (kept _ refl)
      | inr enough ↦ rw enough (kept _ refl)
    ]

-- A call leaves the last one of every other installation as it is.
pub allow-LastUsed_ne :
    (l : InMemory) (now last : ℕ) (id other : Str)
    → id ≢ other
    → LastUsed last (l.buckets other)
    → LastUsed last ((allow l now id).1.buckets other)
unfolding allow
allow-LastUsed_ne l now last id other ne used =
    let kept : (b : Bucket) → LastUsed last (put id b (fresh now l.buckets) other) = λ b.
      unfold fresh in
      rw (put_ne id other b (fresh now l.buckets) ne)
        (keep_fresh-LastUsed now last (l.buckets other) used) in
    elim (Bool-cases (ltb (refilled l.burst l.per_minute now (fresh now l.buckets id)) float_one)) [
      | inl few ↦ rw few (kept _)
      | inr enough ↦ rw enough (kept _)
    ]
