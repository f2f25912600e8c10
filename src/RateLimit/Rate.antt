-- ===== src/RateLimit/Rate.antt =====
-- How many of the requests that come at once are admitted, and when a request is admitted again.
use mathlib.Core.Path.{subst}
use deins_complete.Prelude.{
  ℕ, ◌+◌, ◌-◌, ◌*◌, ◌^◌, ◌≤◌, ◌<◌, ◌≡◌, ◌≢◌, refl, sym, ◌∙◌, Bool, true, false, ◌&&◌, Bool-cases,
  none, List, [], ◌∷◌, leb, if◌then◌else◌, min, inl, inr, arith, All,
}
use deins_complete.Prelude.Text.{Str, str_eq, str_eq→eq, str_eq_iff}
use deins_complete.Prelude.Float.{float_one, to_float_lem}
use deins_complete.RateLimit.{InMemory, minute, fresh, refilled, allow}
use deins_complete.RateLimit.Levels.{
  level, allow_whole, allow-level_ne, LastUsed, allow-LastUsed, allow-LastUsed_self,
  allow-LastUsed_ne,
}

pub one_if : Bool → ℕ
one_if b = if b then 1 else 0

-- The number of calls for `id` among the calls of the installations of a list, one after the other in
-- the nanosecond `now`, that are admitted.
pub admitted : Str → ℕ → InMemory → List Str → ℕ
unfolding one_if
admitted id now l [] = 0
admitted id now l (who ∷ calls) =
    one_if ((allow l now who).0.allowed && str_eq who id)
    + admitted id now (allow l now who).1 calls

-- How often an installation is in a list.
pub occurrences : Str → List Str → ℕ
unfolding one_if
occurrences id [] = 0
occurrences id (who ∷ calls) = one_if (str_eq who id) + occurrences id calls

allow-per_minute :
    (l : InMemory) (now : ℕ) (id : Str) → (allow l now id).1.per_minute ≡ l.per_minute
unfolding allow
allow-per_minute l now id = ground arith

allow-burst : (l : InMemory) (now : ℕ) (id : Str) → (allow l now id).1.burst ≡ l.burst
unfolding allow
allow-burst l now id = ground arith

str_ne : (a b : Str) → str_eq a b ≡ false → a ≢ b
str_ne a b h e = let k : str_eq a b ≡ true = (str_eq_iff a b).1 e in absurd (ground arith)

and_false : (b : Bool) → (b && false) ≡ false
and_false true = refl
and_false false = refl

and_true : (b : Bool) → (b && true) ≡ b
and_true true = refl
and_true false = refl

spent : (n m : ℕ) → one_if (leb 1 n) + min m (n - 1) ≡ min (1 + m) n
unfolding one_if
spent n m = ground arith

-- From a whole number of tokens, the calls at once are admitted as long as there are tokens.
admitted_whole :
    (id : Str) (now n : ℕ) (l : InMemory) (calls : List Str)
    → l.burst < 2 ^ 53
    → n ≤ l.burst
    → level l id now ≡ n * float_one
    → admitted id now l calls ≡ min (occurrences id calls) n
unfolding admitted occurrences
admitted_whole id now n l [] k h e = omega arith
admitted_whole id now n l (who ∷ calls) k h e =
    let burst = allow-burst l now who in
    let after = (allow l now who).1 in
    elim (Bool-cases (str_eq who id)) [
      | inr other ↦
          let rest =
            admitted_whole id now n after calls (rw burst k) (rw burst h)
              (rw (allow-level_ne l now who id (str_ne who id other)) e) in
          rw (other, and_false (allow l now who).0.allowed, rest) (omega arith)
      | inl same ↦
          let is : who ≡ id = str_eq→eq who id same in
          let (allowed, left) =
            allow_whole l now n who k h (subst (λ x. level l x now ≡ n * float_one) (sym is) e) in
          let rest =
            admitted_whole id now (n - 1) after calls (rw burst k) (rw burst (omega arith))
              (subst (λ x. level after x now ≡ (n - 1) * float_one) is left) in
          rw (same, and_true (allow l now who).0.allowed, allowed, rest)
            (spent n (occurrences id calls))
    ]

-- Of the calls that an installation without a bucket makes at once, together with those of others,
-- as many are admitted as the burst allows, and no more, where the burst is below 2^53.
pub admitted-burst :
    (id : Str) (now : ℕ) (l : InMemory) (calls : List Str)
    → l.burst < 2 ^ 53
    → l.buckets id ≡ none
    → admitted id now l calls ≡ min (occurrences id calls) l.burst
admitted-burst id now l calls k e =
    admitted_whole id now l.burst l calls k (omega arith)
      (unfold level in unfold fresh in rw e (unfold refilled in to_float_lem l.burst k))

-- The limiter after calls at their times.
pub after_calls : InMemory → List (ℕ × Str) → InMemory
after_calls l [] = l
after_calls l ((now, who) ∷ calls) = after_calls (allow l now who).1 calls

others_lem :
    (id : Str) (last : ℕ) (l : InMemory) (calls : List (ℕ × Str))
    → All (λ c. c.1 ≢ id) calls
    → LastUsed last (l.buckets id)
    → LastUsed last ((after_calls l calls).buckets id)
      × ((after_calls l calls).burst ≡ l.burst)
      × ((after_calls l calls).per_minute ≡ l.per_minute)
unfolding after_calls
others_lem id last l [] h used = (used, refl, refl)
others_lem id last l ((now, who) ∷ calls) (ne, h) used =
    let (kept, burst, rate) =
      others_lem id last (allow l now who).1 calls h
        (allow-LastUsed_ne l now last who id ne used) in
    (kept, burst ∙ allow-burst l now who, rate ∙ allow-per_minute l now who)

-- A request that comes a minute or more after the last one of its installation is admitted, whatever
-- the last one was answered and whatever calls the others make in between, where rate and burst are
-- positive.
pub allow_after_minute :
    (l : InMemory) (last now : ℕ) (id : Str) (others : List (ℕ × Str))
    → 1 ≤ l.burst
    → 1 ≤ l.per_minute
    → All (λ c. c.1 ≢ id) others
    → last + minute ≤ now
    → (allow (after_calls (allow l last id).1 others) now id).0.allowed ≡ true
allow_after_minute l last now id others hb hr h wait =
    let (used, burst, rate) =
      others_lem id last (allow l last id).1 others h (allow-LastUsed_self l last id) in
    allow-LastUsed (after_calls (allow l last id).1 others) last now id
      (rw (burst, allow-burst l last id) hb) (rw (rate, allow-per_minute l last id) hr) wait used
