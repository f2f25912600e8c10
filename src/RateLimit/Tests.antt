-- ===== src/RateLimit/Tests.antt =====
-- The theorems at a limiter of 60 requests a minute with a burst of 2, and a wait that is rounded.
use deins_complete.Prelude.{
  ◌^◌, ◌≡◌, ◌≢◌, refl, true, false, some, List, [], ◌∷◌, min, ltb→lt, arith,
}
use deins_complete.Prelude.Text.{Str, str, str_eq, str_ne}
use deins_complete.Prelude.Map.{empty, put}
use deins_complete.Prelude.Float.{
  exponent, float_one, nearest, rounded_from, doublings, rounded, to_float, add_float, mul_float,
  div_float, sub_float, of_float,
}
use deins_complete.RateLimit.{InMemory, retry_after_of, minutes, refilled, allow}
use deins_complete.RateLimit.Rate.{
  admitted, occurrences, after_calls, admitted-burst, allow_after_minute,
}

abbrev limiter : InMemory
limiter = record { buckets = empty; per_minute = 60; burst = 2 }

abbrev id : Str
id = str "installation"

other_ne : str "other" ≢ id
unfolding str str_eq
other_ne = str_ne (str "other") (str "installation") refl

abbrev calls : List Str
calls = id ∷ str "other" ∷ id ∷ id ∷ []

admitted-burst_example : admitted id 7 limiter calls ≡ min (occurrences id calls) 2
admitted-burst_example = admitted-burst id 7 limiter calls (ltb→lt 2 (2 ^ 53) refl) refl

-- A limiter whose bucket for the installation is empty.
abbrev drained : InMemory
drained = record {
  buckets = λ _. some (record { tokens = 0; last = 7 });
  per_minute = 60;
  burst = 2;
}

drained_refuses : (allow drained 7 id).0.allowed ≡ false
unfolding allow refilled minutes float_one exponent nearest rounded_from doublings rounded to_float
    add_float mul_float div_float
drained_refuses = refl

allow_after_minute_example :
    (allow (after_calls (allow drained 7 id).1 ((9, str "other") ∷ [])) 60000000007 id).0.allowed
    ≡ true
allow_after_minute_example =
    allow_after_minute drained 7 60000000007 id ((9, str "other") ∷ []) (omega arith) (omega arith)
      (other_ne, tt) (omega arith)

-- A bucket that was emptied 3 milliseconds before a refusal. The time that is named is a nanosecond too
-- short, and even a nanosecond later the sum is rounded to less than a token.
abbrev early : InMemory
early = record {
  buckets = λ _. some (record { tokens = 0; last = 5 });
  per_minute = 60;
  burst = 10;
}

early_waits : (allow early 3000005 id).0.retry_after ≡ 996999999
unfolding allow refilled retry_after_of minutes float_one exponent nearest rounded_from doublings
    rounded to_float add_float mul_float div_float sub_float of_float
early_waits = refl

refused_again : (allow (allow early 3000005 id).1 1000000005 id).0.allowed ≡ false
unfolding allow refilled minutes float_one exponent nearest rounded_from doublings rounded to_float
    add_float mul_float div_float put str_eq str
refused_again = refl
