-- ===== src/Usage/Daily/Tests.antt =====
-- The theorems at a quota of 3 of which 2 are used.
use deins_complete.Prelude.{◌+◌, ◌≡◌, ◌≢◌, refl, some, leb, if◌then◌else◌, arith}
use deins_complete.Prelude.Text.{str, str_eq, str_ne}
use deins_complete.Usage.Daily.{InMemory, day_of, check_and_consume}
use deins_complete.Usage.Daily.Quota.{
  used, IsValid, check_and_consume-used, check_and_consume-IsValid,
}

abbrev tracker : InMemory
tracker = record { entries = λ _. some (record { day = 0; count = 2; last = 5 }); daily = 3 }

tracker-IsValid : IsValid tracker
tracker-IsValid = record { small = omega arith; fits = λ _. (refl, omega arith) }

check_and_consume-used_example :
    let (answer, after) = check_and_consume tracker 7 (str "a") 1 in
    let before = used tracker (str "a") (day_of 7) in
    (answer.allowed ≡ leb (before + 1) 3)
    × (used after (str "a") (day_of 7) ≡ (if leb (before + 1) 3 then before + 1 else before))
    × (answer.count ≡ used after (str "a") (day_of 7))
check_and_consume-used_example =
    check_and_consume-used tracker 7 (str "a") 1 tracker-IsValid (omega arith)

b_ne : str "a" ≢ str "b"
unfolding str str_eq
b_ne = str_ne (str "a") (str "b") refl

check_and_consume-IsValid_example : IsValid (check_and_consume tracker 7 (str "a") 1).1
check_and_consume-IsValid_example =
    check_and_consume-IsValid tracker 7 (str "a") 1 tracker-IsValid (omega arith)
