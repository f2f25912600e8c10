-- ===== src/Usage/Monthly/Tests.antt =====
-- The theorems at a month in which every subject has used 5.
use deins_complete.Prelude.{ℕ, ◌+◌, ◌≡◌, ◌≢◌, refl, some, leb, if◌then◌else◌, arith}
use deins_complete.Prelude.Text.{Str, str, str_eq, str_ne}
use deins_complete.Prelude.Map.{empty}
use deins_complete.Usage.Monthly.{InMemory, usage, check_and_consume}
use deins_complete.Usage.Monthly.Plan.{check_and_consume-usage}

abbrev month : ℕ → Str
month _ = str "2026-01"

abbrev next_month : ℕ → ℕ
next_month _ = 1769904000000000000

abbrev tracker : InMemory
tracker = record { entries = λ _. some 5; migrations = empty }

abbrev user : Str
user = str "user:1"

abbrev installation : Str
installation = str "installation:1"

check_and_consume-usage_example :
    let (answer, after) = check_and_consume month next_month tracker 7 user 6 1 in
    let before = usage month next_month tracker 7 user in
    (answer.allowed ≡ leb (before + 1) 6)
    × (usage month next_month after 7 user ≡ (if leb (before + 1) 6 then before + 1 else before))
    × (answer.count ≡ usage month next_month after 7 user)
unfolding usage
check_and_consume-usage_example =
    check_and_consume-usage month next_month tracker 7 user 6 1 (omega arith) (omega arith)
      (omega arith)

user_ne : user ≢ installation
unfolding str str_eq
user_ne = str_ne (str "user:1") (str "installation:1") refl
