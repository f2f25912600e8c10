-- ===== src/Usage/Daily/Quota.antt =====
-- No installation consumes more than the daily quota on one day.
use deins_complete.Prelude.{
  ℕ, ◌+◌, ◌-◌, ◌^◌, ◌≤◌, ◌<◌, ◌≡◌, ◌≢◌, refl, true, Bool-cases, Option, none, some, ltb, leb,
  ltb→lt, if◌then◌else◌, inl, inr, arith,
}
use deins_complete.Prelude.Int.{add_int, gt_int, add_int_small, gt_int_small}
use deins_complete.Prelude.Text.{Str, str_eq}
use deins_complete.Prelude.Map.{Map, put, put_self, put_ne}
use deins_complete.Usage.Daily.{
  Entry, InMemory, day_length, day_of, keep_fresh, fresh, count_on, check_and_consume,
}

-- What `id` has consumed on a day.
unfoldable pub used : InMemory → Str → ℕ → ℕ
used t id day = count_on day (t.entries id)

abbrev EntryFits : ℕ → Option Entry → Type 0
EntryFits daily none = Unit {0}
EntryFits daily (some e) = (e.day ≡ day_of e.last) × (e.count ≤ daily)

-- Entries carry the day of their last use and a count within the quota.
pub record IsValid (t : InMemory) : Type 0 where
  pub small : t.daily < 2 ^ 62
  pub fits : (id : Str) → EntryFits t.daily (t.entries id)

-- An entry that is deleted counts for no day from now on.
count_on-keep_fresh :
    (daily now day : ℕ) (o : Option Entry)
    → EntryFits daily o
    → day_of now ≤ day
    → count_on day (keep_fresh now o) ≡ count_on day o
count_on-keep_fresh daily now day none h k = refl
count_on-keep_fresh daily now day (some e) (h, _) k =
    elim (Bool-cases (ltb day_length (now - e.last))) [
      | inl stale ↦ rw stale (ground (arith, older))
      | inr used ↦ rw used
    ]
  where
    older : ltb day_length (now - e.last) ≡ true → e.day < day
    older stale = omega (arith, ltb→lt day_length (now - e.last) stale)

-- The counter and the quota are far below 2^63, so the sum in the test does not wrap.
test_lem :
    (count amount daily : ℕ)
    → count ≤ daily
    → amount < 2 ^ 62
    → daily < 2 ^ 62
    → (add_int count amount ≡ count + amount)
      × (gt_int (add_int count amount) daily ≡ ltb daily (count + amount))
test_lem count amount daily h k s =
    let sum = add_int_small count amount (omega arith) in
    (sum, rw sum (gt_int_small (count + amount) daily (omega arith) (omega arith)))

count_on_le : (daily day : ℕ) (o : Option Entry) → EntryFits daily o → count_on day o ≤ daily
count_on_le daily day none h = omega arith
count_on_le daily day (some e) h = ground arith

-- On a valid table, a request for an amount below 2^62 is allowed exactly when it fits the quota of
-- the day, and only then counted; the answer carries the count.
pub check_and_consume-used :
    (t : InMemory) (now : ℕ) (id : Str) (amount : ℕ)
    → IsValid t
    → amount < 2 ^ 62
    → let (answer, after) = check_and_consume t now id amount in
      let before = used t id (day_of now) in
      (answer.allowed ≡ leb (before + amount) t.daily)
      × (used after id (day_of now)
          ≡ (if leb (before + amount) t.daily then before + amount else before))
      × (answer.count ≡ used after id (day_of now))
unfolding check_and_consume used
check_and_consume-used t now id amount v small =
    let o = t.entries id in
    let day = day_of now in
    let count = count_on day o in
    let (sum, test) =
      test_lem count amount t.daily (count_on_le t.daily day o (v.fits id)) small v.small in
    let kept = count_on-keep_fresh t.daily now day o (v.fits id) (omega arith) in
    rw kept (
      rw test (elim (Bool-cases (ltb t.daily (count + amount))) [
        | inl over ↦ rw over (rw kept (ground arith, ground arith, ground arith))
        | inr fits ↦ rw fits (rw (put_self, sum) (ground arith, ground arith, ground arith))
      ]))

-- On a valid table, a call changes nothing that another installation has consumed, on this day or a
-- later one.
pub check_and_consume-used_ne :
    (t : InMemory) (now : ℕ) (id other : Str) (amount day : ℕ)
    → IsValid t
    → id ≢ other
    → day_of now ≤ day
    → used (check_and_consume t now id amount).1 other day ≡ used t other day
unfolding check_and_consume used
check_and_consume-used_ne t now id other amount day v ne k =
    let kept = count_on-keep_fresh t.daily now day (t.entries other) (v.fits other) k in
    elim (Bool-cases
      (gt_int (add_int (count_on (day_of now) (keep_fresh now (t.entries id))) amount) t.daily)) [
        | inl over ↦ rw over kept
        | inr fits ↦ rw fits (rw (put_ne id other _ (fresh now t.entries) ne) kept)
      ]

keep_fresh-EntryFits :
    (daily now : ℕ) (o : Option Entry) → EntryFits daily o → EntryFits daily (keep_fresh now o)
keep_fresh-EntryFits daily now none h = h
keep_fresh-EntryFits daily now (some e) h = elim (Bool-cases (ltb day_length (now - e.last))) [
  | inl stale ↦ rw stale tt
  | inr used ↦ rw used h
]

put-EntryFits :
    (daily : ℕ) (id other : Str) (e : Entry) (m : Map Entry)
    → EntryFits daily (some e)
    → EntryFits daily (m other)
    → EntryFits daily (put id e m other)
unfolding put
put-EntryFits daily id other e m h k = elim (Bool-cases (str_eq id other)) [
  | inl same ↦ rw same h
  | inr ne ↦ rw ne k
]

-- Every call for an amount below 2^62 keeps a valid table valid: within the quota, with the day of
-- each entry that of its last use.
pub check_and_consume-IsValid :
    (t : InMemory) (now : ℕ) (id : Str) (amount : ℕ)
    → IsValid t
    → amount < 2 ^ 62
    → IsValid (check_and_consume t now id amount).1
unfolding check_and_consume
check_and_consume-IsValid t now id amount v small =
    let o = t.entries id in
    let day = day_of now in
    let count = count_on day (keep_fresh now o) in
    let kept = λ (other : Str). keep_fresh-EntryFits t.daily now (t.entries other) (v.fits other) in
    let (sum, test) =
      test_lem count amount t.daily (count_on_le t.daily day (keep_fresh now o) (kept id)) small
        v.small in
    elim (Bool-cases (ltb t.daily (count + amount))) [
      | inl over ↦ rw (test, over) (record { small = v.small; fits = kept })
      | inr fits ↦
          rw (test, fits)
            (record {
              small = v.small;
              fits = λ other.
                  put-EntryFits t.daily id other _ (fresh now t.entries)
                    (refl, rw sum (ground arith)) (kept other);
            })
    ]
