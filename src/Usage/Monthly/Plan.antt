-- ===== src/Usage/Monthly/Plan.antt =====
-- What the monthly counters of a subject are after a request and after a merge.
use deins_complete.Prelude.{
  ℕ, ◌+◌, ◌^◌, ◌<◌, ◌≡◌, ◌≢◌, refl, ap, false, Bool-cases, [], ◌∷◌, ◌++◌, ltb, leb, if◌then◌else◌,
  inl, inr, arith,
}
use deins_complete.Prelude.Int.{add_int, gt_int, add_int_small, gt_int_small}
use deins_complete.Prelude.Text.{Str, str}
use deins_complete.Prelude.Map.{put_self, put_ne, get_or_zero}
use deins_complete.Usage.Monthly.{
  InMemory, key, usage, check_and_consume, migration, merge_installation_into_user,
}

++-cancel : (p : Str) {a b : Str} → p ++ a ≡ p ++ b → a ≡ b
++-cancel [] h = h
++-cancel (x ∷ p) h = ++-cancel p (cc)

module _ (month : ℕ → Str) (next_month : ℕ → ℕ) where
  key-injective :
      (now : ℕ) (a b : Str) → key month next_month now a ≡ key month next_month now b → a ≡ b
  unfolding key
  key-injective now a b h = ++-cancel (month now ++ str ":") h

  -- A request is allowed exactly when it fits the plan's limit, where the counts are below 2^62,
  -- and only then counted; the answer carries the count.
  pub check_and_consume-usage :
      (t : InMemory) (now : ℕ) (subject : Str) (limit amount : ℕ)
      → usage month next_month t now subject < 2 ^ 62
      → limit < 2 ^ 62
      → amount < 2 ^ 62
      → let (answer, after) = check_and_consume month next_month t now subject limit amount in
        let before = usage month next_month t now subject in
        (answer.allowed ≡ leb (before + amount) limit)
        × (usage month next_month after now subject
            ≡ (if leb (before + amount) limit then before + amount else before))
        × (answer.count ≡ usage month next_month after now subject)
  unfolding check_and_consume usage
  check_and_consume-usage t now subject limit amount u l a =
      let before = usage month next_month t now subject in
      let sum = add_int_small before amount (omega arith) in
      let test = gt_int_small (before + amount) limit (omega arith) (omega arith) in
      rw (sum, test)
        (elim (Bool-cases (ltb limit (before + amount))) [
          | inl over ↦ rw over (ground arith, ground arith, ground arith)
          | inr fits ↦ rw fits (rw put_self (ground arith, ground arith, ground arith))
        ])

  -- A request changes nothing that another subject has used in the month.
  pub check_and_consume-usage_ne :
      (t : InMemory) (now : ℕ) (subject other : Str) (limit amount : ℕ)
      → subject ≢ other
      → usage month next_month
          (check_and_consume month next_month t now subject limit amount).1
          now
          other
        ≡ usage month next_month t now other
  unfolding check_and_consume usage
  check_and_consume-usage_ne t now subject other limit amount ne =
      let used = get_or_zero 0 (t.entries (key month next_month now subject)) in
      elim (Bool-cases (gt_int (add_int used amount) limit)) [
        | inl over ↦ rw over refl
        | inr fits ↦ rw fits (
            ap (get_or_zero 0) (
              put_ne (key month next_month now subject) (key month next_month now other) _ t.entries
                (λ h. ne (key-injective now subject other h))))
      ]

  -- A second merge of the same installation into the same user in the month changes nothing.
  pub merge_idem :
      (t : InMemory) (now later : ℕ) (installation user : Str)
      → month now ≡ month later
      → let once = merge_installation_into_user month next_month t now installation user in
        merge_installation_into_user month next_month once later installation user ≡ once
  unfolding merge_installation_into_user migration key
  merge_idem t now later installation user same =
      let done = migration month next_month now installation user in
      rw (← same) (elim (Bool-cases (get_or_zero false (t.migrations done))) [
        | inl merged ↦ rw merged (rw merged refl)
        | inr first ↦ rw first (rw put_self refl)
      ])
