-- ===== src/Account/Calls/Once.antt =====
-- Magic codes that have been used are refused for ever.
use mathlib.Core.List.{Memᴰ}
use deins_complete.Prelude.{
  ℕ, ◌≡◌, refl, ap, ◌∙◌, inl, inr, true, false, none, List, arith, Bool-cases, Option-cases,
}
use deins_complete.Prelude.Text.{Str, str_eq, str_eq_iff, str_eq_refl}
use deins_complete.Prelude.Result.{ok, err}
use deins_complete.Account.{Tables, Faults, MagicCode}
use deins_complete.Account.Rows.{transaction, is_null, select, missing}
use deins_complete.Account.Rows.Growth.{Mem-update, select-Mem, Grows-select}
use deins_complete.Account.Codes.{is_pending, consume, same_code, consume_magic_code}
use deins_complete.Account.Calls.{Call, run}
use deins_complete.Account.Calls.Evolution.{set_once}
use deins_complete.Account.Calls.Valid.{IsValid, same_code_sym}
use deins_complete.Account.Calls.Credentials.{consume_magic_code-Next}
use deins_complete.Account.Calls.History.{run-Next}

consumed_lem :
    (faults : Faults) (now : ℕ) (hash : Str) (t : Tables) {email : Str}
    → (consume_magic_code faults now hash t).0 ≡ ok email
    → (c : MagicCode) × (c.token_hash ≡ hash)
      × Memᴰ (consume now c) (consume_magic_code faults now hash t).1.codes
unfolding consume_magic_code transaction is_pending
consumed_lem faults now hash t h = elim (Bool-cases (faults 0)) [
  | inl e ↦ absurd (ground arith)
  | inr e ↦ elim (Option-cases (select (is_pending now hash) t.codes)) [
    | inl k ↦ absurd (ground arith)
    | inr (c, k) ↦
        let (m, p) = select-Mem (is_pending now hash) t.codes k in
        (
          c,
          (str_eq_iff c.token_hash hash).0 (ground arith),
          rw (e, k) (Mem-update (is_pending now hash) (consume now) t.codes m p),
        )
  ]
]

refused_lem :
    (faults : Faults) (now : ℕ) (hash : Str) (t : Tables)
    → select (is_pending now hash) t.codes ≡ none
    → consume_magic_code faults now hash t ≡ (err (missing (faults 0)), t)
unfolding consume_magic_code transaction
refused_lem faults now hash t h = elim (Bool-cases (faults 0)) [
  | inl e ↦ rw e refl
  | inr e ↦ rw (e, h) refl
]

consumed_fails :
    (now : ℕ) (hash : Str) (c : MagicCode)
    → is_null c.consumed_at ≡ false
    → is_pending now hash c ≡ false
unfolding is_pending
consumed_fails now hash c h = ground arith

pub pending_same :
    (now : ℕ) (hash : Str) (y z : MagicCode)
    → y.token_hash ≡ hash
    → is_pending now hash z ≡ true
    → same_code y z ≡ true
unfolding is_pending
pending_same now hash y z e h =
    let same = (str_eq_iff z.token_hash hash).0 (ground arith) in
    let equal : str_eq y.token_hash z.token_hash ≡ true = rw (e, same) (str_eq_refl hash) in
    ground arith

module _ (lower : Str → Str) where
  -- A magic code that was consumed is not consumed again, whatever calls are made between on valid
  -- tables: it is answered as a code that is not there, and nothing changes.
  pub consume_magic_code-once :
      (faults faults' : Faults) (now now' : ℕ) (hash : Str) (t : Tables) (calls : List Call)
      {email : Str}
      → IsValid t
      → (consume_magic_code faults now hash t).0 ≡ ok email
      → let after = run lower calls (consume_magic_code faults now hash t).1 in
        consume_magic_code faults' now' hash after ≡ (err (missing (faults' 0)), after)
  consume_magic_code-once faults faults' now now' hash t calls v h =
      let (c, same, m) = consumed_lem faults now hash t h in
      let first = consume_magic_code-Next faults now v hash in
      let all = run-Next lower calls first.valid in
      refused_lem faults' now' hash _ (
        Grows-select same_code (is_pending now' hash) same_code_sym all.evolves.codes
          all.valid.codes m (λ y r. consumed_fails now' hash y (set_once r.consumed_at))
          (λ y z r k.
            pending_same now' hash y z (ap (λ (x : MagicCode). x.token_hash) r.same ∙ same) k))
