-- ===== src/Account/Rows.antt =====
-- The SQL statements that the repository uses, on a table as the list of its rows: the rows that a
-- WHERE clause holds of are those that a Boolean test holds of.
pub mod Growth
use deins_complete.Prelude.{
  ◌≡◌, ℕ, suc, Bool, true, false, ◌||◌, Option, none, some, List, [], ◌∷◌, ◌++◌, if◌then◌else◌,
  arith,
}
use deins_complete.Prelude.Result.{Result, ok, err}
use deins_complete.Account.{Error, unique_violation, failed, not_found, Faults}

-- x IS NULL
abbrev pub is_null {ℓ} : {A : Type ℓ} → Option A → Bool
is_null none = true
is_null (some _) = false

module _ {A : Type 0} where
  unfoldable pub exists : (A → Bool) → List A → Bool
  exists p [] = false
  exists p (x ∷ xs) = p x || exists p xs

  -- QueryRow: the first row that a SELECT returns.
  unfoldable pub select : (A → Bool) → List A → Option A
  select p [] = none
  select p (x ∷ xs) = if p x then some x else select p xs

  -- Query: all of them.
  unfoldable pub select_all : (A → Bool) → List A → List A
  select_all p [] = []
  select_all p (x ∷ xs) = let rest = select_all p xs in if p x then x ∷ rest else rest

  -- UPDATE
  unfoldable pub update : (A → Bool) → (A → A) → List A → List A
  update p f [] = []
  update p f (x ∷ xs) = (if p x then f x else x) ∷ update p f xs

  -- count(*), or how many rows an UPDATE affects
  unfoldable pub count : (A → Bool) → List A → ℕ
  count p [] = 0
  count p (x ∷ xs) = let rest = count p xs in if p x then suc rest else rest

  -- INSERT of a row, where `clash` tells which rows have a PRIMARY KEY or UNIQUE value of it.
  unfoldable pub insert : (A → Bool) → A → List A → Result Error (List A)
  insert clash row rows = if exists clash rows then err unique_violation else ok (rows ++ row ∷ [])

-- ORDER BY, where rows that it does not tell apart stay in their order: `later a b` tells that b comes before a.
unfoldable pub place : {A : Type 0} → (A → A → Bool) → A → List A → List A
place later a [] = a ∷ []
place later a (b ∷ bs) = let rest = place later a bs in if later a b then b ∷ rest else a ∷ b ∷ bs

unfoldable pub order_by : {A : Type 0} → (A → A → Bool) → List A → List A
order_by later [] = []
order_by later (a ∷ as') = place later a (order_by later as')

-- The statement with this number.
abbrev pub statement : Faults → ℕ → Result Error (Unit {0})
statement faults k = if faults k then err failed else ok tt

-- An operation in one transaction, which is rolled back where it returns an error.
unfoldable pub transaction : {A S : Type 0} → S → Result Error (A × S) → Result Error A × S
transaction before (ok (a, after)) = (ok a, after)
transaction before (err e) = (err e, before)

-- What a query answers that finds no row.
abbrev pub missing : Bool → Error
missing fails = if fails then failed else not_found

-- The result of a query for one row.
abbrev pub found : {A : Type 0} → Option A → Result Error A
found none = err not_found
found (some a) = ok a

pub found-eq_ok : {A : Type 0} (o : Option A) {a : A} → found o ≡ ok a → o ≡ some a
found-eq_ok none h = cc
found-eq_ok (some b) h = ground arith
