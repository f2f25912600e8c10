-- ===== src/Account/Rows/Growth.antt =====
-- How a table changes: rows are added at its end, and a row that is there is followed by a later
-- state of it.
use mathlib.Core.List.{Memᴰ}
use mathlib.Core.List.Memᴰ.{head, tail}
use deins_complete.Prelude.{
  ◌≡◌, ◌≢◌, refl, sym, ◌∙◌, inl, inr, Bool, true, false, none, some, List, [], ◌∷◌, ◌++◌, arith,
  Bool-cases, Option-cases, ap,
}
use deins_complete.Account.Rows.{exists, select, update, count}

module _ {A : Type 0} (R : A → A → Type 0) where
  pub data Grows : List A → List A → Type 0 where
    more : {ys : List A} → Grows [] ys
    later : {x y : A} {xs ys : List A} → R x y → Grows xs ys → Grows (x ∷ xs) (y ∷ ys)

module _ {A : Type 0} {R : A → A → Type 0} where
  pub Grows-append : ((x : A) → R x x) → (xs ys : List A) → Grows R xs (xs ++ ys)
  Grows-append r [] ys = more
  Grows-append r (x ∷ xs) ys = later (r x) (Grows-append r xs ys)

  pub Grows-refl : ((x : A) → R x x) → (xs : List A) → Grows R xs xs
  Grows-refl r [] = more
  Grows-refl r (x ∷ xs) = later (r x) (Grows-refl r xs)

  pub Grows-trans :
      ((x y z : A) → R x y → R y z → R x z)
      → {xs ys zs : List A} → Grows R xs ys
      → Grows R ys zs
      → Grows R xs zs
  Grows-trans t more _ = more
  Grows-trans t (later a g) (later b h) = later (t _ _ _ a b) (Grows-trans t g h)

  pub Grows-update :
      (p : A → Bool) (f : A → A) (xs : List A)
      → ((x : A) → R x x)
      → ((x : A) → Memᴰ x xs → p x ≡ true → R x (f x))
      → Grows R xs (update p f xs)
  unfolding update
  Grows-update p f [] r h = more
  Grows-update p f (x ∷ xs) r h = elim (Bool-cases (p x)) [
    | inl e ↦ rw e (later (h x (head refl) e) (Grows-update p f xs r (λ y m. h y (tail m))))
    | inr e ↦ rw e (later (r x) (Grows-update p f xs r (λ y m. h y (tail m))))
  ]

  pub Grows-Mem : {x : A} {xs ys : List A} → Memᴰ x xs → Grows R xs ys → (y : A) × Memᴰ y ys × R x y
  Grows-Mem (head e) (later a g) = (_, head refl, rw e a)
  Grows-Mem (tail m) (later a g) = let (y, n, b) = Grows-Mem m g in (y, tail n, b)

module _ {A : Type 0} where
  pub select-Mem :
      (p : A → Bool) (xs : List A) {x : A} → select p xs ≡ some x → Memᴰ x xs × (p x ≡ true)
  unfolding select
  select-Mem p [] h = cc
  select-Mem p (y ∷ xs) {x = x} h = elim (Bool-cases (p y)) [
    | inl e ↦ let same : x ≡ y = ground arith in (head same, rw same e)
    | inr e ↦ let (m, k) = select-Mem p xs (rw e at h) in (tail m, k)
  ]

  pub exists-Mem :
      (p : A → Bool) (xs : List A) {x : A} → Memᴰ x xs → p x ≡ true → exists p xs ≡ true
  unfolding exists
  exists-Mem p [] m h = elim m [ ]
  exists-Mem p (y ∷ xs) (head e) h = ground arith
  exists-Mem p (y ∷ xs) (tail m) h = ground (arith, exists-Mem p xs m h)

  pub Mem-exists :
      (p : A → Bool) (xs : List A) → exists p xs ≡ true → (x : A) × Memᴰ x xs × (p x ≡ true)
  unfolding exists
  Mem-exists p [] h = cc
  Mem-exists p (y ∷ xs) h = elim (Bool-cases (p y)) [
    | inl e ↦ (y, head refl, e)
    | inr e ↦ let (x, m, k) = Mem-exists p xs (rw e at h) in (x, tail m, k)
  ]

  pub Mem-update :
      (p : A → Bool) (f : A → A) (xs : List A) {x : A}
      → Memᴰ x xs
      → p x ≡ true
      → Memᴰ (f x) (update p f xs)
  unfolding update
  Mem-update p f [] m h = elim m [ ]
  Mem-update p f (y ∷ xs) (head e) h = head (rw (sym e, h) refl)
  Mem-update p f (y ∷ xs) (tail m) h = tail (Mem-update p f xs m h)

-- No two rows have a unique value in common.
abbrev pub Distinct : {A : Type 0} → (A → A → Bool) → List A → Type 0
Distinct clash [] = Unit
Distinct clash (x ∷ xs) = (exists (clash x) xs ≡ false) × Distinct clash xs

module _ {A : Type 0} (clash : A → A → Bool) where
  exists_cong : (p q : A → Bool) (xs : List A) → ((y : A) → p y ≡ q y) → exists p xs ≡ exists q xs
  unfolding exists
  exists_cong p q [] h = refl
  exists_cong p q (y ∷ xs) h = rw (h y, exists_cong p q xs h) refl

  exists-update :
      (p : A → Bool) (f : A → A) (x : A) (xs : List A)
      → ((y : A) → clash x (f y) ≡ clash x y)
      → exists (clash x) (update p f xs) ≡ exists (clash x) xs
  unfolding update exists
  exists-update p f x [] h = refl
  exists-update p f x (y ∷ xs) h = elim (Bool-cases (p y)) [
    | inl e ↦ rw (e, h y, exists-update p f x xs h) refl
    | inr e ↦ rw (e, exists-update p f x xs h) refl
  ]

  -- An update that changes no unique value.
  pub Distinct-update :
      (p : A → Bool) (f : A → A) (xs : List A)
      → ((x y : A) → clash x (f y) ≡ clash x y)
      → ((x y : A) → clash (f x) y ≡ clash x y)
      → Distinct clash xs
      → Distinct clash (update p f xs)
  unfolding update
  Distinct-update p f [] h k d = tt
  Distinct-update p f (x ∷ xs) h k (a, d) = elim (Bool-cases (p x)) [
    | inl e ↦ rw e (
      exists-update p f (f x) xs (h (f x)) ∙ exists_cong _ _ xs (k x) ∙ a,
      Distinct-update p f xs h k d,
    )
    | inr e ↦ rw e (exists-update p f x xs (h x) ∙ a, Distinct-update p f xs h k d)
  ]

  exists-append :
      (p : A → Bool) (xs : List A) (row : A)
      → exists p xs ≡ false
      → p row ≡ false
      → exists p (xs ++ row ∷ []) ≡ false
  unfolding exists
  exists-append p [] row h k = ground arith
  exists-append p (x ∷ xs) row h k = ground (arith, exists-append p xs row)

  pub Distinct-append :
      ((x y : A) → clash x y ≡ clash y x)
      → (row : A) (xs : List A) → exists (clash row) xs ≡ false
      → Distinct clash xs
      → Distinct clash (xs ++ row ∷ [])
  unfolding exists
  Distinct-append s row [] h d = (refl, tt)
  Distinct-append s row (x ∷ xs) h (a, d) = (
    exists-append (clash x) xs row a (s x row ∙ ground arith),
    Distinct-append s row xs (ground arith) d,
  )

  -- Of rows with a unique value in common there is one at most.
  pub Distinct-Mem :
      ((x y : A) → clash x y ≡ clash y x)
      → (xs : List A) {a b : A} → Distinct clash xs
      → Memᴰ a xs
      → Memᴰ b xs
      → clash a b ≡ true
      → a ≡ b
  Distinct-Mem s [] d m m' h = elim m [ ]
  Distinct-Mem s (x ∷ xs) d (head e) (head e') h = e ∙ sym e'
  Distinct-Mem s (x ∷ xs) (n, d) (head e) (tail m) h =
      absurd (ground (arith, exists-Mem (clash x) xs m (rw e at h)))
  Distinct-Mem s (x ∷ xs) (n, d) (tail m) (head e) h =
      absurd (ground (arith, exists-Mem (clash x) xs m (s x _ ∙ (rw e at h))))
  Distinct-Mem s (x ∷ xs) (n, d) (tail m) (tail m') h = Distinct-Mem s xs d m m' h

exists-select : {A : Type 0} (p : A → Bool) (xs : List A) → exists p xs ≡ false → select p xs ≡ none
unfolding exists select
exists-select p [] h = refl
exists-select p (x ∷ xs) h = elim (Bool-cases (p x)) [
  | inl e ↦ absurd (ground arith)
  | inr e ↦ rw e (exists-select p xs (ground arith))
]

-- A test that no later state of a row passes, and no other row with its unique values, fails on the
-- whole table.
pub Grows-select :
    {A : Type 0} {R : A → A → Type 0} (clash : A → A → Bool) {xs ys : List A} {x : A} (q : A → Bool)
    → ((a b : A) → clash a b ≡ clash b a)
    → Grows R xs ys
    → Distinct clash ys
    → Memᴰ x xs
    → ((y : A) → R x y → q y ≡ false)
    → ((y z : A) → R x y → q z ≡ true → clash y z ≡ true)
    → select q ys ≡ none
Grows-select clash {ys = ys} q s g d m fails only =
    let (y, n, r) = Grows-Mem m g in
    elim (Bool-cases (exists q ys)) [
      | inr e ↦ exists-select q ys e
      | inl e ↦
          let (z, o, k) = Mem-exists q ys e in
          let same : y ≡ z = Distinct-Mem clash s ys d n o (only y z r k) in
          absurd (ground (arith, fails y r))
    ]

select-none :
    {A : Type 0} (p : A → Bool) (xs : List A) {x : A} → select p xs ≡ none → Memᴰ x xs → p x ≡ false
unfolding select
select-none p [] h m = elim m [ ]
select-none p (y ∷ xs) {x = x} h m = elim (Bool-cases (p y)) [
  | inl e ↦ absurd (ground arith)
  | inr e ↦ elim m [ head k ↦ rw k e | tail n ↦ select-none p xs (rw e at h) n ]
]

-- A row that passes a test which only rows with its unique values pass is what is selected.
pub Distinct-select :
    {A : Type 0} (clash : A → A → Bool) {xs : List A} {x : A} (p : A → Bool)
    → ((a b : A) → clash a b ≡ clash b a)
    → Distinct clash xs
    → Memᴰ x xs
    → p x ≡ true
    → ((z : A) → p z ≡ true → clash x z ≡ true)
    → select p xs ≡ some x
Distinct-select clash {xs = xs} {x = x} p s d m h only = elim (Option-cases (select p xs)) [
  | inl e ↦ absurd (ground (arith, select-none p xs e m))
  | inr (y, e) ↦
      let (n, k) = select-Mem p xs e in e ∙ ap some (sym (Distinct-Mem clash s xs d m n (only y k)))
]

pub count-Mem :
    {A : Type 0} (p : A → Bool) (xs : List A) → count p xs ≢ 0 → (x : A) × Memᴰ x xs × (p x ≡ true)
unfolding count
count-Mem p [] h = absurd (h refl)
count-Mem p (x ∷ xs) h = elim (Bool-cases (p x)) [
  | inl e ↦ (x, head refl, e)
  | inr e ↦ let (y, m, k) = count-Mem p xs (rw e at h) in (y, tail m, k)
]

pub select-count : {A : Type 0} (p : A → Bool) (xs : List A) → select p xs ≡ none → count p xs ≡ 0
unfolding count select
select-count p [] h = refl
select-count p (x ∷ xs) h = elim (Bool-cases (p x)) [
  | inl e ↦ absurd (ground arith)
  | inr e ↦ rw e (select-count p xs (rw e at h))
]
