-- ===== src/Completion/Router/Fallback.antt =====
-- Which target answers a request that is not streamed.
use mathlib.Core.Path.{subst}
use deins_complete.Prelude.{
  ℕ, zero, suc, ◌-◌, ◌<◌, ◌≡◌, refl, sym, true, false, not, ◌||◌, Bool-cases, Option, none, some,
  List, [], ◌∷◌, take, inl, inr, ◌⊎◌, arith,
}
use deins_complete.Prelude.Result.{Result, ok, err}
use deins_complete.Completion.Types.{Request, Completed, completed}
use deins_complete.Completion.Errors.{Error, is_canceled}
use deins_complete.Completion.Router.{
  Target, Static, complete, complete_from, passes_on, stops, exhausted,
}

-- The first target of the list that answers, when all before it fail with an error that passes the
-- request on.
pub data Chosen (request : Request) (answer : Completed) : List Target → Type 0 where
  here :
      {target : Target} {targets : List Target}
      → target.provider.complete request ≡ ok answer
      → Chosen request answer (target ∷ targets)
  later :
      {target : Target} {targets : List Target} (e : Error)
      → target.provider.complete request ≡ err e
      → is_canceled e ≡ false
      → passes_on e ≡ true
      → Chosen request answer targets
      → Chosen request answer (target ∷ targets)

Result-cases : {E A : Type 0} (r : Result E A) → ((a : A) × (r ≡ ok a)) ⊎ ((e : E) × (r ≡ err e))
Result-cases (ok a) = inl (a, refl)
Result-cases (err e) = inr (e, refl)

exhausted_ok : (last : Option Error) (c : Completed) → exhausted last ≡ ok c → c ≡ completed []
unfolding exhausted
exhausted_ok none c h = ground arith
exhausted_ok (some e) c h = cc

pub take_step :
    {A : Type 0} (most i : ℕ) (x : A) (xs : List A)
    → i < most
    → take (most - i) (x ∷ xs) ≡ x ∷ take (most - suc i) xs
take_step most i x xs h = let e : most - i ≡ suc (most - suc i) = omega arith in rw e

no_choice : {request : Request} {c : Completed} (ts : List Target) → ts ≡ [] → ¬ Chosen request c ts
no_choice ts e (here _) = cc
no_choice ts e (later _ _ _ _ _) = cc

take-nil : (n : ℕ) → take {A = Target} n [] ≡ []
take-nil zero = refl
take-nil (suc n) = refl

-- A choice is made by the first target, or it fails and the choice is made behind it.
choice-cons :
    {request : Request} {c : Completed} {t : Target} {ts : List Target}
    → Chosen request c (t ∷ ts)
    → (t.provider.complete request ≡ ok c)
      ⊎ ((e : Error) × (t.provider.complete request ≡ err e)
          × (is_canceled e ≡ false)
          × (passes_on e ≡ true)
          × Chosen request c ts)
choice-cons (here h) = inl h
choice-cons (later e h k p rest) = inr (e, h, k, p, rest)

module _ (ctx_err : ℕ → Option Error) (ctx_end : Option Error) (most : ℕ) (request : Request) where
  pub goes_on : (i : ℕ) → stops ctx_err ctx_end most request i ≡ false → i < most
  unfolding stops
  goes_on i h = ground arith

  complete_from-Chosen :
      (i : ℕ) (ts : List Target) (last : Option Error) (c : Completed)
      → complete_from ctx_err ctx_end most request i ts last ≡ ok c
      → (c ≡ completed []) ⊎ Chosen request c (take (most - i) ts)
  unfolding complete_from
  complete_from-Chosen i [] last c h = inl (exhausted_ok _ c h)
  complete_from-Chosen i (t ∷ ts) last c h =
      elim (Bool-cases (stops ctx_err ctx_end most request i)) [
        | inl stop ↦ inl (exhausted_ok _ c (rw (stop, complete_from) at h))
        | inr on ↦
            rw (take_step most i t ts (goes_on i on))
              (elim (Result-cases (t.provider.complete request)) [
                | inl (a, found) ↦ inr (here (ground arith))
                | inr (e, failed) ↦ elim (Bool-cases (is_canceled e || not (passes_on e))) [
                  | inl ends ↦ absurd (ground arith)
                  | inr fits ↦ elim (complete_from-Chosen (suc i) ts (some e) c (ground arith)) [
                    | inl none_left ↦ inl none_left
                    | inr chosen ↦ inr (later e failed (ground arith) (ground arith) chosen)
                  ]
                ]
              ])
      ]

  stopped : (i : ℕ) → ctx_err i ≡ none → stops ctx_err ctx_end most request i ≡ true → most - i ≡ 0
  unfolding stops
  stopped i alive h = ground arith

  complete_from_of_Chosen :
      ((i : ℕ) → ctx_err i ≡ none)
      → (i : ℕ) (ts : List Target) (last : Option Error) (c : Completed)
      → Chosen request c (take (most - i) ts)
      → complete_from ctx_err ctx_end most request i ts last ≡ ok c
  unfolding complete_from
  complete_from_of_Chosen alive i [] last c h =
      absurd (no_choice (take (most - i) []) (take-nil (most - i)) h)
  complete_from_of_Chosen alive i (t ∷ ts) last c h =
      elim (Bool-cases (stops ctx_err ctx_end most request i)) [
        | inl stop ↦ absurd (no_choice (take (most - i) (t ∷ ts)) (rw (stopped i (alive i) stop)) h)
        | inr on ↦ elim (choice-cons (rw (take_step most i t ts (goes_on i on)) at h)) [
          | inl found ↦ ground arith
          | inr (e, failed, live, next, rest) ↦
              ground (arith, complete_from_of_Chosen alive (suc i) ts (some e) c rest)
        ]
      ]

complete_lem :
    (ctx_err : ℕ → Option Error) (ctx_end : Option Error) (router : Static) (request : Request)
    (c : Completed)
    → (complete ctx_err ctx_end router request ≡ ok c
        → (c ≡ completed []) ⊎ Chosen request c (take router.max_attempts router.targets))
      × (((i : ℕ) → ctx_err i ≡ none)
          → Chosen request c (take router.max_attempts router.targets)
          → complete ctx_err ctx_end router request ≡ ok c)
unfolding complete
complete_lem ctx_err ctx_end router request c =
    let most = router.max_attempts in
    let ts = router.targets in
    let all : most - 0 ≡ most = omega arith in
    (
      λ h. rw all at (complete_from-Chosen ctx_err ctx_end most request 0 ts none c h),
      λ alive h.
          complete_from_of_Chosen ctx_err ctx_end most request alive 0 ts none c
            (subst (λ n. Chosen request c (take n ts)) (sym all) h),
    )

-- An answer of the router is the empty one, or that of the first of the permitted targets that
-- answers, all before it having failed with errors that pass the request on.
pub complete-Chosen :
    (ctx_err : ℕ → Option Error) (ctx_end : Option Error) (router : Static) (request : Request)
    (c : Completed)
    → complete ctx_err ctx_end router request ≡ ok c
    → (c ≡ completed []) ⊎ Chosen request c (take router.max_attempts router.targets)
complete-Chosen ctx_err ctx_end router request c = (complete_lem ctx_err ctx_end router request c).0

-- While the context lives, the answer of the first of the permitted targets that answers, all
-- before it having failed with errors that pass the request on, is the router's.
pub complete_of_Chosen :
    (ctx_err : ℕ → Option Error) (ctx_end : Option Error) (router : Static) (request : Request)
    (c : Completed)
    → ((i : ℕ) → ctx_err i ≡ none)
    → Chosen request c (take router.max_attempts router.targets)
    → complete ctx_err ctx_end router request ≡ ok c
complete_of_Chosen ctx_err ctx_end router request c =
    (complete_lem ctx_err ctx_end router request c).1
