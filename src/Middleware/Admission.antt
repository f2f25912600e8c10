-- ===== src/Middleware/Admission.antt =====
-- Which requests reach the completion handler.
use deins_complete.Prelude.{
  ℕ, ◌≡◌, ◌⊎◌, inl, inr, refl, sym, ap, ◌∙◌, Bool, true, false, Bool-cases, ◌&&◌, some,
  Option-cases, List, [], ◌∷◌, arith,
}
use deins_complete.Prelude.Text.{Str, str, str_eq, str_eq_iff, is_empty}
use deins_complete.Prelude.Result.{ok, Result-cases}
use deins_complete.RateLimit
use deins_complete.Usage.Daily
use deins_complete.Auth.Envelope.{Crypto}
use deins_complete.Auth.Installation.{Service, Json, validate}
use deins_complete.Middleware.{
  Incoming, Installation, World, Clock, Repository, Guard, Handler, guarded, only, first_valid,
  credentials, auth, rate_limit, quota, installation_status, is_linked, require_linked_account,
  entitlements, monthly_quota,
}
use deins_complete.Middleware.Chain.{
  Wiring, Parts, after_account, after_quota, protected, completions,
}

-- Some member of the list satisfies P.
pub data Any {A : Type 0} (P : A → Type 0) : List A → Type 0 where
  here : {x : A} {xs : List A} → P x → Any P (x ∷ xs)
  there : {x : A} {xs : List A} → Any P xs → Any P (x ∷ xs)

-- What passes a guarded handler has passed the guard and then the handler.
guarded_lem :
    {R A : Type 0} (guard : Guard R) (next : Handler R A) (r : Incoming) (w : World R) (a : A)
    → (guarded guard next r w).0 ≡ ok a
    → (r' : Incoming) × ((guard r w).0 ≡ ok r') × ((next r' (guard r w).1).0 ≡ ok a)
unfolding guarded
guarded_lem guard next r w a h = elim (Result-cases (guard r w).0) [
  | inl (r', e) ↦ (r', e, ground arith)
  | inr (x, e) ↦ absurd (ground arith)
]

module _ (crypto : Crypto) (json : Json) (service : Service) (now : ℕ) where
  first_valid_lem :
      (cs : List Str) (id : Str)
      → first_valid crypto json service now cs ≡ some id
      → Any (λ c. validate crypto json service now c ≡ ok id) cs
  unfolding first_valid
  first_valid_lem [] id h = cc
  first_valid_lem (c ∷ cs) id h = elim (Bool-cases (is_empty c)) [
    | inl e ↦ there (first_valid_lem cs id (ground arith))
    | inr e ↦ elim (Result-cases (validate crypto json service now c)) [
      | inl (i, v) ↦ here (ground arith)
      | inr (x, v) ↦ there (first_valid_lem cs id (ground arith))
    ]
  ]

  auth_lem :
      {R : Type 0} (r r' : Incoming) (w : World R)
      → (auth crypto json service now r w).0 ≡ ok r'
      → (id : Str) × (r'.identity ≡ some id)
        × Any (λ c. validate crypto json service now c ≡ ok id) (credentials r)
        × ((auth crypto json service now r w).1 ≡ w)
  unfolding auth
  auth_lem r r' w h = elim (Option-cases (first_valid crypto json service now (credentials r))) [
    | inl e ↦ absurd (ground arith)
    | inr (id, e) ↦ (id, ground arith, first_valid_lem (credentials r) id e, rw (auth, e) refl)
  ]

module _ {R : Type 0} where
  rate_lem :
      (b : Bool) (now : ℕ) (r r' : Incoming) (w : World R) (id : Str)
      → r.identity ≡ some id
      → (only b (rate_limit now) r w).0 ≡ ok r'
      → (r' ≡ r)
        × ((b ≡ false) ⊎ ((RateLimit.allow w.limiter now id).0.allowed ≡ true))
        × ((only b (rate_limit now) r w).1.tracker ≡ w.tracker)
        × ((only b (rate_limit now) r w).1.repository ≡ w.repository)
  unfolding only rate_limit
  rate_lem false now r r' w id e h = (ground arith, inl refl, refl, refl)
  rate_lem true now r r' w id e h = elim (Bool-cases (RateLimit.allow w.limiter now id).0.allowed) [
    | inl allowed ↦ (
      ground arith,
      inr allowed,
      rw (only, rate_limit, e, allowed) refl,
      rw (only, rate_limit, e, allowed) refl,
    )
    | inr refused ↦ absurd (ground arith)
  ]

  quota_lem :
      (b : Bool) (now : ℕ) (r r' : Incoming) (w : World R) (id : Str)
      → r.identity ≡ some id
      → (only b (quota now) r w).0 ≡ ok r'
      → (r' ≡ r)
        × ((b ≡ false) ⊎ ((Daily.check_and_consume w.tracker now id 1).0.allowed ≡ true))
        × ((only b (quota now) r w).1.repository ≡ w.repository)
  unfolding only quota
  quota_lem false now r r' w id e h = (ground arith, inl refl, refl)
  quota_lem true now r r' w id e h =
      elim (Bool-cases (Daily.check_and_consume w.tracker now id 1).0.allowed) [
        | inl allowed ↦ (ground arith, inr allowed, rw (only, quota, e, allowed) refl)
        | inr refused ↦ absurd (ground arith)
      ]

  status_lem :
      (b : Bool) (repo : Repository R) (r r' : Incoming) (w : World R) (id : Str) (before : R)
      → r.identity ≡ some id
      → w.repository ≡ before
      → (only b (installation_status repo) r w).0 ≡ ok r'
      → (r'.identity ≡ r.identity)
        × ((b ≡ false)
            ⊎ ((i : Installation) × ((repo.ensure_installation id before).0 ≡ some i)
                × (r'.installation ≡ some i)
                × (i.status ≡ str "active")))
  unfolding only installation_status
  status_lem false repo r r' w id before e same h = (ground arith, inl refl)
  status_lem true repo r r' w id before e same h =
      elim (Option-cases (repo.ensure_installation id w.repository).0) [
        | inl missing ↦ absurd (ground arith)
        | inr (i, found) ↦ elim (Bool-cases (str_eq i.status (str "active"))) [
          | inl active ↦ (
            ground arith,
            inr (
              i,
              ap (λ x. (repo.ensure_installation id x).0) (sym same) ∙ found,
              ground arith,
              (str_eq_iff i.status (str "active")).0 active,
            ),
          )
          | inr revoked ↦ absurd (ground arith)
        ]
      ]

  linked_lem :
      (b required : Bool) (r r' : Incoming) (w : World R)
      → (only b (require_linked_account required) r w).0 ≡ ok r'
      → (r' ≡ r) × ((b ≡ false) ⊎ ((required ≡ false) ⊎ (is_linked r.installation ≡ true)))
  unfolding only require_linked_account
  linked_lem false required r r' w h = (ground arith, inl refl)
  linked_lem true required r r' w h = (ground arith, ground arith)

  entitlements_lem :
      (b : Bool) (repo : Repository R) (r r' : Incoming) (w : World R)
      → (only b (entitlements repo) r w).0 ≡ ok r'
      → (r'.identity ≡ r.identity) × (r'.installation ≡ r.installation)
  unfolding only entitlements
  entitlements_lem false repo r r' w h = (ground arith, ground arith)
  entitlements_lem true repo r r' w h = elim (Option-cases r.installation) [
    | inl e ↦ absurd (ground arith)
    | inr (i, e) ↦ elim (Option-cases (repo.resolve_entitlements i.id w.repository)) [
      | inl missing ↦ absurd (ground arith)
      | inr (x, found) ↦ (ground arith, ground arith)
    ]
  ]

  monthly_lem :
      (b : Bool) (month : ℕ → Str) (next_month : ℕ → ℕ) (now : ℕ) (r r' : Incoming) (w : World R)
      → (only b (monthly_quota month next_month now) r w).0 ≡ ok r'
      → r' ≡ r
  unfolding only monthly_quota
  monthly_lem false month next_month now r r' w h = ground arith
  monthly_lem true month next_month now r r' w h = ground arith

tail_lem :
    {R A : Type 0} (wiring : Wiring) (parts : Parts R) (clock : Clock) (handle : Handler R A)
    (r : Incoming) (w : World R) (a : A) (id : Str) (before : R)
    → r.identity ≡ some id
    → w.repository ≡ before
    → (after_quota wiring parts clock handle r w).0 ≡ ok a
    → (seen : Incoming) × (w' : World R) × ((handle seen w').0 ≡ ok a)
      × (seen.identity ≡ r.identity)
      × ((wiring.has_repo ≡ false)
          ⊎ ((i : Installation) × ((parts.repo.ensure_installation id before).0 ≡ some i)
              × (seen.installation ≡ some i)
              × (i.status ≡ str "active")))
      × ((wiring.has_repo ≡ false)
          ⊎ ((wiring.account_required ≡ false) ⊎ (is_linked seen.installation ≡ true)))
unfolding after_quota after_account
tail_lem wiring parts clock handle r w a id before known kept h =
    let (r1, e1, h1) = guarded_lem _ _ r w a h in
    let (same1, active) = status_lem wiring.has_repo parts.repo r r1 w id before known kept e1 in
    let (r2, e2, h2) = guarded_lem _ _ r1 _ a h1 in
    let (same2, linked) = linked_lem wiring.has_repo wiring.account_required r1 r2 _ e2 in
    let (r3, e3, h3) = guarded_lem _ _ r2 _ a h2 in
    let (same3, installed) = entitlements_lem wiring.has_repo parts.repo r2 r3 _ e3 in
    let (r4, e4, h4) = guarded_lem _ _ r3 _ a h3 in
    let same4 =
      monthly_lem (wiring.has_repo && wiring.has_monthly) parts.month parts.next_month
        clock.monthly_at r3 r4 _ e4 in
    let installation : r4.installation ≡ r1.installation =
      ap (λ x. x.installation) same4 ∙ installed ∙ ap (λ x. x.installation) same2 in
    let identity : r4.identity ≡ r.identity =
      ap (λ x. x.identity) same4 ∙ same3 ∙ ap (λ x. x.identity) same2 ∙ same1 in
    (r4, _, h4, identity, rw installation active, rw installation linked)

-- What is known of a request that reaches the handler, which sees it as `seen`.
pub record Admitted {R : Type 0} (wiring : Wiring) (parts : Parts R) (clock : Clock) (r : Incoming)
    (w : World R) (seen : Incoming) : Type 0 where
  pub id : Str
  pub credential :
      Any
        (λ c. validate parts.crypto parts.json parts.service clock.auth_at c ≡ ok id)
        (credentials r)
  pub identified : seen.identity ≡ some id
  pub in_rate :
      (wiring.has_limiter ≡ false)
      ⊎ ((RateLimit.allow w.limiter clock.limiter_at id).0.allowed ≡ true)
  pub in_quota :
      (wiring.has_tracker ≡ false)
      ⊎ ((Daily.check_and_consume w.tracker clock.tracker_at id 1).0.allowed ≡ true)
  pub active :
      (wiring.has_repo ≡ false)
      ⊎ ((i : Installation) × ((parts.repo.ensure_installation id w.repository).0 ≡ some i)
          × (seen.installation ≡ some i)
          × (i.status ≡ str "active"))
  pub linked :
      (wiring.has_repo ≡ false)
      ⊎ ((wiring.account_required ≡ false) ⊎ (is_linked seen.installation ≡ true))

-- Where the guards are enabled, a completion that is answered has reached the handler with a valid
-- credential for one installation, within the rate and the daily quota of that installation; the
-- row that EnsureInstallation answers for that installation is what the handler sees, is active and,
-- where an account is required, is linked to one, as far as the server has these parts.
pub completions-Admitted :
    {R A : Type 0} (wiring : Wiring) (parts : Parts R) (clock : Clock) (handle : Handler R A)
    (r : Incoming) (w : World R) (a : A)
    → wiring.enabled ≡ true
    → (completions wiring parts clock handle r w).0 ≡ ok a
    → (seen : Incoming) × (w' : World R) × ((handle seen w').0 ≡ ok a)
      × Admitted wiring parts clock r w seen
unfolding completions protected after_quota after_account
completions-Admitted {R = R} wiring parts clock handle r w a on h =
    let (r1, e1, h1) = guarded_lem _ _ r w a (rw on at h) in
    let (id, known, credential, same) =
      auth_lem parts.crypto parts.json parts.service clock.auth_at r r1 w e1 in
    let (r2, e2, h2) =
      guarded_lem _ _ r1 (auth parts.crypto parts.json parts.service clock.auth_at r w).1 a h1 in
    let (kept, rate, tracker, repository) =
      rate_lem wiring.has_limiter clock.limiter_at r1 r2 _ id known e2 in
    let (r3, e3, h3) = guarded_lem _ _ r2 _ a h2 in
    let known2 : r2.identity ≡ some id = rw kept known in
    let (kept3, daily, repository3) =
      quota_lem wiring.has_tracker clock.tracker_at r2 r3 _ id known2 e3 in
    let kept_repository = repository3 ∙ repository ∙ ap (λ (x : World R). x.repository) same in
    let known3 : r3.identity ≡ some id = rw kept3 known2 in
    let (seen, w', answered, identity, active, linked) =
      tail_lem wiring parts clock handle r3 _ a id w.repository known3 kept_repository h3 in
    (
      seen,
      w',
      answered,
      record {
        id = id;
        credential = credential;
        identified = identity ∙ known3;
        in_rate = rw same at rate;
        in_quota = rw (tracker, same) at daily;
        active = active;
        linked = linked;
      },
    )
