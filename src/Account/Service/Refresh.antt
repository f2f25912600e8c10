-- ===== src/Account/Service/Refresh.antt =====
-- A refresh token is good for one refresh.
use deins_complete.Prelude.{
  ◌≡◌, refl, false, inl, inr, some, List, [], arith, Bool-cases, Option-cases,
}
use deins_complete.Prelude.Text.{Str, is_empty}
use deins_complete.Prelude.Result.{ok, err, Result-cases}
use deins_complete.Account.{Session}
use deins_complete.Account.Rows.{missing}
use deins_complete.Account.Sessions.{find_active_session, rotate_session}
use deins_complete.Account.Calls.{Call, run}
use deins_complete.Account.Calls.Valid.{IsValid}
use deins_complete.Account.Calls.Rotation.{rotate_session-once}
use deins_complete.Account.Service.{
  Library, Service, World, Context, TokenPair, session_of, refresh,
}

module _ {M : Type 0} (library : Library M) (s : Service) (c : Context) where
  refreshed_lem :
      (raw : Str) (w : World M) {p : TokenPair}
      → (refresh library s c raw w).0 ≡ ok p
      → (is_empty raw ≡ false)
        × (next : Str) × (c.random ≡ some next)
        × (session : Session) × ((rotate_session
              (c.faults 1)
              (c.at 1)
              (c.id 1)
              (library.hash raw)
              (session_of library s c [] next)
              w.tables).0
            ≡ ok session)
        × ((refresh library s c raw w).1.tables
            ≡ (rotate_session
                (c.faults 1)
                (c.at 1)
                (c.id 1)
                (library.hash raw)
                (session_of library s c [] next)
                w.tables).1)
  unfolding refresh
  refreshed_lem raw w h = elim (Bool-cases (is_empty raw)) [
    | inl e ↦ absurd (ground arith)
    | inr e ↦
        elim (Result-cases
          (find_active_session (c.faults 0) (c.at 0) (library.hash raw) w.tables)) [
            | inr (x, f) ↦ absurd (ground arith)
            | inl (x, f) ↦ elim (Option-cases c.random) [
              | inl k ↦ absurd (ground arith)
              | inr (next, k) ↦
                  elim (Result-cases
                    (rotate_session (c.faults 1) (c.at 1) (c.id 1) (library.hash raw)
                      (session_of library s c [] next) w.tables).0) [
                        | inr (y, g) ↦ absurd (ground arith)
                        | inl (y, g) ↦ (e, next, k, y, g, ground arith)
                      ]
            ]
          ]
  ]

  -- A refresh with a token whose session is not there.
  unfound_lem :
      (raw : Str) (w : World M)
      → is_empty raw ≡ false
      → find_active_session (c.faults 0) (c.at 0) (library.hash raw) w.tables
        ≡ err (missing (c.faults 0 0))
      → refresh library s c raw w ≡ (err (missing (c.faults 0 0)), w)
  unfolding refresh
  unfound_lem raw w e f = rw (e, f) refl

-- A refresh token that was answered with a new pair is refused when it is brought again, whatever
-- calls of the repository are made between on valid tables, and nothing changes.
pub refresh-once :
    {M : Type 0} (library : Library M) (s : Service) (c c' : Context) (raw : Str) (w : World M)
    (cs : List Call) {p : TokenPair}
    → IsValid w.tables
    → (refresh library s c raw w).0 ≡ ok p
    → let w' = record (refresh library s c raw w).1 {
      tables = run library.lower cs (refresh library s c raw w).1.tables;
    } in
      refresh library s c' raw w' ≡ (err (missing (c'.faults 0 0)), w')
refresh-once library s c c' raw w cs v h =
    let (e, next, k, session, g, t) = refreshed_lem library s c raw w h in
    let once =
      rotate_session-once library.lower (c.faults 1) (c'.faults 0) (c.at 1) (c'.at 0) (c.id 1) []
        (library.hash raw) (session_of library s c [] next) session w.tables cs v g in
    unfound_lem library s c' raw _ e (rw t once.0)
