-- ===== src/Account/Service/Steps.antt =====
-- What the methods of the service do to the tables, as calls of the repository.
use deins_complete.Prelude.{
  ℕ, ◌+◌, ◌≡◌, refl, true, false, not, ◌||◌, inl, inr, none, some, List, [], ◌∷◌, Bool-cases,
  Option, Option-cases,
}
use deins_complete.Prelude.Text.{Str, str, str_eq, is_empty}
use deins_complete.Prelude.Result.{Result, ok, err, Result-cases}
use deins_complete.Account.{Error, not_found, Tables, User, Installation}
use deins_complete.Account.Users.{normalize_email, create_user}
use deins_complete.Account.Codes.{create_magic_code, consume_magic_code}
use deins_complete.Account.Sessions.{create_session, rotate_session, find_active_session}
use deins_complete.Account.Installations.{link_installation, mark_installation_usage_linked}
use deins_complete.Account.Calls.{
  Action, Call, creates_user, creates_code, consumes_code, creates_session, rotates_session,
  revokes_session, links_installation, marks_installation, revokes_installation, act, run,
}
use deins_complete.Account.Calls.Valid.{IsValid, Next, Next-refl, Next-trans}
use deins_complete.Account.Calls.History.{run-Next}
use deins_complete.Account.Service.{
  Library, Service, World, Context, valid_email, session_of, send_code, registration, register,
  known, request_magic_code, new_session, sign_in, verify_magic_code, rotate, refresh, logout,
  merge_usage, link, revoke,
}

-- The tables after some calls.
pub data Reaches (lower : Str → Str) : Tables → Tables → Type 0 where
  done : {t : Tables} → Reaches lower t t
  by :
      {t u : Tables} (c : Call)
      → Reaches lower (act lower c.faults c.now c.action t) u
      → Reaches lower t u

pub calls_of :
    {lower : Str → Str} {t u : Tables} → Reaches lower t u → (cs : List Call) × (u ≡ run lower cs t)
unfolding run
calls_of done = ([], refl)
calls_of (by c r) = let (cs, e) = calls_of r in (c ∷ cs, e)

-- A request to the service.
pub data Request : Type 0 where
  asks_code : Str → Str → Request
  brings_code : Str → Str → Request
  refreshes : Str → Request
  logs_out : Str → Request
  links : Str → Str → Request
  revokes : Str → Str → Request

module _ {M : Type 0} (library : Library M) (s : Service) where
  unfoldable pub serve : Context → Request → World M → World M
  serve c (asks_code email invite) w = (request_magic_code library s c email invite w).1
  serve c (brings_code email code) w = (verify_magic_code library s c email code w).1
  serve c (refreshes raw) w = (refresh library s c raw w).1
  serve c (logs_out raw) w = (logout library s c raw w).1
  serve c (links user id) w = (link library s c user id w).1
  serve c (revokes user id) w = (revoke library s c user id w).1

  unfoldable pub serve_all : List (Context × Request) → World M → World M
  serve_all [] w = w
  serve_all ((c, r) ∷ rest) w = serve_all rest (serve c r w)

pub calls :
    (lower : Str → Str) (c : Context) (k : ℕ) (a : Action) {t u : Tables}
    → Reaches lower (act lower (c.faults k) (c.at k) a t) u
    → Reaches lower t u
calls lower c k a r = by (record { faults = c.faults k; now = c.at k; action = a }) r

module _ {M : Type 0} (library : Library M) (s : Service) (c : Context) where
  abbrev ReachesFrom : Tables → World M → Type 0
  ReachesFrom t w = Reaches library.lower t w.tables

  send_code-Reaches :
      (email : Str) (w : World M) → ReachesFrom w.tables (send_code library s c email w).1
  unfolding send_code act
  send_code-Reaches email w = elim (Bool-cases s.has_mailer) [
    | inr e ↦ rw e done
    | inl e ↦ elim (Option-cases c.random) [
      | inl k ↦ rw (e, k) done
      | inr (code, k) ↦
          let expires = c.now + s.magic_ttl in
          let creates = creates_code (c.id 2) email (library.hash code) expires in
          elim (Result-cases
            (create_magic_code (c.faults 2) (c.at 2) library.lower (c.id 2) email
              (library.hash code) expires w.tables).0) [
                | inl (m, f) ↦ rw (e, k, f) (calls library.lower c 2 creates done)
                | inr (x, f) ↦ rw (e, k, f) (calls library.lower c 2 creates done)
              ]
    ]
  ]

  register-Reaches :
      (email invite : Str) (w : World M)
      → ReachesFrom w.tables (register library s c email invite w).1
  unfolding register act
  register-Reaches email invite w = elim (Option-cases (registration library s c email invite)) [
    | inl e ↦ rw (register, e) done
    | inr (p, e) ↦
        let creates = creates_user (c.id 1) p in
        elim (Result-cases
          (create_user library.lower (c.faults 1) (c.at 1) (c.id 1) p w.tables).0) [
            | inl (u, f) ↦
                rw (register, e, f) (calls library.lower c 1 creates (send_code-Reaches email _))
            | inr (x, f) ↦ rw (register, e, f) (calls library.lower c 1 creates done)
          ]
  ]

  known-Reaches :
      (email invite : Str) (w : World M) (r : Result Error User)
      → ReachesFrom w.tables (known library s c email invite w r).1
  known-Reaches email invite w (ok u) = send_code-Reaches email w
  known-Reaches email invite w (err not_found) = register-Reaches email invite w
  known-Reaches email invite w (err e) = done

  request_magic_code-Reaches :
      (email invite : Str) (w : World M)
      → ReachesFrom w.tables (request_magic_code library s c email invite w).1
  unfolding request_magic_code
  request_magic_code-Reaches email invite w = elim (Bool-cases (valid_email library.lower email)) [
    | inr e ↦ rw e done
    | inl e ↦ rw e (known-Reaches (normalize_email library.lower email) invite w _)
  ]

  new_session-Reaches :
      (user : Str) (w : World M) → ReachesFrom w.tables (new_session library s c user w).1
  unfolding new_session act
  new_session-Reaches user w = elim (Option-cases c.random) [
    | inl e ↦ rw (new_session, e) done
    | inr (raw, e) ↦
        let session = session_of library s c user raw in
        let creates = creates_session (c.id 2) session in
        elim (Result-cases (create_session (c.faults 2) (c.at 2) (c.id 2) session w.tables).0) [
          | inl (m, f) ↦ rw (new_session, e, f) (calls library.lower c 2 creates done)
          | inr (x, f) ↦ rw (new_session, e, f) (calls library.lower c 2 creates done)
        ]
  ]

  sign_in-Reaches :
      (r : Result Error User) (w : World M) → ReachesFrom w.tables (sign_in library s c r w).1
  sign_in-Reaches (err e) w = done
  sign_in-Reaches (ok u) w = elim (Bool-cases (str_eq u.status (str "active"))) [
    | inl e ↦ rw e (new_session-Reaches u.id w)
    | inr e ↦ rw e done
  ]

  verify_magic_code-Reaches :
      (email code : Str) (w : World M)
      → ReachesFrom w.tables (verify_magic_code library s c email code w).1
  unfolding verify_magic_code act
  verify_magic_code-Reaches email code w =
      let consumes = consumes_code (library.hash code) in
      elim (Bool-cases (not (valid_email library.lower email) || is_empty code)) [
        | inl e ↦ rw e done
        | inr e ↦
            elim (Result-cases
              (consume_magic_code (c.faults 0) (c.at 0) (library.hash code) w.tables).0) [
                | inr (x, f) ↦ rw (e, f) (calls library.lower c 0 consumes done)
                | inl (bound, f) ↦
                    elim (Bool-cases (str_eq bound (normalize_email library.lower email))) [
                      | inl k ↦
                          rw (e, f, k) (calls library.lower c 0 consumes (sign_in-Reaches _ _))
                      | inr k ↦ rw (e, f, k) (calls library.lower c 0 consumes done)
                    ]
              ]
      ]

  rotate-Reaches :
      (old : Str) (w : World M) (r : Option Str)
      → ReachesFrom w.tables (rotate library s c old w r).1
  unfolding act
  rotate-Reaches old w none = done
  rotate-Reaches old w (some next) =
      let session = session_of library s c [] next in
      let rotates = rotates_session (c.id 1) old session in
      elim (Result-cases (rotate_session (c.faults 1) (c.at 1) (c.id 1) old session w.tables).0) [
        | inl (m, f) ↦ rw f (calls library.lower c 1 rotates done)
        | inr (x, f) ↦ rw f (calls library.lower c 1 rotates done)
      ]

  refresh-Reaches : (raw : Str) (w : World M) → ReachesFrom w.tables (refresh library s c raw w).1
  unfolding refresh
  refresh-Reaches raw w = elim (Bool-cases (is_empty raw)) [
    | inl e ↦ rw e done
    | inr e ↦
        elim (Result-cases
          (find_active_session (c.faults 0) (c.at 0) (library.hash raw) w.tables)) [
            | inl (m, f) ↦ rw (e, f) (rotate-Reaches (library.hash raw) w c.random)
            | inr (x, f) ↦ rw (e, f) done
          ]
  ]

  logout-Reaches : (raw : Str) (w : World M) → ReachesFrom w.tables (logout library s c raw w).1
  unfolding logout act
  logout-Reaches raw w = elim (Bool-cases (is_empty raw)) [
    | inl e ↦ rw e done
    | inr e ↦ rw e (calls library.lower c 0 (revokes_session (library.hash raw)) done)
  ]

  merge_usage-Reaches :
      (user : Str) (i : Installation) (w : World M)
      → ReachesFrom w.tables (merge_usage library s c user i w).1
  unfolding merge_usage act
  merge_usage-Reaches user i w =
      let marks = marks_installation i.id in
      elim (Result-cases (mark_installation_usage_linked (c.faults 1) (c.at 1) i.id w.tables).0) [
        | inl (false, f) ↦ rw (merge_usage, f) (calls library.lower c 1 marks done)
        | inl (true, f) ↦ rw (merge_usage, f) (calls library.lower c 1 marks done)
        | inr (x, f) ↦ rw (merge_usage, f) (calls library.lower c 1 marks done)
      ]

  link-Reaches : (user id : Str) (w : World M) → ReachesFrom w.tables (link library s c user id w).1
  unfolding link act merge_usage
  link-Reaches user id w =
      let links = links_installation id user in
      elim (Result-cases (link_installation (c.faults 0) (c.at 0) id user w.tables).0) [
        | inr (x, f) ↦ rw (link, f) (calls library.lower c 0 links done)
        | inl (i, f) ↦ elim (Bool-cases s.has_monthly) [
          | inl e ↦ rw (link, f, e) (calls library.lower c 0 links (merge_usage-Reaches user i _))
          | inr e ↦ rw (link, f, e) (calls library.lower c 0 links done)
        ]
      ]

  -- Every method of the service acts on the tables as calls of the repository in some order.
  pub serve-run :
      (r : Request) (w : World M)
      → (cs : List Call) × ((serve library s c r w).tables ≡ run library.lower cs w.tables)
  unfolding serve revoke act
  serve-run (asks_code email invite) w = calls_of (request_magic_code-Reaches email invite w)
  serve-run (brings_code email code) w = calls_of (verify_magic_code-Reaches email code w)
  serve-run (refreshes raw) w = calls_of (refresh-Reaches raw w)
  serve-run (logs_out raw) w = calls_of (logout-Reaches raw w)
  serve-run (links user id) w = calls_of (link-Reaches user id w)
  serve-run (revokes user id) w =
      calls_of (calls library.lower c 0 (revokes_installation id user) done)

module _ {M : Type 0} (library : Library M) (s : Service) where
  -- Whatever requests the service serves, one after the other, valid tables stay valid and every row
  -- is followed by a later state of itself.
  pub serve_all-Next :
      (rs : List (Context × Request)) (w : World M)
      → IsValid w.tables
      → Next w.tables (serve_all library s rs w).tables
  unfolding serve_all
  serve_all-Next [] w v = Next-refl v
  serve_all-Next ((c, r) ∷ rs) w v =
      let (cs, e) = serve-run library s c r w in
      let first : Next w.tables (serve library s c r w).tables =
        rw e (run-Next library.lower cs v) in
      Next-trans first (serve_all-Next rs (serve library s c r w) first.valid)
