-- ===== src/Account/Service/RoundTrip.antt =====
-- A code that was asked for opens a session.
use mathlib.Core.List.{Memᴰ}
use mathlib.Core.List.Memᴰ
use mathlib.Core.List.Memᴰ.{head}
use deins_complete.Prelude.{
  ℕ, ◌+◌, ◌<◌, ◌≡◌, ◌≢◌, refl, ap, ◌∙◌, Bool, true, false, inl, inr, none, some, List, [], ◌∷◌,
  arith, Bool-cases, lt→ltb,
}
use deins_complete.Prelude.Text.{Str, str, str_eq, str_eq_iff, str_eq_refl, is_empty_iff}
use deins_complete.Prelude.Result.{ok, Result-cases, ensures}
use deins_complete.Account.{Tables, User, MagicCode, Session, Faults}
use deins_complete.Account.Rows.{select, exists, insert, transaction, found-eq_ok}
use deins_complete.Account.Rows.Growth.{Distinct-select}
use deins_complete.Account.Users.{normalize_email, find_user_by_email}
use deins_complete.Account.Codes.{
  is_pending, same_code, new_code, create_magic_code, consume_magic_code,
}
use deins_complete.Account.Calls.Rotation.{insert_lem}
use deins_complete.Account.Calls.Once.{pending_same}
use deins_complete.Account.Calls.Credentials.{create_magic_code-Next}
use deins_complete.Account.Calls.Valid.{IsValid, transaction-Ensures, same_code_sym}
use deins_complete.Account.Service.{
  Library, Service, World, Context, valid_email, send_code, request_magic_code, known, new_session,
  verify_magic_code, session_of, pair,
}
use deins_complete.Account.Service.SignIn.{new_session_lem}
use deins_complete.Account.Sessions.{create_session, created, insert_session, same_session}
use deins_complete.Auth.Account as Tokens

created_lem :
    (faults : Faults) (now : ℕ) (lower : Str → Str) (id email hash : Str) (expires_at : ℕ)
    (t : Tables) {m : MagicCode}
    → (create_magic_code faults now lower id email hash expires_at t).0 ≡ ok m
    → let after = (create_magic_code faults now lower id email hash expires_at t).1 in
      Memᴰ (new_code now id (normalize_email lower email) hash expires_at) after.codes
      × (after.users ≡ t.users)
      × (after.sessions ≡ t.sessions)
unfolding create_magic_code
created_lem faults now lower id email hash expires_at t h =
    let row = new_code now id (normalize_email lower email) hash expires_at in
    let stored : (rows : List MagicCode)
        → insert (same_code row) row t.codes ≡ ok rows
        → Memᴰ row rows × (t.users ≡ t.users) × (t.sessions ≡ t.sessions) =
      λ rows e. (
        rw (insert_lem (same_code row) row t.codes rows e) (Memᴰ.append_right t.codes (head refl)),
        refl,
        refl,
      ) in
    transaction-Ensures
      (λ _ after. Memᴰ row after.codes × (after.users ≡ t.users) × (after.sessions ≡ t.sessions)) t
      _ (search (ensures, stored)) h

fresh_pending :
    (now later : ℕ) (id email hash : Str) (expires_at : ℕ)
    → later < expires_at
    → is_pending later hash (new_code now id email hash expires_at) ≡ true
unfolding is_pending
fresh_pending now later id email hash expires_at h =
    ground (arith, str_eq_refl hash, lt→ltb later expires_at)

accepted_lem :
    (faults : Faults) (now : ℕ) (hash : Str) (t : Tables) (c : MagicCode)
    → faults 0 ≡ false
    → select (is_pending now hash) t.codes ≡ some c
    → ((consume_magic_code faults now hash t).0 ≡ ok c.email_normalized)
      × ((consume_magic_code faults now hash t).1.users ≡ t.users)
      × ((consume_magic_code faults now hash t).1.sessions ≡ t.sessions)
unfolding consume_magic_code transaction
accepted_lem faults now hash t c e h = (rw (e, h) refl, rw (e, h) refl, rw (e, h) refl)

find_lem :
    (faults faults' : Faults) (lower : Str → Str) (email : Str) (t t' : Tables) (u : User)
    → t'.users ≡ t.users
    → faults' 0 ≡ false
    → find_user_by_email faults lower email t ≡ ok u
    → find_user_by_email faults' lower email t' ≡ ok u
unfolding find_user_by_email
find_lem faults faults' lower email t t' u same e h = elim (Bool-cases (faults 0)) [
  | inl k ↦ absurd (ground arith)
  | inr k ↦ rw (same, e) (rw k at h)
]

exists-select :
    (email : User → Bool) (users : List User) (u : User)
    → select email users ≡ some u
    → exists (λ x. str_eq x.id u.id) users ≡ true
unfolding select exists
exists-select email [] u h = cc
exists-select email (x ∷ users) u h = elim (Bool-cases (email x)) [
  | inl e ↦ ground (arith, str_eq_refl u.id)
  | inr e ↦ ground (arith, exists-select email users u)
]

registered_lem :
    (faults : Faults) (lower : Str → Str) (email : Str) (t : Tables) (u : User)
    → find_user_by_email faults lower email t ≡ ok u
    → exists (λ x. str_eq x.id u.id) t.users ≡ true
unfolding find_user_by_email
registered_lem faults lower email t u h = elim (Bool-cases (faults 0)) [
  | inl k ↦ absurd (ground arith)
  | inr k ↦ exists-select _ t.users u (found-eq_ok _ (rw k at h))
]

module _ {M : Type 0} (library : Library M) (s : Service) where
  sent_lem :
      (c : Context) (email code : Str) (w : World M)
      → c.random ≡ some code
      → (send_code library s c email w).0 ≡ none
      → (m : MagicCode) × ((create_magic_code
            (c.faults 2)
            (c.at 2)
            library.lower
            (c.id 2)
            email
            (library.hash code)
            (c.now + s.magic_ttl)
            w.tables).0
          ≡ ok m)
        × ((send_code library s c email w).1.tables
            ≡ (create_magic_code
                (c.faults 2)
                (c.at 2)
                library.lower
                (c.id 2)
                email
                (library.hash code)
                (c.now + s.magic_ttl)
                w.tables).1)
  unfolding send_code
  sent_lem c email code w r h = elim (Bool-cases s.has_mailer) [
    | inr e ↦ absurd (ground arith)
    | inl e ↦
        elim (Result-cases
          (create_magic_code (c.faults 2) (c.at 2) library.lower (c.id 2) email (library.hash code)
            (c.now + s.magic_ttl) w.tables).0) [
              | inr (x, f) ↦ absurd (ground arith)
              | inl (m, f) ↦ (m, f, rw (send_code, e, r, f) refl)
            ]
  ]

  -- The answer to a code that is pending for this email and whose user is active.
  verified_lem :
      (c : Context) (email code : Str) (w : World M) (row : MagicCode) (u : User)
      → valid_email library.lower email ≡ true
      → code ≢ []
      → c.faults 0 0 ≡ false
      → select (is_pending (c.at 0) (library.hash code)) w.tables.codes ≡ some row
      → row.email_normalized ≡ normalize_email library.lower email
      → find_user_by_email
          (c.faults 1)
          library.lower
          row.email_normalized
          (consume_magic_code (c.faults 0) (c.at 0) (library.hash code) w.tables).1
        ≡ ok u
      → u.status ≡ str "active"
      → verify_magic_code library s c email code w
        ≡ new_session library s c u.id (record w {
          tables = (consume_magic_code (c.faults 0) (c.at 0) (library.hash code) w.tables).1;
        })
  unfolding verify_magic_code
  verified_lem c email code w row u valid given works pending bound known active =
      let (consumed, _, _) =
        accepted_lem (c.faults 0) (c.at 0) (library.hash code) w.tables row works pending in
      let test : str_eq row.email_normalized (normalize_email library.lower email) ≡ true =
        (str_eq_iff _ _).1 bound in
      rw
        (
          verify_magic_code,
          valid,
          (is_empty_iff code).1 given,
          consumed,
          test,
          known,
          active,
          str_eq_refl (str "active"),
        )
        refl

  -- A session is opened where the user and a token are there, the rows that a new session must not
  -- repeat are not, the access token can be encoded, and the database answers.
  opens_lem :
      (c : Context) (user raw access : Str) (w : World M)
      → c.random ≡ some raw
      → c.faults 2 0 ≡ false
      → exists (λ u. str_eq u.id user) w.tables.users ≡ true
      → exists
          (same_session (created (c.at 2) (c.id 2) (session_of library s c user raw)))
          w.tables.sessions
        ≡ false
      → Tokens.issue_access_token library.crypto library.json s.tokens c.now user ≡ some access
      → (new_session library s c user w).0
        ≡ ok (record { access_token = access; refresh_token = raw })
  unfolding new_session create_session insert_session insert transaction pair
  opens_lem c user raw access w random works registered new issued =
      rw
        (
          new_session, random, create_session, works, insert_session, registered, insert, new, pair,
          issued,
        )
        refl

  opened_lem :
      (c c' : Context) (email code raw access : Str) (w : World M) (u : User)
      → IsValid w.tables
      → valid_email library.lower email ≡ true
      → let normalized = normalize_email library.lower email in
        normalize_email library.lower normalized ≡ normalized
        → find_user_by_email (c.faults 0) library.lower normalized w.tables ≡ ok u
        → u.status ≡ str "active"
        → c.random ≡ some code
        → code ≢ []
        → (send_code library s c normalized w).0 ≡ none
        → c'.at 0 < c.now + s.magic_ttl
        → c'.faults 0 0 ≡ false
        → c'.faults 1 0 ≡ false
        → c'.faults 2 0 ≡ false
        → c'.random ≡ some raw
        → exists
            (same_session (created (c'.at 2) (c'.id 2) (session_of library s c' u.id raw)))
            w.tables.sessions
          ≡ false
        → Tokens.issue_access_token library.crypto library.json s.tokens c'.now u.id ≡ some access
        → let answer =
            verify_magic_code library s c' email code (send_code library s c normalized w).1 in
          (answer.0 ≡ ok (record { access_token = access; refresh_token = raw }))
          × ((session : Session) × Memᴰ session answer.1.tables.sessions
              × (session.user_id ≡ u.id)
              × (session.refresh_token_hash ≡ library.hash raw)
              × (session.revoked_at ≡ none))
  opened_lem c c' email code raw access w u v valid normal known active random given sent fresh
        works works' works'' random' new issued =
      let email' = normalize_email library.lower email in
      let (m, made, t) = sent_lem c email' code w random sent in
      let (stored, users, sessions) =
        created_lem (c.faults 2) (c.at 2) library.lower (c.id 2) email' (library.hash code)
          (c.now + s.magic_ttl) w.tables made in
      let row : MagicCode =
        new_code (c.at 2) (c.id 2) (normalize_email library.lower email') (library.hash code)
          (c.now + s.magic_ttl) in
      let next =
        create_magic_code-Next (c.faults 2) (c.at 2) v library.lower (c.id 2) email'
          (library.hash code) (c.now + s.magic_ttl) in
      let pending =
        Distinct-select same_code (is_pending (c'.at 0) (library.hash code)) same_code_sym
          next.valid.codes stored
          (fresh_pending (c.at 2) (c'.at 0) (c.id 2) (normalize_email library.lower email')
            (library.hash code) (c.now + s.magic_ttl) fresh)
          (λ z k. pending_same (c'.at 0) (library.hash code) row z refl k) in
      let (_, kept, kept_sessions) =
        accepted_lem (c'.faults 0) (c'.at 0) (library.hash code) _ row works pending in
      let found' =
        find_lem (c.faults 0) (c'.faults 1) library.lower (normalize_email library.lower email')
          w.tables _ u (kept ∙ users) works' (rw normal known) in
      let w' = (send_code library s c email' w).1 in
      let w'' : World M = record w' {
        tables = (consume_magic_code (c'.faults 0) (c'.at 0) (library.hash code) w'.tables).1;
      } in
      let answered : verify_magic_code library s c' email code w'
          ≡ new_session library s c' u.id w'' =
        verified_lem c' email code w' row u valid given works (rw t pending) normal (rw t found')
          active in
      let opened =
        opens_lem c' u.id raw access w'' random' works''
          (ap (exists (λ x. str_eq x.id u.id)) (rw t (kept ∙ users))
            ∙ registered_lem (c.faults 0) library.lower _ w.tables u known)
          (ap
              (exists
                (same_session (created (c'.at 2) (c'.id 2) (session_of library s c' u.id raw))))
              (rw t (kept_sessions ∙ sessions))
            ∙ new)
          issued in
      let (session, kept_session, of_user, of_token, unrevoked, _) =
        new_session_lem library s c' u.id w'' _ opened in
      rw answered (opened, (session, kept_session, of_user, of_token, unrevoked))

  -- A code that a registered and active user was sent is answered with a pair of tokens, of which the
  -- access token is the one that is issued to this user, and with a session of this user that is
  -- stored under the hash of the refresh token and not revoked: where the code is brought back
  -- before it expires and with nothing between, the tables are valid, the normal form of the email is
  -- its own, the id and the token of the session are new, the access token can be encoded, and the
  -- database answers.
  pub verify-request :
      (c c' : Context) (email invite code raw access : Str) (w : World M) (u : User)
      → IsValid w.tables
      → valid_email library.lower email ≡ true
      → let normalized = normalize_email library.lower email in
        normalize_email library.lower normalized ≡ normalized
        → find_user_by_email (c.faults 0) library.lower normalized w.tables ≡ ok u
        → u.status ≡ str "active"
        → c.random ≡ some code
        → code ≢ []
        → (request_magic_code library s c email invite w).0 ≡ none
        → c'.at 0 < c.now + s.magic_ttl
        → c'.faults 0 0 ≡ false
        → c'.faults 1 0 ≡ false
        → c'.faults 2 0 ≡ false
        → c'.random ≡ some raw
        → exists
            (same_session (created (c'.at 2) (c'.id 2) (session_of library s c' u.id raw)))
            w.tables.sessions
          ≡ false
        → Tokens.issue_access_token library.crypto library.json s.tokens c'.now u.id ≡ some access
        → let w' = (request_magic_code library s c email invite w).1 in
          let answer = verify_magic_code library s c' email code w' in
          (answer.0 ≡ ok (record { access_token = access; refresh_token = raw }))
          × ((session : Session) × Memᴰ session answer.1.tables.sessions
              × (session.user_id ≡ u.id)
              × (session.refresh_token_hash ≡ library.hash raw)
              × (session.revoked_at ≡ none))
  unfolding request_magic_code
  verify-request c c' email invite code raw access w u v valid normal known active random given sent
        fresh works works' works'' random' new issued =
      let email' = normalize_email library.lower email in
      let same : request_magic_code library s c email invite w ≡ send_code library s c email' w =
        rw (request_magic_code, valid, known) refl in
      rw same (
        opened_lem c c' email code raw access w u v valid normal known active random given
          (rw same at sent) fresh works works' works'' random' new issued)
