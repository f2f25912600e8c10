-- ===== src/Account/Calls/Credentials.antt =====
-- The methods that write codes and sessions keep the tables valid and let their rows evolve.
use deins_complete.Prelude.{ℕ, ◌≡◌, refl, inl, true, Option, none, some, List, arith}
use deins_complete.Prelude.Text.{Str}
use deins_complete.Prelude.Result.{ok, Ensures, Ensures_ok, ensures}
use deins_complete.Account.{Tables, Faults, Session, MagicCode}
use deins_complete.Account.Rows.{update, insert, is_null}
use deins_complete.Account.Codes.{
  is_pending, consume, same_code, create_magic_code, consume_magic_code,
}
use deins_complete.Account.Sessions.{
  same_session, is_active, is_unrevoked, revoke, spend, created, insert_session, create_session,
  rotate_session, revoke_session,
}
use deins_complete.Account.Calls.Evolution.{
  LaterCode, LaterCode-refl, LaterSession, LaterSession-refl,
}
use deins_complete.Account.Calls.Valid.{
  IsValid, Next, Next-trans, transaction-Next, insert-Grows, update-Part, same_code_sym,
  same_session_sym, codes-Next, sessions-Next,
}

pub null_lem {ℓ} : {A : Type ℓ} (o : Option A) → is_null o ≡ true → o ≡ none
null_lem none h = refl
null_lem (some a) h = cc

module _ {t : Tables} (v : IsValid t) where
  insert_session-Next : (s : Session) → Ensures (λ after. Next t after) (insert_session s t)
  unfolding insert_session
  insert_session-Next s =
      let inserted : (rows : List Session)
          → insert (same_session s) (record s { revoked_at = none }) t.sessions ≡ ok rows
          → Next t (record t { sessions = rows }) =
        λ rows e. sessions-Next v (
          insert-Grows LaterSession same_session (record s { revoked_at = none }) LaterSession-refl
            same_session_sym v.sessions e) in
      search (ensures, inserted)

module _ (faults : Faults) (now : ℕ) {t : Tables} (v : IsValid t) where
  pub create_magic_code-Next :
      (lower : Str → Str) (id email hash : Str) (expires_at : ℕ)
      → Next t (create_magic_code faults now lower id email hash expires_at t).1
  unfolding create_magic_code
  create_magic_code-Next lower id email hash expires_at =
      let inserted : (code : MagicCode) (rows : List MagicCode)
          → insert (same_code code) code t.codes ≡ ok rows
          → Next t (record t { codes = rows }) =
        λ code rows e.
          codes-Next v
            (insert-Grows LaterCode same_code code LaterCode-refl same_code_sym v.codes e) in
      transaction-Next _ v (search (ensures, inserted))

  pub consume_magic_code-Next : (hash : Str) → Next t (consume_magic_code faults now hash t).1
  unfolding consume_magic_code is_pending
  consume_magic_code-Next hash =
      let consumed : Next t
          (record t { codes = update (is_pending now hash) (consume now) t.codes }) =
        codes-Next v (
          update-Part LaterCode same_code (is_pending now hash) (consume now) t.codes LaterCode-refl
            (λ x _ p. record {
              same = refl;
              consumed_at = inl (null_lem x.consumed_at (ground arith));
            })
            (λ _ _. refl) (λ _ _. refl) v.codes) in
      transaction-Next _ v (search (ensures, consumed))

  pub revoke_session-Next : (hash : Str) → Next t (revoke_session faults now hash t).1
  unfolding revoke_session is_unrevoked
  revoke_session-Next hash =
      let revoked : Next t
          (record t { sessions = update (is_unrevoked hash) (revoke now) t.sessions }) =
        sessions-Next v (
          update-Part LaterSession same_session (is_unrevoked hash) (revoke now) t.sessions
            LaterSession-refl
            (λ x _ p. record {
              same = refl;
              revoked_at = inl (null_lem x.revoked_at (ground arith));
            })
            (λ _ _. refl) (λ _ _. refl) v.sessions) in
      transaction-Next _ v (search (ensures, revoked))

  pub create_session-Next : (id : Str) (s : Session) → Next t (create_session faults now id s t).1
  unfolding create_session
  create_session-Next id s =
      let inserted : (after : Tables)
          → insert_session (created now id s) t ≡ ok after
          → Next t after =
        λ after e. Ensures_ok (Next t) (insert_session-Next v (created now id s)) e in
      transaction-Next _ v (search (ensures, inserted))

  pub rotate_session-Next :
      (id old : Str) (s : Session) → Next t (rotate_session faults now id old s t).1
  unfolding rotate_session is_active is_unrevoked
  rotate_session-Next id old s =
      let spent : Next t
          (record t { sessions = update (is_active now old) (spend now) t.sessions }) =
        sessions-Next v (
          update-Part LaterSession same_session (is_active now old) (spend now) t.sessions
            LaterSession-refl
            (λ x _ p. record {
              same = refl;
              revoked_at = inl (null_lem x.revoked_at (ground arith));
            })
            (λ _ _. refl) (λ _ _. refl) v.sessions) in
      let inserted : (next : Session) (after : Tables)
          → insert_session next
              (record t { sessions = update (is_active now old) (spend now) t.sessions })
            ≡ ok after
          → Next t after =
        λ next after e.
          Next-trans spent (Ensures_ok (Next _) (insert_session-Next spent.valid next) e) in
      transaction-Next _ v (search (ensures, inserted) depth 10)
