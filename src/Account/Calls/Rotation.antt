-- ===== src/Account/Calls/Rotation.antt =====
-- Refresh tokens: one that was rotated is refused for ever, and its replacement works.
use mathlib.Core.List.{Memᴰ}
use mathlib.Core.List.Memᴰ
use mathlib.Core.List.Memᴰ.{head}
use deins_complete.Prelude.{
  ℕ, ◌≡◌, ◌<◌, refl, ap, ◌∙◌, inl, inr, Bool, true, false, ◌||◌, none, some, List, [], ◌∷◌, ◌++◌,
  arith, Bool-cases, lt→ltb,
}
use deins_complete.Prelude.Text.{Str, str_eq, str_eq_iff, str_eq_refl}
use deins_complete.Prelude.Result.{ok, err, ensures, Ensures_ok}
use deins_complete.Account.{Tables, Faults, Session}
use deins_complete.Account.Rows.{
  update, insert, transaction, is_null, select, found, found-eq_ok, missing,
}
use deins_complete.Account.Rows.Growth.{Mem-update, select-Mem, Grows-select, Distinct-select}
use deins_complete.Account.Sessions.{
  same_session, is_active, is_unrevoked, spend, created, insert_session, find_active_session,
  rotate_session,
}
use deins_complete.Account.Calls.{Call, run}
use deins_complete.Account.Calls.Evolution.{set_once}
use deins_complete.Account.Calls.Valid.{IsValid, transaction-Ensures, same_session_sym}
use deins_complete.Account.Calls.Credentials.{rotate_session-Next}
use deins_complete.Account.Calls.History.{run-Next}

-- The row of the old token and that of its replacement, once it is rotated.
record Rotated (now : ℕ) (id old : Str) (s : Session) (t : Tables) (next : Session) (after : Tables)
    : Type 0 where
  session : Session
  was_active : select (is_active now old) t.sessions ≡ some session
  is_next : next ≡ created now id (record s { user_id = session.user_id })
  spent : Memᴰ (spend now session) after.sessions
  fresh : Memᴰ (record next { revoked_at = none }) after.sessions

pub insert_lem :
    {A : Type 0} (clash : A → Bool) (row : A) (rows rows' : List A)
    → insert clash row rows ≡ ok rows'
    → rows' ≡ rows ++ row ∷ []
unfolding insert
insert_lem clash row rows rows' h = ground arith

pub insert_session_lem :
    (s : Session) (t after : Tables)
    → insert_session s t ≡ ok after
    → after.sessions ≡ t.sessions ++ record s { revoked_at = none } ∷ []
unfolding insert_session
insert_session_lem s t after h =
    let row = record s { revoked_at = none } in
    let added : (rows : List Session)
        → insert (same_session s) row t.sessions ≡ ok rows
        → rows ≡ t.sessions ++ row ∷ [] =
      λ rows e. insert_lem (same_session s) row t.sessions rows e in
    Ensures_ok (λ a. a.sessions ≡ t.sessions ++ row ∷ []) (search (ensures, added)) h

rotated_lem :
    (faults : Faults) (now : ℕ) (id old : Str) (s : Session) (t : Tables) {next : Session}
    → (rotate_session faults now id old s t).0 ≡ ok next
    → Rotated now id old s t next (rotate_session faults now id old s t).1
unfolding rotate_session
rotated_lem faults now id old s t h =
    let rotated : (x : Session) (after : Tables)
        → found (select (is_active now old) t.sessions) ≡ ok x
        → insert_session (created now id (record s { user_id = x.user_id }))
            (record t { sessions = update (is_active now old) (spend now) t.sessions })
          ≡ ok after
        → Rotated now id old s t (created now id (record s { user_id = x.user_id })) after =
      λ x after e k.
        let (m, p) = select-Mem (is_active now old) t.sessions (found-eq_ok _ e) in
        let row : Session = record (created now id (record s { user_id = x.user_id })) {
          revoked_at = none;
        } in
        let spent = Mem-update (is_active now old) (spend now) t.sessions m p in
        record {
          session = x;
          was_active = found-eq_ok _ e;
          is_next = refl;
          spent = rw (insert_session_lem _ _ after k) (Memᴰ.append_left (row ∷ []) spent);
          fresh = rw (insert_session_lem _ _ after k) (Memᴰ.append_right _ (head refl));
        } in
    transaction-Ensures (Rotated now id old s t) t _ (search (ensures, rotated) depth 10) h

spent_fails :
    (now : ℕ) (hash : Str) (s : Session)
    → is_null s.revoked_at ≡ false
    → is_active now hash s ≡ false
unfolding is_active is_unrevoked
spent_fails now hash s h = ground arith

active_same :
    (now : ℕ) (hash : Str) (y z : Session)
    → y.refresh_token_hash ≡ hash
    → is_active now hash z ≡ true
    → same_session y z ≡ true
unfolding is_active is_unrevoked
active_same now hash y z e h =
    let same = (str_eq_iff z.refresh_token_hash hash).0 (ground arith) in
    let equal : str_eq y.refresh_token_hash z.refresh_token_hash ≡ true =
      rw (e, same) (str_eq_refl hash) in
    ground arith

active_hash :
    (now : ℕ) (hash : Str) (s : Session) → is_active now hash s ≡ true → s.refresh_token_hash ≡ hash
unfolding is_active is_unrevoked
active_hash now hash s h = (str_eq_iff s.refresh_token_hash hash).0 (ground arith)

fresh_active :
    (now : ℕ) (s : Session)
    → now < s.expires_at
    → is_active now s.refresh_token_hash (record s { revoked_at = none }) ≡ true
unfolding is_active is_unrevoked
fresh_active now s h = ground (arith, str_eq_refl s.refresh_token_hash, lt→ltb now s.expires_at)

find_lem :
    (faults : Faults) (now : ℕ) (hash : Str) (t : Tables)
    → select (is_active now hash) t.sessions ≡ none
    → find_active_session faults now hash t ≡ err (missing (faults 0))
unfolding find_active_session
find_lem faults now hash t h = elim (Bool-cases (faults 0)) [
  | inl e ↦ rw e refl
  | inr e ↦ rw (e, h) refl
]

rotate_lem :
    (faults : Faults) (now : ℕ) (id hash : Str) (s : Session) (t : Tables)
    → select (is_active now hash) t.sessions ≡ none
    → rotate_session faults now id hash s t ≡ (err (missing (faults 0 || faults 1)), t)
unfolding rotate_session transaction
rotate_lem faults now id hash s t h = elim (Bool-cases (faults 0)) [
  | inl e ↦ rw e refl
  | inr e ↦ elim (Bool-cases (faults 1)) [ inl k ↦ rw (e, k) refl | inr k ↦ rw (e, k, h) refl ]
]

-- A refresh token that was rotated is neither found nor rotated again, whatever calls are made
-- between on valid tables: it is answered as a token that is not there, and nothing changes.
pub rotate_session-once :
    (lower : Str → Str) (faults faults' : Faults) (now now' : ℕ) (id id' old : Str) (s s' : Session)
    (t : Tables) (calls : List Call) {next : Session}
    → IsValid t
    → (rotate_session faults now id old s t).0 ≡ ok next
    → let after = run lower calls (rotate_session faults now id old s t).1 in
      (find_active_session faults' now' old after ≡ err (missing (faults' 0)))
      × (rotate_session faults' now' id' old s' after
          ≡ (err (missing (faults' 0 || faults' 1)), after))
rotate_session-once lower faults faults' now now' id id' old s s' t calls v h =
    let r = rotated_lem faults now id old s t h in
    let all = run-Next lower calls (rotate_session-Next faults now v id old s).valid in
    let (m, p) = select-Mem (is_active now old) t.sessions r.was_active in
    let same = active_hash now old r.session p in
    let gone =
      Grows-select same_session (is_active now' old) same_session_sym all.evolves.sessions
        all.valid.sessions r.spent (λ y l. spent_fails now' old y (set_once l.revoked_at))
        (λ y z l.
          active_same now' old y z (ap (λ (x : Session). x.refresh_token_hash) l.same ∙ same)) in
    (find_lem faults' now' old _ gone, rotate_lem faults' now' id' old s' _ gone)

-- After a rotation on valid tables the new token is found until the session expires, for the user of
-- the session that the old token was found for.
pub rotate_session-active :
    (faults : Faults) (now now' : ℕ) (id old : Str) (s : Session) (t : Tables) {next : Session}
    → IsValid t
    → (rotate_session faults now id old s t).0 ≡ ok next
    → now' < s.expires_at
    → (x y : Session) × (find_active_session (λ _. false) now old t ≡ ok x)
      × (find_active_session
            (λ _. false)
            now'
            s.refresh_token_hash
            (rotate_session faults now id old s t).1
          ≡ ok y)
      × (y.user_id ≡ x.user_id)
unfolding find_active_session
rotate_session-active faults now now' id old s t v h live =
    let r = rotated_lem faults now id old s t h in
    let valid = (rotate_session-Next faults now v id old s).valid in
    let row = created now id (record s { user_id = r.session.user_id }) in
    let m = rw r.is_next at r.fresh in
    let active = fresh_active now' row live in
    let one =
      Distinct-select same_session (is_active now' s.refresh_token_hash) same_session_sym
        valid.sessions m active (λ z k. active_same now' s.refresh_token_hash row z refl k) in
    (r.session, record row { revoked_at = none }, rw r.was_active refl, rw one refl, refl)
