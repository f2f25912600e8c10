-- ===== src/Account/Sessions.antt =====
-- api/internal/account/repository.go: sessions. The refresh tokens are hashed before they come here.
use deins_complete.Prelude.{ℕ, Bool, ◌&&◌, ◌||◌, not, none, some, ltb, if◌then◌else◌}
use deins_complete.Prelude.Text.{Str, str_eq, is_empty}
use deins_complete.Prelude.Result.{Result, ok, ◌>>=◌, ◌>>◌, refuse_if}
use deins_complete.Account.{Error, foreign_key_violation, Session, Tables, Faults}
use deins_complete.Account.Rows.{
  is_null, exists, select, update, insert, statement, transaction, found,
}

abbrev pub same_session : Session → Session → Bool
same_session a b = str_eq a.id b.id || str_eq a.refresh_token_hash b.refresh_token_hash

-- WHERE refresh_token_hash=$1 AND revoked_at IS NULL
unfoldable pub is_unrevoked : Str → Session → Bool
is_unrevoked hash s = str_eq s.refresh_token_hash hash && is_null s.revoked_at

-- and expires_at > now()
unfoldable pub is_active : ℕ → Str → Session → Bool
is_active now hash s = is_unrevoked hash s && ltb now s.expires_at

abbrev pub revoke : ℕ → Session → Session
revoke now s = record s { revoked_at = some now }

-- The session that is rotated was used, too.
abbrev pub spend : ℕ → Session → Session
spend now s = record s { revoked_at = some now; last_used_at = now }

-- The row of a session that is given, with the id where it has none.
abbrev pub created : ℕ → Str → Session → Session
created now id s = record s {
  id = if is_empty s.id then id else s.id;
  created_at = now;
  last_used_at = now;
}

-- INSERT INTO user_sessions, which leaves revoked_at NULL
unfoldable pub insert_session : Session → Tables → Result Error Tables
insert_session s t = do
  refuse_if (not (exists (λ u. str_eq u.id s.user_id) t.users)) foreign_key_violation
  sessions ← insert (same_session s) (record s { revoked_at = none }) t.sessions
  ok (record t { sessions = sessions })

module _ (faults : Faults) (now : ℕ) where
  -- CreateSession; `id` is a new UUID.
  unfoldable pub create_session : Str → Session → Tables → Result Error Session × Tables
  create_session id s t = transaction t (do
    statement faults 0
    after ← insert_session (created now id s) t
    ok (created now id s, after))

  -- FindActiveSessionByTokenHash
  unfoldable pub find_active_session : Str → Tables → Result Error Session
  find_active_session hash t = do statement faults 0; found (select (is_active now hash) t.sessions)

  -- RotateSession
  unfoldable pub rotate_session : Str → Str → Session → Tables → Result Error Session × Tables
  rotate_session id old replacement t = transaction t (do
    statement faults 0
    statement faults 1
    session ← found (select (is_active now old) t.sessions)
    let next = created now id (record replacement { user_id = session.user_id })
    statement faults 2
    after ←
        insert_session next
          (record t { sessions = update (is_active now old) (spend now) t.sessions })
    statement faults 3
    ok (next, after))

  -- RevokeSessionByTokenHash
  unfoldable pub revoke_session : Str → Tables → Result Error (Unit {0}) × Tables
  revoke_session hash t = transaction t (do
    statement faults 0
    ok (tt, record t { sessions = update (is_unrevoked hash) (revoke now) t.sessions }))
