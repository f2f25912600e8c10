-- ===== src/Account/Codes.antt =====
-- api/internal/account/repository.go: magic codes. The tokens are hashed before they come here.
use deins_complete.Prelude.{ℕ, Bool, ◌&&◌, ◌||◌, none, some, ltb}
use deins_complete.Prelude.Text.{Str, str_eq, is_empty}
use deins_complete.Prelude.Result.{Result, ok, ◌>>=◌, ◌>>◌, refuse_if}
use deins_complete.Account.{Error, code_required, MagicCode, Tables, Faults}
use deins_complete.Account.Rows.{is_null, select, update, insert, statement, transaction, found}
use deins_complete.Account.Users.{normalize_email}

abbrev pub same_code : MagicCode → MagicCode → Bool
same_code a b = str_eq a.id b.id || str_eq a.token_hash b.token_hash

abbrev pub new_code : ℕ → Str → Str → Str → ℕ → MagicCode
new_code now id email hash expires_at = record {
  id = id;
  email_normalized = email;
  token_hash = hash;
  expires_at = expires_at;
  created_at = now;
  consumed_at = none;
}

-- WHERE token_hash=$1 AND consumed_at IS NULL AND expires_at > now()
unfoldable pub is_pending : ℕ → Str → MagicCode → Bool
is_pending now hash c = str_eq c.token_hash hash && is_null c.consumed_at && ltb now c.expires_at

abbrev pub consume : ℕ → MagicCode → MagicCode
consume now c = record c { consumed_at = some now }

module _ (faults : Faults) (now : ℕ) where
  -- CreateMagicCode
  unfoldable pub create_magic_code :
      (Str → Str) → Str → Str → Str → ℕ → Tables → Result Error MagicCode × Tables
  create_magic_code lower id email hash expires_at t =
      let code = new_code now id (normalize_email lower email) hash expires_at in
      transaction t (do
        refuse_if (is_empty code.email_normalized || is_empty hash) code_required
        statement faults 0
        codes ← insert (same_code code) code t.codes
        ok (code, record t { codes = codes }))

  -- ConsumeMagicCode
  unfoldable pub consume_magic_code : Str → Tables → Result Error Str × Tables
  consume_magic_code hash t = transaction t (do
    statement faults 0
    code ← found (select (is_pending now hash) t.codes)
    ok (
      code.email_normalized,
      record t { codes = update (is_pending now hash) (consume now) t.codes },
    ))
