-- ===== src/Auth/Account/Soundness.antt =====
-- Which access tokens are accepted.
use deins_complete.Prelude.{
  ℕ, ◌+◌, ◌/◌, ◌≡◌, ◌≢◌, ◌<◌, refl, true, false, Bool-cases, Option, none, some, Option-cases, [],
  inl, inr, arith,
}
use deins_complete.Prelude.Int.{pos, ltb_ℤ}
use deins_complete.Prelude.Text.{Str, str, str_eq_iff, str_eq_refl, is_empty_iff}
use deins_complete.Prelude.Result.{ok}
use deins_complete.Auth.Envelope.{Crypto, IsEncoding, seal, unseal, seal-unseal, unseal-seal}
use deins_complete.Auth.Account.{
  Service, Claims, Json, second, refuses_claims, accept, claims_of, issue_access_token, validated,
  validate_access_token,
}

-- A token that is the signature of the claims of an account, which have not expired.
pub record Signed (crypto : Crypto) (json : Json) (s : Service) (now : ℕ) (user_id token : Str)
    : Type 0 where
  pub payload : Str
  pub claims : Claims
  pub is_seal : token ≡ seal crypto s.secret payload
  pub reads : json.unmarshal payload ≡ some claims
  pub names : claims.user_id ≡ user_id
  pub named : user_id ≢ []
  pub of_account : claims.kind ≡ str "account"
  pub unexpired : ltb_ℤ (pos (now / second)) claims.expires_at ≡ true

claims_lem :
    (now : ℕ) (user_id : Str) (c : Claims)
    → refuses_claims now c ≡ false
    → c.user_id ≡ user_id
    → (user_id ≢ []) × (c.kind ≡ str "account") × (ltb_ℤ (pos (now / second)) c.expires_at ≡ true)
unfolding refuses_claims
claims_lem now user_id c h e =
    ground (arith, is_empty_iff c.user_id, str_eq_iff c.kind (str "account"))

module _ (crypto : Crypto) (json : Json) where
  accept_lem :
      (s : Service) (now : ℕ) (user_id token payload : Str) (o : Option Claims)
      → token ≡ seal crypto s.secret payload
      → json.unmarshal payload ≡ o
      → accept now o ≡ ok user_id
      → Signed crypto json s now user_id token
  accept_lem s now user_id token payload none e r h = cc
  accept_lem s now user_id token payload (some c) e r h = elim (Bool-cases (refuses_claims now c)) [
    | inl bad ↦ ground arith
    | inr good ↦
        let names : c.user_id ≡ user_id = ground arith in
        let (named, kind, unexpired) = claims_lem now user_id c good names in
        record {
          payload = payload;
          claims = c;
          is_seal = e;
          reads = r;
          names = names;
          named = named;
          of_account = kind;
          unexpired = unexpired;
        }
  ]

  validated_lem :
      (s : Service) (now : ℕ) (user_id token : Str) (o : Option Str)
      → unseal crypto s.secret token ≡ o
      → validated crypto json s now o ≡ ok user_id
      → Signed crypto json s now user_id token
  validated_lem s now user_id token none e h = cc
  validated_lem s now user_id token (some payload) e h =
      accept_lem s now user_id token payload (json.unmarshal payload)
        (seal-unseal crypto s.secret token payload e) refl h

  -- An access token that is accepted for a user is, byte for byte, the seal under the service's
  -- secret of claims of an account that name the user and expire later than now.
  pub validate_access_token-Signed :
      (s : Service) (now : ℕ) (user_id token : Str)
      → validate_access_token crypto json s now token ≡ ok user_id
      → Signed crypto json s now user_id token
  unfolding validate_access_token
  validate_access_token-Signed s now user_id token h =
      validated_lem s now user_id token (unseal crypto s.secret token) refl h

  -- An issued access token is accepted for its user until the second in which its time ends, where
  -- the id is not empty and JSON reads the claims that it wrote.
  pub validate_access_token-issue :
      IsEncoding crypto
      → (s : Service) (now later : ℕ) (user_id token : Str) → user_id ≢ []
      → later / second < (now + s.access_ttl) / second
      → ((p : Str)
          → json.marshal (claims_of s now user_id) ≡ some p
          → json.unmarshal p ≡ some (claims_of s now user_id))
      → issue_access_token crypto json s now user_id ≡ some token
      → validate_access_token crypto json s later token ≡ ok user_id
  unfolding validate_access_token issue_access_token refuses_claims
  validate_access_token-issue e s now later user_id token named fresh reads h =
      elim (Option-cases (json.marshal (claims_of s now user_id))) [
        | inl failed ↦ ground arith
        | inr (payload, made) ↦
            let sealed : token ≡ seal crypto s.secret payload = ground arith in
            rw sealed (
              rw (unseal-seal crypto e s.secret payload) (
                rw (reads payload made) (
                  rw ((is_empty_iff user_id).1 named)
                    (rw (str_eq_refl (str "account")) (ground arith)))))
      ]
