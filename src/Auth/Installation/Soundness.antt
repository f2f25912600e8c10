-- ===== src/Auth/Installation/Soundness.antt =====
-- Which installation tokens are accepted.
use deins_complete.Prelude.{
  ℕ, ◌+◌, ◌*◌, ◌/◌, ◌≤◌, ◌<◌, ◌≡◌, ◌≢◌, ◌⊎◌, inl, inr, refl, true, false, Bool-cases, Option, none,
  some, Option-cases, [], arith,
}
use deins_complete.Prelude.Int.{pos, ltb_ℤ, eq_ℤ_iff, eq_ℤ_refl, to_ℕ}
use deins_complete.Prelude.Text.{Str, is_empty_iff}
use deins_complete.Prelude.Result.{ok}
use deins_complete.Auth.Envelope.{Crypto, IsEncoding, seal, unseal, seal-unseal, unseal-seal}
use deins_complete.Auth.Installation.{
  Service, Claims, Json, second, refuses_claims, accept, claims_of, issue, validated, validate,
}

-- The claims name the installation, were issued at a positive time by this version, and have not expired.
pub record ClaimsFit (s : Service) (now : ℕ) (id : Str) (c : Claims) : Type 0 where
  pub names : c.id ≡ id
  pub named : id ≢ []
  pub issued_positive : ltb_ℤ (pos 0) c.issued ≡ true
  pub same_version : c.version ≡ s.version
  pub unexpired : (s.ttl ≡ 0) ⊎ (now ≤ to_ℕ c.issued * second + s.ttl)

-- A token that is the signature of claims that fit.
pub record Signed (crypto : Crypto) (json : Json) (s : Service) (now : ℕ) (id token : Str)
    : Type 0 where
  pub payload : Str
  pub claims : Claims
  pub is_seal : token ≡ seal crypto s.secret payload
  pub reads : json.unmarshal payload ≡ some claims
  pub fits : ClaimsFit s now id claims

claims_lem :
    (s : Service) (now : ℕ) (id : Str) (c : Claims)
    → refuses_claims s now c ≡ false
    → c.id ≡ id
    → ClaimsFit s now id c
unfolding refuses_claims
claims_lem s now id c h e = ground (arith, is_empty_iff c.id, eq_ℤ_iff c.version s.version)

accept_lem :
    (s : Service) (now : ℕ) (id : Str) (o : Option Claims)
    → accept s now o ≡ ok id
    → (c : Claims) × (o ≡ some c) × ClaimsFit s now id c
accept_lem s now id none h = cc
accept_lem s now id (some c) h = elim (Bool-cases (refuses_claims s now c)) [
  | inl bad ↦ ground arith
  | inr good ↦ (c, refl, claims_lem s now id c good (ground arith))
]

claims_of_lem :
    (s : Service) (now later : ℕ) (id : Str)
    → id ≢ []
    → second ≤ now
    → (s.ttl ≡ 0) ⊎ (later ≤ now / second * second + s.ttl)
    → refuses_claims s later (claims_of s now id) ≡ false
unfolding refuses_claims
claims_of_lem s now later id named past fresh =
    let positive : 0 < now / second = omega arith in
    rw ((is_empty_iff id).1 named) (rw (eq_ℤ_refl s.version) (ground arith))

module _ (crypto : Crypto) (json : Json) where
  validated_lem :
      (s : Service) (now : ℕ) (id token : Str) (o : Option Str)
      → unseal crypto s.secret token ≡ o
      → validated crypto json s now o ≡ ok id
      → Signed crypto json s now id token
  validated_lem s now id token none e h = cc
  validated_lem s now id token (some payload) e h =
      let (c, reads, fits) = accept_lem s now id (json.unmarshal payload) h in
      record {
        payload = payload;
        claims = c;
        is_seal = seal-unseal crypto s.secret token payload e;
        reads = reads;
        fits = fits;
      }

  -- A token that is accepted for an installation is, byte for byte, the seal of claims that name
  -- it, under the service's secret and version, issued at a positive time and not expired.
  pub validate-Signed :
      (s : Service) (now : ℕ) (id token : Str)
      → validate crypto json s now token ≡ ok id
      → Signed crypto json s now id token
  unfolding validate
  validate-Signed s now id token h =
      validated_lem s now id token (unseal crypto s.secret token) refl h

  -- An issued token is accepted, for the installation it was issued to, as long as it has not
  -- expired: the id is not empty, JSON reads the claims that it wrote, and the clock is past 1970.
  pub validate-issue :
      IsEncoding crypto
      → (s : Service) (now later : ℕ) (id token : Str) → id ≢ []
      → second ≤ now
      → (s.ttl ≡ 0) ⊎ (later ≤ now / second * second + s.ttl)
      → ((p : Str)
          → json.marshal (claims_of s now id) ≡ some p
          → json.unmarshal p ≡ some (claims_of s now id))
      → issue crypto json s now id ≡ some token
      → validate crypto json s later token ≡ ok id
  unfolding validate issue
  validate-issue e s now later id token named past fresh reads h =
      elim (Option-cases (json.marshal (claims_of s now id))) [
        | inl failed ↦ ground arith
        | inr (payload, made) ↦
            let sealed : token ≡ seal crypto s.secret payload = ground arith in
            rw sealed (
              rw (unseal-seal crypto e s.secret payload)
                (rw (reads payload made) (rw (claims_of_lem s now later id named past fresh) refl)))
      ]
