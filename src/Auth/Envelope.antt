-- ===== src/Auth/Envelope.antt =====
-- api/internal/auth/token.go and api/internal/accountauth/tokens.go: the signed text
-- `payload.signature`, both parts in unpadded base64. `Crypto` is the standard library's base64 and
-- HMAC-SHA256, given the secret and the text.
use deins_complete.Prelude.{
  ◌≡◌, refl, sym, ap, ◌∙◌, Option, none, some, List, [], ◌∷◌, ◌++◌, if◌then◌else◌, arith,
}
use deins_complete.Prelude.Text.{Str, str_eq, str_eq→eq, str_eq_refl}
use deins_complete.Prelude.Text.Search.{split, join}
use deins_complete.Prelude.Text.Laws.{Without, join_by, join-split, split-append, split_of_Without}

pub record Crypto : Type 0 where
  pub encode : Str → Str
  pub decode : Str → Option Str
  pub hmac : Str → Str → Str

-- What base64 without padding promises: decoding gives back what was encoded, and no code has a dot.
pub record IsEncoding (crypto : Crypto) : Type 0 where
  pub decode-encode : (s : Str) → crypto.decode (crypto.encode s) ≡ some s
  pub no_dot : (s : Str) → Without b'.' (crypto.encode s)

module _ (crypto : Crypto) where
  -- decodeCanonical: only the text that encoding gives is accepted.
  abbrev pub canonical : Str → Option Str → Option Str
  canonical value none = none
  canonical value (some decoded) =
      if str_eq (crypto.encode decoded) value then some decoded else none

  unfoldable pub decode_canonical : Str → Option Str
  decode_canonical value = canonical value (crypto.decode value)

  -- The text that issuing returns for a payload.
  unfoldable pub seal : Str → Str → Str
  seal secret payload =
      let raw = crypto.encode payload in raw ++ b'.' ∷ crypto.encode (crypto.hmac secret raw)

  -- The signature and then the payload, as validation checks them.
  abbrev pub checked : Str → Str → Option Str → Option Str
  checked secret raw none = none
  checked secret raw (some signature) =
      if str_eq signature (crypto.hmac secret raw) then decode_canonical raw else none

  abbrev pub two_parts : Str → List Str → Option Str
  two_parts secret (raw ∷ signature ∷ []) = checked secret raw (decode_canonical signature)
  two_parts secret _ = none

  -- The payload of a token that the secret signed.
  unfoldable pub unseal : Str → Str → Option Str
  unseal secret token = two_parts secret (split token b'.')

  canonical_lem :
      (value payload : Str) (o : Option Str)
      → canonical value o ≡ some payload
      → crypto.encode payload ≡ value
  canonical_lem value payload none h = cc
  canonical_lem value payload (some decoded) h =
      ground (arith, str_eq→eq (crypto.encode decoded) value)

  decode_canonical_lem :
      (value payload : Str) → decode_canonical value ≡ some payload → crypto.encode payload ≡ value
  unfolding decode_canonical
  decode_canonical_lem value payload h = canonical_lem value payload (crypto.decode value) h

  checked_lem :
      (secret raw payload : Str) (o : Option Str)
      → checked secret raw o ≡ some payload
      → (o ≡ some (crypto.hmac secret raw)) × (decode_canonical raw ≡ some payload)
  checked_lem secret raw payload none h = cc
  checked_lem secret raw payload (some signature) h =
      ground (arith, str_eq→eq signature (crypto.hmac secret raw))

  two_parts_lem :
      (secret payload : Str) (parts : List Str)
      → two_parts secret parts ≡ some payload
      → join_by parts b'.' ≡ seal secret payload
  unfolding seal
  two_parts_lem secret payload (raw ∷ signature ∷ []) h =
      let (hsig, hraw) = checked_lem secret raw payload (decode_canonical signature) h in
      let raw_eq = decode_canonical_lem raw payload hraw in
      let sig_eq = decode_canonical_lem signature (crypto.hmac secret raw) hsig in
      unfold join in rw (raw_eq, ← sig_eq) refl
  two_parts_lem secret payload [] h = cc
  two_parts_lem secret payload (x ∷ []) h = cc
  two_parts_lem secret payload (x ∷ y ∷ z ∷ l) h = cc

  -- A token that unseals is, byte for byte, the sealed payload: no other text passes.
  pub seal-unseal :
      (secret token payload : Str)
      → unseal secret token ≡ some payload
      → token ≡ seal secret payload
  unfolding unseal
  seal-unseal secret token payload h =
      sym (join-split b'.' token) ∙ two_parts_lem secret payload (split token b'.') h

  decode_canonical-encode :
      IsEncoding crypto → (s : Str) → decode_canonical (crypto.encode s) ≡ some s
  unfolding decode_canonical
  decode_canonical-encode e s = rw (e.decode-encode s) (rw (str_eq_refl (crypto.encode s)) refl)

  split-seal :
      IsEncoding crypto
      → (secret payload : Str)
      → let raw = crypto.encode payload in
        split (seal secret payload) b'.' ≡ raw ∷ crypto.encode (crypto.hmac secret raw) ∷ []
  unfolding seal
  split-seal e secret payload =
      let raw = crypto.encode payload in
      let signature = crypto.encode (crypto.hmac secret raw) in
      split-append b'.' raw signature (e.no_dot payload)
      ∙ ap (λ t. raw ∷ t) (split_of_Without b'.' signature (e.no_dot (crypto.hmac secret raw)))

  -- A sealed payload unseals.
  pub unseal-seal :
      IsEncoding crypto
      → (secret payload : Str) → unseal secret (seal secret payload) ≡ some payload
  unfolding unseal
  unseal-seal e secret payload =
      let raw = crypto.encode payload in
      rw (split-seal e secret payload) (
        rw (decode_canonical-encode e (crypto.hmac secret raw))
          (rw (str_eq_refl (crypto.hmac secret raw)) (decode_canonical-encode e payload)))
