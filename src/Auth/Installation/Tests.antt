-- ===== src/Auth/Installation/Tests.antt =====
-- The theorems at an encoding that shifts every byte and a JSON text that is the id.
use deins_complete.Prelude.{◌+◌, ◌-◌, ◌≡◌, ◌≢◌, refl, ap, some, [], ◌∷◌, ◌++◌, inr, arith}
use deins_complete.Prelude.Int.{pos}
use deins_complete.Prelude.Text.{Str, str}
use deins_complete.Prelude.Text.Laws.{Without}
use deins_complete.Prelude.Result.{ok}
use deins_complete.Auth.Envelope.{Crypto, IsEncoding, seal}
use deins_complete.Auth.Installation.{Service, Json, issue, validate}
use deins_complete.Auth.Installation.Soundness.{Signed, validate-Signed, validate-issue}

abbrev shift : Str → Str
shift [] = []
shift (x ∷ s) = (x + 47) ∷ shift s

abbrev unshift : Str → Str
unshift [] = []
unshift (x ∷ s) = (x - 47) ∷ unshift s

abbrev pub crypto : Crypto
crypto = record {
  encode = shift;
  decode = λ s. some (unshift s);
  hmac = λ secret message. secret ++ message;
}

unshift-shift : (s : Str) → unshift (shift s) ≡ s
unshift-shift [] = refl
unshift-shift (x ∷ s) = ground (arith, unshift-shift s)

shift-Without : (s : Str) → Without b'.' (shift s)
shift-Without [] = tt
shift-Without (x ∷ s) = (λ h. omega arith, shift-Without s)

pub crypto-IsEncoding : IsEncoding crypto
crypto-IsEncoding = record {
  decode-encode = λ s. ap some (unshift-shift s);
  no_dot = shift-Without;
}

abbrev pub json : Json
json = record {
  marshal = λ c. some c.id;
  unmarshal = λ p. some (record { id = p; issued = pos 5; version = pos 1 });
}

abbrev pub service : Service
service = record { secret = str "secret"; version = pos 1; ttl = 1000000000 }

abbrev pub token : Str
token = seal crypto service.secret (str "a")

a_ne : str "a" ≢ []
unfolding str
a_ne = λ h. cc

token_accepted : validate crypto json service 6000000000 token ≡ ok (str "a")
unfolding issue
token_accepted =
    validate-issue crypto json crypto-IsEncoding service 5000000007 6000000000 (str "a") token a_ne
      (omega arith) (inr (omega arith)) (λ p h. cc) refl

validate-issue_example : validate crypto json service 6000000000 token ≡ ok (str "a")
unfolding issue
validate-issue_example =
    validate-issue crypto json crypto-IsEncoding service 5000000007 6000000000 (str "a") token a_ne
      (omega arith) (inr (omega arith)) (λ p h. cc) refl

validate-Signed_example : Signed crypto json service 6000000000 (str "a") token
validate-Signed_example =
    validate-Signed crypto json service 6000000000 (str "a") token token_accepted
