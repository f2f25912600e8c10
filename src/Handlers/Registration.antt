-- ===== src/Handlers/Registration.antt =====
-- api/internal/http/handlers/installation.go: an installation asks for its token.
use deins_complete.Prelude.{
  ℕ, ◌≤◌, ◌/◌, ◌*◌, ◌+◌, ◌≡◌, ◌⊎◌, inl, inr, refl, ap, ◌∙◌, true, not, ◌||◌, ltb, Option, none,
  some, arith, length, if◌then◌else◌, Bool-cases, Option-cases,
}
use deins_complete.Prelude.Text.{Str, str, str_eq, is_empty, is_empty_iff}
use deins_complete.Prelude.Result.{Result, ok, err}
use deins_complete.Account.{Error, Installation, Tables, Faults}
use deins_complete.Account.Installations.{ensure_installation}
use deins_complete.Auth.Envelope.{Crypto, IsEncoding}
use deins_complete.Auth.Installation.{Service, Json, second, claims_of, issue, validate}
use deins_complete.Auth.Installation.Soundness.{validate-issue}
use deins_complete.Handlers.{
  Decoded, decoded, Reply, refused, replied, invalid_request, unavailable_now,
}

module _ (crypto : Crypto) (json : Json) (s : Service) (now : ℕ) where
  -- The token, or that it was not issued.
  unfoldable pub issued_reply : Str → Reply Str
  issued_reply id = elim (issue crypto json s now id) [
    | none ↦ refused 500 (str "INTERNAL_ERROR")
    | some token ↦ replied 200 token
  ]

  -- The answer to what EnsureInstallation returned.
  unfoldable pub ensured_reply : Str → Result Error Installation → Reply Str
  ensured_reply id (err e) = unavailable_now
  ensured_reply id (ok i) =
      if not (str_eq i.status (str "active"))
      then refused 401 (str "INSTALLATION_REVOKED")
      else issued_reply id

  module _ (faults : Faults) (at : ℕ) (row : Str) where
    -- RegisterInstallations, given the id of a body; `none` is no repository, and `row` and `at` are
    -- the id and the time of a new row.
    unfoldable pub register_installations : Decoded Str → Option Tables → Reply Str × Option Tables
    register_installations (decoded id) repository =
        if is_empty id || ltb 128 (length id)
        then (invalid_request, repository)
        else elim repository [
          | none ↦ (issued_reply id, none)
          | some t ↦
              let (ensured, t') = ensure_installation faults at row id t in
              (ensured_reply id ensured, some t')
        ]
    register_installations _ repository = (invalid_request, repository)

module _ (crypto : Crypto) (json : Json) (s : Service) (now : ℕ) where
  issued_reply-token :
      (id token : Str)
      → issued_reply crypto json s now id ≡ replied 200 token
      → issue crypto json s now id ≡ some token
  unfolding issued_reply
  issued_reply-token id token h = elim (Option-cases (issue crypto json s now id)) [
    | inl n ↦ absurd (ground arith)
    | inr (x, e) ↦
        let k : replied 200 x ≡ replied 200 token = rw (issued_reply, e) at h in e ∙ ap some (cc)
  ]

  ensured_reply-active :
      (id token : Str) (r : Result Error Installation)
      → ensured_reply crypto json s now id r ≡ replied 200 token
      → (issue crypto json s now id ≡ some token)
        × ((i : Installation) × (r ≡ ok i) × (str_eq i.status (str "active") ≡ true))
  unfolding ensured_reply
  ensured_reply-active id token (err e) h = absurd (ground arith)
  ensured_reply-active id token (ok i) h = elim (Bool-cases (str_eq i.status (str "active"))) [
    | inl a ↦ (issued_reply-token id token (rw (ensured_reply, a) at h), (i, refl, a))
    | inr n ↦ absurd (ground arith)
  ]

-- With a repository, a token that a registration is answered with is accepted for the installation
-- until it expires, and the installation was found or made active, where JSON reads the claims that
-- it wrote and the clock is past 1970.
pub register-validate :
    (crypto : Crypto) (json : Json) (s : Service) (now : ℕ) (faults : Faults) (at : ℕ)
    (row id token : Str) (t : Tables) (later : ℕ)
    → IsEncoding crypto
    → second ≤ now
    → (s.ttl ≡ 0) ⊎ (later ≤ now / second * second + s.ttl)
    → ((p : Str)
        → json.marshal (claims_of s now id) ≡ some p
        → json.unmarshal p ≡ some (claims_of s now id))
    → (register_installations crypto json s now faults at row (decoded id) (some t)).0
      ≡ replied 200 token
    → (validate crypto json s later token ≡ ok id)
      × ((i : Installation) × ((ensure_installation faults at row id t).0 ≡ ok i)
          × (str_eq i.status (str "active") ≡ true))
unfolding register_installations
register-validate crypto json s now faults at row id token t later e past live reads h =
    elim (Bool-cases (is_empty id)) [
      | inl b ↦ absurd (ground arith)
      | inr named ↦ elim (Bool-cases (ltb 128 (length id))) [
        | inl long ↦ absurd (ground arith)
        | inr fits ↦
            let (issued, active) =
              ensured_reply-active crypto json s now id token
                (ensure_installation faults at row id t).0
                (rw (register_installations, named, fits) at h) in
            (
              validate-issue crypto json e s now later id token ((is_empty_iff id).0 named) past
                  live reads issued,
              active,
            )
      ]
    ]
