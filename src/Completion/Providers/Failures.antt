-- ===== src/Completion/Providers/Failures.antt =====
-- What the router does with the errors of the providers.
use deins_complete.Prelude.{
  ℕ, ◌≡◌, refl, ◌⊎◌, inl, inr, true, Option, none, some, List, arith, Bool-cases, Option-cases,
}
use deins_complete.Prelude.Int.{ℤ}
use deins_complete.Prelude.Text.{Str, str, str_eq}
use deins_complete.Prelude.Result.{Result, ok, err}
use deins_complete.Completion.Types.{Request}
use deins_complete.Completion.Errors.{
  Error, ProviderErrorKind, authentication, rate_limit, timeout, unavailable, invalid_response,
  provider_error, is_canceled, is_deadline_exceeded, as_provider_error,
}
use deins_complete.Completion.Router.{passes_on}
use deins_complete.Completion.FileName.{Library}
use deins_complete.Completion.Providers.{
  Client, Outcome, unanswered, answered, holds_of, or_else, is_success, transport_error, reply,
  exchange,
}
use deins_complete.Completion.Providers.Openai as Openai
use deins_complete.Completion.Providers.Anthropic as Anthropic

-- The router passes the request on, or the context of the request was canceled.
abbrev pub Routed : Error → Type 0
Routed e = (passes_on e ≡ true) ⊎ (is_canceled e ≡ true)

provider_passes : (kind : ProviderErrorKind) (e : Error) → passes_on (provider_error kind e) ≡ true
unfolding passes_on as_provider_error
provider_passes authentication e = refl
provider_passes rate_limit e = refl
provider_passes timeout e = refl
provider_passes unavailable e = refl
provider_passes invalid_response e = refl

or_else_canceled :
    (ctx : Option Error) (e : Error)
    → holds_of is_canceled ctx ≡ true
    → is_canceled (or_else ctx e) ≡ true
or_else_canceled none e h = cc
or_else_canceled (some x) e h = h

transport-Routed : (ctx : Option Error) (e : Error) → Routed (transport_error ctx e)
unfolding transport_error
transport-Routed ctx e = elim (Bool-cases (holds_of is_deadline_exceeded ctx)) [
  | inl late ↦ inl (rw (transport_error, late) (provider_passes timeout e))
  | inr early ↦ elim (Bool-cases (holds_of is_canceled ctx)) [
    | inl c ↦ inr (rw (transport_error, early, c) (or_else_canceled ctx e c))
    | inr c ↦ inl (rw (transport_error, early, c) (provider_passes unavailable e))
  ]
]

abbrev pub AllRouted : {A : Type 0} → Result Error A → Type 0
AllRouted (ok a) = Unit
AllRouted (err e) = Routed e

module _ {Q B A : Type 0} (client : Client Q B) (status_error : ℕ → Error)
    (read : B → Result Error A) (statuses : (n : ℕ) → passes_on (status_error n) ≡ true)
    (reads : (b : B) → AllRouted (read b)) where
  reply-Routed : (o : Outcome B) → AllRouted (reply client status_error read o)
  reply-Routed (unanswered ctx e) = transport-Routed ctx e
  reply-Routed (answered status body) = elim (Bool-cases (is_success status)) [
    | inl good ↦ rw good (reads body)
    | inr bad ↦ rw bad (inl (statuses status))
  ]

  exchange-Routed : (url : Str) (body : Q) → AllRouted (exchange client status_error read url body)
  unfolding exchange
  exchange-Routed url body = elim (Option-cases (client.refuses body)) [
    | inl e ↦ rw (exchange, e) (reply-Routed (client.post url body))
    | inr (x, e) ↦ rw (exchange, e) (inl (provider_passes invalid_response x))
  ]

openai_statuses : (n : ℕ) → passes_on (Openai.status_error n) ≡ true
unfolding Openai.status_error passes_on as_provider_error
openai_statuses n = ground arith

anthropic_statuses : (n : ℕ) → passes_on (Anthropic.status_error n) ≡ true
unfolding Anthropic.status_error passes_on as_provider_error
anthropic_statuses n = ground arith

chat_reads :
    (request : Request) (b : Result Error Openai.ChatCompletionResponse)
    → AllRouted (Openai.read_chat request b)
chat_reads request (ok payload) = tt
chat_reads request (err e) = inl (provider_passes invalid_response e)

raw_reads :
    (end : Str) (b : Result Error (List Openai.RawChoice)) → AllRouted (Openai.read_raw end b)
raw_reads end (ok choices) = tt
raw_reads end (err e) = inl (provider_passes invalid_response e)

anthropic_reads : (b : Result Error Anthropic.ResponseBody) → AllRouted (Anthropic.read b)
anthropic_reads (ok body) = tt
anthropic_reads (err e) = inl (provider_passes invalid_response e)

AllRouted-err : {A : Type 0} {r : Result Error A} {e : Error} → AllRouted r → r ≡ err e → Routed e
AllRouted-err {r = r} h k = rw k at h

-- Whatever goes wrong in Complete of the provider for the protocol of OpenAI, in either mode, its
-- error makes the router pass the request on, unless the context was canceled.
pub openai_complete-Routed :
    {Float : Type 0} (provider : Openai.Provider Float) (messages : Request → List Openai.Message)
    (base : Str → Str)
    (raw : Client (Openai.CompletionRequest Float) (Result Error (List Openai.RawChoice)))
    (chat : Client
      (Openai.ChatCompletionRequest Float)
      (Result Error Openai.ChatCompletionResponse))
    (request : Request) (e : Error)
    → Openai.complete provider messages base raw chat request ≡ err e
    → Routed e
unfolding Openai.complete Openai.complete_raw
openai_complete-Routed provider messages base raw chat request e h =
    elim (Bool-cases (str_eq provider.api_mode (str "completion"))) [
      | inl k ↦
          AllRouted-err
            (exchange-Routed raw Openai.status_error (Openai.read_raw provider.fim.end_token)
              openai_statuses (raw_reads provider.fim.end_token) _ _)
            (rw (Openai.complete, k) at h)
      | inr k ↦
          AllRouted-err
            (exchange-Routed chat Openai.status_error (Openai.read_chat request) openai_statuses
              (chat_reads request) _ _)
            (rw (Openai.complete, k) at h)
    ]

-- Whatever goes wrong in Complete of the provider for Anthropic, its error makes the router pass the
-- request on, unless the context was canceled.
pub anthropic_complete-Routed :
    {Float : Type 0} (provider : Anthropic.Provider Float) (itoa : ℤ → Str) (library : Library)
    (client : Client (Anthropic.RequestBody Float) (Result Error Anthropic.ResponseBody))
    (request : Request) (e : Error)
    → Anthropic.complete provider itoa library client request ≡ err e
    → Routed e
unfolding Anthropic.complete
anthropic_complete-Routed provider itoa library client request e h =
    AllRouted-err
      (exchange-Routed client Anthropic.status_error Anthropic.read anthropic_statuses
        anthropic_reads _ _)
      h
