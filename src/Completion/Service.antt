-- ===== src/Completion/Service.antt =====
-- api/internal/completion/service.go. The environment is a state that the caller's callback
-- changes and in which `ctx.Err()` is read. A streaming provider hands chunks to a callback in
-- order, stops at its first error and returns that, and otherwise ends with an error of its own or
-- with none: `deliver`.
pub mod Streaming
mod Tests
use deins_complete.Prelude.{
  ℕ, zero, suc, ◌-◌, Bool, true, false, Option, none, some, List, [], ◌∷◌, ◌++◌, if◌then◌else◌,
  length, take,
}
use deins_complete.Prelude.Text.{Str, str}
use deins_complete.Prelude.Text.Search.{index}
use deins_complete.Prelude.Result.{Result, ok, err, ◌>>=◌}
use deins_complete.Completion.Types.{Request, RepositoryContext, Completed, completed}
use deins_complete.Completion.Errors.{Error, useful_line_complete, is_useful_line_complete}
use deins_complete.Completion.Policy.{is_one_of, single_line_intent}
use deins_complete.Prelude.Text.{is_empty}

-- onChunk: an error or nil, and the state that it leaves.
abbrev pub Callback : Type 0 → Type 0
Callback S = Str → S → Option Error × S

-- What a streaming provider hands over, and the error with which it ends.
pub record Script : Type 0 where
  pub chunks : List Str
  pub final : Option Error

-- A provider completes a request, and streams it if it is a StreamingProvider.
pub record Provider : Type 0 where
  pub complete : Request → Result Error Completed
  pub stream : Option (Request → Script)

module _ {S : Type 0} (on_chunk : Callback S) where
  unfoldable pub deliver : List Str → Option Error → S → Option Error × S
  deliver [] final s = (final, s)
  deliver (chunk ∷ chunks) final s =
      let (failure, s') = on_chunk chunk s in
      elim failure [ none ↦ deliver chunks final s' | some e ↦ (some e, s') ]

unfoldable pub focus_single_line : Option RepositoryContext → Bool
focus_single_line none = false
focus_single_line (some repository) = is_one_of repository.focus (
    str "component-props"
    ∷ str "member-access"
    ∷ str "function-arguments"
    ∷ str "tailwind-class"
    ∷ [])

unfoldable pub single_line_focus : Request → Bool
unfolding focus_single_line
single_line_focus request =
    if is_empty request.intent
    then focus_single_line request.repository_context
    else single_line_intent request.intent

-- What the service keeps while it streams: the raw text, and the caller's state.
pub record Streamed (S : Type 0) : Type 0 where
  pub raw : Str
  pub caller : S

-- The position of a line break at which a single-line completion ends.
unfoldable pub line_end : Bool → Str → Option ℕ
line_end false raw = none
line_end true raw = index raw (10 ∷ [])

module _ {S : Type 0} (on_chunk : Callback S) (ctx_err : S → Option Error) where
  -- `if chunk != "" { if err := onChunk(chunk); err != nil { return err } }`, and then `after`.
  unfoldable pub emit : Str → Str → (S → Option Error) → S → Option Error × Streamed S
  emit raw [] after s = (after s, record { raw = raw; caller = s })
  emit raw (c ∷ chunk) after s =
      let (failure, s') = on_chunk (c ∷ chunk) s in
      (elim failure [ none ↦ after s' | some e ↦ some e ], record { raw = raw; caller = s' })

  -- The callback that `Stream` hands to the provider.
  unfoldable pub forward : Bool → Callback (Streamed S)
  forward single chunk state =
      let raw = state.raw ++ chunk in
      elim (line_end single raw) [
        | some newline ↦
            emit (take newline raw) (take (newline - length state.raw) chunk)
              (λ _. some useful_line_complete) state.caller
        | none ↦ emit raw chunk ctx_err state.caller
      ]

-- errUsefulLineComplete ends a stream well.
abbrev pub stream_failure : Option Error → Option Error
stream_failure none = none
stream_failure (some e) = if is_useful_line_complete e then none else some e

module _ (sanitizer : Request → Str → Str) (provider : Provider) where
  unfoldable pub complete : Request → Result Error Completed
  complete request = do
    result ← provider.complete request
    ok (record result { text = sanitizer request result.text })

  module _ {S : Type 0} (on_chunk : Callback S) (ctx_err : S → Option Error) where
    unfoldable pub finish : Request → Option Error × Streamed S → Result Error Completed × S
    finish request (failure, state) = elim (stream_failure failure) [
      | some e ↦ (err e, state.caller)
      | none ↦ (ok (completed (sanitizer request state.raw)), state.caller)
    ]

    unfoldable pub stream : Request → S → Result Error Completed × S
    unfolding finish
    stream request s = elim provider.stream [
      | none ↦ (complete request, s)
      | some streaming ↦
          let script = streaming request in
          finish request (
            deliver (forward on_chunk ctx_err (single_line_focus request)) script.chunks
              script.final (record { raw = []; caller = s }))
    ]
