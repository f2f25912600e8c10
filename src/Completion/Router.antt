-- ===== src/Completion/Router.antt =====
-- api/internal/completion/router/router.go: the targets are tried in order, up to a number of
-- attempts, and a failure of the provider's own passes the request on to the next.
-- `ctx_err i` is what `ctx.Err()` returns before the attempt numbered `i`, `ctx_end` what it
-- returns behind the loop. The configuration accepts 1 to 5 attempts.
pub mod Fallback
pub mod OneSource
mod Tests
use deins_complete.Prelude.{
  ℕ, zero, suc, Bool, true, false, not, ◌||◌, Option, none, some, List, [], ◌∷◌, leb, if◌then◌else◌,
}
use deins_complete.Prelude.Text.{Str}
use deins_complete.Prelude.Result.{Result, ok, err}
use deins_complete.Completion.Types.{Request, Completed, completed}
use deins_complete.Completion.Errors.{
  ProviderErrorKind, authentication, rate_limit, timeout, unavailable, invalid_response, Error,
  is_canceled, as_provider_error,
}
use deins_complete.Prelude.Text.{is_empty}
use deins_complete.Completion.Service.{Callback, Provider, Script, deliver}

pub record Target : Type 0 where
  pub id : Str
  pub provider : Provider

pub record Static : Type 0 where
  pub targets : List Target
  pub max_attempts : ℕ

unfoldable eligible : ProviderErrorKind → Bool
eligible authentication = true
eligible rate_limit = true
eligible timeout = true
eligible unavailable = true
eligible invalid_response = true

-- `pe, ok := AsProviderError(err); ok && eligible(pe.Kind)`
unfoldable pub passes_on : Error → Bool
unfolding eligible as_provider_error
passes_on e = elim (as_provider_error e) [ none ↦ false | some kind ↦ eligible kind ]

abbrev is_some : Option Error → Bool
is_some none = false
is_some (some e) = true

-- What the loop leaves behind: without a last error, an empty result.
exhausted : Option Error → Result Error Completed
exhausted none = ok (completed [])
exhausted (some e) = err e

module _ (ctx_err : ℕ → Option Error) (ctx_end : Option Error) where
  -- `if ctx.Err() != nil { return ctx.Err() }; return last`
  pub behind_loop : Option Error → Option Error
  behind_loop last = elim ctx_end [ some e ↦ some e | none ↦ last ]

  module _ (max_attempts : ℕ) (request : Request) where
    pub stops : ℕ → Bool
    stops i = leb max_attempts i || is_some (ctx_err i)

    pub complete_from : ℕ → List Target → Option Error → Result Error Completed
    unfolding stops exhausted behind_loop passes_on is_canceled
    complete_from i [] last = exhausted (behind_loop last)
    complete_from i (target ∷ targets) last = elim (stops i) [
      | true ↦ exhausted (behind_loop last)
      | false ↦ elim (target.provider.complete request) [
        | ok result ↦ ok result
        | err e ↦ elim (is_canceled e || not (passes_on e)) [
          | true ↦ err e
          | false ↦ complete_from (suc i) targets (some e)
        ]
      ]
    ]

  pub complete : Static → Request → Result Error Completed
  unfolding complete_from
  complete router request = complete_from router.max_attempts request 0 router.targets none

-- An attempt returns from the loop, or fails with an error that becomes the last one.
pub data Attempt : Type 0 where
  returns : Option Error → Attempt
  failed : Error → Attempt

-- The callback that notes whether anything was emitted.
pub marking : {S : Type 0} → Callback S → Callback (Bool × S)
marking on_chunk chunk (emitted, s) =
    let (failure, s') = on_chunk chunk s in (failure, (emitted || not (is_empty chunk), s'))

after_stream : Option Error → Bool → Attempt
after_stream none emitted = returns none
after_stream (some e) emitted = if emitted || is_canceled e then returns (some e) else failed e

module _ {S : Type 0} (on_chunk : Callback S) where
  -- A target that does not stream hands its whole text over as one chunk.
  after_complete : Result Error Completed → S → Attempt × S
  after_complete (err e) s = (failed e, s)
  after_complete (ok result) s =
      if is_empty result.text
      then (returns none, s)
      else (let (failure, s') = on_chunk result.text s in (returns failure, s'))

  pub attempt_stream : Provider → Request → S → Attempt × S
  unfolding after_stream after_complete marking
  attempt_stream provider request s = elim provider.stream [
    | none ↦ after_complete (provider.complete request) s
    | some streaming ↦
        let script = streaming request in
        let (failure, (emitted, s')) =
          deliver (marking on_chunk) script.chunks script.final (false, s) in
        (after_stream failure emitted, s')
  ]

  module _ (ctx_err : ℕ → Option Error) (ctx_end : Option Error) where
    module _ (max_attempts : ℕ) (request : Request) where
      pub stream_from : ℕ → List Target → Option Error → S → Option Error × S
      unfolding stops behind_loop passes_on attempt_stream
      stream_from i [] last s = (behind_loop ctx_err ctx_end last, s)
      stream_from i (target ∷ targets) last s =
          let (attempt, s') = attempt_stream target.provider request s in
          elim (stops ctx_err ctx_end max_attempts request i) [
            | true ↦ (behind_loop ctx_err ctx_end last, s)
            | false ↦ elim attempt [
              | returns result ↦ (result, s')
              | failed e ↦ elim (passes_on e) [
                | true ↦ stream_from (suc i) targets (some e) s'
                | false ↦ (some e, s')
              ]
            ]
          ]

    pub stream_complete : Static → Request → S → Option Error × S
    unfolding stream_from
    stream_complete router request s =
        stream_from router.max_attempts request 0 router.targets none s
