-- ===== src/Handlers/Stream.antt =====
-- What a client has received when a stream is finished.
use deins_complete.Prelude.{
  ℕ, ◌≡◌, refl, ◌∙◌, ◌⊎◌, Option-cases, inl, inr, Option, none, some, [], true, false, arith,
  Bool-cases,
}
use deins_complete.Prelude.Text.{Str}
use deins_complete.Prelude.Result.{Result, ok, err}
use deins_complete.Account.{Plan}
use deins_complete.Completion.Types.{Request, Completed}
use deins_complete.Completion.Errors.{Error}
use deins_complete.Completion.Service.{Callback, Provider, Script, stream}
use deins_complete.Completion.Service.Streaming.{traced, seen, stream-sent, stream-keeps}
use deins_complete.Handlers.{
  decoded, Event, chunk, failed, finished, entitled, is_valid, may_stream, end_stream, serve_stream,
}

-- A connection that also keeps the text of the chunks that were written to it, and the text of the
-- `done` event.
abbrev pub Kept : Type 0 → Type 0
Kept W = Str × (Option Str × W)

abbrev pub write_chunk : {W : Type 0} → (Event → W → Option Error × W) → Callback (Option Str × W)
write_chunk write text (ended, w) = let (e, w') = write (chunk text) w in (e, (ended, w'))

abbrev pub keeping :
    {W : Type 0} → (Event → W → Option Error × W) → Event → Kept W → Option Error × Kept W
keeping write (chunk text) state = traced (write_chunk write) text state
keeping write failed (sent, (ended, w)) = let (e, w') = write failed w in (e, (sent, (ended, w')))
keeping write (finished text) (sent, (ended, w)) =
    let (e, w') = write (finished text) w in (e, (sent, (some text, w')))

abbrev pub refusing : {W : Type 0} → (ℕ → Str → W → W) → ℕ → Str → Kept W → Kept W
refusing refuse status code (sent, (ended, w)) = (sent, (ended, refuse status code w))

abbrev pub ctx_of : {W : Type 0} → (W → Option Error) → Option Str × W → Option Error
ctx_of ctx_err (ended, w) = ctx_err w

-- What a request becomes under a plan: itself, or without the repository context where the plan does
-- not include it.
abbrev pub Limits : Option Plan → Request → Request → Type 0
Limits none request r = r ≡ request
Limits (some plan) request r =
    ((plan.repository_context ≡ true) × (r ≡ request))
    ⊎ ((plan.repository_context ≡ false)
        × (r.repository_context ≡ none)
        × (r.context ≡ request.context)
        × (r.intent ≡ request.intent)
        × (r.client ≡ request.client))

entitled-Limits :
    (plan : Option Plan) (request : Request) → Limits plan request (entitled plan request)
unfolding entitled
entitled-Limits none request = refl
entitled-Limits (some plan) request = elim (Bool-cases plan.repository_context) [
  | inl e ↦ inl (e, rw e refl)
  | inr e ↦ inr (e, rw e refl, rw e refl, rw e refl, rw e refl)
]

module _ {W : Type 0} (refuse : ℕ → Str → W → W) (write : Event → W → Option Error × W)
    (ctx_err : W → Option Error) where
  -- Where no `done` event was written before, its text is that of the result.
  end_stream-done :
      (text : Str) (ended : Result Error Completed × Kept W)
      → ended.1.1.0 ≡ none
      → (end_stream (refusing refuse) (keeping write) (seen (ctx_of ctx_err)) ended).1.0 ≡ some text
      → (c : Completed) × (ended.0 ≡ ok c) × (text ≡ c.text)
  unfolding end_stream
  end_stream-done text (ok c, (sent, (ended, w))) before h = (c, refl, cc)
  end_stream-done text (err e, (sent, (ended, w))) before h = elim (Option-cases (ctx_err w)) [
    | inl n ↦ absurd (ground arith)
    | inr (x, n) ↦ absurd (ground arith)
  ]

  end_stream-sent :
      (ended : Result Error Completed × Kept W)
      → (end_stream (refusing refuse) (keeping write) (seen (ctx_of ctx_err)) ended).0 ≡ ended.1.0
  unfolding end_stream
  end_stream-sent (ok c, (sent, (ended, w))) = refl
  end_stream-sent (err e, (sent, (ended, w))) = elim (Option-cases (ctx_err w)) [
    | inl n ↦ rw (end_stream, n) refl
    | inr (x, n) ↦ rw (end_stream, n) refl
  ]

  -- When the `done` event of a stream is written, over a provider that streams, the plan includes
  -- streaming, and the text of the event is the sanitized concatenation of all chunks that were
  -- written to the client, for the request without the repository context where the plan does not
  -- include it.
  pub serve_stream-sent :
      (sanitizer : Request → Str → Str) (provider : Provider) (plan : Option Plan)
      (streaming : Request → Script) (request : Request) (w : W) (text : Str)
      → provider.stream ≡ some streaming
      → let after =
          serve_stream
            (refusing refuse)
            (keeping write)
            (seen (ctx_of ctx_err))
            sanitizer
            provider
            plan
            (decoded request)
            ([], (none, w)) in
        after.1.0 ≡ some text
        → (may_stream plan ≡ true)
          × ((r : Request) × Limits plan request r × (text ≡ sanitizer r after.0))
  unfolding serve_stream
  serve_stream-sent sanitizer provider plan streaming request w text p h =
      let r = entitled plan request in
      let ended : Result Error Completed × Kept W =
        stream sanitizer provider (traced (write_chunk write)) (seen (ctx_of ctx_err)) r
          ([], (none, w)) in
      let unfinished : ended.1.1.0 ≡ none =
        stream-keeps (λ (k : Kept W). k.1.0 ≡ none) (traced (write_chunk write))
          (seen (ctx_of ctx_err)) (λ c k e. e) sanitizer provider r ([], (none, w)) refl in
      elim (Bool-cases (is_valid request)) [
        | inl v ↦ elim (Bool-cases (may_stream plan)) [
          | inl m ↦
              let k : (end_stream (refusing refuse) (keeping write) (seen (ctx_of ctx_err))
                    ended).1.0
                  ≡ some text =
                rw (serve_stream, v, m) at h in
              let (c, e, same) = end_stream-done text ended unfinished k in
              let sent : c.text ≡ sanitizer r ended.1.0 =
                stream-sent sanitizer provider (write_chunk write) (ctx_of ctx_err) r streaming
                  (none, w) c p e in
              (
                m,
                (
                  r,
                  entitled-Limits plan request,
                  rw (serve_stream, v, m, end_stream-sent ended) (same ∙ sent),
                ),
              )
          | inr m ↦ let k : none ≡ some text = rw (serve_stream, v, m) at h in absurd (ground arith)
        ]
        | inr v ↦ let k : none ≡ some text = rw (serve_stream, v) at h in absurd (ground arith)
      ]
