-- ===== src/Completion/Service/Streaming.antt =====
-- What a caller of `Stream` has received when the stream ends, and the result that it is given.
use mathlib.Core.List.{append-nil}
use deins_complete.Prelude.{
  ℕ, ◌-◌, ◌≡◌, refl, sym, ap, ◌∙◌, Bool, true, Option, none, some, Option-cases, List, [], ◌∷◌,
  ◌++◌, inl, inr, arith, length, take, take-append,
}
use deins_complete.Prelude.Text.{Str}
use deins_complete.Prelude.Text.Search.{index}
use deins_complete.Prelude.Text.Laws.{Without, Without-of_index, Without-take-index, index-append}
use deins_complete.Prelude.Result.{ok}
use deins_complete.Completion.Types.{Request, Completed}
use deins_complete.Completion.Errors.{Error, useful_line_complete}
use deins_complete.Completion.Service.{
  Callback, Script, Provider, deliver, Streamed, emit, line_end, forward, finish, stream,
  single_line_focus,
}

-- A callback that also records what it is given.
abbrev pub traced : {S : Type 0} → Callback S → Callback (Str × S)
traced on_chunk chunk (sent, s) =
    let (failure, s') = on_chunk chunk s in (failure, (sent ++ chunk, s'))

abbrev pub seen : {S : Type 0} → (S → Option Error) → Str × S → Option Error
seen ctx_err (sent, s) = ctx_err s

-- A callback that keeps a property of the state keeps it over a whole delivery.
module _ {S : Type 0} (P : S → Type 0) (on_chunk : Callback S)
    (keeps : (c : Str) (s : S) → P s → P (on_chunk c s).1) where
  deliver-keeps :
      (chunks : List Str) (final : Option Error) (s : S)
      → P s
      → P (deliver on_chunk chunks final s).1
  unfolding deliver
  deliver-keeps [] final s h = h
  deliver-keeps (c ∷ cs) final s h = elim (Option-cases (on_chunk c s).0) [
    | inl e ↦ rw (e, deliver) (deliver-keeps cs final (on_chunk c s).1 (keeps c s h))
    | inr (x, e) ↦ rw (e, deliver) (keeps c s h)
  ]

module _ {S : Type 0} (on_chunk : Callback S) (ctx_err : S → Option Error) (single : Bool) where
  -- The raw text is what was handed on, on one line where only one is wanted.
  record Follows (state : Streamed (Str × S)) : Type 0 where
    same : state.raw ≡ state.caller.0
    one_line : single ≡ true → Without 10 state.raw

  emit-caller :
      (raw chunk : Str) (after : Str × S → Option Error) (sent : Str) (s : S)
      → (emit (traced on_chunk) (seen ctx_err) raw chunk after (sent, s)).1.caller.0 ≡ sent ++ chunk
  unfolding emit
  emit-caller raw [] after sent s = sym (append-nil sent)
  emit-caller raw (c ∷ chunk) after sent s = refl

  emit-raw :
      (raw chunk : Str) (after : Str × S → Option Error) (t : Str × S)
      → (emit (traced on_chunk) (seen ctx_err) raw chunk after t).1.raw ≡ raw
  unfolding emit
  emit-raw raw [] after t = refl
  emit-raw raw (c ∷ chunk) after t = refl

  emit-Follows :
      (raw chunk : Str) (after : Str × S → Option Error) (sent : Str) (s : S)
      → raw ≡ sent ++ chunk
      → (single ≡ true → Without 10 raw)
      → Follows (emit (traced on_chunk) (seen ctx_err) raw chunk after (sent, s)).1
  emit-Follows raw chunk after sent s e w = record {
    same = rw (emit-raw raw chunk after (sent, s), emit-caller raw chunk after sent s) e;
    one_line = λ one. rw (emit-raw raw chunk after (sent, s)) (w one);
  }

  line_end-none : (raw : Str) → line_end single raw ≡ none → single ≡ true → Without 10 raw
  unfolding line_end
  line_end-none raw h one = Without-of_index 10 raw (rw one at h)

  line_end-some :
      (raw : Str) (n : ℕ)
      → line_end single raw ≡ some n
      → (single ≡ true) × (index raw (10 ∷ []) ≡ some n)
  unfolding line_end
  line_end-some raw n h = ground arith

  forward-Follows :
      (chunk : Str) (state : Streamed (Str × S))
      → Follows state
      → Follows (forward (traced on_chunk) (seen ctx_err) single chunk state).1
  unfolding forward
  forward-Follows chunk state h =
      let (sent, s) = state.caller in
      let all = state.raw ++ chunk in
      elim (Option-cases (line_end single all)) [
        | inl e ↦
            rw (e, forward)
              (emit-Follows all chunk (seen ctx_err) sent s (ap (λ t. t ++ chunk) h.same)
                (line_end-none all e))
        | inr (n, e) ↦
            let (one, found) = line_end-some all n e in
            let cut = take (n - length state.raw) chunk in
            let kept =
              take-append n state.raw chunk
                (index-append 10 state.raw chunk n (h.one_line one) found) in
            rw (e, forward)
              (emit-Follows (take n all) cut (λ _. some useful_line_complete) sent s
                (kept ∙ ap (λ t. t ++ cut) h.same) (λ _. Without-take-index 10 all n found))
      ]

module _ (sanitizer : Request → Str → Str) (provider : Provider) {S : Type 0}
    (on_chunk : Callback S) (ctx_err : S → Option Error) where
  finish_text :
      (request : Request) (failure : Option Error) (state : Streamed (Str × S)) (c : Completed)
      → (finish sanitizer provider (traced on_chunk) (seen ctx_err) request (failure, state)).0
        ≡ ok c
      → c.text ≡ sanitizer request state.raw
  unfolding finish
  finish_text request failure state c h = ground arith

  finish_caller :
      (request : Request) (failure : Option Error) (state : Streamed (Str × S))
      → (finish sanitizer provider (traced on_chunk) (seen ctx_err) request (failure, state)).1
        ≡ state.caller
  unfolding finish
  finish_caller request failure state = ground arith

  stream_lem :
      (request : Request) (streaming : Request → Script) (s : S)
      → provider.stream ≡ some streaming
      → let (result, (sent, _)) =
          stream sanitizer provider (traced on_chunk) (seen ctx_err) request ([], s) in
        ((c : Completed) → result ≡ ok c → c.text ≡ sanitizer request sent)
        × (single_line_focus request ≡ true → Without 10 sent)
  unfolding stream
  stream_lem request streaming s h =
      let script = streaming request in
      let single = single_line_focus request in
      let d =
        deliver (forward (traced on_chunk) (seen ctx_err) single) script.chunks script.final
          (record { raw = []; caller = ([], s) }) in
      let follows =
        deliver-keeps (Follows on_chunk ctx_err single)
          (forward (traced on_chunk) (seen ctx_err) single)
          (forward-Follows on_chunk ctx_err single) script.chunks script.final
          (record { raw = []; caller = ([], s) }) (record { same = refl; one_line = λ _. tt }) in
      rw (h, stream)
        (rw (finish_caller request d.0 d.1) (
          λ c e. finish_text request d.0 d.1 c e ∙ ap (sanitizer request) follows.same,
          λ one. rw follows.same at (follows.one_line one),
        ))

  -- When a stream ends with a result, its text is the sanitized concatenation of all chunks that
  -- were handed to the caller.
  pub stream-sent :
      (request : Request) (streaming : Request → Script) (s : S) (c : Completed)
      → provider.stream ≡ some streaming
      → (stream sanitizer provider (traced on_chunk) (seen ctx_err) request ([], s)).0 ≡ ok c
      → c.text
        ≡ sanitizer request
            (stream sanitizer provider (traced on_chunk) (seen ctx_err) request ([], s)).1.0
  stream-sent request streaming s c h = (stream_lem request streaming s h).0 c

  -- However a stream ends, where the request is for a single line the chunks handed to the caller
  -- hold no line break.
  pub stream-single_line :
      (request : Request) (streaming : Request → Script) (s : S)
      → provider.stream ≡ some streaming
      → single_line_focus request ≡ true
      → Without 10 (stream sanitizer provider (traced on_chunk) (seen ctx_err) request ([], s)).1.0
  stream-single_line request streaming s h = (stream_lem request streaming s h).1

-- A property of the caller's state that every chunk keeps holds when the stream ends.
module _ {S : Type 0} (P : S → Type 0) (on_chunk : Callback S) (ctx_err : S → Option Error)
    (keeps : (c : Str) (s : S) → P s → P (on_chunk c s).1) where
  emit-keeps :
      (raw chunk : Str) (after : S → Option Error) (s : S)
      → P s
      → P (emit on_chunk ctx_err raw chunk after s).1.caller
  unfolding emit
  emit-keeps raw [] after s h = h
  emit-keeps raw (c ∷ chunk) after s h = keeps (c ∷ chunk) s h

  forward-keeps :
      (single : Bool) (chunk : Str) (state : Streamed S)
      → P state.caller
      → P (forward on_chunk ctx_err single chunk state).1.caller
  unfolding forward
  forward-keeps single chunk state h = elim (Option-cases (line_end single (state.raw ++ chunk))) [
    | inl e ↦ rw (e, forward) (emit-keeps _ _ _ state.caller h)
    | inr (n, e) ↦ rw (e, forward) (emit-keeps _ _ _ state.caller h)
  ]

  finish_same :
      (sanitizer : Request → Str → Str) (provider : Provider) (request : Request)
      (failure : Option Error) (state : Streamed S)
      → (finish sanitizer provider on_chunk ctx_err request (failure, state)).1 ≡ state.caller
  unfolding finish
  finish_same sanitizer provider request failure state = ground arith

  pub stream-keeps :
      (sanitizer : Request → Str → Str) (provider : Provider) (request : Request) (s : S)
      → P s
      → P (stream sanitizer provider on_chunk ctx_err request s).1
  unfolding stream finish
  stream-keeps sanitizer provider request s h = elim (Option-cases provider.stream) [
    | inl e ↦ rw (e, stream) h
    | inr (streaming, e) ↦
        let script = streaming request in
        let forwards = forward on_chunk ctx_err (single_line_focus request) in
        let start : Streamed S = record { raw = []; caller = s } in
        let kept =
          deliver-keeps (λ state. P state.caller) forwards
            (forward-keeps (single_line_focus request)) script.chunks script.final start h in
        let d = deliver forwards script.chunks script.final start in
        rw (e, stream) (rw (finish_same sanitizer provider request d.0 d.1) kept)
  ]
