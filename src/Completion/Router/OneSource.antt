-- ===== src/Completion/Router/OneSource.antt =====
-- A caller of `StreamComplete` never receives text of two targets: once a target has emitted
-- something, no other is tried.
use mathlib.Core.List.{append-nil, append_assoc}
use mathlib.Core.Path.{subst}
use deins_complete.Completion.Router.Fallback.{take_step, goes_on}
use deins_complete.Prelude.{
  ℕ, suc, ◌-◌, ◌≡◌, refl, sym, ap, ◌∙◌, Bool, true, false, not, ◌||◌, Bool-cases, Option, none,
  some, Option-cases, List, [], ◌∷◌, ◌++◌, take, inl, inr, ◌⊎◌, arith,
}
use deins_complete.Prelude.Text.{Str}
use deins_complete.Prelude.Result.{Result, ok, err}
use deins_complete.Completion.Types.{Request, Completed}
use deins_complete.Completion.Errors.{Error}
use deins_complete.Prelude.Text.{is_empty}
use deins_complete.Completion.Service.{Callback, Provider, Script, deliver}
use deins_complete.Completion.Service.Streaming.{traced}
use deins_complete.Completion.Router.{
  Target, Static, Attempt, returns, failed, marking, after_stream, after_complete, attempt_stream,
  stream_from, stream_complete, passes_on, stops,
}

abbrev pub concat : List Str → Str
concat [] = []
concat (s ∷ ss) = s ++ concat ss

abbrev text_of : Result Error Completed → Str
text_of (ok result) = result.text
text_of (err e) = []

abbrev scripted : Provider → Request → Option (Request → Script) → Str
scripted provider request none = text_of (provider.complete request)
scripted provider request (some streaming) = concat (streaming request).chunks

-- All that a provider has to say to a request.
abbrev pub offer : Provider → Request → Str
offer provider request = scripted provider request provider.stream

abbrev pub IsPrefixOf : Str → Str → Type 0
IsPrefixOf s t = (rest : Str) × (s ++ rest ≡ t)

-- What is sent beyond `sent` is the beginning of `text`.
abbrev Extends : Str → Str → Str → Type 0
Extends sent text after = (p : Str) × (after ≡ sent ++ p) × IsPrefixOf p text

nil_of_is_empty :
    (emitted : Bool) (c : Str)
    → (emitted || not (is_empty c)) ≡ false
    → (c ≡ []) × (emitted ≡ false)
nil_of_is_empty emitted [] h = (refl, ground arith)
nil_of_is_empty true (x ∷ c) h = cc
nil_of_is_empty false (x ∷ c) h = cc

-- What a delivery of `text` sends, and what it means that nothing was emitted.
record Sends (sent text after : Str) (emitted marked : Bool) : Type 0 where
  extends : Extends sent text after
  unmarked : marked ≡ false → (after ≡ sent) × (emitted ≡ false)

Sends-stop :
    (sent c text : Str) (emitted : Bool)
    → Sends sent (c ++ text) (sent ++ c) emitted (emitted || not (is_empty c))
Sends-stop sent c text emitted = record {
  extends = (c, refl, (text, refl));
  unmarked = λ h. let (e, k) = nil_of_is_empty emitted c h in (rw e (append-nil sent), k);
}

Sends-cons :
    (sent c text after : Str) (emitted marked : Bool)
    → Sends (sent ++ c) text after (emitted || not (is_empty c)) marked
    → Sends sent (c ++ text) after emitted marked
Sends-cons sent c text after emitted marked h = record {
  extends =
      let (p, e, (rest, k)) = h.extends in
      (c ++ p, e ∙ append_assoc sent c p, (rest, append_assoc c p rest ∙ ap (λ t. c ++ t) k));
  unmarked = λ m.
      let (same, k) = h.unmarked m in
      let (e, u) = nil_of_is_empty emitted c k in
      (same ∙ ap (λ t. sent ++ t) e ∙ append-nil sent, u);
}

module _ {S : Type 0} (on_chunk : Callback S) where
  deliver-Sends :
      (chunks : List Str) (final : Option Error) (emitted : Bool) (sent : Str) (s : S)
      → let (failure, (marked, (after, _))) =
          deliver (marking (traced on_chunk)) chunks final (emitted, (sent, s)) in
        Sends sent (concat chunks) after emitted marked
  unfolding deliver marking
  deliver-Sends [] final emitted sent s = record {
    extends = ([], sym (append-nil sent), ([], refl));
    unmarked = λ h. (refl, h);
  }
  deliver-Sends (c ∷ cs) final emitted sent s = elim (Option-cases (on_chunk c s).0) [
    | inl e ↦
        rw (e, deliver)
          (Sends-cons sent c (concat cs) _ emitted _
            (deliver-Sends cs final (emitted || not (is_empty c)) (sent ++ c) (on_chunk c s).1))
    | inr (x, e) ↦ rw (e, deliver) (Sends-stop sent c (concat cs) emitted)
  ]

  -- An attempt that fails without returning has sent nothing.
  record Tried (sent text after : Str) (attempt : Attempt) : Type 0 where
    extends : Extends sent text after
    silent : (e : Error) → attempt ≡ failed e → after ≡ sent

  after_complete-Tried :
      (result : Result Error Completed) (sent : Str) (s : S)
      → let (attempt, (after, _)) = after_complete (traced on_chunk) result (sent, s) in
        Tried sent (text_of result) after attempt
  unfolding after_complete
  after_complete-Tried (err e) sent s = record {
    extends = ([], sym (append-nil sent), ([], refl));
    silent = λ x h. refl;
  }
  after_complete-Tried (ok result) sent s = elim (Bool-cases (is_empty result.text)) [
    | inl e ↦
        rw (e, after_complete)
          (record {
            extends = ([], sym (append-nil sent), (result.text, refl));
            silent = λ x h. refl;
          })
    | inr e ↦
        rw (e, after_complete)
          (record {
            extends = (result.text, refl, ([], append-nil result.text));
            silent = λ x h. cc;
          })
  ]

  unmarked_of_failed :
      (failure : Option Error) (marked : Bool) (e : Error)
      → after_stream failure marked ≡ failed e
      → marked ≡ false
  unfolding after_stream
  unmarked_of_failed none marked e h = cc
  unmarked_of_failed (some x) true e h = cc
  unmarked_of_failed (some x) false e h = refl

  attempt-Tried :
      (provider : Provider) (request : Request) (sent : Str) (s : S)
      → let (attempt, (after, _)) = attempt_stream (traced on_chunk) provider request (sent, s) in
        Tried sent (offer provider request) after attempt
  unfolding attempt_stream
  attempt-Tried provider request sent s = elim (Option-cases provider.stream) [
    | inl e ↦ rw e (after_complete-Tried (provider.complete request) sent s)
    | inr (streaming, e) ↦
        let script = streaming request in
        let sends = deliver-Sends script.chunks script.final false sent s in
        rw e (record {
          extends = sends.extends;
          silent = λ x h. (sends.unmarked (unmarked_of_failed _ _ x h)).0;
        })
  ]

-- What is sent is nothing, or the beginning of what one target of the list has to say.
pub data FromOne (request : Request) (sent : Str) : List Target → Type 0 where
  nothing : {targets : List Target} → sent ≡ [] → FromOne request sent targets
  this :
      {target : Target} {targets : List Target}
      → IsPrefixOf sent (offer target.provider request)
      → FromOne request sent (target ∷ targets)
  that :
      {target : Target} {targets : List Target}
      → FromOne request sent targets
      → FromOne request sent (target ∷ targets)

Attempt-cases :
    (a : Attempt) → ((r : Option Error) × (a ≡ returns r)) ⊎ ((e : Error) × (a ≡ failed e))
Attempt-cases (returns r) = inl (r, refl)
Attempt-cases (failed e) = inr (e, refl)

module _ {S : Type 0} (on_chunk : Callback S) (ctx_err : ℕ → Option Error) (ctx_end : Option Error)
    (most : ℕ) (request : Request) where
  attempt-prefix :
      (t : Target) (s : S)
      → IsPrefixOf
          (attempt_stream (traced on_chunk) t.provider request ([], s)).1.0
          (offer t.provider request)
  attempt-prefix t s =
      let (p, e, k) = (attempt-Tried on_chunk t.provider request [] s).extends in rw e k

  stream_from-FromOne :
      (i : ℕ) (ts : List Target) (last : Option Error) (s : S)
      → FromOne request
          (stream_from (traced on_chunk) ctx_err ctx_end most request i ts last ([], s)).1.0
          (take (most - i) ts)
  unfolding stream_from
  stream_from-FromOne i [] last s = nothing refl
  stream_from-FromOne i (t ∷ ts) last s =
      let attempt = attempt_stream (traced on_chunk) t.provider request ([], s) in
      elim (Bool-cases (stops ctx_err ctx_end most request i)) [
        | inl stop ↦ nothing (rw (stop, stream_from))
        | inr on ↦
            rw (take_step most i t ts (goes_on ctx_err ctx_end most request i on))
              (elim (Attempt-cases attempt.0) [
                | inl (r, e) ↦ rw (on, e, stream_from) (this (attempt-prefix t s))
                | inr (x, e) ↦
                    let silent = (attempt-Tried on_chunk t.provider request [] s).silent x e in
                    elim (Bool-cases (passes_on x)) [
                      | inr ends ↦ rw (on, e, ends, stream_from) (nothing silent)
                      | inl next ↦
                          rw (on, e, next, stream_from)
                            (that (
                              subst
                                (λ a.
                                  FromOne request
                                    (stream_from (traced on_chunk) ctx_err ctx_end most request
                                      (suc i) ts (some x) (a, attempt.1.1)).1.0
                                    (take (most - suc i) ts))
                                (sym silent) (stream_from-FromOne (suc i) ts (some x) attempt.1.1)))
                    ]
              ])
      ]

-- However a streamed request ends, the text that its caller was handed is nothing, or the beginning
-- of what a single one of the permitted targets has to say.
pub stream_complete-FromOne :
    {S : Type 0} (on_chunk : Callback S) (ctx_err : ℕ → Option Error) (ctx_end : Option Error)
    (router : Static) (request : Request) (s : S)
    → FromOne request
        (stream_complete (traced on_chunk) ctx_err ctx_end router request ([], s)).1.0
        (take router.max_attempts router.targets)
unfolding stream_complete
stream_complete-FromOne on_chunk ctx_err ctx_end router request s =
    let all : router.max_attempts - 0 ≡ router.max_attempts = omega arith in
    rw all at (
      stream_from-FromOne on_chunk ctx_err ctx_end router.max_attempts request 0 router.targets none
        s)
