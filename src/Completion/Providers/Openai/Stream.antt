-- ===== src/Completion/Providers/Openai/Stream.antt =====
-- What a stream of events hands over.
use mathlib.Core.List.{append_assoc}
use deins_complete.Prelude.{◌≡◌, refl, sym, ap, ◌∙◌, true, false, Option, none, List, [], ◌∷◌, ◌++◌}
use deins_complete.Prelude.Text.{Str, str, str_eq, str_eq_iff}
use deins_complete.Prelude.Text.Search.{has_prefix, trim_prefix}
use deins_complete.Prelude.Text.Space.{trim_space}
use deins_complete.Prelude.Result.{Result, ok}
use deins_complete.Completion.Errors.{Error}
use deins_complete.Completion.Providers.Openai.{texts, events}

-- strings.Join with nothing between
abbrev pub all_text : List Str → Str
all_text [] = []
all_text (t ∷ ts) = t ++ all_text ts

-- The payload of a line of data.
abbrev pub payload : Str → Str
payload line = trim_space (trim_prefix line (str "data:"))

-- Lines of a stream and the text of all their deltas: comments and blank lines hold none.
pub data Speaks (event : Str → Result Error (List Str)) : List Str → Str → Type 0 where
  silent : Speaks event [] []
  comment :
      {line : Str} {lines : List Str} {text : Str}
      → has_prefix line (str "data:") ≡ false
      → Speaks event lines text
      → Speaks event (line ∷ lines) text
  says :
      {line : Str} {lines : List Str} {text : Str} {deltas : List Str}
      → has_prefix line (str "data:") ≡ true
      → str_eq (payload line) (str "[DONE]") ≡ false
      → event (payload line) ≡ ok deltas
      → Speaks event lines text
      → Speaks event (line ∷ lines) (all_text deltas ++ text)

all_text-append : (xs ys : List Str) → all_text (xs ++ ys) ≡ all_text xs ++ all_text ys
all_text-append [] ys = refl
all_text-append (x ∷ xs) ys =
    ap (λ t. x ++ t) (all_text-append xs ys) ∙ sym (append_assoc x (all_text xs) (all_text ys))

all_text-texts : (deltas : List Str) → all_text (texts deltas) ≡ all_text deltas
unfolding texts
all_text-texts [] = refl
all_text-texts ([] ∷ deltas) = all_text-texts deltas
all_text-texts ((c ∷ d) ∷ deltas) = ap (λ t. (c ∷ d) ++ t) (all_text-texts deltas)

module _ (event : Str → Result Error (List Str)) where
  comment_lem :
      (line : Str) (lines : List Str) (ending : Option Error)
      → has_prefix line (str "data:") ≡ false
      → events event (line ∷ lines) ending ≡ events event lines ending
  unfolding events
  comment_lem line lines ending h = rw h refl

  says_lem :
      (line : Str) (lines deltas : List Str) (ending : Option Error)
      → has_prefix line (str "data:") ≡ true
      → str_eq (payload line) (str "[DONE]") ≡ false
      → event (payload line) ≡ ok deltas
      → events event (line ∷ lines) ending ≡ record (events event lines ending) {
        chunks = texts deltas ++ (events event lines ending).chunks;
      }
  unfolding events
  says_lem line lines deltas ending h k e = rw (h, k, e) refl

  done_lem :
      (line : Str) (lines : List Str) (ending : Option Error)
      → has_prefix line (str "data:") ≡ true
      → str_eq (payload line) (str "[DONE]") ≡ true
      → events event (line ∷ lines) ending ≡ record { chunks = []; final = none }
  unfolding events
  done_lem line lines ending h k = rw (h, k) refl

  -- A stream whose lines say a text, up to a line of data with the mark of the end, ends without an
  -- error, and its chunks are this text, whatever comes behind that line.
  pub events-Speaks :
      (before : List Str) (text line : Str) (behind : List Str) (ending : Option Error)
      → Speaks event before text
      → has_prefix line (str "data:") ≡ true
      → payload line ≡ str "[DONE]"
      → let script = events event (before ++ line ∷ behind) ending in
        (all_text script.chunks ≡ text) × (script.final ≡ none)
  events-Speaks before text line behind ending silent h k =
      rw (done_lem line behind ending h ((str_eq_iff _ _).1 k)) (refl, refl)
  events-Speaks before text line behind ending (comment {line = c} {lines = ls} n s) h k =
      rw (comment_lem c (ls ++ line ∷ behind) ending n)
        (events-Speaks ls text line behind ending s h k)
  events-Speaks before text line behind ending
        (says {line = c} {lines = ls} {text = t} {deltas = ds} n d e s) h k =
      let (same, final) = events-Speaks ls t line behind ending s h k in
      rw (says_lem c (ls ++ line ∷ behind) ds ending n d e)
        (all_text-append (texts ds) _ ∙ (rw (all_text-texts ds, same) refl), final)
