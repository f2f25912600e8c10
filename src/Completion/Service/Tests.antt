-- ===== src/Completion/Service/Tests.antt =====
-- The theorems at a stream of two chunks, the second of which ends the line.
use deins_complete.Prelude.{ℕ, suc, ◌≡◌, refl, true, none, some, [], ◌∷◌, ◌++◌, Option}
use deins_complete.Prelude.Text.{Str, str, str_eq}
use deins_complete.Prelude.Text.Laws.{Without}
use deins_complete.Prelude.Result.{ok}
use deins_complete.Completion.Types.{Request, completed}
use deins_complete.Completion.Errors.{Error, is_useful_line_complete}
use deins_complete.Completion.Policy.{max_lines_for_intent, single_line_intent}
use deins_complete.Completion.Service.{
  Callback, Provider, Script, deliver, focus_single_line, single_line_focus, line_end, emit,
  forward, finish, stream,
}
use deins_complete.Completion.Service.Streaming.{traced, seen, stream-sent, stream-single_line}
use deins_complete.Completion.Tests.{request}

abbrev script : Request → Script
script _ = record { chunks = str "a = " ∷ (str "1;" ++ 10 ∷ str "b") ∷ []; final = none }

abbrev provider : Provider
provider = record { complete = λ _. ok (completed []); stream = some script }

abbrev counting : Callback ℕ
counting chunk n = (none, suc n)

abbrev alive : ℕ → Option Error
alive _ = none

abbrev plain_text : Request → Str → Str
plain_text _ text = text

abbrev several : Request
several = request (str "object-fields")

stream_answers :
    (stream plain_text provider (traced counting) (seen alive) several ([], 0)).0
    ≡ ok (completed (str "a = 1;" ++ 10 ∷ str "b"))
unfolding stream finish forward emit line_end deliver single_line_focus focus_single_line
    single_line_intent max_lines_for_intent is_useful_line_complete str str_eq
stream_answers = refl

stream-sent_example :
    str "a = 1;" ++ 10 ∷ str "b"
    ≡ (stream plain_text provider (traced counting) (seen alive) several ([], 0)).1.0
stream-sent_example =
    stream-sent plain_text provider counting alive several script 0
      (completed (str "a = 1;" ++ 10 ∷ str "b")) refl stream_answers

member_single_line : single_line_focus (request (str "member-access")) ≡ true
unfolding single_line_focus focus_single_line single_line_intent max_lines_for_intent str str_eq
member_single_line = refl

stream-single_line_example :
    Without 10
      (stream plain_text provider
        (traced counting)
        (seen alive)
        (request (str "member-access"))
        ([], 0)).1.0
stream-single_line_example =
    stream-single_line plain_text provider counting alive (request (str "member-access")) script 0
      refl member_single_line
