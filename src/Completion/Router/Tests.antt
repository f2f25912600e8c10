-- ===== src/Completion/Router/Tests.antt =====
-- The theorems at a router whose first target times out and whose second one answers.
use deins_complete.Prelude.{ℕ, suc, ◌⊎◌, ◌≡◌, refl, none, some, [], ◌∷◌, Option}
use deins_complete.Prelude.Text.{str}
use deins_complete.Prelude.Result.{ok, err}
use deins_complete.Completion.Types.{Request, completed}
use deins_complete.Completion.Errors.{
  Error, timeout, plain, provider_error, is_canceled, as_provider_error,
}
use deins_complete.Completion.Service.{Callback, Provider}
use deins_complete.Completion.Service.Streaming.{traced}
use deins_complete.Completion.Router.{Static, eligible, passes_on, complete, stream_complete}
use deins_complete.Completion.Router.Fallback.{
  Chosen, here, later, complete-Chosen, complete_of_Chosen,
}
use deins_complete.Completion.Router.OneSource.{FromOne, stream_complete-FromOne}
use deins_complete.Completion.Tests.{request}

abbrev timed_out : Error
timed_out = provider_error timeout (plain (str "deadline"))

abbrev failing : Provider
failing = record { complete = λ _. err timed_out; stream = none }

abbrev answering : Provider
answering = record {
  complete = λ _. ok (completed (str "1;"));
  stream = some (λ _. record { chunks = str "1" ∷ str ";" ∷ []; final = none });
}

abbrev router : Static
router = record {
  targets =
      record { id = str "primary"; provider = failing }
      ∷ record { id = str "fallback"; provider = answering }
      ∷ [];
  max_attempts = 2;
}

abbrev alive : ℕ → Option Error
alive _ = none

abbrev asked : Request
asked = request (str "import")

fallback-Chosen : Chosen asked (completed (str "1;")) router.targets
unfolding passes_on eligible as_provider_error is_canceled
fallback-Chosen = later timed_out refl refl refl (here refl)

answered : complete alive none router asked ≡ ok (completed (str "1;"))
answered =
    complete_of_Chosen alive none router asked (completed (str "1;")) (λ _. refl) fallback-Chosen

complete_of_Chosen_example : complete alive none router asked ≡ ok (completed (str "1;"))
complete_of_Chosen_example =
    complete_of_Chosen alive none router asked (completed (str "1;")) (λ _. refl) fallback-Chosen

complete-Chosen_example :
    (completed (str "1;") ≡ completed []) ⊎ Chosen asked (completed (str "1;")) router.targets
complete-Chosen_example = complete-Chosen alive none router asked (completed (str "1;")) answered

-- A caller that counts its chunks.
abbrev counting : Callback ℕ
counting chunk n = (none, suc n)

stream_complete-FromOne_example :
    FromOne asked
      (stream_complete (traced counting) alive none router asked ([], 0)).1.0
      router.targets
stream_complete-FromOne_example = stream_complete-FromOne counting alive none router asked 0
