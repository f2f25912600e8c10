-- ===== src/Completion/Providers/Openai/Prompt.antt =====
-- api/internal/completion/providers/openai/prompt.go. `quote` is %q and `itoa` %d of the package fmt.
use deins_complete.Prelude.{Bool, ◌&&◌, Option, none, some, List, [], ◌∷◌, ◌++◌, if◌then◌else◌}
use deins_complete.Prelude.Int.{ℤ}
use deins_complete.Prelude.Text.{Str, str, is_empty}
use deins_complete.Prelude.Text.Search.{join}
use deins_complete.Completion.Types.{
  Request, RepositoryContext, RepositoryContextFile, RepositorySymbol, SignatureHelp,
}
use deins_complete.Completion.Prompt.{intent_instruction, style_instruction}
use deins_complete.Completion.FileName.{Library, safe_file_name}
use deins_complete.Completion.Providers.Openai.{Message}

pub system_instruction : Str
system_instruction =
    str "Complete code at the cursor. Return only inserted code. Do not repeat prefix or suffix. "
    ++ str
        "Do not explain or use Markdown. Never invent an API when repository declarations provide "
    ++ str "the answer."

abbrev pub is_nil {ℓ} : {A : Type ℓ} → List A → Bool
is_nil [] = Bool.true
is_nil (_ ∷ _) = Bool.false

abbrev pub is_none {ℓ} : {A : Type ℓ} → Option A → Bool
is_none none = Bool.true
is_none (some _) = Bool.false

-- A repository context that has nothing to say: diagnostics alone are not sent.
unfoldable pub is_bare : RepositoryContext → Bool
is_bare r =
    is_nil r.files
    && is_nil r.dependencies
    && is_nil r.symbols
    && is_empty r.focus
    && is_none r.signature_help

abbrev pub line : Str
line = 10 ∷ []

-- %v of a list of texts
abbrev pub show_list : List Str → Str
show_list texts = str "[" ++ join texts (str " ") ++ str "]"

abbrev pub listed : List Str → Str → Str
listed [] name = []
listed (t ∷ ts) name =
    line ++ str "<" ++ name ++ str ">" ++ show_list (t ∷ ts) ++ str "</" ++ name ++ str ">"

module _ (quote : Str → Str) (itoa : ℤ → Str) where
  abbrev pub signature : Option SignatureHelp → Str
  signature none = []
  signature (some s) =
      line
      ++ str "<SIGNATURE_HELP>"
      ++ line
      ++ str "Label: "
      ++ s.label
      ++ line
      ++ str "Active parameter: "
      ++ itoa s.active_parameter
      ++ line
      ++ str "Parameter: "
      ++ s.parameter
      ++ line
      ++ str "</SIGNATURE_HELP>"

  abbrev pub files : List RepositoryContextFile → Str
  files [] = []
  files (f ∷ fs) =
      line
      ++ str "<FILE path="
      ++ quote f.path
      ++ str " language="
      ++ quote f.language
      ++ str " reason="
      ++ quote f.reason
      ++ str ">"
      ++ line
      ++ f.content
      ++ line
      ++ str "</FILE>"
      ++ files fs

  abbrev pub symbols : List RepositorySymbol → Str
  symbols [] = []
  symbols (s ∷ ss) =
      line
      ++ str "<SYMBOL name="
      ++ quote s.name
      ++ str " kind="
      ++ quote s.kind
      ++ str " source="
      ++ quote s.file_path
      ++ str ">"
      ++ s.signature
      ++ str "</SYMBOL>"
      ++ symbols ss

  abbrev pub focus : Str → Str
  focus [] = []
  focus (c ∷ text) = line ++ str "<COMPLETION_FOCUS>" ++ (c ∷ text) ++ str "</COMPLETION_FOCUS>"

  -- repositoryPrompt
  unfoldable pub repository_prompt : Option RepositoryContext → Str
  repository_prompt none = []
  repository_prompt (some r) =
      if is_bare r
      then []
      else (line
          ++ line
          ++ str "<REPOSITORY_CONTEXT>"
          ++ focus r.focus
          ++ listed r.diagnostics (str "DIAGNOSTICS")
          ++ listed r.dependencies (str "DEPENDENCIES")
          ++ signature r.signature_help
          ++ files r.files
          ++ symbols r.symbols
          ++ line
          ++ str "</REPOSITORY_CONTEXT>")

  -- BuildMessages
  unfoldable pub build_messages : Library → Request → List Message
  build_messages library r =
      record { role = str "system"; content = system_instruction }
      ∷ record {
        role = str "user";
        content =
            str "File: "
            ++ safe_file_name library r.context.file_path
            ++ line
            ++ str "Language: "
            ++ r.context.language
            ++ line
            ++ str "Completion intent: "
            ++ r.intent
            ++ line
            ++ str "Intent guidance: "
            ++ intent_instruction r.intent
            ++ line
            ++ str "Code style: "
            ++ style_instruction itoa r.context.style
            ++ line
            ++ line
            ++ str "<PREFIX>"
            ++ line
            ++ r.context.prefix
            ++ line
            ++ str "</PREFIX>"
            ++ line
            ++ line
            ++ str "<SUFFIX>"
            ++ line
            ++ r.context.suffix
            ++ line
            ++ str "</SUFFIX>"
            ++ repository_prompt r.repository_context
            ++ line
            ++ line
            ++ str "Return only the code inserted between PREFIX and SUFFIX.";
      }
      ∷ []
