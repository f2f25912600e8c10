-- ===== src/Completion/Validation.antt =====
-- api/internal/completion/validation.go: which requests the service accepts.
pub mod Bounds
mod Tests
use deins_complete.Prelude.{
  ℕ, suc, ◌+◌, Bool, true, false, ◌&&◌, ◌||◌, not, Option, none, some, List, [], ◌∷◌, ltb, ◌==◌,
  if◌then◌else◌, length,
}
use deins_complete.Prelude.Int.{ℤ, pos, ltb_ℤ}
use deins_complete.Prelude.Text.{Str, str, str_eq, is_empty}
use deins_complete.Prelude.Result.{Result, ok, err, ◌>>=◌, ◌>>◌, refuse_if}
use deins_complete.Completion.Types.{
  CodeStyle, Client, Context, RepositoryContextFile, RepositorySymbol, SignatureHelp,
  RepositoryContext, Request,
}
use deins_complete.Completion.Policy.{valid_intent}

abbrev pub max_prefix_characters : ℕ
max_prefix_characters = 50000

abbrev pub max_suffix_characters : ℕ
max_suffix_characters = 25000

abbrev pub max_language_length : ℕ
max_language_length = 100

abbrev pub max_file_path_length : ℕ
max_file_path_length = 4096

abbrev pub max_client_field_length : ℕ
max_client_field_length = 100

abbrev pub max_repository_files : ℕ
max_repository_files = 8

abbrev pub max_repository_chars : ℕ
max_repository_chars = 30000

abbrev pub max_repository_file_chars : ℕ
max_repository_file_chars = 10000

abbrev pub max_repository_dependencies : ℕ
max_repository_dependencies = 24

-- ErrInvalidRequest
pub data Invalid : Type 0 where
  invalid_request : Invalid

-- len(s) > n
abbrev pub longer : Str → ℕ → Bool
longer s n = ltb n (length s)

-- path[0] == '/' || path[0] == '\\' || (len(path) > 2 && path[1] == ':')
unfoldable pub is_absolute_path : Str → Bool
is_absolute_path [] = false
is_absolute_path (a ∷ []) = a == b'/' || a == 92
is_absolute_path (a ∷ b ∷ s) = a == b'/' || a == 92 || (ltb 2 (length (a ∷ b ∷ s)) && b == b':')

unfoldable pub refuses_context : Context → Str → Bool
refuses_context context intent =
    is_empty context.language
    || longer context.language max_language_length
    || longer context.file_path max_file_path_length
    || longer context.prefix max_prefix_characters
    || longer context.suffix max_suffix_characters
    || ltb_ℤ context.cursor_offset (pos 0)
    || not (valid_intent intent)

unfoldable pub refuses_style : Option CodeStyle → Bool
refuses_style none = false
refuses_style (some style) =
    (not (str_eq style.indentation (str "tabs")) && not (str_eq style.indentation (str "spaces")))
    || ltb_ℤ style.indent_size (pos 0)
    || ltb_ℤ (pos 8) style.indent_size
    || (not (is_empty style.quote)
        && not (str_eq style.quote (str "single"))
        && not (str_eq style.quote (str "double")))
    || (not (is_empty style.semicolons)
        && not (str_eq style.semicolons (str "always"))
        && not (str_eq style.semicolons (str "never")))

unfoldable pub refuses_client : Option Client → Bool
refuses_client none = false
refuses_client (some client) =
    longer client.name max_client_field_length || longer client.version max_client_field_length

pub refuses_file : RepositoryContextFile → Bool
refuses_file file =
    is_empty file.path
    || longer file.path max_file_path_length
    || longer file.language max_language_length
    || longer file.reason 100
    || longer file.content max_repository_file_chars
    || is_absolute_path file.path

-- The loop over the files, with the running total.
pub total_of_files : ℕ → List RepositoryContextFile → Result Invalid ℕ
total_of_files total [] = ok total
total_of_files total (file ∷ files) =
    let rest = total_of_files (total + length file.content) files in
    if refuses_file file then err invalid_request else rest

pub refuses_symbol : RepositorySymbol → Bool
refuses_symbol symbol =
    is_empty symbol.name
    || longer symbol.name 300
    || longer symbol.kind 100
    || longer symbol.file_path max_file_path_length
    || longer symbol.signature 1000
    || is_absolute_path symbol.file_path

-- A loop that refuses the request at the first member that the test refuses.
pub each {ℓ} : {A : Type ℓ} → (A → Bool) → List A → Result Invalid (Unit {0})
each refuses [] = ok tt
each refuses (x ∷ xs) =
    let rest = each refuses xs in if refuses x then err invalid_request else rest

pub refuses_dependency : Str → Bool
refuses_dependency dependency = is_empty dependency || longer dependency 200

pub refuses_diagnostic : Str → Bool
refuses_diagnostic diagnostic = is_empty diagnostic || longer diagnostic 300

pub refuses_signature : Option SignatureHelp → Bool
refuses_signature none = false
refuses_signature (some signature) =
    is_empty signature.label
    || longer signature.label 500
    || ltb_ℤ signature.active_parameter (pos 0)
    || ltb_ℤ (pos 100) signature.active_parameter
    || longer signature.parameter 200

unfoldable pub validate_repository : Option RepositoryContext → Result Invalid (Unit {0})
validate_repository none = ok tt
validate_repository (some repository) = do
  refuse_if (ltb max_repository_files (length repository.files)) invalid_request
  total ← total_of_files 0 repository.files
  refuse_if
      (ltb max_repository_chars total
        || ltb 100 (length repository.symbols)
        || ltb max_repository_dependencies (length repository.dependencies))
      invalid_request
  each refuses_symbol repository.symbols
  refuse_if (not (valid_intent repository.focus)) invalid_request
  each refuses_dependency repository.dependencies
  refuse_if (ltb 3 (length repository.diagnostics)) invalid_request
  each refuses_diagnostic repository.diagnostics
  refuse_if (refuses_signature repository.signature_help) invalid_request

unfoldable pub validate : Request → Result Invalid (Unit {0})
validate request = do
  refuse_if (refuses_context request.context request.intent) invalid_request
  refuse_if (refuses_style request.context.style) invalid_request
  refuse_if (refuses_client request.client) invalid_request
  validate_repository request.repository_context
