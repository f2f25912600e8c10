-- ===== src/Completion/Validation/Bounds.antt =====
-- `validate` accepts exactly the requests within the bounds that it tests, in bytes.
use deins_complete.Prelude.{
  ℕ, ◌+◌, ◌≤◌, Bool, true, false, ◌&&◌, not, Option, none, some, List, [], ◌∷◌, ltb, length, All,
  ◌≡◌, ◌≢◌, ◌↔◌, ◌⊎◌, inl, inr, refl, arith,
}
use deins_complete.Prelude.Int.{pos, Within}
use deins_complete.Prelude.Text.{Str, str, str_eq, str_eq_iff, is_empty, is_empty_iff}
use deins_complete.Prelude.Result.{ok, refuse_if, >>=-eq_ok}
use deins_complete.Completion.Types.{
  CodeStyle, Client, Context, RepositoryContextFile, RepositorySymbol, SignatureHelp,
  RepositoryContext, Request,
}
use deins_complete.Completion.Policy.{valid_intent}
use deins_complete.Completion.Validation.{
  invalid_request, is_absolute_path, refuses_context, refuses_style, refuses_client, refuses_file,
  total_of_files, refuses_symbol, each, refuses_dependency, refuses_diagnostic, refuses_signature,
  validate_repository, validate, longer,
}

-- A text of 1 to n bytes.
abbrev pub Sized : ℕ → Str → Type 0
Sized n s = (s ≢ []) × (length s ≤ n)

abbrev pub IsOneOf : List Str → Str → Type 0
IsOneOf [] s = ⊥
IsOneOf (t ∷ ts) s = (s ≡ t) ⊎ IsOneOf ts s

abbrev pub ForSome {ℓ} : {A : Type ℓ} → (A → Type 0) → Option A → Type 0
ForSome P none = Unit {0}
ForSome P (some a) = P a

pub record ContextFits (context : Context) (intent : Str) : Type 0 where
  pub language_sized : Sized 100 context.language
  pub path_fits : length context.file_path ≤ 4096
  pub prefix_fits : length context.prefix ≤ 50000
  pub suffix_fits : length context.suffix ≤ 25000
  pub cursor_known : (n : ℕ) × (context.cursor_offset ≡ pos n)
  pub intent_known : valid_intent intent ≡ true

pub record StyleFits (style : CodeStyle) : Type 0 where
  pub indentation_known : IsOneOf (str "tabs" ∷ str "spaces" ∷ []) style.indentation
  pub indent_fits : Within 0 8 style.indent_size
  pub quote_known : IsOneOf ([] ∷ str "single" ∷ str "double" ∷ []) style.quote
  pub semicolons_known : IsOneOf ([] ∷ str "always" ∷ str "never" ∷ []) style.semicolons

pub record ClientFits (client : Client) : Type 0 where
  pub name_fits : length client.name ≤ 100
  pub version_fits : length client.version ≤ 100

-- A path that begins with no slash, no backslash and no drive letter.
abbrev pub IsRelative : Str → Type 0
IsRelative [] = Unit {0}
IsRelative (a ∷ []) = (a ≢ b'/') × (a ≢ 92)
IsRelative (a ∷ b ∷ []) = (a ≢ b'/') × (a ≢ 92)
IsRelative (a ∷ b ∷ c ∷ s) = (a ≢ b'/') × (a ≢ 92) × (b ≢ b':')

path_iff : (s : Str) → (is_absolute_path s ≡ false) ↔ IsRelative s
unfolding is_absolute_path
path_iff [] = (λ _. tt, λ _. refl)
path_iff (a ∷ []) = (λ h. ground arith, λ h. ground arith)
path_iff (a ∷ b ∷ []) = (λ h. ground arith, λ h. ground arith)
path_iff (a ∷ b ∷ c ∷ s) = (λ h. ground arith, λ h. ground arith)

pub record FileFits (file : RepositoryContextFile) : Type 0 where
  pub path_sized : Sized 4096 file.path
  pub path_relative : IsRelative file.path
  pub language_fits : length file.language ≤ 100
  pub reason_fits : length file.reason ≤ 100
  pub content_fits : length file.content ≤ 10000

pub record SymbolFits (symbol : RepositorySymbol) : Type 0 where
  pub name_sized : Sized 300 symbol.name
  pub kind_fits : length symbol.kind ≤ 100
  pub path_fits : length symbol.file_path ≤ 4096
  pub path_relative : IsRelative symbol.file_path
  pub signature_fits : length symbol.signature ≤ 1000

pub record SignatureFits (signature : SignatureHelp) : Type 0 where
  pub label_sized : Sized 500 signature.label
  pub parameter_index : Within 0 100 signature.active_parameter
  pub parameter_fits : length signature.parameter ≤ 200

-- The bytes of all files together.
abbrev pub content_total : List RepositoryContextFile → ℕ
content_total [] = 0
content_total (file ∷ files) = length file.content + content_total files

pub record RepositoryFits (repository : RepositoryContext) : Type 0 where
  pub file_count : length repository.files ≤ 8
  pub files_fit : All FileFits repository.files
  pub total_fits : content_total repository.files ≤ 30000
  pub symbol_count : length repository.symbols ≤ 100
  pub dependency_count : length repository.dependencies ≤ 24
  pub symbols_fit : All SymbolFits repository.symbols
  pub focus_known : valid_intent repository.focus ≡ true
  pub dependencies_fit : All (Sized 200) repository.dependencies
  pub diagnostic_count : length repository.diagnostics ≤ 3
  pub diagnostics_fit : All (Sized 300) repository.diagnostics
  pub signature_fits : ForSome SignatureFits repository.signature_help

pub record RequestFits (request : Request) : Type 0 where
  pub context_fits : ContextFits request.context request.intent
  pub style_fits : ForSome StyleFits request.context.style
  pub client_fits : ForSome ClientFits request.client
  pub repository_fits : ForSome RepositoryFits request.repository_context

-- One test of the source, read as a fact.
longer_iff : (s : Str) (n : ℕ) → (longer s n ≡ false) ↔ (length s ≤ n)
longer_iff s n = (λ h. ground arith, λ h. ground arith)

context_iff : (c : Context) (i : Str) → (refuses_context c i ≡ false) ↔ ContextFits c i
unfolding refuses_context
context_iff c i =
    (λ h. ground (arith, is_empty_iff c.language), λ h. ground (arith, is_empty_iff c.language))

two_iff : (a b s : Str) → (not (str_eq s a) && not (str_eq s b) ≡ false) ↔ IsOneOf (a ∷ b ∷ []) s
two_iff a b s = (
  λ h. ground (arith, str_eq_iff s a, str_eq_iff s b),
  λ h. ground (arith, str_eq_iff s a, str_eq_iff s b),
)

three_iff :
    (a b s : Str)
    → (not (is_empty s) && not (str_eq s a) && not (str_eq s b) ≡ false)
      ↔ IsOneOf ([] ∷ a ∷ b ∷ []) s
three_iff a b [] = (λ h. inl refl, λ h. refl)
three_iff a b (x ∷ s) =
    (λ h. inr ((two_iff a b (x ∷ s)).0 h), λ h. (two_iff a b (x ∷ s)).1 (ground arith))

style_iff : (o : Option CodeStyle) → (refuses_style o ≡ false) ↔ ForSome StyleFits o
unfolding refuses_style
style_iff none = (λ _. tt, λ _. refl)
style_iff (some s) = (
  λ h. record {
    indentation_known = (two_iff _ _ _).0 (ground arith);
    indent_fits = ground arith;
    quote_known = (three_iff _ _ _).0 (ground arith);
    semicolons_known = (three_iff _ _ _).0 (ground arith);
  },
  λ h. ground (
    arith,
    (two_iff _ _ _).1 h.indentation_known,
    (three_iff _ _ _).1 h.quote_known,
    (three_iff _ _ _).1 h.semicolons_known,
  ),
)

client_iff : (o : Option Client) → (refuses_client o ≡ false) ↔ ForSome ClientFits o
unfolding refuses_client
client_iff none = (λ _. tt, λ _. refl)
client_iff (some c) = (λ h. ground arith, λ h. ground arith)

file_iff : (f : RepositoryContextFile) → (refuses_file f ≡ false) ↔ FileFits f
unfolding refuses_file
file_iff f = (
  λ h. ground (arith, is_empty_iff f.path, path_iff f.path),
  λ h. ground (arith, is_empty_iff f.path, path_iff f.path),
)

symbol_iff : (s : RepositorySymbol) → (refuses_symbol s ≡ false) ↔ SymbolFits s
unfolding refuses_symbol
symbol_iff s = (
  λ h. ground (arith, is_empty_iff s.name, path_iff s.file_path),
  λ h. ground (arith, is_empty_iff s.name, path_iff s.file_path),
)

signature_iff : (o : Option SignatureHelp) → (refuses_signature o ≡ false) ↔ ForSome SignatureFits o
unfolding refuses_signature
signature_iff none = (λ _. tt, λ _. refl)
signature_iff (some s) =
    (λ h. ground (arith, is_empty_iff s.label), λ h. ground (arith, is_empty_iff s.label))

dependency_iff : (s : Str) → (refuses_dependency s ≡ false) ↔ Sized 200 s
unfolding refuses_dependency
dependency_iff s = (λ h. ground (arith, is_empty_iff s), λ h. ground (arith, is_empty_iff s))

diagnostic_iff : (s : Str) → (refuses_diagnostic s ≡ false) ↔ Sized 300 s
unfolding refuses_diagnostic
diagnostic_iff s = (λ h. ground (arith, is_empty_iff s), λ h. ground (arith, is_empty_iff s))

module _ {A : Type 0} (P : A → Type 0) (refuses : A → Bool)
    (test : (a : A) → (refuses a ≡ false) ↔ P a) where
  each_iff : (xs : List A) → (each refuses xs ≡ ok tt) ↔ All P xs
  unfolding each
  each_iff [] = (λ _. tt, λ _. refl)
  each_iff (x ∷ xs) =
      (λ h. ground (arith, test x, each_iff xs), λ h. ground (arith, test x, each_iff xs))

total_iff :
    (t : ℕ) (fs : List RepositoryContextFile) (n : ℕ)
    → (total_of_files t fs ≡ ok n) ↔ (All FileFits fs × (n ≡ t + content_total fs))
unfolding total_of_files
total_iff t [] n = (λ h. ground arith, λ h. ground arith)
total_iff t (f ∷ fs) n = (
  λ h. ground (arith, file_iff f, total_iff (t + length f.content) fs n),
  λ h. ground (arith, file_iff f, total_iff (t + length f.content) fs n),
)

-- The lists of a repository context, each against its loop.
module _ (r : RepositoryContext) where
  symbols_iff : (each refuses_symbol r.symbols ≡ ok tt) ↔ All SymbolFits r.symbols
  symbols_iff = each_iff SymbolFits refuses_symbol symbol_iff r.symbols

  dependencies_iff :
      (each refuses_dependency r.dependencies ≡ ok tt) ↔ All (Sized 200) r.dependencies
  dependencies_iff = each_iff (Sized 200) refuses_dependency dependency_iff r.dependencies

  diagnostics_iff : (each refuses_diagnostic r.diagnostics ≡ ok tt) ↔ All (Sized 300) r.diagnostics
  diagnostics_iff = each_iff (Sized 300) refuses_diagnostic diagnostic_iff r.diagnostics

repository_iff :
    (o : Option RepositoryContext) → (validate_repository o ≡ ok tt) ↔ ForSome RepositoryFits o
unfolding validate_repository
repository_iff none = (λ _. tt, λ _. refl)
repository_iff (some r) = (
  λ h.
      let (_, few, rest) = >>=-eq_ok (refuse_if (ltb 8 (length r.files)) invalid_request) _ h in
      let (n, total, later) = >>=-eq_ok (total_of_files 0 r.files) _ rest in
      ground (
        arith,
        few,
        later,
        (total_iff 0 r.files n).0 total,
        symbols_iff r,
        dependencies_iff r,
        diagnostics_iff r,
        signature_iff r.signature_help,
      ),
  λ h. ground (
    arith,
    (total_iff 0 r.files (content_total r.files)).1 (h.files_fit, omega arith),
    symbols_iff r,
    dependencies_iff r,
    diagnostics_iff r,
    signature_iff r.signature_help,
  ),
)

-- `validate` accepts a request exactly when every part of it is within its bounds.
pub validate_iff : (request : Request) → (validate request ≡ ok tt) ↔ RequestFits request
unfolding validate
validate_iff request =
    let context = context_iff request.context request.intent in
    let style = style_iff request.context.style in
    let client = client_iff request.client in
    let repository = repository_iff request.repository_context in
    (
      λ h. ground (arith, context, style, client, repository),
      λ h. ground (arith, context, style, client, repository),
    )
