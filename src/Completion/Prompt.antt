-- ===== src/Completion/Prompt.antt =====
-- api/internal/completion/policy.go: the instructions of a prompt; and
-- api/internal/completion/fim/fim.go: the text with the tokens of a model that fills in the middle.
-- strconv.Itoa and path.Base are parameters.
pub mod StripEnd
use deins_complete.Prelude.{
  ℕ, ◌-◌, Bool, true, false, ◌&&◌, ◌||◌, not, Option, none, some, List, [], ◌∷◌, ◌++◌, map, leb,
  ◌==◌, length, take, drop, if◌then◌else◌,
}
use deins_complete.Prelude.Int.{ℤ, pos, ltb_ℤ}
use deins_complete.Prelude.Text.{Str, str, str_eq, is_empty}
use deins_complete.Prelude.Text.Search.{join}
use deins_complete.Prelude.Text.Space.{to_lower}
use deins_complete.Completion.Types.{CodeStyle, Request}

pub intent_instruction : Str → Str
intent_instruction intent =
    if str_eq intent (str "component-props")
    then str
        "Complete valid JSX/TSX props using the component declarations and existing local style."
    else if str_eq intent (str "member-access")
    then str "Complete only the most likely valid member access or its immediate expression."
    else if str_eq intent (str "function-arguments")
    then str
        "Complete arguments that match the referenced function signature and available variables."
    else if str_eq intent (str "tailwind-class")
    then str "Complete only relevant utility class names consistent with nearby classes."
    else if str_eq intent (str "object-fields")
    then str "Complete fields that match the expected type and do not duplicate existing fields."
    else if str_eq intent (str "import")
    then str
        "Complete one valid import using dependencies and symbols already present in the project context."
    else if str_eq intent (str "function-body")
    then str
        "Complete the smallest useful function body consistent with surrounding code and return type."
    else if str_eq intent (str "condition-expression")
    then str "Complete only the condition or expression using variables available in scope."
    else if str_eq intent (str "type-definition")
    then str
        "Complete a concise type definition consistent with its usages and project conventions."
    else str "Prefer the smallest useful continuation consistent with the surrounding code."

abbrev pub part : Bool → Str → List Str
part true text = text ∷ []
part false text = []

pub style_instruction : (ℤ → Str) → Option CodeStyle → Str
style_instruction itoa none = str "Follow the formatting visible around the cursor."
style_instruction itoa (some style) =
    join
      ((str "indentation=" ++ style.indentation)
        ∷ (part (ltb_ℤ (pos 0) style.indent_size) (str "indent-size=" ++ itoa style.indent_size)
            ++ part (not (is_empty style.quote)) (str "quotes=" ++ style.quote)
            ++ part (not (is_empty style.semicolons)) (str "semicolons=" ++ style.semicolons)))
      (str ", ")

pub record FimConfig : Type 0 where
  pub prefix_token : Str
  pub suffix_token : Str
  pub middle_token : Str
  pub end_token : Str
  pub filename_context : Bool

-- strings.ReplaceAll(s, "\\", "/")
abbrev pub slashes : Str → Str
slashes [] = []
slashes (x ∷ s) = (if x == 92 then b'/' else x) ∷ slashes s

module _ (base : Str → Str) where
  pub filename_context : Request → FimConfig → Str
  filename_context request config =
      let path = request.context.file_path in
      let filename = base (slashes path) in
      let language = to_lower request.context.language in
      if not config.filename_context || is_empty path
      then []
      else if str_eq language (str "python")
          || str_eq language (str "shellscript")
          || str_eq language (str "ruby")
      then str "# File: " ++ filename ++ 10 ∷ []
      else if str_eq language (str "html") || str_eq language (str "xml")
      then str "<!-- File: " ++ filename ++ str " -->" ++ 10 ∷ []
      else str "// File: " ++ filename ++ 10 ∷ []

  pub format : Request → FimConfig → Str
  format request config =
      config.prefix_token
      ++ filename_context request config
      ++ request.context.prefix
      ++ config.suffix_token
      ++ request.context.suffix
      ++ config.middle_token

pub strip_end : Str → Str → Str
strip_end text end =
    let cut = length text - length end in
    if not (is_empty end) && leb (length end) (length text) && str_eq (drop cut text) end
    then take cut text
    else text
