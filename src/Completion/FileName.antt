-- ===== src/Completion/FileName.antt =====
-- api/internal/completion/filemetadata.go. path.Base, the runes of a text and the tests of the
-- package unicode are parameters.
use deins_complete.Prelude.{Bool, ◌||◌, List, [], ◌∷◌, ◌++◌, ltb, length, take, if◌then◌else◌}
use deins_complete.Prelude.Text.{Str, str, str_eq}
use deins_complete.Completion.Policy.{is_one_of}
use deins_complete.Completion.Prompt.{slashes}

-- A rune is given as its bytes.
pub record Library : Type 0 where
  pub base : Str → Str
  pub runes : Str → List Str
  pub is_letter : Str → Bool
  pub is_number : Str → Bool

-- The runes of "._- @()[]"
unfoldable pub is_punctuation : Str → Bool
is_punctuation rune =
    is_one_of rune
      (str "." ∷ str "_" ∷ str "-" ∷ str " " ∷ str "@" ∷ str "(" ∷ str ")" ∷ str "[" ∷ str "]" ∷ [])

module _ (library : Library) where
  unfoldable pub is_kept : Str → Bool
  is_kept rune = library.is_letter rune || library.is_number rune || is_punctuation rune

  -- strings.Map
  unfoldable pub kept : List Str → Str
  kept [] = []
  kept (rune ∷ runes) = let rest = kept runes in if is_kept rune then rune ++ rest else rest

  -- SafeFileName
  unfoldable pub safe_file_name : Str → Str
  safe_file_name path =
      let name = kept (library.runes (library.base (slashes path))) in
      if ltb 255 (length name) then take 255 name else if str_eq name (str ".") then [] else name
