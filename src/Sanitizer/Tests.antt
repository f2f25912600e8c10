-- ===== src/Sanitizer/Tests.antt =====
-- The cases of sanitizer_test.go.
use deins_complete.Prelude.{◌-◌, ◌≤◌, ◌<◌, ◌⊎◌, [], ◌∷◌, ◌++◌, none, ◌≡◌, refl, length, arith}
use deins_complete.Prelude.Text.Search.{count}
use deins_complete.Prelude.Int.{pos, to_ℕ}
use deins_complete.Prelude.Text.{Str, str}
use deins_complete.Completion.Types.{Request}
use deins_complete.Completion.Policy.{max_lines_for_intent}
use deins_complete.Sanitizer.{
  Config, sanitize, newline, unwrapped, overlap, overlap_limit, wrong_language, limit_lines,
  limit_chars, trim_blank_lines, normalize_newlines, strip_fence, strip_explanation,
  remove_prefix_overlap, remove_suffix_overlap, collapse_blank_lines,
}
use deins_complete.Sanitizer.Bounds.{length-sanitize, lines-sanitize}
use deins_complete.Sanitizer.Overlap.{Meets, overlap-Meets, overlap_longest}
use deins_complete.Sanitizer.Trimmed.{IsTrimmed, sanitize-IsTrimmed}

-- What the tests compute with.
code : Unit {0}
unfolding sanitize unwrapped wrong_language limit_lines limit_chars trim_blank_lines
    normalize_newlines strip_fence strip_explanation remove_prefix_overlap remove_suffix_overlap
    collapse_blank_lines max_lines_for_intent str
code = tt

abbrev request : Str → Str → Str → Str → Request
request prefix suffix language intent = record {
  context = record {
    prefix = prefix;
    suffix = suffix;
    language = language;
    file_path = [];
    cursor_offset = pos 0;
    style = none;
  };
  intent = intent;
  repository_context = none;
  client = none;
}

abbrev clean : Str → Str → Str → Str
clean prefix suffix raw =
    sanitize (record { max_lines = pos 3; max_chars = 8000 }) (request prefix suffix [] []) raw

infixr 60 ◌↵◌
abbrev ◌↵◌ : Str → Str → Str
a ↵ b = a ++ newline ∷ b

fence_removed :
    clean [] [] (str "```ts" ↵ str "await getUser();" ↵ str "```" ↵ str "Explanation")
    ≡ str "await getUser();"
unfolding code
fence_removed = refl

explanation_removed :
    clean [] [] (str "Here is the completion:" ↵ str "await getUser();") ≡ str "await getUser();"
unfolding code
explanation_removed = refl

comment_kept :
    clean [] [] (str "// keep comment" ↵ str "await getUser();")
    ≡ (str "// keep comment" ↵ str "await getUser();")
unfolding code
comment_kept = refl

prefix_overlap_removed :
    clean (str "const user =") [] (str "const user = await getUser();") ≡ str "await getUser();"
unfolding code
prefix_overlap_removed = refl

suffix_overlap_removed :
    clean [] (13 ∷ 10 ∷ str "return user;") (str "await getUser()" ++ 13 ∷ 10 ∷ str "return user;")
    ≡ str "await getUser()"
unfolding code
suffix_overlap_removed = refl

blank_lines_collapsed :
    clean [] [] (str "a" ↵ [] ↵ [] ↵ [] ↵ str "b" ↵ str "line3" ↵ str "line4")
    ≡ (str "a" ↵ [] ↵ str "b")
unfolding code
blank_lines_collapsed = refl

wrong_language_dropped :
    sanitize
      (record { max_lines = pos 20; max_chars = 8000 })
      (request [] [] (str "typescript") (str "member-access"))
      (str "def calculate():" ↵ str "    pass")
    ≡ []
unfolding code
wrong_language_dropped = refl

-- The theorems at one text: an explanation, a blank line and two lines of code, cut to one line.
abbrev config : Config
config = record { max_lines = pos 3; max_chars = 8000 }

abbrev member : Request
member = request (str "return ") [] (str "go") (str "member-access")

abbrev sample : Str
sample = str "completion:" ↵ [] ↵ str "return x" ↵ str "}"

length-sanitize_example : length (sanitize config member sample) ≤ 8000
length-sanitize_example = length-sanitize config member sample

lines-sanitize_example :
    let most = to_ℕ (max_lines_for_intent (str "member-access") (pos 3)) in
    (count (sanitize config member sample) newline ≤ most - 1)
    × ((0 < most) ⊎ (sanitize config member sample ≡ []))
lines-sanitize_example = lines-sanitize config member sample

sanitize-IsTrimmed_example : IsTrimmed (sanitize config member sample)
sanitize-IsTrimmed_example = sanitize-IsTrimmed config member sample

overlap-Meets_example :
    (overlap (str "const a") (str "a = 1") ≤ 5)
    × ((overlap (str "const a") (str "a = 1") ≡ 0)
        ⊎ Meets (str "const a") (str "a = 1") (overlap (str "const a") (str "a = 1")))
unfolding str
overlap-Meets_example = overlap-Meets (str "const a") (str "a = 1")

overlap_is_one : overlap (str "const a") (str "a = 1") ≡ 1
unfolding overlap overlap_limit code
overlap_is_one = refl

overlap_longest_example : ¬ Meets (str "const a") (str "a = 1") 4
unfolding str
overlap_longest_example =
    overlap_longest (str "const a") (str "a = 1") 4 (omega (arith, overlap_is_one)) (omega arith)
