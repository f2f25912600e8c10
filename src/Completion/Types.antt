-- ===== src/Completion/Types.antt =====
-- api/internal/completion/types.go. A pointer that may be nil is an `Option`, a Go `int` that
-- comes from outside is an integer.
use deins_complete.Prelude.{Option, List}
use deins_complete.Prelude.Int.{ℤ}
use deins_complete.Prelude.Text.{Str}

pub record CodeStyle : Type 0 where
  pub indentation : Str
  pub indent_size : ℤ
  pub quote : Str
  pub semicolons : Str

pub record Context : Type 0 where
  pub prefix : Str
  pub suffix : Str
  pub language : Str
  pub file_path : Str
  pub cursor_offset : ℤ
  pub style : Option CodeStyle

pub record Client : Type 0 where
  pub name : Str
  pub version : Str

pub record RepositoryContextFile : Type 0 where
  pub path : Str
  pub language : Str
  pub content : Str
  pub reason : Str

pub record RepositorySymbol : Type 0 where
  pub name : Str
  pub kind : Str
  pub file_path : Str
  pub signature : Str

pub record SignatureHelp : Type 0 where
  pub label : Str
  pub active_parameter : ℤ
  pub parameter : Str

pub record RepositoryContext : Type 0 where
  pub files : List RepositoryContextFile
  pub symbols : List RepositorySymbol
  pub dependencies : List Str
  pub focus : Str
  pub diagnostics : List Str
  pub signature_help : Option SignatureHelp

pub record Request : Type 0 where
  pub context : Context
  pub intent : Str
  pub repository_context : Option RepositoryContext
  pub client : Option Client

pub record Completed : Type 0 where
  pub text : Str
  pub finish_reason : Str
  pub prompt_tokens : ℤ
  pub completion_tokens : ℤ
  pub total_tokens : ℤ

-- Result{Text: text}
abbrev pub completed : Str → Completed
completed text = record {
  text = text;
  finish_reason = List.[];
  prompt_tokens = ℤ.pos 0;
  completion_tokens = ℤ.pos 0;
  total_tokens = ℤ.pos 0;
}
