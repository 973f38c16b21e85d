-- ===== src/Sandbox.antt =====
-- internal/sandbox/source.go: the check of a Python source. The parser of Python, which is a package
-- of its own, and Go's regular expressions are a parameter.
use evalfrog.Prelude.{
  ℕ, ◌+◌, Bool, false, not, ◌&&◌, Option, none, some, List, [], ◌∷◌, ◌==◌, if◌then◌else◌, is_blank,
  nat_eq, leb, contains,
}
use Prim.Native.String.{String}
use Prim.Native.Char.{code, len_utf8}

-- what the check reads of a function's parameters
pub record PyArguments : Type 0 where
  pub positional_only : ℕ
  pub names : List String
  pub has_vararg : Bool
  pub keyword_only : ℕ
  pub has_kwarg : Bool
  pub defaults : ℕ

pub record PyFunction : Type 0 where
  pub name : String
  pub args : Option PyArguments

-- a match of the import statement: its offset and its two groups, empty if they did not take part
pub record ImportMatch : Type 0 where
  pub offset : ℕ
  pub from_module : String
  pub module_name : String

pub record Python : Type 0 where
  -- strings.TrimSpace(source) == ""
  pub trims_to_empty : String → Bool
  -- pyparser.ParseFile: the functions among the statements of the module
  pub parse_functions : String → Option (List PyFunction)
  -- importStatement.FindAllStringSubmatchIndex
  pub find_imports : String → List ImportMatch
  -- strings.Split(module, ".")[0]
  pub first_segment : String → String

pub record SourceError : Type 0 where
  pub code : String
  pub message : String
  pub line : ℕ
  pub column : ℕ

abbrev pub allowed_imports : List String
allowed_imports =
    "collections" ∷ "datetime" ∷ "decimal" ∷ "functools" ∷ "itertools" ∷ "json" ∷ "math"
    ∷ "operator" ∷ "re" ∷ "statistics" ∷ "string" ∷ "typing" ∷ []

unfoldable pub is_only_inputs : List String → Bool
is_only_inputs (name ∷ []) = name == "inputs"
is_only_inputs _ = false

unfoldable pub valid_main_signature : PyFunction → Bool
unfolding is_only_inputs
valid_main_signature function = elim function.args [
  | none ↦ false
  | some args ↦
      nat_eq args.positional_only 0
      && is_only_inputs args.names
      && not args.has_vararg
      && nat_eq args.keyword_only 0
      && not args.has_kwarg
      && nat_eq args.defaults 0
]

-- the functions named main, at the top of the module
unfoldable pub main_functions : List PyFunction → List PyFunction
main_functions [] = []
main_functions (function ∷ rest) =
    let others = main_functions rest in
    if function.name == "main" then function ∷ others else others

unfoldable pub has_entrypoint : List PyFunction → Bool
unfolding valid_main_signature
has_entrypoint (entry ∷ []) = valid_main_signature entry
has_entrypoint _ = false

-- The loop of lineColumn; the index of a character is its offset in bytes.
unfoldable pub line_column : String → ℕ → ℕ → ℕ → ℕ → ℕ × ℕ
line_column String.[] index offset line column = (line, column)
line_column (String.◌∷◌ c rest) index offset line column =
    let newline = nat_eq (code c) 10 in
    let later =
      line_column rest (index + len_utf8 c) offset (if newline then line + 1 else line)
        (if newline then 1 else column + 1) in
    if leb offset index then (line, column) else later

unfoldable pub check_imports : Python → String → List ImportMatch → Option SourceError
unfolding contains line_column
check_imports python source [] = none
check_imports python source (match ∷ rest) =
    let later = check_imports python source rest in
    let module_name = if is_blank match.from_module then match.module_name else match.from_module in
    let position = line_column source 0 match.offset 1 1 in
    if contains allowed_imports (python.first_segment module_name)
    then later
    else some (record {
      code = "CODE_IMPORT_FORBIDDEN";
      message = "Python import is not in the sandbox allowlist";
      line = position.0;
      column = position.1;
    })

abbrev source_error : String → String → Option SourceError
source_error code message = some (record { code = code; message = message; line = 0; column = 0 })

unfoldable pub validate_source : Python → String → Option SourceError
unfolding main_functions has_entrypoint check_imports
validate_source python source =
    if python.trims_to_empty source
    then source_error "CODE_SYNTAX_ERROR" "Python source_code is required"
    else elim (python.parse_functions source) [
      | none ↦ source_error "CODE_SYNTAX_ERROR" "Python source has invalid syntax"
      | some functions ↦
          if has_entrypoint (main_functions functions)
          then check_imports python source (python.find_imports source)
          else source_error "CODE_ENTRYPOINT_INVALID" "Python source must define main(inputs)"
    ]
