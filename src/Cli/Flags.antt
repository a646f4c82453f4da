-- ===== src/Cli/Flags.antt =====
-- The arguments of the tool: cmd/kubectl-claw/main.go, on Go's flag package, whose flags here all
-- take a text.
use Prim.Native.Char.{code}
use k8s4claw.Base.{
  String, ◌||◌, Option, none, some, List, [], ◌∷◌, if◌then◌else◌, ◌==◌, str_eq, after_first,
  before_first,
}

-- The values of the flags.
pub record Flags : Type 0 where
  pub namespace : String
  pub extra : String

-- `fs.Set`: a flag that is not defined is an error.
unfoldable pub set_flag : String → String → String → Flags → Option Flags
set_flag extra_name name value flags =
    if str_eq name "n" || str_eq name "namespace"
    then some (record flags { namespace = value })
    else (if str_eq name extra_name then some (record flags { extra = value }) else none)

-- How an argument reads: the first that is no flag, the end `--`, bad syntax, or a flag's name with
-- a value behind `=` or without one.
pub data Token : Type 0 where
  operand : Token
  terminator : Token
  bad : Token
  flag : String → Option String → Token

-- The name starts with neither `-` nor `=`; a `=` further on ends it.
unfoldable pub flag_token : String → Token
flag_token String.[] = bad
flag_token (String.◌∷◌ c s) =
    if code c == 45 || code c == 61
    then bad
    else flag (String.◌∷◌ c (before_first 61 s)) (after_first 61 s)

unfoldable pub dash_token : String → Token
dash_token String.[] = operand
dash_token (String.◌∷◌ c s) =
    if code c == 45
    then (if str_eq s "" then terminator else flag_token s)
    else flag_token (String.◌∷◌ c s)

unfoldable pub token : String → Token
token String.[] = operand
token (String.◌∷◌ c s) = if code c == 45 then dash_token s else operand

-- `fs.Parse`: the flags in front, and the arguments from the first operand on.
unfoldable pub parse_flags : String → List String → Flags → Option (Flags × List String)
parse_flags extra_name [] flags = some (flags, [])
parse_flags extra_name (arg ∷ []) flags = elim (token arg) [
  | operand ↦ some (flags, arg ∷ [])
  | terminator ↦ some (flags, [])
  | bad ↦ none
  | flag name none ↦ none
  | flag name (some value) ↦ elim (set_flag extra_name name value flags) [
    | none ↦ none
    | some set ↦ some (set, [])
  ]
]
parse_flags extra_name (arg ∷ next ∷ args) flags = elim (token arg) [
  | operand ↦ some (flags, arg ∷ next ∷ args)
  | terminator ↦ some (flags, next ∷ args)
  | bad ↦ none
  | flag name none ↦ elim (set_flag extra_name name next flags) [
    | none ↦ none
    | some set ↦ parse_flags extra_name args set
  ]
  | flag name (some value) ↦ elim (set_flag extra_name name value flags) [
    | none ↦ none
    | some set ↦ parse_flags extra_name (next ∷ args) set
  ]
]

pub record Parsed : Type 0 where
  pub name : String
  pub namespace : String
  pub extra : String

first_operand : Option (Flags × List String) → Option Parsed
first_operand none = none
first_operand (some (flags, [])) = none
first_operand (some (flags, name ∷ rest)) =
    some (record { name = name; namespace = flags.namespace; extra = flags.extra })

unfoldable pub common_flags : List String → String → Option Parsed
unfolding first_operand
common_flags args extra_name =
    first_operand (parse_flags extra_name args (record { namespace = "default"; extra = "" }))
