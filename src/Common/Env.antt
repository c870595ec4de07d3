-- ===== src/Common/Env.antt =====
-- Environment variables and the readers that cmd/buddy-api and cmd/chaos-buddy both declare
-- (getEnv, parseBoolEnv, parseDurationEnv, parseIntEnv, parseFloatEnv). The standard library's parsers
-- of integers, floats and durations are arguments, since their text is not in the repository.
use Prim.Native.String.{String}
use mathlib.Core.Bool.{Bool, true, false}
use mathlib.Core.Option.{Option, none, some}
use mathlib.Core.List.{List, [], ◌∷◌}
use text.Mathlib.Text.{◌==◌}
use k8s_buddy.Common.Bools.{if◌then◌else◌}
use k8s_buddy.Common.Errors.{Result, ok, err}

-- `os.LookupEnv`
abbrev pub Env : Type 0
Env = String → Option String

-- The errors of the readers: the variable and its value.
pub data EnvError : Type 0 where
  not_bool not_duration not_int not_float : (key value : String) → EnvError

-- `v, ok := os.LookupEnv(key); !ok || v == ""` as `none`.
unfoldable pub lookup_set : Env → String → Option String
lookup_set env key = elim (env key) [ none ↦ none | some v ↦ if v == "" then none else some v ]

unfoldable pub get_env : Env → String → String → String
unfolding lookup_set
get_env env key def = elim (lookup_set env key) [ none ↦ def | some v ↦ v ]

abbrev member : String → List String → Bool
member s [] = false
member s (x ∷ xs) = let rest = member s xs in if s == x then true else rest

-- `strconv.ParseBool`
unfoldable pub parse_bool : String → Option Bool
parse_bool s =
    if member s ("1" ∷ "t" ∷ "T" ∷ "TRUE" ∷ "true" ∷ "True" ∷ [])
    then some true
    else if member s ("0" ∷ "f" ∷ "F" ∷ "FALSE" ∷ "false" ∷ "False" ∷ [])
    then some false
    else none

-- The default for an unset or empty variable, and otherwise what the parser says.
unfoldable pub parse_env {ℓ} :
    {A : Type ℓ}
    → (String → Option A)
    → (String → String → EnvError)
    → Env
    → String
    → A
    → Result EnvError A
unfolding lookup_set
parse_env parse bad env key def = elim (lookup_set env key) [
  | none ↦ ok def
  | some v ↦ elim (parse v) [ none ↦ err (bad key v) | some a ↦ ok a ]
]

unfoldable pub parse_bool_env : Env → String → Bool → Result EnvError Bool
unfolding parse_env parse_bool
parse_bool_env = parse_env parse_bool not_bool
