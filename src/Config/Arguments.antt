-- ===== src/Config/Arguments.antt =====
-- Parse of package flag, over the flags that Load declares.
use Prim.Native.Char.{code}
use gowait.Prelude.{
  ◌==◌, not, ◌||◌, String, Bool, true, false, Option, none, some, List, [], ◌∷◌, str_eq,
  if◌then◌else◌,
}
use gowait.Results.{Result, ok, error}
use gowait.GoMap.{lookup}
use gowait.Config.Flags.{
  Environment, Flags, Setter, string_flag, int_flag, duration_flag, bool_flag, flag_set, FlagError,
  bad_syntax, not_defined, needs_argument, bad_value, help,
}

-- What an argument is by its text: no flag, or "--", which end the flags; a name with "=" and a value, or
-- without.
pub data Argument : Type 0 where
  stop bad : Argument
  named : String → Option String → Argument

-- A name and what follows its first "=".
unfoldable pub cut : String → String × Option String
cut String.[] = ("", none)
cut (String.◌∷◌ c s) =
    let (name, value) = cut s in if code c == 61 then ("", some s) else (String.◌∷◌ c name, value)

-- The text behind the dashes.
unfoldable pub read_name : String → Argument
unfolding cut
read_name String.[] = bad
read_name (String.◌∷◌ c s) =
    let (name, value) = cut (String.◌∷◌ c s) in
    if code c == 45 || code c == 61 then bad else named name value

unfoldable pub read_arg : String → Argument
unfolding read_name
read_arg String.[] = stop
read_arg (String.◌∷◌ c String.[]) = stop
read_arg (String.◌∷◌ c (String.◌∷◌ d String.[])) =
    if not (code c == 45) then stop else if code d == 45 then stop else read_name (String.◌∷◌ d "")
read_arg (String.◌∷◌ c (String.◌∷◌ d (String.◌∷◌ e s))) =
    if not (code c == 45)
    then stop
    else if code d == 45
    then read_name (String.◌∷◌ e s)
    else read_name (String.◌∷◌ d (String.◌∷◌ e s))

-- strconv.ParseBool
unfoldable pub parse_bool : String → Option Bool
parse_bool s =
    if str_eq s "1"
      || str_eq s "t"
      || str_eq s "T"
      || str_eq s "TRUE"
      || str_eq s "true"
      || str_eq s "True"
    then some true
    else if str_eq s "0"
        || str_eq s "f"
        || str_eq s "F"
        || str_eq s "FALSE"
        || str_eq s "false"
        || str_eq s "False"
    then some false
    else none

abbrev pub map_option : {A B : Type 0} → (A → B) → Option A → Option B
map_option f none = none
map_option f (some a) = some (f a)

-- The method Set of a flag's value.
unfoldable pub set_value : Environment → Setter → String → Flags → Option Flags
unfolding parse_bool
set_value env (string_flag put) v f = some (put v f)
set_value env (int_flag put) v f = map_option (λ n. put n f) (env.parse_int v)
set_value env (duration_flag put) v f = map_option (λ d. put d f) (env.parse_duration v)
set_value env (bool_flag put) v f = map_option (λ b. put b f) (parse_bool v)

-- A flag that is a bool, or that waits for the next argument.
unfoldable pub waits : Setter → Bool
waits (bool_flag put) = false
waits _ = true

-- The loop of Parse, where the first argument tells which flag waits for its value.
module _ (env : Environment) where
  unfoldable pub parse_flags : Option Setter → List String → Flags → Result FlagError Flags
  unfolding lookup read_arg set_value waits
  parse_flags none [] f = ok f
  parse_flags (some w) [] f = error needs_argument
  parse_flags (some w) (s ∷ rest) f = elim (set_value env w s f) [
    | none ↦ error bad_value
    | some f' ↦ parse_flags none rest f'
  ]
  parse_flags none (s ∷ rest) f = elim (read_arg s) [
    | stop ↦ ok f
    | bad ↦ error bad_syntax
    | named name value ↦ elim (lookup name flag_set) [
      | none ↦ error (if str_eq name "help" || str_eq name "h" then help else not_defined)
      | some w ↦ elim value [
        | some v ↦ elim (set_value env w v f) [
          | none ↦ error bad_value
          | some f' ↦ parse_flags none rest f'
        ]
        | none ↦ elim (waits w) [
          | true ↦ parse_flags (some w) rest f
          | false ↦ elim (set_value env w "true" f) [
            | none ↦ error bad_value
            | some f' ↦ parse_flags none rest f'
          ]
        ]
      ]
    ]
  ]
