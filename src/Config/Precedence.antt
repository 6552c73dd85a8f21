-- ===== src/Config/Precedence.antt =====
-- Which of the flag, the environment and the default a setting is taken from.
use gowait.Prelude.{
  String, ◌≡◌, refl, sym, ◌∙◌, subst, ap, ◌⊎◌, inl, inr, Bool, true, false, Option, none, some,
  List, [], ◌∷◌, ◌++◌, ℤ, arith, All, str_eq, str_eq-cases, Option-cases, Bool-cases,
}
use gowait.Results.{ok}
use gowait.Clock.{Duration}
use gowait.GoMap.{lookup}
use gowait.Config.Flags.{
  Environment, Flags, Setter, string_flag, int_flag, duration_flag, bool_flag, flag_set, defaults,
}
use gowait.Config.Arguments.{
  Argument, stop, bad, named, read_arg, parse_bool, map_option, set_value, waits, parse_flags,
}

abbrev pub names_in : String → Argument → Bool
names_in n stop = false
names_in n bad = false
names_in n (named name value) = str_eq name n

-- No argument names a flag.
abbrev pub IsFree : String → List String → Type 0
IsFree n = All (λ s. names_in n (read_arg s) ≡ false)

Argument-cases :
    (a : Argument)
    → (a ≡ stop) ⊎ (a ≡ bad) ⊎ ((name : String) × (value : Option String) × (a ≡ named name value))
Argument-cases stop = inl refl
Argument-cases bad = inr (inl refl)
Argument-cases (named name value) = inr (inr (name, value, refl))

module _ {A : Type 0} (get : Flags → A) where
  -- A flag that leaves a setting alone.
  abbrev pub Keeps : Setter → Type 0
  Keeps (string_flag put) = (v : String) (f : Flags) → get (put v f) ≡ get f
  Keeps (int_flag put) = (v : ℤ) (f : Flags) → get (put v f) ≡ get f
  Keeps (duration_flag put) = (v : Duration) (f : Flags) → get (put v f) ≡ get f
  Keeps (bool_flag put) = (v : Bool) (f : Flags) → get (put v f) ≡ get f

  -- All flags but one leave a setting alone.
  abbrev pub OthersKeep : String → List (String × Setter) → Type 0
  OthersKeep n = All (λ e. (str_eq e.0 n ≡ true) ⊎ Keeps e.1)

  lookup-Keeps :
      (n name : String) (w : Setter) (fs : List (String × Setter))
      → OthersKeep n fs
      → str_eq name n ≡ false
      → lookup name fs ≡ some w
      → Keeps w
  unfolding lookup
  lookup-Keeps n name w [] h other e = cc
  lookup-Keeps n name w ((j, u) ∷ fs) (h, hs) other e = elim (str_eq-cases j name) [
    | inr (b, ne) ↦ lookup-Keeps n name w fs hs other (ground (arith, b, e))
    | inl (b, same) ↦
        let found : u ≡ w = ground (arith, b, e) in
        elim h [
          | inl mine ↦
              absurd (let no : true ≡ false = sym mine ∙ ap (λ k. str_eq k n) same ∙ other in cc)
          | inr kept ↦ subst Keeps found kept
        ]
  ]

  map_option-get :
      {B : Type 0} (put : B → Flags → Flags) (o : Option B) (f f' : Flags)
      → ((v : B) (g : Flags) → get (put v g) ≡ get g)
      → map_option (λ v. put v f) o ≡ some f'
      → get f' ≡ get f
  map_option-get put none f f' h e = cc
  map_option-get put (some v) f f' h e = let made : put v f ≡ f' = cc in rw (← made) (h v f)

  set_value-Keeps :
      (env : Environment) (w : Setter) (v : String) (f f' : Flags)
      → Keeps w
      → set_value env w v f ≡ some f'
      → get f' ≡ get f
  unfolding set_value
  set_value-Keeps env (string_flag put) v f f' h e =
      let made : put v f ≡ f' = cc in rw (← made) (h v f)
  set_value-Keeps env (int_flag put) v f f' h e = map_option-get put (env.parse_int v) f f' h e
  set_value-Keeps env (duration_flag put) v f f' h e =
      map_option-get put (env.parse_duration v) f f' h e
  set_value-Keeps env (bool_flag put) v f f' h e = map_option-get put (parse_bool v) f f' h e

  abbrev PendingKeeps : Option Setter → Type 0
  PendingKeeps none = Unit
  PendingKeeps (some w) = Keeps w

  names_in-false :
      (n s name : String) (value : Option String)
      → read_arg s ≡ named name value
      → names_in n (read_arg s) ≡ false
      → str_eq name n ≡ false
  names_in-false n s name value e h = subst (λ a. names_in n a ≡ false) e h

  -- A value is set, and the loop goes on.
  AfterSet : Environment → Setter → String → List String → Flags → Flags → Type 0
  AfterSet env w v rest f g =
      (f' : Flags) × (set_value env w v f ≡ some f') × (parse_flags env none rest f' ≡ ok g)

  -- The ways on from an argument that names a flag.
  parse_flags-named :
      (env : Environment) (s : String) (rest : List String) (f g : Flags) (name : String)
      (value : Option String) (w : Setter)
      → read_arg s ≡ named name value
      → lookup name flag_set ≡ some w
      → parse_flags env none (s ∷ rest) f ≡ ok g
      → ((v : String) × AfterSet env w v rest f g) ⊎ (parse_flags env (some w) rest f ≡ ok g)
  unfolding parse_flags AfterSet
  parse_flags-named env s rest f g name (some v) w a found e =
      elim (Option-cases (set_value env w v f)) [
        | inl x ↦ absurd (let y = rw (a, found, x, parse_flags) at e in cc)
        | inr (f', x) ↦ inl (v, (f', x, rw (a, found, x, parse_flags) at e))
      ]
  parse_flags-named env s rest f g name none w a found e = elim (Bool-cases (waits w)) [
    | inl b ↦ inr (rw (a, found, b, parse_flags) at e)
    | inr b ↦ elim (Option-cases (set_value env w "true" f)) [
      | inl x ↦ absurd (let y = rw (a, found, b, x, parse_flags) at e in cc)
      | inr (f', x) ↦ inl ("true", (f', x, rw (a, found, b, x, parse_flags) at e))
    ]
  ]

  -- Arguments that do not name a flag leave its setting alone.
  parse_flags-Keeps :
      (env : Environment) (n : String) (args : List String) (pending : Option Setter) (f g : Flags)
      → OthersKeep n flag_set
      → IsFree n args
      → PendingKeeps pending
      → parse_flags env pending args f ≡ ok g
      → get g ≡ get f
  unfolding parse_flags AfterSet
  parse_flags-Keeps env n [] none f g others free wait e = let same : f ≡ g = cc in rw same refl
  parse_flags-Keeps env n [] (some w) f g others free wait e = cc
  parse_flags-Keeps env n (s ∷ rest) (some w) f g others free wait e =
      elim (Option-cases (set_value env w s f)) [
        | inl no_value ↦ absurd (ground (arith, no_value, e))
        | inr (f', put) ↦
            let onward : parse_flags env none rest f' ≡ ok g = rw (put, parse_flags) at e in
            parse_flags-Keeps env n rest none f' g others free.1 tt onward
            ∙ set_value-Keeps env w s f f' wait put
      ]
  parse_flags-Keeps env n (s ∷ rest) none f g others free wait e =
      elim (Argument-cases (read_arg s)) [
        | inl a ↦ let same : f ≡ g = ground (arith, a, e) in rw same refl
        | inr (inl a) ↦ absurd (ground (arith, a, e))
        | inr (inr (name, value, a)) ↦
            let other = names_in-false n s name value a free.0 in
            elim (Option-cases (lookup name flag_set)) [
              | inl unknown ↦ absurd (let x = rw (a, unknown, parse_flags) at e in cc)
              | inr (w, found) ↦
                  let kept = lookup-Keeps n name w flag_set others other found in
                  elim (parse_flags-named env s rest f g name value w a found e) [
                    | inr onward ↦
                        parse_flags-Keeps env n rest (some w) f g others free.1 kept onward
                    | inl (v, (f', put, onward)) ↦
                        parse_flags-Keeps env n rest none f' g others free.1 tt onward
                        ∙ set_value-Keeps env w v f f' kept put
                  ]
            ]
      ]

-- The settings from which the flags start: the environment's where no argument sets the flag, or those
-- with the value of its argument.
pub data Starts (env : Environment) (n : String) : List String → Flags → Type 0 where
  unset : Starts env n [] (defaults env)
  given :
      (s v : String) (w : Setter) (f : Flags)
      → read_arg s ≡ named n (some v)
      → lookup n flag_set ≡ some w
      → set_value env w v (defaults env) ≡ some f
      → Starts env n (s ∷ []) f

-- Let one flag alone set a setting, and let no argument name the flag but possibly the first,
-- which then gives it its value by an equals sign. Where the arguments parse, the setting is that
-- of the first argument's value, and without such an argument the one that the environment, or
-- else the default, gives.
pub flag_precedence :
    {A : Type 0} (get : Flags → A) (env : Environment) (n : String) (first args : List String)
    (start flags : Flags)
    → OthersKeep get n flag_set
    → Starts env n first start
    → IsFree n args
    → parse_flags env none (first ++ args) (defaults env) ≡ ok flags
    → get flags ≡ get start
unfolding parse_flags
flag_precedence get env n first args start flags others unset free e =
    parse_flags-Keeps get env n args none (defaults env) flags others free tt e
flag_precedence get env n first args start flags others (given s v w f a found put) free e =
    parse_flags-Keeps get env n args none f flags others free tt
      (rw (a, found, put, parse_flags) at e)
