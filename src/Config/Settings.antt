-- ===== src/Config/Settings.antt =====
-- The settings of internal/config/config.go as its documentation lists them: for each flag where its value
-- goes, its variable in the environment, and its default.
use gowait.Prelude.{
  String, ◌≡◌, ◌≢◌, refl, sym, ◌∙◌, subst, ap, ◌⊎◌, inl, inr, Bool, true, false, Option, none, some,
  List, [], ◌∷◌, ◌++◌, ℤ, pos, arith, All, str_eq, str_eq-cases, Option-cases, ◌↔◌, ◌||◌,
}
use gowait.Results.{ok}
use gowait.Clock.{Duration}
use gowait.GoMap.{lookup}
use gowait.Config.Flags.{
  Environment, Flags, Setter, string_flag, int_flag, duration_flag, bool_flag, flag_set, defaults,
  env_or, env_or_int, env_or_duration, env_or_bool,
}
use gowait.Config.Arguments.{named, read_arg, parse_bool, map_option, set_value, parse_flags}
use gowait.Config.Precedence.{OthersKeep, IsFree, unset, given, flag_precedence}

-- Where a setting goes, its variable, and its default.
pub data Setting : Type 0 where
  text_setting : (Flags → String) → String → String → Setting
  number_setting : (Flags → ℤ) → String → ℤ → Setting
  duration_setting : (Flags → Duration) → String → Duration → Setting
  switch_setting : (Flags → Bool) → String → Bool → Setting

-- By the names of their flags.
abbrev pub settings : List (String × Setting)
settings =
    ("listen", text_setting (λ f. f.listen) "GOWAIT_LISTEN" ":8080")
    ∷ ("backend", text_setting (λ f. f.backend) "GOWAIT_BACKEND_URL" "")
    ∷ ("capacity", number_setting (λ f. f.capacity) "GOWAIT_CAPACITY" (pos 100))
    ∷ (
      "inactivity-ttl",
      duration_setting (λ f. f.inactivity_ttl) "GOWAIT_INACTIVITY_TTL" (pos 60000000000),
    )
    ∷ ("queue-ttl", duration_setting (λ f. f.queue_ttl) "GOWAIT_QUEUE_TTL" (pos 30000000000))
    ∷ (
      "poll-interval",
      duration_setting (λ f. f.poll_interval) "GOWAIT_POLL_INTERVAL" (pos 3000000000),
    )
    ∷ ("cookie-secret", text_setting (λ f. f.cookie_secret) "GOWAIT_COOKIE_SECRET" "")
    ∷ ("admin-key", text_setting (λ f. f.admin_key) "GOWAIT_ADMIN_KEY" "")
    ∷ ("cookie-secure", switch_setting (λ f. f.cookie_secure) "GOWAIT_COOKIE_SECURE" false)
    ∷ ("preserve-host", switch_setting (λ f. f.preserve_host) "GOWAIT_PRESERVE_HOST" false)
    ∷ ("store", text_setting (λ f. f.store_kind) "GOWAIT_STORE" "memory")
    ∷ ("valkey-url", text_setting (λ f. f.valkey_url) "GOWAIT_VALKEY_URL" "")
    ∷ ("valkey-prefix", text_setting (λ f. f.valkey_prefix) "GOWAIT_VALKEY_PREFIX" "gowait:")
    ∷ ("metrics", switch_setting (λ f. f.metrics_on) "GOWAIT_METRICS" true)
    ∷ ("wait-title", text_setting (λ f. f.wait_title) "GOWAIT_WAIT_TITLE" "")
    ∷ ("wait-brand", text_setting (λ f. f.wait_brand) "GOWAIT_WAIT_BRAND" "")
    ∷ ("wait-message", text_setting (λ f. f.wait_message) "GOWAIT_WAIT_MESSAGE" "")
    ∷ ("wait-lang", text_setting (λ f. f.wait_lang) "GOWAIT_WAIT_LANG" "en")
    ∷ ("wait-template", text_setting (λ f. f.wait_template) "GOWAIT_WAIT_TEMPLATE" "")
    ∷ ("probe-url", text_setting (λ f. f.probe_url) "GOWAIT_PROBE_URL" "")
    ∷ (
      "probe-interval",
      duration_setting (λ f. f.probe_interval) "GOWAIT_PROBE_INTERVAL" (pos 10000000000),
    )
    ∷ ("probe-min", number_setting (λ f. f.probe_min) "GOWAIT_PROBE_MIN" (pos 1))
    ∷ ("probe-max", number_setting (λ f. f.probe_max) "GOWAIT_PROBE_MAX" (pos 0))
    ∷ []

-- A variable that is not set or cannot be read gives the default.
abbrev Reads : {A : Type 0} → (String → Option A) → String → A → A → Type 0
Reads read text default value =
    (text ≡ "") × (value ≡ default)
    ⊎ ((text ≢ "") × ((read text ≡ some value) ⊎ ((read text ≡ none) × (value ≡ default))))

-- What the environment, or else the default, gives.
abbrev pub IsInherited : Environment → Setting → Flags → Type 0
IsInherited env (text_setting get key default) f = Reads some (env.getenv key) default (get f)
IsInherited env (number_setting get key default) f =
    Reads env.scan_int (env.getenv key) default (get f)
IsInherited env (duration_setting get key default) f =
    Reads env.parse_duration (env.getenv key) default (get f)
IsInherited env (switch_setting get key default) f =
    (env.getenv key ≡ "") × (get f ≡ default)
    ⊎ ((env.getenv key ≢ "")
        × ((get f ≡ true)
            ↔ ((env.getenv key ≡ "true") ⊎ (env.getenv key ≡ "1") ⊎ (env.getenv key ≡ "yes"))))

-- What the text of a flag gives.
abbrev pub IsGiven : Environment → String → Setting → Flags → Type 0
IsGiven env v (text_setting get key default) f = get f ≡ v
IsGiven env v (number_setting get key default) f = env.parse_int v ≡ some (get f)
IsGiven env v (duration_setting get key default) f = env.parse_duration v ≡ some (get f)
IsGiven env v (switch_setting get key default) f = parse_bool v ≡ some (get f)

-- The first arguments: none, or the flag with a value behind an equals sign.
pub data Opens (n : String) : List String → Option String → Type 0 where
  nothing : Opens n [] none
  with_value : (s v : String) → read_arg s ≡ named n (some v) → Opens n (s ∷ []) (some v)

abbrev pub IsChosen : Environment → Setting → Option String → Flags → Type 0
IsChosen env st none f = IsInherited env st f
IsChosen env st (some v) f = IsGiven env v st f

-- The flag of a setting writes it.
abbrev Writes : {A : Type 0} → ((A → Flags → Flags) → Setter) → (Flags → A) → Setter → Type 0
Writes {A} flag get w =
    (put : A → Flags → Flags) × (w ≡ flag put) × ((k : A) (f : Flags) → get (put k f) ≡ k)

abbrev Puts : Setting → Setter → Type 0
Puts (text_setting get key default) w = Writes string_flag get w
Puts (number_setting get key default) w = Writes int_flag get w
Puts (duration_setting get key default) w = Writes duration_flag get w
Puts (switch_setting get key default) w = Writes bool_flag get w

-- All other flags leave it alone, and the defaults are those of the environment.
abbrev Rests : String → Setting → Type 0
Rests n (text_setting get key default) =
    OthersKeep get n flag_set × ((env : Environment) → get (defaults env) ≡ env_or env key default)
Rests n (number_setting get key default) =
    OthersKeep get n flag_set
    × ((env : Environment) → get (defaults env) ≡ env_or_int env key default)
Rests n (duration_setting get key default) =
    OthersKeep get n flag_set
    × ((env : Environment) → get (defaults env) ≡ env_or_duration env key default)
Rests n (switch_setting get key default) =
    OthersKeep get n flag_set
    × ((env : Environment) → get (defaults env) ≡ env_or_bool env key default)

abbrev IsRow : String × Setting → Type 0
IsRow (n, st) = (w : Setter) × (lookup n flag_set ≡ some w) × Puts st w × Rests n st

rows : All IsRow settings
unfolding lookup defaults
rows = (
  (_, refl, (_, refl, (λ v f. refl)), (search (inl, inr), (λ env. refl))),
  (
    (_, refl, (_, refl, (λ v f. refl)), (search (inl, inr), (λ env. refl))),
    (
      (_, refl, (_, refl, (λ v f. refl)), (search (inl, inr), (λ env. refl))),
      (
        (_, refl, (_, refl, (λ v f. refl)), (search (inl, inr), (λ env. refl))),
        (
          (_, refl, (_, refl, (λ v f. refl)), (search (inl, inr), (λ env. refl))),
          (
            (_, refl, (_, refl, (λ v f. refl)), (search (inl, inr), (λ env. refl))),
            (
              (_, refl, (_, refl, (λ v f. refl)), (search (inl, inr), (λ env. refl))),
              (
                (_, refl, (_, refl, (λ v f. refl)), (search (inl, inr), (λ env. refl))),
                (
                  (_, refl, (_, refl, (λ v f. refl)), (search (inl, inr), (λ env. refl))),
                  (
                    (_, refl, (_, refl, (λ v f. refl)), (search (inl, inr), (λ env. refl))),
                    (
                      (_, refl, (_, refl, (λ v f. refl)), (search (inl, inr), (λ env. refl))),
                      (
                        (_, refl, (_, refl, (λ v f. refl)), (search (inl, inr), (λ env. refl))),
                        (
                          (_, refl, (_, refl, (λ v f. refl)), (search (inl, inr), (λ env. refl))),
                          (
                            (_, refl, (_, refl, (λ v f. refl)), (search (inl, inr), (λ env. refl))),
                            (
                              (
                                _,
                                refl,
                                (_, refl, (λ v f. refl)),
                                (search (inl, inr), (λ env. refl)),
                              ),
                              (
                                (
                                  _,
                                  refl,
                                  (_, refl, (λ v f. refl)),
                                  (search (inl, inr), (λ env. refl)),
                                ),
                                (
                                  (
                                    _,
                                    refl,
                                    (_, refl, (λ v f. refl)),
                                    (search (inl, inr), (λ env. refl)),
                                  ),
                                  (
                                    (
                                      _,
                                      refl,
                                      (_, refl, (λ v f. refl)),
                                      (search (inl, inr), (λ env. refl)),
                                    ),
                                    (
                                      (
                                        _,
                                        refl,
                                        (_, refl, (λ v f. refl)),
                                        (search (inl, inr), (λ env. refl)),
                                      ),
                                      (
                                        (
                                          _,
                                          refl,
                                          (_, refl, (λ v f. refl)),
                                          (search (inl, inr), (λ env. refl)),
                                        ),
                                        (
                                          (
                                            _,
                                            refl,
                                            (_, refl, (λ v f. refl)),
                                            (search (inl, inr), (λ env. refl)),
                                          ),
                                          (
                                            (
                                              _,
                                              refl,
                                              (_, refl, (λ v f. refl)),
                                              (search (inl, inr), (λ env. refl)),
                                            ),
                                            (
                                              (
                                                _,
                                                refl,
                                                (_, refl, (λ v f. refl)),
                                                (search (inl, inr), (λ env. refl)),
                                              ),
                                              tt,
                                            ),
                                          ),
                                        ),
                                      ),
                                    ),
                                  ),
                                ),
                              ),
                            ),
                          ),
                        ),
                      ),
                    ),
                  ),
                ),
              ),
            ),
          ),
        ),
      ),
    ),
  ),
)

lookup-IsRow :
    (n : String) (st : Setting) (l : List (String × Setting))
    → All IsRow l
    → lookup n l ≡ some st
    → IsRow (n, st)
unfolding lookup
lookup-IsRow n st [] h e = cc
lookup-IsRow n st ((j, u) ∷ l) (h, hs) e = elim (str_eq-cases j n) [
  | inr (b, other) ↦ lookup-IsRow n st l hs (ground (arith, b, e))
  | inl (b, same) ↦
      let found : u ≡ st = ground (arith, b, e) in
      subst (λ k. IsRow (k, st)) same (subst (λ x. IsRow (j, x)) found h)
]

env_or-Reads :
    (env : Environment) (key default : String)
    → Reads some (env.getenv key) default (env_or env key default)
unfolding env_or
env_or-Reads env key default = elim (str_eq-cases (env.getenv key) "") [
  | inl (b, e) ↦ inl (e, rw (b, env_or) refl)
  | inr (b, e) ↦ inr (e, inl (rw (b, env_or) refl))
]

env_or_int-Reads :
    (env : Environment) (key : String) (default : ℤ)
    → Reads env.scan_int (env.getenv key) default (env_or_int env key default)
unfolding env_or_int
env_or_int-Reads env key default = elim (str_eq-cases (env.getenv key) "") [
  | inl (b, e) ↦ inl (e, rw (b, env_or_int) refl)
  | inr (b, e) ↦ elim (Option-cases (env.scan_int (env.getenv key))) [
    | inl x ↦ inr (e, inr (x, rw (b, x, env_or_int) refl))
    | inr (k, x) ↦ inr (e, inl (x ∙ rw (b, x, env_or_int) refl))
  ]
]

env_or_duration-Reads :
    (env : Environment) (key : String) (default : Duration)
    → Reads env.parse_duration (env.getenv key) default (env_or_duration env key default)
unfolding env_or_duration
env_or_duration-Reads env key default = elim (str_eq-cases (env.getenv key) "") [
  | inl (b, e) ↦ inl (e, rw (b, env_or_duration) refl)
  | inr (b, e) ↦ elim (Option-cases (env.parse_duration (env.getenv key))) [
    | inl x ↦ inr (e, inr (x, rw (b, x, env_or_duration) refl))
    | inr (k, x) ↦ inr (e, inl (x ∙ rw (b, x, env_or_duration) refl))
  ]
]

-- The texts that switch a setting on.
is_on :
    (s : String)
    → ((str_eq s "true" || str_eq s "1" || str_eq s "yes") ≡ true)
      ↔ ((s ≡ "true") ⊎ (s ≡ "1") ⊎ (s ≡ "yes"))
is_on s = elim (str_eq-cases s "true") [
  | inl (a, e) ↦ rw a ((λ _. inl e), (λ _. refl))
  | inr (a, e) ↦ elim (str_eq-cases s "1") [
    | inl (b, f) ↦ rw (a, b) ((λ _. inr (inl f)), (λ _. refl))
    | inr (b, f) ↦ elim (str_eq-cases s "yes") [
      | inl (c, g) ↦ rw (a, b, c) ((λ _. inr (inr g)), (λ _. refl))
      | inr (c, g) ↦
          rw (a, b, c)
            (
              (λ h. cc),
              elim [
                | inl h ↦ absurd (e h)
                | inr (inl h) ↦ absurd (f h)
                | inr (inr h) ↦ absurd (g h)
              ],
            )
    ]
  ]
]

switch_default :
    (env : Environment) (get : Flags → Bool) (key : String) (default : Bool) (f : Flags)
    → get f ≡ env_or_bool env key default
    → IsInherited env (switch_setting get key default) f
unfolding env_or_bool
switch_default env get key default f e = elim (str_eq-cases (env.getenv key) "") [
  | inl (b, x) ↦ inl (x, e ∙ rw (b, env_or_bool) refl)
  | inr (b, x) ↦
      let made = e ∙ rw (b, env_or_bool) refl in
      inr (
        x,
        subst
            (λ k.
              (k ≡ true)
              ↔ ((env.getenv key ≡ "true") ⊎ (env.getenv key ≡ "1") ⊎ (env.getenv key ≡ "yes")))
            (sym made) (is_on (env.getenv key)),
      )
]

given_value :
    {A : Type 0} (get : Flags → A) (put : A → Flags → Flags) (w : Setter) (read : Option A)
    (env : Environment) (n s v : String) (args : List String) (flags : Flags)
    → OthersKeep get n flag_set
    → lookup n flag_set ≡ some w
    → set_value env w v (defaults env) ≡ map_option (λ k. put k (defaults env)) read
    → ((k : A) (f : Flags) → get (put k f) ≡ k)
    → read_arg s ≡ named n (some v)
    → IsFree n args
    → parse_flags env none (s ∷ args) (defaults env) ≡ ok flags
    → read ≡ some (get flags)
unfolding parse_flags
given_value get put w none env n s v args flags others found set puts a free e =
    absurd (let x = rw (a, found, set, parse_flags) at e in cc)
given_value get put w (some k) env n s v args flags others found set puts a free e =
    let start = put k (defaults env) in
    let kept =
      flag_precedence get env n (s ∷ []) args start flags others (given s v w start a found set)
        free e in
    ap some (sym (kept ∙ puts k (defaults env)))

-- Of the settings that the documentation lists, each is chosen like this, where no argument names
-- its flag but possibly the first, with a value behind an equals sign, and where the arguments
-- parse. With the flag it is what the flag's value reads as. Without, it is what its variable in
-- the environment reads as, or the default where this is not set; a number or a duration that
-- cannot be read also gives the default, and a switch is on exactly with one of three texts.
pub setting_precedence :
    (env : Environment) (n : String) (st : Setting) (first args : List String)
    (value : Option String) (flags : Flags)
    → lookup n settings ≡ some st
    → Opens n first value
    → IsFree n args
    → parse_flags env none (first ++ args) (defaults env) ≡ ok flags
    → IsChosen env st value flags
unfolding set_value
setting_precedence env n st first args value flags listed opens free e =
    choose st opens (lookup-IsRow n st settings rows listed) e
  where
    inherited :
        {A : Type 0} (get : Flags → A)
        → OthersKeep get n flag_set
        → parse_flags env none args (defaults env) ≡ ok flags
        → get flags ≡ get (defaults env)
    inherited get others h =
        flag_precedence get env n [] args (defaults env) flags others unset free h

    choose :
        {first : List String} {value : Option String} (st : Setting)
        → Opens n first value
        → IsRow (n, st)
        → parse_flags env none (first ++ args) (defaults env) ≡ ok flags
        → IsChosen env st value flags
    choose (text_setting get key default) nothing (w, found, puts, (others, start)) h =
        subst (λ k. Reads some (env.getenv key) default k)
          (sym (inherited get others h ∙ start env)) (env_or-Reads env key default)
    choose (number_setting get key default) nothing (w, found, puts, (others, start)) h =
        subst (λ k. Reads env.scan_int (env.getenv key) default k)
          (sym (inherited get others h ∙ start env)) (env_or_int-Reads env key default)
    choose (duration_setting get key default) nothing (w, found, puts, (others, start)) h =
        subst (λ k. Reads env.parse_duration (env.getenv key) default k)
          (sym (inherited get others h ∙ start env)) (env_or_duration-Reads env key default)
    choose (switch_setting get key default) nothing (w, found, puts, (others, start)) h =
        switch_default env get key default flags (inherited get others h ∙ start env)
    choose (text_setting get key default) (with_value s v a)
          (w, found, (put, e, puts), (others, start)) h =
        let read =
          given_value get put w (some v) env n s v args flags others found (rw e refl) puts a free
            h in
        cc
    choose (number_setting get key default) (with_value s v a)
          (w, found, (put, e, puts), (others, start)) h =
        given_value get put w (env.parse_int v) env n s v args flags others found (rw e refl) puts a
          free h
    choose (duration_setting get key default) (with_value s v a)
          (w, found, (put, e, puts), (others, start)) h =
        given_value get put w (env.parse_duration v) env n s v args flags others found (rw e refl)
          puts a free h
    choose (switch_setting get key default) (with_value s v a)
          (w, found, (put, e, puts), (others, start)) h =
        given_value get put w (parse_bool v) env n s v args flags others found (rw e refl) puts a
          free h
