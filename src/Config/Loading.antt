-- ===== src/Config/Loading.antt =====
-- What Load answers.
use gowait.Prelude.{
  ◌^◌, ap, ◌∙◌, List, ◌≡◌, ◌≢◌, ◌↔◌, ◌⊎◌, refl, inl, inr, String, Bool, true, none, subst, pos,
  ◌≤ℤ◌, ◌<ℤ◌, str_eq-cases, Bool-cases, sym, Option-cases,
}
use gowait.Config.{Config, validate}
use gowait.Config.Flags.{Environment, Flags, defaults}
use gowait.Config.Arguments.{parse_flags}
use gowait.Config.Load.{fill, default_probe_max, accept, load}
use gowait.Waitpage.{supported_lang}
use gowait.Results.{ok, Result-cases}
use gowait.Prober.Steps.{IsSane}
use gowait.Config.Valid.{IsValid, validate_iff, validate-IsSane}

module _ (is_absolute : String → Bool) where
  accept_iff :
      (backend : String) (c d : Config)
      → (accept is_absolute backend c ≡ ok d)
        ↔ (backend ≢ "") × (is_absolute backend ≡ true) × (d ≡ c) × (validate is_absolute c ≡ none)
  unfolding accept
  accept_iff backend c d = elim (str_eq-cases backend "") [
    | inl (b, e) ↦ rw (accept, b) ((λ h. cc), (λ h. absurd (h.0 e)))
    | inr (b, n) ↦ elim (Bool-cases (is_absolute backend)) [
      | inr a ↦ rw (accept, b, a) ((λ h. cc), (λ h. cc))
      | inl a ↦ elim (Option-cases (validate is_absolute c)) [
        | inl v ↦ rw (accept, b, a, v) ((λ h. (n, refl, cc, refl)), (λ h. ap ok (sym h.2)))
        | inr (x, v) ↦ rw (accept, b, a, v) ((λ h. cc), (λ h. cc))
      ]
    ]
  ]

  -- The flags that Load parses, where it does, and what is made of them.
  IsLoaded : Environment → List String → Config → Type 0
  IsLoaded env args c =
      (flags : Flags) × (parse_flags env none args (defaults env) ≡ ok flags)
      × (flags.backend ≢ "")
      × (is_absolute flags.backend ≡ true)
      × (c ≡ default_probe_max (fill flags))
      × (validate is_absolute c ≡ none)

  load_iff :
      (env : Environment) (args : List String) (c : Config)
      → (load is_absolute env args ≡ ok c) ↔ IsLoaded env args c
  unfolding load IsLoaded
  load_iff env args c = elim (Result-cases (parse_flags env none args (defaults env))) [
    | inr (e, p) ↦ rw (load, p) ((λ h. cc), (λ h. let q = h.1 in cc))
    | inl (flags, p) ↦ (
      λ h.
          (let step : accept is_absolute flags.backend (default_probe_max (fill flags)) ≡ ok c =
              sym (rw (load, p) refl) ∙ h in
            let (n, a, e, v) =
              (accept_iff flags.backend (default_probe_max (fill flags)) c).0 step in
            (flags, p, n, a, e, rw e v)),
      λ (given, q, n, a, e, v).
          (let same : given ≡ flags = cc in
            let made : c ≡ default_probe_max (fill flags) =
              e ∙ ap (λ f. default_probe_max (fill f)) same in
            let step : accept is_absolute flags.backend (default_probe_max (fill flags)) ≡ ok c =
              (accept_iff flags.backend (default_probe_max (fill flags)) c).1 (
                subst (λ f. f.backend ≢ "") same n,
                subst (λ f. is_absolute f.backend ≡ true) same a,
                made,
                subst (λ k. validate is_absolute k ≡ none) made v,
              ) in
            rw (load, p) step),
    )
  ]

  pub load-IsSane :
      (env : Environment) (args : List String) (c : Config)
      → load is_absolute env args ≡ ok c
      → (pos 1 ≤ℤ c.capacity)
        × (supported_lang c.wait_lang ≡ true)
        × ((c.probe_url ≡ "") ⊎ IsSane (record { min = c.probe_min; max = c.probe_max }))
  unfolding IsLoaded
  load-IsSane env args c h =
      let (flags, p, n, a, e, valid) = (load_iff env args c).0 h in
      validate-IsSane is_absolute c valid

  -- Where twice the poll interval fits in an int64, `Validate` answers no error exactly for a
  -- configuration with a positive capacity and poll interval, sessions longer than the poll
  -- interval, a line that outlasts two polls, a known store with what it needs, a known language,
  -- and a prober that is off or has an absolute URL, a positive interval and sane bounds. `Load`
  -- answers a configuration exactly where it is one of these, the arguments parse over the
  -- environment's settings, the backend has an absolute URL, and the configuration is made of the
  -- flags, with the prober's ceiling by default the capacity.
  pub validate-IsValid :
      (env : Environment) (args : List String) (c : Config)
      → c.poll_interval <ℤ pos (2 ^ 62)
      → ((validate is_absolute c ≡ none) ↔ IsValid is_absolute c)
        × ((load is_absolute env args ≡ ok c) ↔ (
            (flags : Flags) × (parse_flags env none args (defaults env) ≡ ok flags)
            × (flags.backend ≢ "")
            × (is_absolute flags.backend ≡ true)
            × (c ≡ default_probe_max (fill flags))
            × IsValid is_absolute c))
  unfolding IsLoaded
  validate-IsValid env args c small =
      let (valid, sound) = validate_iff is_absolute c small in
      let (loads, back) = load_iff env args c in
      (
        (valid, sound),
        (
          λ h. (let (flags, p, n, a, e, v) = loads h in (flags, p, n, a, e, valid v)),
          λ (flags, p, n, a, e, v). back (flags, p, n, a, e, sound v),
        ),
      )
