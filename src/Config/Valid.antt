-- ===== src/Config/Valid.antt =====
-- What a configuration that passes is good for.
use gowait.Prelude.{
  ◌^◌, ◌≡◌, ◌≢◌, ◌↔◌, ◌⊎◌, refl, inl, inr, String, Bool, true, false, none, some, Option, subst,
  if◌then◌else◌, pos, ◌*ℤ◌, ◌≤ℤ◌, ◌<ℤ◌, arith, str_eq-cases, Bool-cases, ltb_ℤ, leb_ℤ,
}
use gowait.Int64.{wrap}
use gowait.Config.{
  Config, bad_capacity, bad_poll_interval, bad_inactivity_ttl, bad_queue_ttl, validate_probe,
  validate_page, validate_store, validate,
}
use gowait.Waitpage.{supported_lang}
use gowait.Prober.Steps.{IsSane}

-- The sessions and the line outlive the polls of a waiting page, and the prober's bounds make sense.
pub record IsValid (is_absolute : String → Bool) (c : Config) : Type 0 where
  pub capacity : pos 1 ≤ℤ c.capacity
  pub polls : pos 1 ≤ℤ c.poll_interval
  pub sessions : c.poll_interval <ℤ c.inactivity_ttl
  pub waiters : pos 2 *ℤ c.poll_interval ≤ℤ c.queue_ttl
  pub stored : (c.store ≡ "memory") ⊎ (c.store ≡ "valkey") × (c.valkey_url ≢ "")
  pub spoken : supported_lang c.wait_lang ≡ true
  pub probed :
      (c.probe_url ≡ "")
      ⊎ (is_absolute c.probe_url ≡ true)
        × (pos 1 ≤ℤ c.probe_interval)
        × IsSane (record { min = c.probe_min; max = c.probe_max })

-- A ladder of checks that finds no error.
ladder :
    {E : Type 0} (a b c d : Bool) (w x y z : E) (rest : Option E)
    → (if a then some w else if b then some x else if c then some y else if d then some z else rest)
      ≡ none
    → (a ≡ false) × (b ≡ false) × (c ≡ false) × (d ≡ false) × (rest ≡ none)
ladder true b c d w x y z rest h = cc
ladder false true c d w x y z rest h = cc
ladder false false true d w x y z rest h = cc
ladder false false false true w x y z rest h = cc
ladder false false false false w x y z rest h = (refl, refl, refl, refl, h)

module _ (is_absolute : String → Bool) where
  validate_probe-IsSane :
      (c : Config)
      → validate_probe is_absolute c ≡ none
      → (c.probe_url ≡ "")
        ⊎ (is_absolute c.probe_url ≡ true)
          × (pos 1 ≤ℤ c.probe_interval)
          × IsSane (record { min = c.probe_min; max = c.probe_max })
  unfolding validate_probe
  validate_probe-IsSane c h = elim (str_eq-cases c.probe_url "") [
    | inl (b, e) ↦ inl e
    | inr (b, n) ↦ inr (ground (arith, b, h))
  ]

  probe-validate :
      (c : Config)
      → (c.probe_url ≡ "")
        ⊎ (is_absolute c.probe_url ≡ true)
          × (pos 1 ≤ℤ c.probe_interval)
          × IsSane (record { min = c.probe_min; max = c.probe_max })
      → validate_probe is_absolute c ≡ none
  unfolding validate_probe
  probe-validate c (inl e) = rw e refl
  probe-validate c (inr (a, b, s)) = ground (arith, a, b, s)

  validate_page_iff :
      (c : Config)
      → (validate_page is_absolute c ≡ none)
        ↔ (supported_lang c.wait_lang ≡ true) × (validate_probe is_absolute c ≡ none)
  unfolding validate_page
  validate_page_iff c = elim (Bool-cases (supported_lang c.wait_lang)) [
    | inl b ↦ rw b ((λ h. (refl, h)), (λ h. h.1))
    | inr b ↦ rw b ((λ h. cc), (λ h. cc))
  ]

  validate_store_iff :
      (c : Config)
      → (validate_store is_absolute c ≡ none)
        ↔ ((c.store ≡ "memory") ⊎ (c.store ≡ "valkey") × (c.valkey_url ≢ ""))
          × (validate_page is_absolute c ≡ none)
  unfolding validate_store
  validate_store_iff c = elim (str_eq-cases c.store "memory") [
    | inl (b, e) ↦ rw b ((λ h. (inl e, h)), (λ h. h.1))
    | inr (b, n) ↦ elim (str_eq-cases c.store "valkey") [
      | inr (b', n') ↦
          rw (b, b')
            ((λ h. cc), (λ h. elim h.0 [ inl e ↦ absurd (n e) | inr (e, _) ↦ absurd (n' e) ]))
      | inl (b', e') ↦ elim (str_eq-cases c.valkey_url "") [
        | inl (u, e) ↦
            rw (b, b', u)
              ((λ h. cc), (λ h. elim h.0 [ inl x ↦ absurd (n x) | inr (_, y) ↦ absurd (y e) ]))
        | inr (u, y) ↦ rw (b, b', u) ((λ h. (inr (e', y), h)), (λ h. h.1))
      ]
    ]
  ]

  validate_times :
      (c : Config)
      → c.poll_interval <ℤ pos (2 ^ 62)
      → validate is_absolute c ≡ none
      → (pos 1 ≤ℤ c.capacity)
        × (pos 1 ≤ℤ c.poll_interval)
        × (c.poll_interval <ℤ c.inactivity_ttl)
        × (pos 2 *ℤ c.poll_interval ≤ℤ c.queue_ttl)
        × (validate_store is_absolute c ≡ none)
  unfolding validate
  validate_times c small h =
      let (w1, w2, w3, w4, rest) =
        ladder (ltb_ℤ c.capacity (pos 1)) (leb_ℤ c.poll_interval (pos 0))
          (leb_ℤ c.inactivity_ttl c.poll_interval)
          (ltb_ℤ c.queue_ttl (wrap (pos 2 *ℤ c.poll_interval))) _ _ _ _
          (validate_store is_absolute c) h in
      let p : pos 1 ≤ℤ c.poll_interval = ground (arith, w2) in
      let twice : wrap (pos 2 *ℤ c.poll_interval) ≡ pos 2 *ℤ c.poll_interval =
        ground (arith, p, small) in
      let q : ltb_ℤ c.queue_ttl (pos 2 *ℤ c.poll_interval) ≡ false =
        subst (λ t. ltb_ℤ c.queue_ttl t ≡ false) twice w4 in
      (ground (arith, w1), p, ground (arith, w3), ground (arith, q), rest)

  times-validate :
      (c : Config)
      → c.poll_interval <ℤ pos (2 ^ 62)
      → (pos 1 ≤ℤ c.capacity)
        × (pos 1 ≤ℤ c.poll_interval)
        × (c.poll_interval <ℤ c.inactivity_ttl)
        × (pos 2 *ℤ c.poll_interval ≤ℤ c.queue_ttl)
        × (validate_store is_absolute c ≡ none)
      → validate is_absolute c ≡ none
  unfolding validate
  times-validate c small (a, p, b, q, h) =
      let twice : wrap (pos 2 *ℤ c.poll_interval) ≡ pos 2 *ℤ c.poll_interval =
        ground (arith, p, small) in
      let w1 : ltb_ℤ c.capacity (pos 1) ≡ false = ground (arith, a) in
      let w2 : leb_ℤ c.poll_interval (pos 0) ≡ false = ground (arith, p) in
      let w3 : leb_ℤ c.inactivity_ttl c.poll_interval ≡ false = ground (arith, b) in
      let w4 : ltb_ℤ c.queue_ttl (pos 2 *ℤ c.poll_interval) ≡ false = ground (arith, q) in
      rw (w1, w2, w3, twice, w4) h

  pub validate_iff :
      (c : Config)
      → c.poll_interval <ℤ pos (2 ^ 62)
      → (validate is_absolute c ≡ none) ↔ IsValid is_absolute c
  validate_iff c small = (
    (λ h.
        (let (a, p, b, q, rest) = validate_times c small h in
          let (stored, page) = (validate_store_iff c).0 rest in
          let (spoken, probe) = (validate_page_iff c).0 page in
          record {
            capacity = a;
            polls = p;
            sessions = b;
            waiters = q;
            stored = stored;
            spoken = spoken;
            probed = validate_probe-IsSane c probe;
          })),
    (λ v. times-validate c small (
      v.capacity,
      v.polls,
      v.sessions,
      v.waiters,
      (validate_store_iff c).1
          (v.stored, (validate_page_iff c).1 (v.spoken, probe-validate c v.probed)),
    )),
  )

  -- What a start relies on, whatever the poll interval.
  pub validate-IsSane :
      (c : Config)
      → validate is_absolute c ≡ none
      → (pos 1 ≤ℤ c.capacity)
        × (supported_lang c.wait_lang ≡ true)
        × ((c.probe_url ≡ "") ⊎ IsSane (record { min = c.probe_min; max = c.probe_max }))
  unfolding validate
  validate-IsSane c h =
      let (a, p, b, q, rest) =
        ladder (ltb_ℤ c.capacity (pos 1)) (leb_ℤ c.poll_interval (pos 0))
          (leb_ℤ c.inactivity_ttl c.poll_interval)
          (ltb_ℤ c.queue_ttl (wrap (pos 2 *ℤ c.poll_interval))) bad_capacity bad_poll_interval
          bad_inactivity_ttl bad_queue_ttl (validate_store is_absolute c) h in
      let (stored, page) = (validate_store_iff c).0 rest in
      let (spoken, probe) = (validate_page_iff c).0 page in
      (
        ground (arith, a),
        spoken,
        elim (validate_probe-IsSane c probe) [ inl e ↦ inl e | inr (u, i, sane) ↦ inr sane ],
      )
