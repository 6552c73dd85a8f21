-- ===== src/Main/Exit.antt =====
-- main of cmd/gowait/main.go, and the end of run: what ends the server, and the exit code.
use gowait.Prelude.{
  ℕ, ◌≡◌, ◌↔◌, ◌⊎◌, refl, sym, ap, subst, ◌∙◌, inl, inr, String, Bool, false, Option, none, some,
  List, [], ◌∷◌, str_eq, if◌then◌else◌, arith, Option-cases,
}
use gowait.Results.{Result, ok, error, Result-cases}
use gowait.Clock.{Floats}
use gowait.Ticket.{Bytes}
use gowait.Waitpage.{Templates}
use gowait.Proxy.{HttpUtil}
use gowait.Config.Flags.{Environment}
use gowait.Main.{Process, StartError, run}

-- An error of Shutdown: that of the context's deadline, or another.
pub data ShutdownError (X : Type 0) : Type 0 where
  deadline_exceeded : ShutdownError X
  other : X → ShutdownError X

-- What the select of run receives: the error of ListenAndServe, or a signal, and then what Shutdown answers.
pub data Ending (X : Type 0) : Type 0 where
  failed : X → Ending X
  interrupted : Option (ShutdownError X) → Ending X

-- The error that run returns; `none` is nil.
unfoldable pub finish : {X : Type 0} → Ending X → Option X
finish (failed x) = some x
finish (interrupted none) = none
finish (interrupted (some deadline_exceeded)) = none
finish (interrupted (some (other x))) = some x

pub data Exit : Type 0 where
  printed_version : Exit
  exited : ℕ → Exit

-- len(os.Args) > 1 && os.Args[1] == "-version"
unfoldable pub asks_version : List String → Bool
asks_version [] = false
asks_version (s ∷ rest) = str_eq s "-version"

module _ {F DB R H T X : Type 0} (fl : Floats F) (connect : String → String → Option DB)
    (u : HttpUtil R H) (ts : Templates T Bytes) (is_absolute : String → Bool) (env : Environment)
    (rand : ℕ → Option Bytes) (ending : Process F DB R H → Ending X) where
  -- `ending` is how the server of a process ends.
  unfoldable pub run_to_end : List String → ℕ
  unfolding run finish
  run_to_end args = elim (run fl connect u ts is_absolute env rand args) [
    | error e ↦ 1
    | ok p ↦ elim (finish (ending p)) [ none ↦ 0 | some x ↦ 1 ]
  ]

  -- main, from the arguments after the program's name.
  unfoldable pub main : List String → Exit
  unfolding asks_version run_to_end
  main args = if asks_version args then printed_version else exited (run_to_end args)

  -- A signal ended the server, and Shutdown was done or out of time.
  abbrev pub IsOrderly : Process F DB R H → Type 0
  IsOrderly p = (ending p ≡ interrupted none) ⊎ (ending p ≡ interrupted (some deadline_exceeded))

  finish-IsOrderly : (p : Process F DB R H) → (finish (ending p) ≡ none) ↔ IsOrderly p
  unfolding finish
  finish-IsOrderly p = orderly (ending p)
    where
      orderly :
          (e : Ending X)
          → (finish e ≡ none)
            ↔ ((e ≡ interrupted none) ⊎ (e ≡ interrupted (some deadline_exceeded)))
      orderly (failed x) = ((λ h. cc), (λ h. elim h [ inl g ↦ cc | inr g ↦ cc ]))
      orderly (interrupted none) = ((λ h. inl refl), (λ h. refl))
      orderly (interrupted (some deadline_exceeded)) = ((λ h. inr refl), (λ h. refl))
      orderly (interrupted (some (other x))) =
          ((λ h. cc), (λ h. elim h [ inl g ↦ cc | inr g ↦ cc ]))

  broken :
      (p q : Process F DB R H) (x : X)
      → finish (ending p) ≡ some x
      → ◌≡◌ {A = Result StartError (Process F DB R H)} (ok p) (ok q)
      → IsOrderly q
      → ⊥
  broken p q x f g o =
      let same : p ≡ q = cc in
      let done : finish (ending p) ≡ none =
        subst (λ r. finish (ending r) ≡ none) (sym same) ((finish-IsOrderly q).1 o) in
      let clash : some x ≡ none = sym f ∙ done in cc

  run_to_end_iff :
      (args : List String)
      → (run_to_end args ≡ 0) ↔ (
          (p : Process F DB R H) × (run fl connect u ts is_absolute env rand args ≡ ok p)
          × IsOrderly p)
  unfolding run_to_end
  run_to_end_iff args = elim (Result-cases (run fl connect u ts is_absolute env rand args)) [
    | inr (e, h) ↦ rw (h, run_to_end) ((λ z. absurd (ground (arith, z))), (λ w. let g = w.1 in cc))
    | inl (p, h) ↦ elim (Option-cases (finish (ending p))) [
      | inl f ↦ rw (h, f, run_to_end) ((λ z. (p, refl, (finish-IsOrderly p).0 f)), (λ z. refl))
      | inr (x, f) ↦
          rw (h, f, run_to_end)
            ((λ z. absurd (ground (arith, z))), (λ (q, g, o). absurd (broken p q x f g o)))
    ]
  ]

  -- The exit code is 0 exactly where a process starts and ends in order.
  pub main_exits :
      (args : List String)
      → asks_version args ≡ false
      → (main args ≡ exited 0) ↔ (
          (p : Process F DB R H) × (run fl connect u ts is_absolute env rand args ≡ ok p)
          × IsOrderly p)
  unfolding main
  main_exits args no_version =
      let (there, back) = run_to_end_iff args in
      rw (no_version, main) ((λ h. there (code h)), (λ w. ap exited (back w)))
    where
      code : {n : ℕ} → exited n ≡ exited 0 → n ≡ 0
      code h = cc
