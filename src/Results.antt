-- ===== src/Results.antt =====
-- Go's `(T, error)`, and state passed through a chain of calls that the first error ends.
use gowait.Prelude.{◌≡◌, refl, ap, ◌⊎◌, inl, inr}

pub data Result {ℓ} (E A : Type ℓ) : Type ℓ where
  ok : A → Result E A
  error : E → Result E A

-- A method on a state `S`.
abbrev pub M : Type 0 → Type 0 → Type 0 → Type 0
M S E A = S → S × Result E A

infixl 5 ◌>>=◌ ◌>>◌
abbrev pub ◌>>=◌ : {S E A B : Type 0} → M S E A → (A → M S E B) → M S E B
◌>>=◌ m f s = elim (m s).1 [ ok a ↦ f a (m s).0 | error e ↦ ((m s).0, error e) ]

abbrev pub ◌>>◌ : {S E B : Type 0} → M S E (Unit {0}) → M S E B → M S E B
m >> k = m >>= λ _. k

abbrev pub pure : {S E A : Type 0} → A → M S E A
pure a s = (s, ok a)

abbrev pub fail : {S E A : Type 0} → E → M S E A
fail e s = (s, error e)

pub Result-cases :
    {E A : Type 0} (r : Result E A) → ((a : A) × (r ≡ ok a)) ⊎ ((e : E) × (r ≡ error e))
Result-cases (ok a) = inl (a, refl)
Result-cases (error e) = inr (e, refl)

-- A chain whose first call answers.
pub >>=-ok :
    {S E A B : Type 0} (m : M S E A) (f : A → M S E B) (s s' : S) (a : A)
    → m s ≡ (s', ok a)
    → (m >>= f) s ≡ f a s'
>>=-ok {S = S} {E = E} {A = A} {B = B} m f s s' a h =
    let step : S × Result E A → S × Result E B =
      λ r. elim r.1 [ ok b ↦ f b r.0 | error e ↦ (r.0, error e) ] in
    ap step h
