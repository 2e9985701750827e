-- ===== src/Results.antt =====
-- Statements about calls that may raise.
use xingestionv.Prelude.{◌≡◌, refl, subst, ◌⊎◌, inl, inr}
use xingestionv.Schema.{Failure, Result, ok, err, ◌>>=◌}

pub result_cases {ℓ} :
    {A : Type ℓ} (m : Result A) → ((e : Failure) × (m ≡ err e)) ⊎ ((a : A) × (m ≡ ok a))
result_cases (err e) = inl (e, refl)
result_cases (ok a) = inr (a, refl)

-- What the call returns, where it returns, satisfies `P`.
abbrev pub Ok {ℓ κ} : {A : Type ℓ} → (A → Type κ) → Result A → Type κ
Ok P (ok a) = P a
Ok P (err f) = Unit

module _ {ℓ} {A : Type ℓ} where
  pub Ok-bind {κ μ ν} :
      {B : Type κ} (P : A → Type μ) (Q : B → Type ν) (m : Result A) (f : A → Result B)
      → Ok P m
      → ((a : A) → P a → Ok Q (f a))
      → Ok Q (m >>= f)
  Ok-bind P Q (ok a) f h k = k a h
  Ok-bind P Q (err e) f h k = tt

  pub Ok_returned {κ} : (P : A → Type κ) (m : Result A) (a : A) → Ok P m → m ≡ ok a → P a
  Ok_returned P m a h e = let moved : Ok P (ok a) = subst (Ok P) e h in moved

  pub Ok-step {κ ν} :
      {B : Type κ} (Q : B → Type ν) (m : Result A) (f : A → Result B)
      → ((a : A) → m ≡ ok a → Ok Q (f a))
      → Ok Q (m >>= f)
  Ok-step Q (ok a) f k = k a refl
  Ok-step Q (err e) f k = tt

  pub Ok-returns {κ} : {P : A → Type κ} (m : Result A) → ((a : A) → m ≡ ok a → P a) → Ok P m
  Ok-returns (ok a) k = k a refl
  Ok-returns (err e) k = tt

  pub Ok-map {κ ν} :
      (P : A → Type κ) (Q : A → Type ν) (m : Result A) → ((a : A) → P a → Q a) → Ok P m → Ok Q m
  Ok-map P Q (ok a) k h = k a h
  Ok-map P Q (err e) k h = tt
