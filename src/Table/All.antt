-- ===== src/Table/All.antt =====
-- A predicate that holds of every row, and the operations that keep it.
use xingestionv.Prelude.{
  ℕ, zero, suc, ◌≡◌, Bool, none, some, List, [], ◌∷◌, arith, ◌==◌, ==_iff, Bool-cases, inl, inr,
}
use xingestionv.Table.{find, select, insert, limit, place, order_by}
use xingestionv.Table.Keyed.{Unique}

abbrev pub All {ℓ κ} : {A : Type ℓ} → (A → Type κ) → List A → Type κ
All P [] = Unit
All P (x ∷ xs) = P x × All P xs

module _ {ℓ κ} {A : Type ℓ} (P : A → Type κ) where
  pub All-map {μ} : (Q : A → Type μ) (xs : List A) → ((x : A) → P x → Q x) → All P xs → All Q xs
  All-map Q [] f h = tt
  All-map Q (x ∷ xs) f h = (f x h.0, All-map Q xs f h.1)

  pub select-All : (p : A → Bool) (xs : List A) → All P xs → All P (select p xs)
  unfolding select
  select-All p [] h = tt
  select-All p (x ∷ xs) h = elim (Bool-cases (p x)) [
    | inl y ↦ rw y (h.0, select-All p xs h.1)
    | inr n ↦ rw n (select-All p xs h.1)
  ]

  pub insert-All : (a : A) (xs : List A) → P a → All P xs → All P (insert a xs)
  unfolding insert
  insert-All a [] h k = (h, tt)
  insert-All a (x ∷ xs) h k = (k.0, insert-All a xs h k.1)

  pub limit-All : (n : ℕ) (xs : List A) → All P xs → All P (limit n xs)
  unfolding limit
  limit-All zero xs h = tt
  limit-All (suc n) [] h = tt
  limit-All (suc n) (x ∷ xs) h = (h.0, limit-All n xs h.1)

  place-All :
      (before : A → A → Bool) (a : A) (xs : List A) → P a → All P xs → All P (place before a xs)
  unfolding place
  place-All before a [] ha h = (ha, tt)
  place-All before a (x ∷ xs) ha h = elim (Bool-cases (before a x)) [
    | inl y ↦ rw y (ha, (h.0, h.1))
    | inr n ↦ rw n (h.0, place-All before a xs ha h.1)
  ]

  pub order_by-All : (before : A → A → Bool) (xs : List A) → All P xs → All P (order_by before xs)
  unfolding order_by
  order_by-All before [] h = tt
  order_by-All before (x ∷ xs) h =
      place-All before x (order_by before xs) h.0 (order_by-All before xs h.1)

module _ {ℓ} {A : Type ℓ} (key : A → ℕ) where
  later :
      (r x : A) (rs : List A)
      → find (λ a. key a == key r) rs ≡ none
      → find (λ a. key a == key x) rs ≡ some x
      → find (λ a. key a == key x) (r ∷ rs) ≡ some x
  unfolding find
  later r x rs e h = elim (Bool-cases (key r == key x)) [
    | inl same ↦
        let q : key r ≡ key x = (==_iff _ _).0 same in
        let clash : find (λ a. key a == key x) rs ≡ none = rw (← q) e in ground arith
    | inr other ↦ rw other h
  ]

  first : (r : A) (rs : List A) → find (λ a. key a == key r) (r ∷ rs) ≡ some r
  unfolding find
  first r rs = ground arith

  -- Every row of a table with a primary key is found by its key.
  pub Unique-All :
      (rs : List A) → Unique key rs → All (λ r. find (λ a. key a == key r) rs ≡ some r) rs
  Unique-All [] u = tt
  Unique-All (r ∷ rs) u = (
    first r rs,
    All-map (λ x. find (λ a. key a == key x) rs ≡ some x) _ rs (λ x. later r x rs u.0)
        (Unique-All rs u.1),
  )
