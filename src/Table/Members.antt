-- ===== src/Table/Members.antt =====
-- The rows of a table, and the operations that lose none of them.
use mathlib.Core.List.{Memᴰ}
use xingestionv.Prelude.{
  ℕ, zero, suc, ◌≤◌, ◌≡◌, refl, sym, ap, Bool, true, some, List, [], ◌∷◌, arith, inl, inr,
  Bool-cases,
}
use xingestionv.Table.{find, select, limit, place, order_by, count}

module _ {ℓ} {A : Type ℓ} where
  pub find-Memᴰ : (p : A → Bool) (xs : List A) (a : A) → find p xs ≡ some a → Memᴰ a xs
  unfolding find
  find-Memᴰ p [] a h = absurd (ground arith)
  find-Memᴰ p (x ∷ xs) a h = elim (Bool-cases (p x)) [
    | inl y ↦ Memᴰ.head (ground arith)
    | inr n ↦ Memᴰ.tail (find-Memᴰ p xs a (ground arith))
  ]

  pub select-Memᴰ :
      (p : A → Bool) (xs : List A) (a : A) → p a ≡ true → Memᴰ a xs → Memᴰ a (select p xs)
  unfolding select
  select-Memᴰ p [] a h m = elim m [ ]
  select-Memᴰ p (x ∷ xs) a h (Memᴰ.head e) = rw (sym e, h) (Memᴰ.head refl)
  select-Memᴰ p (x ∷ xs) a h (Memᴰ.tail m) = elim (Bool-cases (p x)) [
    | inl y ↦ rw y (Memᴰ.tail (select-Memᴰ p xs a h m))
    | inr n ↦ rw n (select-Memᴰ p xs a h m)
  ]

  place-Memᴰ : (before : A → A → Bool) (r : A) (xs : List A) → Memᴰ r (place before r xs)
  unfolding place
  place-Memᴰ before r [] = Memᴰ.head refl
  place-Memᴰ before r (x ∷ xs) = elim (Bool-cases (before r x)) [
    | inl y ↦ rw y (Memᴰ.head refl)
    | inr n ↦ rw n (Memᴰ.tail (place-Memᴰ before r xs))
  ]

  place_keeps :
      (before : A → A → Bool) (r : A) (xs : List A) (a : A) → Memᴰ a xs → Memᴰ a (place before r xs)
  unfolding place
  place_keeps before r [] a m = elim m [ ]
  place_keeps before r (x ∷ xs) a (Memᴰ.head e) = elim (Bool-cases (before r x)) [
    | inl y ↦ rw y (Memᴰ.tail (Memᴰ.head e))
    | inr n ↦ rw n (Memᴰ.head e)
  ]
  place_keeps before r (x ∷ xs) a (Memᴰ.tail m) = elim (Bool-cases (before r x)) [
    | inl y ↦ rw y (Memᴰ.tail (Memᴰ.tail m))
    | inr n ↦ rw n (Memᴰ.tail (place_keeps before r xs a m))
  ]

  pub order_by-Memᴰ :
      (before : A → A → Bool) (xs : List A) (a : A) → Memᴰ a xs → Memᴰ a (order_by before xs)
  unfolding order_by
  order_by-Memᴰ before [] a m = elim m [ ]
  order_by-Memᴰ before (x ∷ xs) a (Memᴰ.head e) = rw e (place-Memᴰ before x (order_by before xs))
  order_by-Memᴰ before (x ∷ xs) a (Memᴰ.tail m) =
      place_keeps before x (order_by before xs) a (order_by-Memᴰ before xs a m)

  pub limit_all : (n : ℕ) (xs : List A) → count (λ x. true) xs ≤ n → limit n xs ≡ xs
  unfolding limit count
  limit_all zero [] h = refl
  limit_all zero (x ∷ xs) h = absurd (omega (arith, h))
  limit_all (suc n) [] h = refl
  limit_all (suc n) (x ∷ xs) h = ap (λ r. x ∷ r) (limit_all n xs (omega (arith, h)))

  place-count :
      (before : A → A → Bool) (p : A → Bool) (r : A) (xs : List A)
      → count p (place before r xs) ≡ count p (r ∷ xs)
  unfolding place count
  place-count before p r [] = refl
  place-count before p r (x ∷ xs) = ground (arith, place-count before p r xs)

  pub order_by-count :
      (before : A → A → Bool) (p : A → Bool) (xs : List A)
      → count p (order_by before xs) ≡ count p xs
  unfolding order_by count
  order_by-count before p [] = refl
  order_by-count before p (x ∷ xs) =
      ground (arith, place-count before p x (order_by before xs), order_by-count before p xs)
