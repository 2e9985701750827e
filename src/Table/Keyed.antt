-- ===== src/Table/Keyed.antt =====
-- Tables with a primary key: a statement that fixes the key reaches at most one row.
use xingestionv.Prelude.{
  ℕ, ◌≡◌, refl, ap, Bool, true, none, some, List, [], ◌∷◌, arith, if◌then◌else◌, ◌==◌, ==_iff,
  Bool-cases, inl, inr,
}
use xingestionv.Table.{find, update, delete, count, insert}
use xingestionv.Table.Laws.{find-eq-none, count-none, find-insert, find-update}

-- No key stands in two rows.
abbrev pub Unique {ℓ} : {A : Type ℓ} → (A → ℕ) → List A → Type ℓ
Unique key [] = Unit
Unique key (r ∷ rs) = (find (λ a. key a == key r) rs ≡ none) × Unique key rs

module _ {ℓ} {A : Type ℓ} (key : A → ℕ) where
  find-other :
      (i j : ℕ) (p : A → Bool) (rs : List A)
      → find (λ a. key a == i) rs ≡ none
      → ((a : A) → p a ≡ true → key a ≡ j)
      → i ≡ j
      → find p rs ≡ none
  find-other i j p rs e k h = find-eq-none p (λ a. key a == i) rs e (λ a t. ground (arith, k a t))

  -- Under a test that fixes the key, the row with that key is the only candidate.
  pub find-keyed :
      (i : ℕ) (p : A → Bool) (rs : List A)
      → Unique key rs
      → ((a : A) → p a ≡ true → key a ≡ i)
      → find p rs
        ≡ elim (find (λ a. key a == i) rs) [ none ↦ none | some r ↦ if p r then some r else none ]
  unfolding find
  find-keyed i p [] u k = refl
  find-keyed i p (r ∷ rs) u k =
      ground (arith, k r, find-keyed i p rs u.1 k, find-other (key r) i p rs u.0 k)

  pub count-keyed :
      (i : ℕ) (p : A → Bool) (rs : List A)
      → Unique key rs
      → ((a : A) → p a ≡ true → key a ≡ i)
      → count p rs ≡ elim (find p rs) [ none ↦ 0 | some r ↦ 1 ]
  unfolding find count
  count-keyed i p [] u k = refl
  count-keyed i p (r ∷ rs) u k =
      ground
        (arith, k r, count-keyed i p rs u.1 k, count-none p rs, find-other (key r) i p rs u.0 k)

  pub update-Unique :
      (p : A → Bool) (f : A → A) (rs : List A)
      → ((a : A) → key (f a) ≡ key a)
      → Unique key rs
      → Unique key (update p f rs)
  unfolding update
  update-Unique p f [] h u = tt
  update-Unique p f (r ∷ rs) h u = ground (
    arith,
    h r,
    find-update (λ a. key a == key r) p f rs (λ a. ap (λ (k : ℕ). k == key r) (h a)),
    update-Unique p f rs h u.1,
  )

  pub insert-Unique :
      (a : A) (rs : List A)
      → find (λ r. key r == key a) rs ≡ none
      → Unique key rs
      → Unique key (insert a rs)
  unfolding insert find
  insert-Unique a [] h u = (refl, tt)
  insert-Unique a (r ∷ rs) h u =
      ground (arith, find-insert (λ b. key b == key r) a rs, insert-Unique a rs)

  -- The row that any test finds is the one with its key.
  pub find_self :
      (p : A → Bool) (rs : List A) (r : A)
      → Unique key rs
      → find p rs ≡ some r
      → find (λ a. key a == key r) rs ≡ some r
  unfolding find
  find_self p [] r u e = ground arith
  find_self p (a ∷ rs) r u e = elim (Bool-cases (p a)) [
    | inl y ↦ ground arith
    | inr n ↦
        let ih : find (λ b. key b == key r) rs ≡ some r = find_self p rs r u.1 (ground arith) in
        elim (Bool-cases (key a == key r)) [
          | inl same ↦
              let q : key a ≡ key r = (==_iff _ _).0 same in
              let clash : find (λ b. key b == key r) rs ≡ none = rw (← q) u.0 in ground arith
          | inr other ↦ rw other ih
        ]
  ]

  delete-none : (q p : A → Bool) (rs : List A) → find q rs ≡ none → find q (delete p rs) ≡ none
  unfolding find delete
  delete-none q p [] h = refl
  delete-none q p (r ∷ rs) h = ground (arith, delete-none q p rs)

  pub delete-keyed :
      (i : ℕ) (p : A → Bool) (rs : List A)
      → Unique key rs
      → find (λ a. key a == i) (delete p rs)
        ≡ elim (find (λ a. key a == i) rs) [ none ↦ none | some r ↦ if p r then none else some r ]
  unfolding find delete
  delete-keyed i p [] u = refl
  delete-keyed i p (r ∷ rs) u = elim (Bool-cases (key r == i)) [
    | inl y ↦
        let q : key r ≡ i = (==_iff _ _).0 y in
        let gone : find (λ a. key a == i) rs ≡ none = rw (← q) u.0 in
        ground (arith, delete-none (λ a. key a == i) p rs gone)
    | inr n ↦ ground (arith, delete-keyed i p rs u.1)
  ]

  pub delete-Unique : (p : A → Bool) (rs : List A) → Unique key rs → Unique key (delete p rs)
  unfolding delete
  delete-Unique p [] u = tt
  delete-Unique p (r ∷ rs) u = elim (Bool-cases (p r)) [
    | inl y ↦ rw y (delete-Unique p rs u.1)
    | inr n ↦ rw n (delete-none _ p rs u.0, delete-Unique p rs u.1)
  ]
