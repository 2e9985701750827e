-- ===== src/Table/Laws.antt =====
-- Laws of the table operations. The tests that a statement leaves alone are given as hypotheses.
use xingestionv.Prelude.{
  suc, ◌≤◌, ◌<◌, ◌≡◌, refl, ap, Bool, true, false, ◌&&◌, none, some, List, [], ◌∷◌, arith,
  if◌then◌else◌,
}
use mathlib.Core.Option
use xingestionv.Table.{find, select, update, delete, count, insert}

module _ {ℓ} {A : Type ℓ} where
  pub find-insert :
      (p : A → Bool) (a : A) (rs : List A)
      → find p (insert a rs)
        ≡ elim (find p rs) [ none ↦ if p a then some a else none | some r ↦ some r ]
  unfolding find insert
  find-insert p a [] = ground arith
  find-insert p a (r ∷ rs) = ground (arith, find-insert p a rs)

  -- An update that leaves the test `q` alone acts on the row that `q` finds.
  pub find-update :
      (q p : A → Bool) (f : A → A) (rs : List A)
      → ((a : A) → q (f a) ≡ q a)
      → find q (update p f rs) ≡ Option.map (λ r. if p r then f r else r) (find q rs)
  unfolding find update
  find-update q p f [] h = refl
  find-update q p f (r ∷ rs) h = ground (arith, h r, find-update q p f rs h)

  pub find-IsTrue : (p : A → Bool) (rs : List A) (r : A) → find p rs ≡ some r → p r ≡ true
  unfolding find
  find-IsTrue p [] r e = ground arith
  find-IsTrue p (a ∷ rs) r e = ground (arith, find-IsTrue p rs r)

  -- A stronger test finds the same row, where the row passes it.
  pub find-and :
      (p q : A → Bool) (rs : List A) (r : A)
      → find q rs ≡ some r
      → p r ≡ true
      → ((a : A) → p a ≡ true → q a ≡ true)
      → find p rs ≡ some r
  unfolding find
  find-and p q [] r e h k = ground arith
  find-and p q (a ∷ rs) r e h k = ground (arith, k a, find-and p q rs r)

  pub update-none : (p : A → Bool) (f : A → A) (rs : List A) → find p rs ≡ none → update p f rs ≡ rs
  unfolding find update
  update-none p f [] h = refl
  update-none p f (r ∷ rs) h = ground (arith, update-none p f rs)

  pub count-none : (p : A → Bool) (rs : List A) → find p rs ≡ none → count p rs ≡ 0
  unfolding find count
  count-none p [] h = refl
  count-none p (r ∷ rs) h = ground (arith, count-none p rs)

  pub find-eq-none :
      (p q : A → Bool) (rs : List A)
      → find q rs ≡ none
      → ((a : A) → p a ≡ true → q a ≡ true)
      → find p rs ≡ none
  unfolding find
  find-eq-none p q [] e k = refl
  find-eq-none p q (a ∷ rs) e k = ground (arith, k a, find-eq-none p q rs)

  pub update-never : (f : A → A) (rs : List A) → update (λ r. false) f rs ≡ rs
  unfolding update
  update-never f [] = refl
  update-never f (r ∷ rs) = ap (λ (t : List A). r ∷ t) (update-never f rs)

  -- Where the deleting test has one value on all rows that `q` accepts.
  pub find-delete :
      (q p : A → Bool) (b : Bool) (rs : List A)
      → ((a : A) → q a ≡ true → p a ≡ b)
      → find q (delete p rs) ≡ (if b then none else find q rs)
  unfolding find delete
  find-delete q p b [] h = ground arith
  find-delete q p b (r ∷ rs) h = ground (arith, h r, find-delete q p b rs h)

  pub count-insert :
      (p : A → Bool) (a : A) (rs : List A)
      → count p (insert a rs) ≡ (if p a then suc (count p rs) else count p rs)
  unfolding count insert
  count-insert p a [] = refl
  count-insert p a (r ∷ rs) = ground (arith, count-insert p a rs)

  pub count-delete_le : (p q : A → Bool) (rs : List A) → count p (delete q rs) ≤ count p rs
  unfolding count delete
  count-delete_le p q [] = omega arith
  count-delete_le p q (r ∷ rs) = ground (arith, count-delete_le p q rs)

  pub count_mono :
      (p q : A → Bool) (rs : List A) → ((a : A) → p a ≡ true → q a ≡ true) → count p rs ≤ count q rs
  unfolding count
  count_mono p q [] h = omega arith
  count_mono p q (r ∷ rs) h = ground (arith, h r, count_mono p q rs h)

  -- A statement that reaches no row of those that `q` selects.
  pub select-update_other :
      (q p : A → Bool) (f : A → A) (rs : List A)
      → ((a : A) → q (f a) ≡ q a)
      → find (λ a. p a && q a) rs ≡ none
      → select q (update p f rs) ≡ select q rs
  unfolding select update find
  select-update_other q p f [] h e = refl
  select-update_other q p f (r ∷ rs) h e = ground (arith, h r, select-update_other q p f rs h)

  pub select-delete_other :
      (q p : A → Bool) (rs : List A)
      → find (λ a. p a && q a) rs ≡ none
      → select q (delete p rs) ≡ select q rs
  unfolding select delete find
  select-delete_other q p [] e = refl
  select-delete_other q p (r ∷ rs) e = ground (arith, select-delete_other q p rs)

  pub select-insert_other :
      (q : A → Bool) (a : A) (rs : List A) → q a ≡ false → select q (insert a rs) ≡ select q rs
  unfolding select insert
  select-insert_other q a [] h = ground arith
  select-insert_other q a (r ∷ rs) h = ground (arith, select-insert_other q a rs h)

  pub count-select : (q : A → Bool) (rs : List A) → count q rs ≡ count (λ a. true) (select q rs)
  unfolding count select
  count-select q [] = refl
  count-select q (r ∷ rs) = ground (arith, count-select q rs)

  -- A DELETE that reaches a row which `q` accepts makes their number smaller.
  pub count-delete_lt :
      (q p : A → Bool) (rs : List A) (r : A)
      → find (λ a. p a && q a) rs ≡ some r
      → count q (delete p rs) < count q rs
  unfolding count delete find
  count-delete_lt q p [] r e = absurd (ground arith)
  count-delete_lt q p (a ∷ rs) r e =
      ground (arith, count-delete_lt q p rs r, count-delete_le q p rs)
