-- ===== src/Table.antt =====
-- Tables of the database as lists of rows, and the SQL statements of the sources over them: a
-- statement's WHERE clause is a test on a row, and its SET clause a function on a row.
pub mod Laws
pub mod Keyed
pub mod All
pub mod Members
use xingestionv.Prelude.{
  ℕ, zero, suc, ◌+◌, Bool, true, false, not, Option, none, some, List, [], ◌∷◌, if◌then◌else◌,
}
use mathlib.Core.Option

module _ {ℓ} {A : Type ℓ} where
  -- SELECT ... WHERE p: the first row.
  unfoldable pub find : (A → Bool) → List A → Option A
  find p [] = none
  find p (r ∷ rs) = if p r then some r else find p rs

  -- SELECT ... WHERE p: every row.
  unfoldable pub select : (A → Bool) → List A → List A
  select p [] = []
  select p (r ∷ rs) = let rest = select p rs in if p r then r ∷ rest else rest

  -- UPDATE ... SET f WHERE p
  unfoldable pub update : (A → Bool) → (A → A) → List A → List A
  update p f [] = []
  update p f (r ∷ rs) = (if p r then f r else r) ∷ update p f rs

  -- DELETE ... WHERE p
  unfoldable pub delete : (A → Bool) → List A → List A
  delete p [] = []
  delete p (r ∷ rs) = let rest = delete p rs in if p r then rest else r ∷ rest

  -- SELECT COUNT(*) ... WHERE p, also the number in a command's status, "UPDATE n".
  unfoldable pub count : (A → Bool) → List A → ℕ
  count p [] = 0
  count p (r ∷ rs) = if p r then suc (count p rs) else count p rs

  -- The number of entries.
  abbrev pub total : List A → ℕ
  unfolding count
  total rs = count (λ r. Bool.true) rs

  -- INSERT: the row goes to the end.
  unfoldable pub insert : A → List A → List A
  insert a [] = a ∷ []
  insert a (r ∷ rs) = r ∷ insert a rs

  -- UPDATE ... SET f WHERE p RETURNING, read by `fetchrow`: the first updated row.
  abbrev pub returning : (A → Bool) → (A → A) → List A → Option A
  returning p f rs = Option.map f (find p rs)

  -- LIMIT n
  unfoldable pub limit : ℕ → List A → List A
  limit zero rs = []
  limit (suc n) [] = []
  limit (suc n) (r ∷ rs) = r ∷ limit n rs

  -- ORDER BY, over a test that tells whether the first row comes before the second.
  unfoldable pub place : (A → A → Bool) → A → List A → List A
  place before a [] = a ∷ []
  place before a (r ∷ rs) =
      let rest = place before a rs in if before a r then a ∷ r ∷ rs else r ∷ rest

  unfoldable pub order_by : (A → A → Bool) → List A → List A
  unfolding place
  order_by before [] = []
  order_by before (r ∷ rs) = place before r (order_by before rs)
