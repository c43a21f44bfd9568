-- ===== src/Sql/Table.antt =====
-- Statements on one table, a list of rows in no particular order.
pub mod Laws
pub mod Distinct
pub mod Order
use stream_analysis_tools.Base.{
  ℕ, zero, suc, ◌+◌, Bool, true, false, List, [], ◌∷◌, ◌++◌, Option, none, some, is_none, ◌&&◌,
  if◌then◌else◌,
}

module _ {ℓ} {A : Type ℓ} where
  -- SELECT … WHERE id = …, of which at most one row is expected
  unfoldable pub find : (A → Bool) → List A → Option A
  find test [] = none
  find test (x ∷ xs) = if test x then some x else find test xs

  -- SELECT … WHERE …
  unfoldable pub filter : (A → Bool) → List A → List A
  filter test [] = []
  filter test (x ∷ xs) = let rest = filter test xs in if test x then x ∷ rest else rest

  -- SELECT count(*) … WHERE …, and the rows that an UPDATE with this condition affects
  unfoldable pub count : (A → Bool) → List A → ℕ
  count test [] = 0
  count test (x ∷ xs) = let rest = count test xs in if test x then suc rest else rest

  -- UPDATE … SET … WHERE …
  unfoldable pub update : (A → Bool) → (A → A) → List A → List A
  update test f [] = []
  update test f (x ∷ xs) = (if test x then f x else x) ∷ update test f xs

  -- No two rows are the same for a unique index.
  unfoldable pub is_distinct : (A → A → Bool) → List A → Bool
  unfolding find
  is_distinct same [] = true
  is_distinct same (x ∷ xs) = is_none (find (same x) xs) && is_distinct same xs

  -- The earlier of a row and the best row of the rest.
  unfoldable pub earlier : (A → A → Bool) → A → Option A → Option A
  earlier before x none = some x
  earlier before x (some y) = if before y x then some y else some x

  -- SELECT … WHERE … ORDER BY … LIMIT 1
  unfoldable pub first_by : (A → A → Bool) → (A → Bool) → List A → Option A
  unfolding earlier
  first_by before test [] = none
  first_by before test (x ∷ xs) =
      let rest = first_by before test xs in if test x then earlier before x rest else rest

  unfoldable pub insert_by : (A → A → Bool) → A → List A → List A
  insert_by before x [] = x ∷ []
  insert_by before x (y ∷ ys) = if before y x then y ∷ insert_by before x ys else x ∷ y ∷ ys

  -- SELECT … ORDER BY …
  unfoldable pub order_by : (A → A → Bool) → List A → List A
  unfolding insert_by
  order_by before [] = []
  order_by before (x ∷ xs) = insert_by before x (order_by before xs)
