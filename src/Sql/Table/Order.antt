-- ===== src/Sql/Table/Order.antt =====
-- Ordered queries on rows of which no two stand level: the answer is in strict order, and a condition
-- may be tested before or after the sorting.
use stream_analysis_tools.Base.{
  ◌≡◌, refl, sym, ap, ◌∙◌, ◌⊎◌, inl, inr, Bool, true, false, List, [], ◌∷◌, arith, All, Bool-cases,
  ◌&&◌, if◌then◌else◌,
}
use stream_analysis_tools.Sql.Table.{filter, insert_by, order_by}

module _ {ℓ κ} {A : Type ℓ} (P : A → Type κ) where
  pub All-filter : (test : A → Bool) (xs : List A) → All P xs → All P (filter test xs)
  unfolding filter
  All-filter test [] h = tt
  All-filter test (x ∷ xs) h = elim (Bool-cases (test x)) [
    | inl hit ↦ rw hit (h.0, All-filter test xs h.1)
    | inr miss ↦ rw miss (All-filter test xs h.1)
  ]

  pub All-insert_by :
      (before : A → A → Bool) (x : A) (xs : List A) → P x → All P xs → All P (insert_by before x xs)
  unfolding insert_by
  All-insert_by before x [] p h = (p, tt)
  All-insert_by before x (y ∷ ys) p h = elim (Bool-cases (before y x)) [
    | inl hit ↦ rw hit (h.0, All-insert_by before x ys p h.1)
    | inr miss ↦ rw miss (p, h)
  ]

  pub All-order_by : (before : A → A → Bool) (xs : List A) → All P xs → All P (order_by before xs)
  unfolding order_by
  All-order_by before [] h = tt
  All-order_by before (x ∷ xs) h =
      All-insert_by before x (order_by before xs) h.0 (All-order_by before xs h.1)

module _ {ℓ} {A : Type ℓ} (before : A → A → Bool) where
  abbrev pub Strict : List A → Type 0
  Strict [] = Unit
  Strict (x ∷ xs) = All (λ y. before x y ≡ true) xs × Strict xs

  -- Of any two rows one stands before the other.
  abbrev pub Apart : List A → Type 0
  Apart [] = Unit
  Apart (x ∷ xs) = All (λ y. (before x y ≡ true) ⊎ (before y x ≡ true)) xs × Apart xs

  pub filter-Apart : (test : A → Bool) (xs : List A) → Apart xs → Apart (filter test xs)
  unfolding filter
  filter-Apart test [] h = tt
  filter-Apart test (x ∷ xs) h = elim (Bool-cases (test x)) [
    | inl hit ↦ rw hit (All-filter _ test xs h.0, filter-Apart test xs h.1)
    | inr miss ↦ rw miss (filter-Apart test xs h.1)
  ]

  module _ (asym : (a b : A) → before a b ≡ true → before b a ≡ false)
      (chain : (a b c : A) → before a b ≡ true → before b c ≡ true → before a c ≡ true) where
    beyond :
        (x y : A) (ys : List A)
        → before x y ≡ true
        → All (λ z. before y z ≡ true) ys
        → All (λ z. before x z ≡ true) ys
    beyond x y [] e h = tt
    beyond x y (z ∷ zs) e h = (chain x y z e h.0, beyond x y zs e h.1)

    either :
        {x y : A}
        → (before x y ≡ true) ⊎ (before y x ≡ true)
        → before y x ≡ false
        → before x y ≡ true
    either (inl l) e = l
    either (inr r) e = absurd (cc)

    insert_by-Strict :
        (x : A) (ys : List A)
        → All (λ y. (before x y ≡ true) ⊎ (before y x ≡ true)) ys
        → Strict ys
        → Strict (insert_by before x ys)
    unfolding insert_by
    insert_by-Strict x [] a h = (tt, tt)
    insert_by-Strict x (y ∷ ys) a h = elim (Bool-cases (before y x)) [
      | inl e ↦ rw e (All-insert_by _ before x ys e h.0, insert_by-Strict x ys a.1 h.1)
      | inr e ↦
          let first : before x y ≡ true = either a.0 e in rw e ((first, beyond x y ys first h.0), h)
    ]

    pub order_by-Strict : (xs : List A) → Apart xs → Strict (order_by before xs)
    unfolding order_by
    order_by-Strict [] h = tt
    order_by-Strict (x ∷ xs) h =
        insert_by-Strict x (order_by before xs) (All-order_by _ before xs h.0)
          (order_by-Strict xs h.1)

    insert-front :
        (x : A) (ys : List A) → All (λ y. before x y ≡ true) ys → insert_by before x ys ≡ x ∷ ys
    unfolding insert_by
    insert-front x [] h = refl
    insert-front x (y ∷ ys) h = rw (asym x y h.0) refl

    filter-insert_by :
        (test : A → Bool) (x : A) (ys : List A)
        → All (λ y. (before x y ≡ true) ⊎ (before y x ≡ true)) ys
        → Strict ys
        → filter test (insert_by before x ys)
          ≡ (if test x then insert_by before x (filter test ys) else filter test ys)
    unfolding filter insert_by
    filter-insert_by test x [] a h = refl
    filter-insert_by test x (y ∷ ys) a h = elim (Bool-cases (before y x)) [
      | inl e ↦ rw e (
          behind (filter-insert_by test x ys a.1 h.1) e (Bool-cases (test x)) (Bool-cases (test y)))
      | inr e ↦
          let first : before x y ≡ true = either a.0 e in
          rw e (
            ahead
              (insert-front x (filter test (y ∷ ys))
                (All-filter _ test (y ∷ ys) (first, beyond x y ys first h.0)))
              (Bool-cases (test x)))
    ]
      where
        ahead :
            insert_by before x (filter test (y ∷ ys)) ≡ x ∷ filter test (y ∷ ys)
            → ((test x ≡ true) ⊎ (test x ≡ false))
            → filter test (x ∷ y ∷ ys)
              ≡ (if test x then insert_by before x (filter test (y ∷ ys)) else filter test (y ∷ ys))
        ahead front (inl t) = rw t (sym front)
        ahead front (inr t) = rw t refl

        behind :
            filter test (insert_by before x ys)
              ≡ (if test x then insert_by before x (filter test ys) else filter test ys)
            → before y x ≡ true
            → ((test x ≡ true) ⊎ (test x ≡ false))
            → ((test y ≡ true) ⊎ (test y ≡ false))
            → filter test (y ∷ insert_by before x ys)
              ≡ (if test x then insert_by before x (filter test (y ∷ ys)) else filter test (y ∷ ys))
        behind ih e p q = ground arith

    -- A condition may be tested before the sorting or after it.
    pub filter-order_by :
        (test : A → Bool) (xs : List A)
        → Apart xs
        → filter test (order_by before xs) ≡ order_by before (filter test xs)
    unfolding filter order_by
    filter-order_by test [] h = refl
    filter-order_by test (x ∷ xs) h =
        filter-insert_by test x (order_by before xs) (All-order_by _ before xs h.0)
          (order_by-Strict xs h.1)
        ∙ tested (filter-order_by test xs h.1) (Bool-cases (test x))
      where
        tested :
            filter test (order_by before xs) ≡ order_by before (filter test xs)
            → ((test x ≡ true) ⊎ (test x ≡ false))
            → (if test x
                then insert_by before x (filter test (order_by before xs))
                else filter test (order_by before xs))
              ≡ order_by before (filter test (x ∷ xs))
        tested ih (inl t) = rw t (ap (insert_by before x) ih)
        tested ih (inr t) = rw t ih

pub filter-both {ℓ} :
    {A : Type ℓ} (p q : A → Bool) (xs : List A)
    → filter (λ x. p x && q x) xs ≡ filter q (filter p xs)
unfolding filter
filter-both p q [] = refl
filter-both p q (x ∷ xs) = ground (arith, filter-both p q xs)

pub All-tested {ℓ} :
    {A : Type ℓ} (test : A → Bool) (xs : List A) → All (λ x. test x ≡ true) (filter test xs)
unfolding filter
All-tested test [] = tt
All-tested test (x ∷ xs) = elim (Bool-cases (test x)) [
  | inl hit ↦ rw hit (hit, All-tested test xs)
  | inr miss ↦ rw miss (All-tested test xs)
]

-- A condition that implies another makes the other one needless.
pub filter-narrow {ℓ} :
    {A : Type ℓ} (p q : A → Bool) (xs : List A)
    → ((x : A) → q x ≡ true → p x ≡ true)
    → filter q (filter p xs) ≡ filter q xs
unfolding filter
filter-narrow p q [] h = refl
filter-narrow p q (x ∷ xs) h = ground (arith, h x, filter-narrow p q xs h)
