-- ===== src/Sql/Table/Distinct.antt =====
-- Unique constraints: no two rows of a table conflict.
use stream_analysis_tools.Base.{
  ◌≡◌, sym, subst, ◌⊎◌, inl, inr, Bool, true, false, List, [], ◌∷◌, none, some, arith, All,
  Bool-cases,
}
use stream_analysis_tools.Sql.Table.{find, update, first_by}
use stream_analysis_tools.Sql.Table.Laws.{first_by-cons, All-first_by, All-find}

module _ {ℓ} {A : Type ℓ} (conflict : A → A → Bool) where
  -- Each row conflicts with none of the rows behind it.
  abbrev pub Distinct : List A → Type 0
  Distinct [] = Unit
  Distinct (x ∷ xs) = All (λ y. conflict x y ≡ false) xs × Distinct xs

  -- A row for which the table has no conflicting row can be added.
  pub find-none :
      (test : A → Bool) (xs : List A) → find test xs ≡ none → All (λ y. test y ≡ false) xs
  unfolding find
  find-none test [] h = tt
  find-none test (x ∷ xs) h = elim (Bool-cases (test x)) [
    | inl hit ↦ absurd (ground arith)
    | inr miss ↦ (miss, find-none test xs (rw miss at h))
  ]

  module _ {κ} (P : A → Type κ) (test : A → Bool) (f : A → A)
      (left : (x y : A) → P x → test x ≡ true → conflict x y ≡ false → conflict (f x) y ≡ false)
      (right : (x y : A)
        → P x
        → test x ≡ true
        → conflict y x ≡ false
        → conflict y (f x) ≡ false) where
    update-against :
        (z : A) (xs : List A)
        → All P xs
        → All (λ y. conflict z y ≡ false) xs
        → All (λ y. conflict z y ≡ false) (update test f xs)
    unfolding update
    update-against z [] p h = tt
    update-against z (x ∷ xs) p h = elim (Bool-cases (test x)) [
      | inl hit ↦ rw hit (right x z p.0 hit h.0, update-against z xs p.1 h.1)
      | inr miss ↦ rw miss (h.0, update-against z xs p.1 h.1)
    ]

    left-all :
        (x : A) (ys : List A)
        → P x
        → test x ≡ true
        → All (λ y. conflict x y ≡ false) ys
        → All (λ y. conflict (f x) y ≡ false) ys
    left-all x [] p hit h = tt
    left-all x (y ∷ ys) p hit h = (left x y p hit h.0, left-all x ys p hit h.1)

    -- An update that makes no new conflicts keeps a table free of them.
    pub update-Distinct : (xs : List A) → All P xs → Distinct xs → Distinct (update test f xs)
    unfolding update
    update-Distinct [] p h = tt
    update-Distinct (x ∷ xs) p h = elim (Bool-cases (test x)) [
      | inl hit ↦
          rw hit
            (update-against (f x) xs p.1 (left-all x xs p.0 hit h.0), update-Distinct xs p.1 h.1)
      | inr miss ↦ rw miss (update-against x xs p.1 h.0, update-Distinct xs p.1 h.1)
    ]

  -- All rows but `x` itself are clear of `x`.
  abbrev pub Only : A → List A → Type ℓ
  Only x = All (λ y. (conflict x y ≡ false) ⊎ (y ≡ x))

  clear-Only : (x : A) (ys : List A) → All (λ y. conflict x y ≡ false) ys → Only x ys
  clear-Only x [] h = tt
  clear-Only x (y ∷ ys) h = (inl h.0, clear-Only x ys h.1)

  module _ (symmetric : (x y : A) → conflict x y ≡ false → conflict y x ≡ false) where
    -- The row that a query finds is the only one that conflicts with it.
    pub first_by-Only :
        (before : A → A → Bool) (test : A → Bool) (xs : List A) (x : A)
        → first_by before test xs ≡ some x
        → Distinct xs
        → Only x xs
    unfolding first_by
    first_by-Only before test [] x e h = cc
    first_by-Only before test (y ∷ ys) x e h = elim (first_by-cons before test y ys x e) [
      | inl (same, _) ↦ (inr (sym same), subst (λ z. Only z ys) (sym same) (clear-Only y ys h.0))
      | inr later ↦ (
        inl (symmetric y x (All-first_by before test (λ z. conflict y z ≡ false) ys x later h.0).0),
        first_by-Only before test ys x later h.1,
      )
    ]

    pub find-Only :
        (test : A → Bool) (xs : List A) (x : A) → find test xs ≡ some x → Distinct xs → Only x xs
    unfolding find
    find-Only test [] x e h = cc
    find-Only test (y ∷ ys) x e h = elim (Bool-cases (test y)) [
      | inl hit ↦
          let same : y ≡ x = ground arith in
          (inr same, subst (λ z. Only z ys) same (clear-Only y ys h.0))
      | inr miss ↦
          let later : find test ys ≡ some x = rw miss at e in
          (
            inl (symmetric y x (All-find (λ z. conflict y z ≡ false) test ys later h.0).0),
            find-Only test ys x later h.1,
          )
    ]
