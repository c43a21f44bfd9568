-- ===== src/Sql/Table/Laws.antt =====
-- What statements on a table keep and find.
use stream_analysis_tools.Base.{
  ◌≡◌, ◌⊎◌, inl, inr, Bool, true, false, List, [], ◌∷◌, Option, none, some, arith, All, Bool-cases,
}
use stream_analysis_tools.Sql.Table.{find, update, earlier, first_by}

module _ {ℓ κ} {A : Type ℓ} (P : A → Type κ) where
  -- An update keeps what holds of every row if each row that it writes has it.
  pub All-update :
      (test : A → Bool) (f : A → A) (xs : List A)
      → ((x : A) → test x ≡ true → P x → P (f x))
      → All P xs
      → All P (update test f xs)
  unfolding update
  All-update test f [] keep h = tt
  All-update test f (x ∷ xs) keep h = elim (Bool-cases (test x)) [
    | inl hit ↦ rw hit (keep x hit h.0, All-update test f xs keep h.1)
    | inr miss ↦ rw miss (h.0, All-update test f xs keep h.1)
  ]

  pub All-find :
      (test : A → Bool) (xs : List A) {x : A}
      → find test xs ≡ some x
      → All P xs
      → P x × (test x ≡ true)
  unfolding find
  All-find test [] e h = cc
  All-find test (y ∷ ys) {x} e h = elim (Bool-cases (test y)) [
    | inl hit ↦
        let same : y ≡ x = ground arith in
        rw same at (let r : P y × (test y ≡ true) = (h.0, hit) in r)
    | inr miss ↦ All-find test ys (rw miss at e) h.1
  ]

module _ {ℓ} {A : Type ℓ} (before : A → A → Bool) (test : A → Bool) where
  pub first_by-cons :
      (y : A) (ys : List A) (x : A)
      → first_by before test (y ∷ ys) ≡ some x
      → ((x ≡ y) × (test y ≡ true)) ⊎ (first_by before test ys ≡ some x)
  unfolding first_by
  first_by-cons y ys x e = ground arith

  pub All-first_by {κ} :
      (P : A → Type κ) (xs : List A) (x : A)
      → first_by before test xs ≡ some x
      → All P xs
      → P x × (test x ≡ true)
  unfolding first_by
  All-first_by P [] x e h = cc
  All-first_by P (y ∷ ys) x e h = elim (first_by-cons y ys x e) [
    | inl (same, hit) ↦ rw same (h.0, hit)
    | inr later ↦ All-first_by P ys x later h.1
  ]

  -- No row that fits the condition stands before the row that is chosen.
  abbrev pub Chosen : List A → Option A → Type 0
  Chosen xs none = All (λ z. test z ≡ false) xs
  Chosen xs (some x) = All (λ z. test z ≡ true → before z x ≡ false) xs

  module _ (asym : (a b : A) → before a b ≡ true → before b a ≡ false)
      (trans : (a b c : A) → before b a ≡ false → before c b ≡ false → before c a ≡ false) where
    irrefl : (x : A) → before x x ≡ false
    irrefl x = elim (Bool-cases (before x x)) [ inl e ↦ asym x x e | inr e ↦ e ]

    rest-Chosen :
        (x y : A) (xs : List A) → before y x ≡ false → Chosen xs (some y) → Chosen xs (some x)
    rest-Chosen x y [] e h = tt
    rest-Chosen x y (z ∷ xs) e h = (λ t. trans x y z e (h.0 t), rest-Chosen x y xs e h.1)

    none-Chosen : (x : A) (xs : List A) → Chosen xs none → Chosen xs (some x)
    none-Chosen x [] h = tt
    none-Chosen x (z ∷ xs) h = (λ t. cc (h.0), none-Chosen x xs h.1)

    earlier-Chosen :
        (x : A) (xs : List A) (rest : Option A)
        → Chosen xs rest
        → test x ≡ true
        → Chosen (x ∷ xs) (earlier before x rest)
    unfolding earlier
    earlier-Chosen x xs none h t = ((λ _. irrefl x), none-Chosen x xs h)
    earlier-Chosen x xs (some y) h t = elim (Bool-cases (before y x)) [
      | inl e ↦ rw e ((λ _. asym y x e), h)
      | inr e ↦ rw e ((λ _. irrefl x), rest-Chosen x y xs e h)
    ]

    pub first_by-Chosen : (xs : List A) → Chosen xs (first_by before test xs)
    unfolding first_by
    first_by-Chosen [] = tt
    first_by-Chosen (x ∷ xs) = elim (Bool-cases (test x)) [
      | inl t ↦ rw t (earlier-Chosen x xs (first_by before test xs) (first_by-Chosen xs) t)
      | inr t ↦ rw t (miss (first_by before test xs) t (first_by-Chosen xs))
    ]
      where
        miss : (o : Option A) → test x ≡ false → Chosen xs o → Chosen (x ∷ xs) o
        miss none t h = (t, h)
        miss (some y) t h = ((λ e. cc), h)
