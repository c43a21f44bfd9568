-- ===== src/Migrations/Again.antt =====
-- Running `ApplyMigrations` of apps/api/internal/database/migrations.go another time.
use stream_analysis_tools.Base.{
  ℕ, zero, suc, ◌≡◌, refl, sym, ap, subst, ◌∙◌, inl, inr, Bool, true, false, List, [], ◌∷◌, take,
  Option, none, some, All, arith, Bytes, bytes_eq, bytes_eq_iff, Bool-cases,
}
use stream_analysis_tools.Errors.{Result, ok, err}
use stream_analysis_tools.Migrations.{
  Migration, Entry, Schema, load_migrations, is_applied, apply_migrations, with_ledger,
}
use stream_analysis_tools.Migrations.Runs.{
  Applies, skips, runs, AppliesAll, nothing, first, opened, Completed, Stopped,
  apply_migrations_outcome,
}
use stream_analysis_tools.Sql.Session.{World}
use stream_analysis_tools.Sql.Session.Ensures.{After}
use stream_analysis_tools.Sql.Table.{find}

module _ {D : Type 0} (run_sql : Bytes → D → Result D) where
  -- The name stands in the ledger.
  Noted : Bytes → Schema D → Type 0
  Noted name s =
      (names : List Bytes) × (s.ledger ≡ some names) × (is_applied run_sql name names ≡ true)

  entered-Noted :
      (name : Bytes) (m : Bytes) (names : List Bytes)
      → is_applied run_sql name names ≡ true
      → is_applied run_sql name (m ∷ names) ≡ true
  unfolding find
  entered-Noted name m names h = elim (Bool-cases (bytes_eq name m)) [
    | inl e ↦ rw e refl
    | inr e ↦ rw e h
  ]

  entered_self : (name : Bytes) (names : List Bytes) → is_applied run_sql name (name ∷ names) ≡ true
  unfolding find
  entered_self name names = rw ((bytes_eq_iff name name).1 refl) refl

  Applies-Noted : (m : Migration) (s t : Schema D) → Applies run_sql m s t → Noted m.name t
  unfolding Noted
  Applies-Noted m s t (skips names l a) = (names, l, a)
  Applies-Noted m s t (runs names d l a r) = (m.name ∷ names, refl, entered_self m.name names)

  same_names : {o : Option (List Bytes)} {xs ys : List Bytes} → o ≡ some xs → o ≡ some ys → xs ≡ ys
  same_names e h = ground arith

  Applies-keeps :
      (name : Bytes) (m : Migration) (s t : Schema D)
      → Applies run_sql m s t
      → Noted name s
      → Noted name t
  unfolding Noted
  Applies-keeps name m s t (skips names l a) h = h
  Applies-keeps name m s t (runs names d l a r) h = (
    m.name ∷ names,
    refl,
    entered-Noted name m.name names
        (subst (λ ns. is_applied run_sql name ns ≡ true) (same_names h.1 l) h.2),
  )

  AppliesAll-keeps :
      (name : Bytes) (ms : List Migration) (s t : Schema D)
      → AppliesAll run_sql ms s t
      → Noted name s
      → Noted name t
  AppliesAll-keeps name [] s t nothing h = h
  AppliesAll-keeps name (m ∷ ms) s u (first {t} a rest) h =
      AppliesAll-keeps name ms t u rest (Applies-keeps name m s t a h)

  AppliesAll-Noted :
      (ms : List Migration) (s t : Schema D)
      → AppliesAll run_sql ms s t
      → All (λ m. Noted m.name t) ms
  AppliesAll-Noted [] s t nothing = tt
  AppliesAll-Noted (m ∷ ms) s u (first {t} a rest) =
      (AppliesAll-keeps m.name ms t u rest (Applies-Noted m s t a), AppliesAll-Noted ms t u rest)

  repeats : (m : Migration) (s t : Schema D) → Applies run_sql m s t → Noted m.name s → t ≡ s
  unfolding Noted
  repeats m s t (skips names l a) h = refl
  repeats m s t (runs names d l a r) h =
      absurd (differ (subst (λ ns. is_applied run_sql m.name ns ≡ true) (same_names h.1 l) h.2) a)
    where
      differ : {b : Bool} → b ≡ true → b ≡ false → ⊥
      differ e f = cc

  all_repeat :
      (ms : List Migration) (s t : Schema D)
      → AppliesAll run_sql ms s t
      → All (λ m. Noted m.name s) ms
      → t ≡ s
  all_repeat [] s t nothing h = refl
  all_repeat (m ∷ ms) s u (first {t} a rest) h =
      let same = repeats m s t a h.0 in
      all_repeat ms t u rest (subst (λ v. All (λ m. Noted m.name v) ms) (sym same) h.1) ∙ same

  -- After a complete application the ledger is there, with every name.
  Recorded : List Migration → Schema D → Type 0
  Recorded ms t = (opened run_sql t ≡ t) × All (λ m. Noted m.name t) ms

  Applies-opened : (m : Migration) (s t : Schema D) → Applies run_sql m s t → opened run_sql t ≡ t
  Applies-opened m s t (skips names l a) = ledger_there s names l
    where
      ledger_there :
          (v : Schema D) (names : List Bytes) → v.ledger ≡ some names → opened run_sql v ≡ v
      ledger_there v names l =
          ap (λ o. record v { ledger = o }) (ap (with_ledger run_sql) l ∙ sym l)
  Applies-opened m s t (runs names d l a r) = refl

  AppliesAll-opened :
      (ms : List Migration) (s t : Schema D)
      → opened run_sql s ≡ s
      → AppliesAll run_sql ms s t
      → opened run_sql t ≡ t
  AppliesAll-opened [] s t o nothing = o
  AppliesAll-opened (m ∷ ms) s u o (first {t} a rest) =
      AppliesAll-opened ms t u (Applies-opened m s t a) rest

  opened_twice : (s : Schema D) → opened run_sql (opened run_sql s) ≡ opened run_sql s
  opened_twice s = ap (λ o. record s { ledger = o }) (twice s.ledger)
    where
      twice :
          (o : Option (List Bytes))
          → with_ledger run_sql (with_ledger run_sql o) ≡ with_ledger run_sql o
      twice none = refl
      twice (some names) = refl

  Completed-Recorded :
      (ms : List Migration) (s t : Schema D)
      → AppliesAll run_sql ms (opened run_sql s) t
      → Recorded ms t
  unfolding Recorded
  Completed-Recorded ms s t a = (
    AppliesAll-opened ms (opened run_sql s) t (opened_twice s) a,
    AppliesAll-Noted ms (opened run_sql s) t a,
  )

  All-take : (P : Migration → Type 0) (n : ℕ) (ms : List Migration) → All P ms → All P (take n ms)
  All-take P zero ms h = tt
  All-take P (suc n) [] h = tt
  All-take P (suc n) (m ∷ ms) h = (h.0, All-take P n ms h.1)

  module _ (directory : Result (List Entry)) (ms : List Migration)
      (l : load_migrations directory ≡ ok ms) (s : Schema D) (recorded : Recorded ms s) where
    same_list : (ns : List Migration) → load_migrations directory ≡ ok ns → ns ≡ ms
    same_list ns e = let both : ok ns ≡ ok ms = sym e ∙ l in ground arith

    Completed-same : (t : Schema D) → Completed run_sql directory s t → t ≡ s
    unfolding Recorded
    Completed-same t (ns, e, a) =
        all_repeat ns s t (subst (λ v. AppliesAll run_sql ns v t) recorded.0 a)
          (subst (All λ m. Noted m.name s) (sym (same_list ns e)) recorded.1)

    Stopped-same : (t : Schema D) → Stopped run_sql directory s t → t ≡ s
    unfolding Recorded
    Stopped-same t (inl e) = e
    Stopped-same t (inr (ns, e, (n, a))) =
        all_repeat (take n ns) s t (subst (λ v. AppliesAll run_sql (take n ns) v t) recorded.0 a)
          (All-take _ n ns (subst (All λ m. Noted m.name s) (sym (same_list ns e)) recorded.1))

    After-same :
        (r : Result (Unit {0}) × World (Schema D))
        → After (λ _. Completed run_sql directory s) (Stopped run_sql directory s) r
        → r.1.db ≡ s
    After-same (ok u, w) h = Completed-same w.db h
    After-same (err e, w) h = Stopped-same w.db h

  succeeded :
      (directory : Result (List Entry)) (s : Schema D) (r : Result (Unit {0}) × World (Schema D))
      → After (λ _. Completed run_sql directory s) (Stopped run_sql directory s) r
      → r.0 ≡ ok tt
      → (ms : List Migration) × (load_migrations directory ≡ ok ms) × Recorded ms r.1.db
  succeeded directory s (ok u, w) (ms, l, a) h = (ms, l, Completed-Recorded ms s w.db a)
  succeeded directory s (err e, w) k h = absurd (cc)

  -- Once `ApplyMigrations` has succeeded, it changes nothing when it runs on the same directory
  -- again, whichever of the calls fail in either run.
  pub apply_migrations_again :
      (directory : Result (List Entry)) (w v : World (Schema D))
      → (apply_migrations run_sql directory w).0 ≡ ok tt
      → v.db ≡ (apply_migrations run_sql directory w).1.db
      → (apply_migrations run_sql directory v).1.db ≡ v.db
  apply_migrations_again directory w v h same =
      let (ms, l, recorded) =
        succeeded directory w.db (apply_migrations run_sql directory w)
          (apply_migrations_outcome run_sql directory w) h in
      After-same directory ms l v.db (subst (Recorded ms) (sym same) recorded)
        (apply_migrations run_sql directory v) (apply_migrations_outcome run_sql directory v)
