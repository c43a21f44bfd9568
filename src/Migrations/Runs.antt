-- ===== src/Migrations/Runs.antt =====
-- What `ApplyMigrations` of apps/api/internal/database/migrations.go has run when it returns.
use stream_analysis_tools.Base.{
  ℕ, suc, ◌≡◌, refl, sym, ap, subst, ◌∙◌, ◌⊎◌, inl, inr, Bool, true, false, List, [], ◌∷◌, take,
  Option, none, some, arith, Bytes,
}
use stream_analysis_tools.Errors
use stream_analysis_tools.Errors.{Error, Result, ok, err}
use stream_analysis_tools.Migrations.{
  Migration, Entry, Schema, load_migrations, is_applied, check_applied, execute_sql, record_name,
  run_item, unless_applied, apply_migration, apply_each, with_ledger, create_ledger, apply_loaded,
  apply_migrations, ledger_of, altered, noted,
}
use stream_analysis_tools.Sql.Session.{World, Session, call, lift, ◌>>=◌}
use stream_analysis_tools.Sql.Session.Ensures.{
  After, Ensures, Ensures-pure, Ensures-raise, Ensures-statement, Ensures-select, Ensures-transact,
  Ensures-bind, Ensures-given, Ensures-error,
}

module _ {D : Type 0} (run_sql : Bytes → D → Result D) where
  -- One migration: its name is in the ledger already, or its SQL runs and its name is entered.
  pub data Applies (m : Migration) (s : Schema D) : Schema D → Type 0 where
    skips :
        (names : List Bytes)
        → s.ledger ≡ some names
        → is_applied run_sql m.name names ≡ true
        → Applies m s s
    runs :
        (names : List Bytes) (d : D)
        → s.ledger ≡ some names
        → is_applied run_sql m.name names ≡ false
        → run_sql m.sql s.tables ≡ ok d
        → Applies m s (record { tables = d; ledger = some (m.name ∷ names) })

  -- Migrations one after the other.
  pub data AppliesAll : List Migration → Schema D → Schema D → Type 0 where
    nothing : {s : Schema D} → AppliesAll [] s s
    first :
        {m : Migration} {ms : List Migration} {s t u : Schema D}
        → Applies m s t
        → AppliesAll ms t u
        → AppliesAll (m ∷ ms) s u

  module _ (s : Schema D) where
    abbrev Same : Schema D → Type 0
    Same t = t ≡ s

    abbrev Checked : Bytes → Bool → Schema D → Type 0
    Checked name b t =
        Same t
        × ((names : List Bytes) × (s.ledger ≡ some names) × (is_applied run_sql name names ≡ b))

    checked :
        (name : Bytes) (o : Option (List Bytes)) (b : Bool)
        → Errors.◌>>=◌ (ledger_of o) (λ names. ok (is_applied run_sql name names)) ≡ ok b
        → s.ledger ≡ o
        → (names : List Bytes) × (s.ledger ≡ some names) × (is_applied run_sql name names ≡ b)
    checked name none b e o = absurd (cc)
    checked name (some names) b e o = (names, o, ground arith)

    check-Checked : (name : Bytes) → Ensures Same (check_applied run_sql name) (Checked name) Same
    unfolding check_applied
    check-Checked name =
        Ensures-select _
          (λ t p b e. (p, checked name t.ledger b e (ap (λ (u : Schema D). u.ledger) (sym p))))
          (λ t p. p)

    abbrev Altered : Migration → Schema D → Type 0
    Altered m t = (d : D) × (run_sql m.sql s.tables ≡ ok d) × (t ≡ record s { tables = d })

    alters :
        (m : Migration) (r : Result D) (t : Schema D)
        → run_sql m.sql s.tables ≡ r
        → altered run_sql s r ≡ ok (tt, t)
        → Altered m t
    alters m (ok d) t e h = (d, e, ground arith)
    alters m (err x) t e h = absurd (cc)

    entered :
        (m : Migration) (names : List Bytes) (d : D) (t : Schema D)
        → is_applied run_sql m.name names ≡ false
        → noted run_sql m.name (record s { tables = d }) (ok names) ≡ ok (tt, t)
        → record s { tables = d; ledger = some (m.name ∷ names) } ≡ t
    entered m names d t a = rw a (λ h. ground arith)

    enters :
        (m : Migration) (names : List Bytes) (d : D) (t : Schema D)
        → s.ledger ≡ some names
        → is_applied run_sql m.name names ≡ false
        → run_sql m.sql s.tables ≡ ok d
        → noted run_sql m.name (record s { tables = d }) (ledger_of s.ledger) ≡ ok (tt, t)
        → Applies m s t
    enters m names d t l a r h =
        subst (Applies m s)
          (entered m names d t a (
            subst (λ o. noted run_sql m.name (record s { tables = d }) (ledger_of o) ≡ ok (tt, t)) l
              h))
          (runs names d l a r)

    ran :
        (m : Migration) (names : List Bytes)
        → s.ledger ≡ some names
        → is_applied run_sql m.name names ≡ false
        → Ensures Same (run_item run_sql m) (λ _ t. Applies m s t) (λ _. Unit {0})
    unfolding run_item execute_sql record_name
    ran m names l a =
        Ensures-bind {R = λ _ t. Altered m t} _ _
          (Ensures-statement _
            (λ t p u t' e. alters m (run_sql m.sql s.tables) t' refl (
              subst (λ (v : Schema D). altered run_sql v (run_sql m.sql v.tables) ≡ ok (u, t')) p
                e))
            (λ t p. tt))
          (λ _.
            Ensures-statement _
              (λ t p u t' e. enters m names p.0 t' l a p.1 (
                subst (λ (v : Schema D). noted run_sql m.name v (ledger_of v.ledger) ≡ ok (u, t'))
                  p.2 e))
              (λ t p. tt))

    decided :
        (m : Migration) (b : Bool)
        → Ensures
            (Checked m.name b)
            (unless_applied run_sql m b)
            (λ _ t. Applies m s t)
            (λ _. Unit {0})
    unfolding unless_applied
    decided m true = Ensures-pure tt λ t p. subst (Applies m s) (sym p.0) (skips p.1.0 p.1.1 p.1.2)
    decided m false = Ensures-given (run_item run_sql m) λ c. ran m c.0 c.1 c.2

    -- `applyMigration` applies its migration, or changes nothing.
    apply_migration-Applies :
        (m : Migration) → Ensures Same (apply_migration run_sql m) (λ _ t. Applies m s t) Same
    unfolding apply_migration
    apply_migration-Applies m =
        Ensures-transact _ (λ t p. p)
          (Ensures-bind _ _ (Ensures-error _ (λ t p. tt) (check-Checked m.name)) (decided m))

  -- Migrations from the first on, up to one that failed.
  abbrev pub Prefix : List Migration → Schema D → Schema D → Type 0
  Prefix ms s t = (n : ℕ) × AppliesAll (take n ms) s t

  After-map :
      {A : Type 0} {Q R : A → Schema D → Type 0} {E F : Schema D → Type 0}
      → ((a : A) (t : Schema D) → Q a t → R a t)
      → ((t : Schema D) → E t → F t)
      → (r : Result A × World (Schema D)) → After Q E r
      → After R F r
  After-map good bad (ok a, w) h = good a w.db h
  After-map good bad (err e, w) h = bad w.db h

  apply_each-AppliesAll :
      (ms : List Migration) (s : Schema D)
      → Ensures (Same s) (apply_each run_sql ms) (λ _ t. AppliesAll ms s t) (Prefix ms s)
  unfolding apply_each
  apply_each-AppliesAll [] s = Ensures-pure tt λ t p. subst (AppliesAll [] s) (sym p) nothing
  apply_each-AppliesAll (m ∷ ms) s =
      let rest = apply_each-AppliesAll ms in
      Ensures-bind _ _
        (Ensures-error _ (λ t p. (0, subst (AppliesAll [] s) (sym p) nothing))
          (apply_migration-Applies s m))
        (λ _. record {
          at = λ w a.
              After-map (λ _ t h. first a h) (λ t h. (suc h.0, first a h.1))
                (apply_each run_sql ms w) ((rest w.db).at w refl);
        })

  -- The schema once the ledger is there.
  abbrev pub opened : Schema D → Schema D
  opened s = record s { ledger = with_ledger run_sql s.ledger }

  abbrev pub Completed : Result (List Entry) → Schema D → Schema D → Type 0
  Completed directory s t =
      (ms : List Migration) × (load_migrations directory ≡ ok ms) × AppliesAll ms (opened s) t

  abbrev pub Stopped : Result (List Entry) → Schema D → Schema D → Type 0
  Stopped directory s t =
      (t ≡ s)
      ⊎ ((ms : List Migration) × (load_migrations directory ≡ ok ms) × Prefix ms (opened s) t)

  module _ (s : Schema D) where
    answered :
        (t t' : Schema D) (u : Unit {0})
        → ◌≡◌ {A = Result (Unit {0} × Schema D)} (ok (tt, t)) (ok (u, t'))
        → t ≡ t'
    answered t t' u e = ground arith

    calls : Ensures (Same s) call (λ _. Same s) (Same s)
    unfolding call
    calls = Ensures-statement _ (λ t p u t' e. sym (answered t t' u e) ∙ p) (λ t p. p)

    opens : Ensures (Same s) (create_ledger run_sql) (λ _. Same (opened s)) (Same s)
    unfolding create_ledger
    opens =
        Ensures-statement _ (λ t p u t' e. sym (answered (opened t) t' u e) ∙ ap opened p)
          (λ t p. p)

    apply_loaded-AppliesAll :
        (directory : Result (List Entry)) (ms : List Migration)
        → load_migrations directory ≡ ok ms
        → Ensures
            (Same s)
            (apply_loaded run_sql ms)
            (λ _. Completed directory s)
            (Stopped directory s)
    unfolding apply_loaded
    apply_loaded-AppliesAll directory [] l = Ensures-raise _ λ t p. inl p
    apply_loaded-AppliesAll directory (m ∷ ms) l = Ensures-bind _ _ (unchanged calls) λ _.
        Ensures-bind _ _ (unchanged calls) λ _. Ensures-bind _ _ (unchanged opens) λ _. record {
          at = λ w p.
              After-map (λ _ t h. (m ∷ ms, l, h)) (λ t h. inr (m ∷ ms, l, h))
                (apply_each run_sql (m ∷ ms) w)
                ((apply_each-AppliesAll (m ∷ ms) (opened s)).at w p);
        }
      where
        unchanged :
            {A : Type 0} {Q : A → Schema D → Type 0} {n : Session (Schema D) A}
            → Ensures (Same s) n Q (Same s)
            → Ensures (Same s) n Q (Stopped directory s)
        unchanged {A} {Q} {n} = Ensures-error n λ t p. inl p

  -- When `ApplyMigrations` succeeds, every migration loaded from the directory has been applied, in
  -- the order of loading and each in a transaction of its own: its SQL has run and its name has
  -- entered the ledger, unless the name was there. When it fails, at whichever call, the database
  -- is as it was, or the ledger is there, created empty if it was not, and some migrations from the
  -- first on have been applied to it, perhaps none, and nothing else.
  pub apply_migrations_outcome :
      (directory : Result (List Entry)) (w : World (Schema D))
      → After
          (λ _. Completed directory w.db)
          (Stopped directory w.db)
          (apply_migrations run_sql directory w)
  unfolding apply_migrations
  apply_migrations_outcome directory w = by_load (load_migrations directory) refl
    where
      by_load :
          (r : Result (List Migration))
          → load_migrations directory ≡ r
          → After
              (λ _. Completed directory w.db)
              (Stopped directory w.db)
              ((lift r >>= apply_loaded run_sql) w)
      by_load (ok ms) l = (apply_loaded-AppliesAll w.db directory ms l).at w refl
      by_load (err e) l = inl refl
