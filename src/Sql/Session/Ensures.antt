-- ===== src/Sql/Session/Ensures.antt =====
-- Hoare rules for sessions: what holds of the state before, and of the result and the state after.
use stream_analysis_tools.Base.{
  ◌≡◌, refl, sym, subst, ◌∙◌, ◌⊎◌, inl, inr, arith, Option, none, some, Bool, true, false, List, [],
  ◌∷◌, if◌then◌else◌,
}
use stream_analysis_tools.Errors.{Error, Result, ok, err, no_rows, database_error}
use stream_analysis_tools.Sql.Session.{
  World, Session, pure, raise, renamed, map_err, continue, ◌>>=◌, statement, select, execute,
  checked, call, committed, finish, transact, handled, catch, found, optional, settle, send, answer,
}

-- A call without effect changes no row, whether it fails or not.
module _ {D : Type 0} where
  call_on :
      (db : D) (faults : List Bool)
      → let r = call (record { db = db; faults = faults }) in
        (v : World D) × (v.db ≡ db) × ((r ≡ (ok tt, v)) ⊎ (r ≡ (err database_error, v)))
  unfolding call
  call_on db [] = (record { db = db; faults = [] }, refl, inl refl)
  call_on db (false ∷ faults) = (record { db = db; faults = faults }, refl, inl refl)
  call_on db (true ∷ faults) = (record { db = db; faults = faults }, refl, inr refl)

  pub call_cases :
      (w : World D)
      → (v : World D) × (v.db ≡ w.db) × ((call w ≡ (ok tt, v)) ⊎ (call w ≡ (err database_error, v)))
  call_cases w = call_on w.db w.faults

-- `Q` after a result, `E` after an error.
abbrev pub After : {D A : Type 0} → (A → D → Type 0) → (D → Type 0) → Result A × World D → Type 0
After Q E (ok a, w) = Q a w.db
After Q E (err e, w) = E w.db

pub record Ensures {D A : Type 0} (P : D → Type 0) (m : Session D A) (Q : A → D → Type 0)
    (E : D → Type 0) : Type 0 where
  pub at : (w : World D) → P w.db → After Q E (m w)

module _ {D A : Type 0} (Q : A → D → Type 0) (E : D → Type 0) where
  settle-After :
      (r : Result (A × D)) (db : D) (faults : List Bool)
      → ((a : A) (db' : D) → r ≡ ok (a, db') → Q a db')
      → E db
      → After Q E (settle db faults r)
  settle-After (ok (a, db')) db faults good bad = good a db' refl
  settle-After (err e) db faults good bad = bad

  send-After :
      (effect : D → Result (A × D)) (db : D) (faults : List Bool)
      → ((a : A) (db' : D) → effect db ≡ ok (a, db') → Q a db')
      → E db
      → After Q E (send effect db faults)
  send-After effect db [] good bad = settle-After (effect db) db [] good bad
  send-After effect db (false ∷ faults) good bad = settle-After (effect db) db faults good bad
  send-After effect db (true ∷ faults) good bad = bad

  finish-After :
      (F : D → Type 0) (before : D) (r : Result A × World D)
      → After Q F r
      → E before
      → After Q E (finish before r)
  finish-After F before (err e, w) h back = back
  finish-After F before (ok a, w) h back =
      let (v, same, outcome) = call_cases w in
      elim outcome [ inl e ↦ rw e (subst (Q a) (sym same) h) | inr e ↦ rw e back ]

answer-ok :
    {D A : Type 0} (r : Result A) (db : D) (a : A) (db' : D)
    → answer db r ≡ ok (a, db')
    → (r ≡ ok a) × (db ≡ db')
answer-ok (ok b) db a db' e = ground arith
answer-ok (err c) db a db' e = cc

module _ {D A : Type 0} {P : D → Type 0} {Q : A → D → Type 0} {E : D → Type 0} where
  pub Ensures-pure : (a : A) → ((db : D) → P db → Q a db) → Ensures P (pure a) Q E
  Ensures-pure a h = record { at = λ w p. h w.db p }

  pub Ensures-raise : (e : Error) → ((db : D) → P db → E db) → Ensures P (raise e) Q E
  Ensures-raise e h = record { at = λ w p. h w.db p }

  pub Ensures-statement :
      (effect : D → Result (A × D))
      → ((db : D) → P db → (a : A) (db' : D) → effect db ≡ ok (a, db') → Q a db')
      → ((db : D) → P db → E db)
      → Ensures P (statement effect) Q E
  unfolding statement
  Ensures-statement effect good bad = record {
    at = λ w p. send-After Q E effect w.db w.faults (good w.db p) (bad w.db p);
  }

  pub Ensures-select :
      (read : D → Result A)
      → ((db : D) → P db → (a : A) → read db ≡ ok a → Q a db)
      → ((db : D) → P db → E db)
      → Ensures P (select read) Q E
  unfolding select
  Ensures-select read good bad =
      Ensures-statement (λ db. answer db (read db))
        (λ db p a db' e.
          let (r, same) = answer-ok (read db) db a db' e in subst (Q a) same (good db p a r))
        bad

  pub Ensures-execute :
      (write : D → A × D)
      → ((db : D) → P db → Q (write db).0 (write db).1)
      → ((db : D) → P db → E db)
      → Ensures P (execute write) Q E
  unfolding execute
  Ensures-execute write good bad =
      Ensures-statement (λ db. ok (write db))
        (λ db p a db' e.
          let both : write db ≡ (a, db') = ground arith in
          subst (λ (t : A × D). Q t.0 t.1) both (good db p))
        bad

  pub Ensures-checked :
      (test : D → Bool) (refusal : Error) (write : D → A × D)
      → ((db : D) → P db → Q (write db).0 (write db).1)
      → ((db : D) → P db → E db)
      → Ensures P (checked test refusal write) Q E
  unfolding checked
  Ensures-checked test refusal write good bad =
      Ensures-statement (λ db. if test (write db).1 then ok (write db) else err refusal)
        (λ db p a db' e.
          let both : write db ≡ (a, db') = ground arith in
          subst (λ (t : A × D). Q t.0 t.1) both (good db p))
        bad

  pub Ensures-transact :
      {F : D → Type 0} (body : Session D A)
      → ((db : D) → P db → E db)
      → Ensures P body Q F
      → Ensures P (transact body) Q E
  unfolding transact
  Ensures-transact {F} body bad h = record {
    at = λ w p.
        let (v, same, outcome) = call_cases w in
        elim outcome [
          | inl e ↦ rw e (
              finish-After Q E F v.db (body v) (h.at v (subst P (sym same) p))
                (bad v.db (subst P (sym same) p)))
          | inr e ↦ rw e (subst E (sym same) (bad w.db p))
        ];
  }

  pub Ensures-error :
      {F : D → Type 0} (m : Session D A)
      → ((db : D) → F db → E db)
      → Ensures P m Q F
      → Ensures P m Q E
  Ensures-error {F} m bad h = record { at = λ w p. after (m w) (h.at w p) }
    where
      after : (r : Result A × World D) → After Q F r → After Q E r
      after (ok a, w) q = q
      after (err e, w) q = bad w.db q

  pub Ensures-weaken :
      {R : A → D → Type 0} (m : Session D A)
      → ((a : A) (db : D) → R a db → Q a db)
      → Ensures P m R E
      → Ensures P m Q E
  Ensures-weaken {R} m weak h = record { at = λ w p. after (m w) (h.at w p) }
    where
      after : (r : Result A × World D) → After R E r → After Q E r
      after (ok a, w) q = weak a w.db q
      after (err e, w) q = q

  -- What does not speak of the state is at hand for the choice of the proof.
  pub Ensures-given :
      {X : Type 0} (m : Session D A) → (X → Ensures P m Q E) → Ensures (λ db. P db × X) m Q E
  Ensures-given m h = record { at = λ w p. (h p.1).at w p.0 }

  pub Ensures-given₂ :
      {X Y : Type 0} (m : Session D A)
      → (X → Y → Ensures P m Q E)
      → Ensures (λ db. P db × X × Y) m Q E
  Ensures-given₂ m h = record { at = λ w p. (h p.1 p.2).at w p.0 }

  pub Ensures-map_err :
      (g : Error → Error) (m : Session D A) → Ensures P m Q E → Ensures P (map_err g m) Q E
  Ensures-map_err g m h = record { at = λ w p. after (m w) (h.at w p) }
    where
      after : (r : Result A × World D) → After Q E r → After Q E (renamed g r)
      after (ok a, w) q = q
      after (err e, w) q = q

  pub Ensures-catch :
      {F : D → Type 0} (m : Session D A) (h : Error → Session D A)
      → Ensures P m Q F
      → ((e : Error) → Ensures F (h e) Q E)
      → Ensures P (catch m h) Q E
  Ensures-catch {F} m h km kh = record { at = λ w p. after (m w) (km.at w p) }
    where
      after : (r : Result A × World D) → After Q F r → After Q E (handled h r)
      after (ok a, w) q = q
      after (err e, w) q = (kh e).at w q

module _ {D A B : Type 0} {P : D → Type 0} {Q : B → D → Type 0} {E : D → Type 0} where
  pub Ensures-bind :
      {R : A → D → Type 0} (m : Session D A) (f : A → Session D B)
      → Ensures P m R E
      → ((a : A) → Ensures (R a) (f a) Q E)
      → Ensures P (m >>= f) Q E
  Ensures-bind {R} m f km kf = record { at = λ w p. after (m w) (km.at w p) }
    where
      after : (r : Result A × World D) → After R E r → After Q E (continue r f)
      after (ok a, w) h = (kf a).at w h
      after (err e, w) h = h

module _ {D A : Type 0} {P : D → Type 0} {Q : Option A → D → Type 0} {E : D → Type 0} where
  pub Ensures-optional :
      (m : Session D A)
      → ((db : D) → E db → Q none db)
      → Ensures P m (λ a db. Q (some a) db) E
      → Ensures P (optional m) Q E
  Ensures-optional m empty h = record { at = λ w p. after (m w) (h.at w p) }
    where
      after : (r : Result A × World D) → After (λ a db. Q (some a) db) E r → After Q E (found r)
      after (ok a, w) q = q
      after (err no_rows, w) q = empty w.db q
      after (err _, w) q = q

  -- A read that may find nothing.
  pub Ensures-lookup :
      (read : D → Result A)
      → ((db : D) → P db → (a : A) → read db ≡ ok a → Q (some a) db)
      → ((db : D) → P db → read db ≡ err no_rows → Q none db)
      → ((db : D) → P db → E db)
      → Ensures P (optional (select read)) Q E
  unfolding select statement
  Ensures-lookup read good empty bad = record { at = λ w p. sent w.db w.faults p }
    where
      given :
          (db : D) (faults : List Bool)
          → P db
          → (r : Result A) → read db ≡ r
          → After Q E (found (settle db faults (answer db r)))
      given db faults p (ok a) e = good db p a e
      given db faults p (err no_rows) e = empty db p e
      given db faults p (err x) e = bad db p

      sent :
          (db : D) (faults : List Bool)
          → P db
          → After Q E (found (send (λ s. answer s (read s)) db faults))
      sent db [] p = given db [] p (read db) refl
      sent db (false ∷ faults) p = given db faults p (read db) refl
      sent db (true ∷ faults) p = bad db p

-- A transaction that ends in an error has changed nothing.
module _ {D A : Type 0} (body : Session D A) where
  finish_undoes :
      (before : D) (r : Result A × World D) (e : Error)
      → (finish before r).0 ≡ err e
      → (finish before r).1.db ≡ before
  finish_undoes before (err c, w) e h = refl
  finish_undoes before (ok a, w) e h = undone (call w) h
    where
      undone :
          (r : Result (Unit {0}) × World D)
          → (committed before a r).0 ≡ err e
          → (committed before a r).1.db ≡ before
      undone (ok _, v) h = cc
      undone (err c, v) h = refl

  pub transact_atomic :
      (w : World D) (e : Error) → (transact body w).0 ≡ err e → (transact body w).1.db ≡ w.db
  unfolding transact
  transact_atomic w e =
      let (v, same, outcome) = call_cases w in
      elim outcome [
        | inl s ↦ rw s (λ h. finish_undoes v.db (body v) e h ∙ same)
        | inr s ↦ rw s (λ _. same)
      ]
