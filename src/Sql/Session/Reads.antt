-- ===== src/Sql/Session/Reads.antt =====
-- Sessions that change nothing.
use stream_analysis_tools.Base.{◌≡◌, refl, ◌∙◌, Bool, true, false, List, [], ◌∷◌}
use stream_analysis_tools.Errors.{Error, Result, ok, err}
use stream_analysis_tools.Sql.Session.{
  World, Session, pure, raise, lift, renamed, map_err, continue, ◌>>=◌, settle, answer, statement,
  select, send,
}

module _ {D : Type 0} where
  pub record Reads {A : Type 0} (m : Session D A) : Type 0 where
    pub at : (w : World D) → (m w).1.db ≡ w.db

  pub Reads-pure : {A : Type 0} (a : A) → Reads (pure a)
  Reads-pure a = record { at = λ w. refl }

  pub Reads-raise : {A : Type 0} (e : Error) → Reads {A = A} (raise e)
  Reads-raise e = record { at = λ w. refl }

  pub Reads-lift : {A : Type 0} (r : Result A) → Reads (lift r)
  Reads-lift r = record { at = λ w. refl }

  settle_same :
      {A : Type 0} (r : Result A) (db : D) (faults : List Bool)
      → (settle db faults (answer db r)).1.db ≡ db
  settle_same (ok a) db faults = refl
  settle_same (err e) db faults = refl

  send_same :
      {A : Type 0} (read : D → Result A) (db : D) (faults : List Bool)
      → (send (λ s. answer s (read s)) db faults).1.db ≡ db
  send_same read db [] = settle_same (read db) db []
  send_same read db (false ∷ faults) = settle_same (read db) db faults
  send_same read db (true ∷ faults) = refl

  pub Reads-select : {A : Type 0} (read : D → Result A) → Reads (select read)
  unfolding select statement
  Reads-select read = record { at = λ w. send_same read w.db w.faults }

  pub Reads-bind :
      {A B : Type 0} (m : Session D A) (f : A → Session D B)
      → Reads m
      → ((a : A) → Reads (f a))
      → Reads (m >>= f)
  Reads-bind {A} {B} m f h k = record { at = λ w. after (m w) ∙ h.at w }
    where
      after : (r : Result A × World D) → (continue r f).1.db ≡ r.1.db
      after (ok a, w) = (k a).at w
      after (err e, w) = refl

  pub Reads-map_err :
      {A : Type 0} (g : Error → Error) (m : Session D A) → Reads m → Reads (map_err g m)
  Reads-map_err {A} g m h = record { at = λ w. after (m w) ∙ h.at w }
    where
      after : (r : Result A × World D) → (renamed g r).1.db ≡ r.1.db
      after (ok a, w) = refl
      after (err e, w) = refl
