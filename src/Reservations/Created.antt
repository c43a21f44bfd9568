-- ===== src/Reservations/Created.antt =====
-- What `Create` of apps/api/internal/reservations/service.go answers, and what `Get` then reads.
use stream_analysis_tools.Base.{
  ℕ, ◌≡◌, refl, sym, subst, ◌∙◌, Bool, true, false, Bytes, List, [], ◌∷◌, Option, none, some, arith,
  Time, ◌==◌, ==_iff, if◌then◌else◌, Bool-cases, inl, inr,
}
use stream_analysis_tools.Errors.{Result, ok, err, no_rows}
use stream_analysis_tools.Reservations.Model.{Reservation}
use stream_analysis_tools.Reservations.Repository.Public
use stream_analysis_tools.Reservations.Repository.Rows.{scan_reservation, job_of, has_id}
use stream_analysis_tools.Reservations.Service
use stream_analysis_tools.Reservations.Service.{requested}
use stream_analysis_tools.Sql.Rows.{ReservationRow, Database}
use stream_analysis_tools.Sql.Session.{World, Session, select, statement}
use stream_analysis_tools.Sql.Session.Ensures.{
  After, Ensures, Ensures-select, Ensures-map_err, Ensures-bind, Ensures-raise,
}
use stream_analysis_tools.Sql.Table.{find}
use stream_analysis_tools.Streams.Url.{YouTubeUrl}

-- `r` is what a query by its identifier reads.
abbrev pub Stored : Reservation → Database → Type 0
Stored r db =
    Public.get r.id (record { db = db; faults = [] }) ≡ (ok r, record { db = db; faults = [] })

-- What `get` reads from the tables.
abbrev read_from : Database → Option ReservationRow → Result Reservation
read_from db none = err no_rows
read_from db (some r) = ok (scan_reservation r (job_of db r.collection_job_id))

get_quiet :
    (id : ℕ) (db : Database) (r : Reservation)
    → read_from db (find (has_id id) db.reservations) ≡ ok r
    → Public.get id (record { db = db; faults = [] }) ≡ (ok r, record { db = db; faults = [] })
unfolding Public.get select statement
get_quiet id db r e = rw e refl

find_holds :
    (test : ReservationRow → Bool) (rows : List ReservationRow) (x : ReservationRow)
    → find test rows ≡ some x
    → test x ≡ true
unfolding find
find_holds test [] x e = absurd (cc)
find_holds test (y ∷ ys) x e = elim (Bool-cases (test y)) [
  | inl hit ↦ subst (λ z. test z ≡ true) (here hit e) hit
  | inr miss ↦ find_holds test ys x (later miss e)
]
  where
    here : test y ≡ true → (if test y then some y else find test ys) ≡ some x → y ≡ x
    here hit = rw hit (λ e. ground arith)

    later :
        test y ≡ false → (if test y then some y else find test ys) ≡ some x → find test ys ≡ some x
    later miss = rw miss (λ e. e)

read_id :
    (id : ℕ) (db : Database) (o : Option ReservationRow) (r : Reservation)
    → find (has_id id) db.reservations ≡ o
    → read_from db o ≡ ok r
    → r.id ≡ id
unfolding scan_reservation
read_id id db none r f e = absurd (cc)
read_id id db (some x) r f e =
    let key : (x.id == id) ≡ true = find_holds (has_id id) db.reservations x f in
    let same : x.id ≡ r.id = ground arith in sym same ∙ (==_iff x.id id).0 key

get-Stored : (id : ℕ) → Ensures (λ _. Unit {0}) (Public.get id) Stored (λ _. Unit {0})
unfolding Public.get
get-Stored id = Ensures-map_err _ _ (
    Ensures-select (λ db. read_from db (find (has_id id) db.reservations))
      (λ db p r e.
        let same = read_id id db (find (has_id id) db.reservations) r refl e in
        get_quiet r.id db r
          (subst (λ k. read_from db (find (has_id k) db.reservations) ≡ ok r) (sym same) e))
      (λ db p. tt))

create-Stored :
    (parse_youtube_url : Bytes → Result YouTubeUrl) (fresh : ℕ) (now : Time) (url : Bytes)
    → Ensures
        (λ _. Unit {0})
        (Service.create parse_youtube_url fresh now url)
        Stored
        (λ _. Unit {0})
unfolding Service.create Public.create
create-Stored parse_youtube_url fresh now url = by_url (parse_youtube_url url)
  where
    anything :
        {A : Type 0} (m : Session Database A)
        → Ensures (λ _. Unit {0}) m (λ _ _. Unit {0}) (λ _. Unit {0})
    anything {A} m = record { at = λ w p. trivial (m w) }
      where
        trivial : (r : Result A × World Database) → After (λ _ _. Unit {0}) (λ _. Unit {0}) r
        trivial (ok a, w) = tt
        trivial (err e, w) = tt

    by_url :
        (o : Result YouTubeUrl)
        → Ensures
            (λ _. Unit {0})
            (Service.create_parsed parse_youtube_url fresh now o)
            Stored
            (λ _. Unit {0})
    by_url (err e) = Ensures-raise _ (λ db p. tt)
    by_url (ok parsed) =
        Ensures-bind _ _ (anything (Public.create_transaction fresh (requested parsed now)))
          (λ id. get-Stored id)

-- A reservation that `Create` answers is what `Get` then reads under its identifier, as long as the
-- database answers.
pub create_then_get :
    (parse_youtube_url : Bytes → Result YouTubeUrl) (fresh : ℕ) (now : Time) (url : Bytes)
    (w : World Database) (r : Reservation)
    → (Service.create parse_youtube_url fresh now url w).0 ≡ ok r
    → let db = (Service.create parse_youtube_url fresh now url w).1.db in
      Service.get r.id (record { db = db; faults = [] }) ≡ (ok r, record { db = db; faults = [] })
unfolding Service.get
create_then_get parse_youtube_url fresh now url w r e =
    stored (Service.create parse_youtube_url fresh now url w) e
      ((create-Stored parse_youtube_url fresh now url).at w tt)
  where
    stored :
        (x : Result Reservation × World Database)
        → x.0 ≡ ok r
        → After Stored (λ _. Unit {0}) x
        → Stored r x.1.db
    stored (ok s, v) e h = let same : s ≡ r = ground arith in subst (λ y. Stored y v.db) same h
    stored (err c, v) e h = absurd (cc)
