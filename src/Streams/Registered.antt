-- ===== src/Streams/Registered.antt =====
-- What `Register` of apps/api/internal/streams/service.go leaves, and what `Get` then reads.
use stream_analysis_tools.Base.{
  ℕ, ◌≡◌, refl, sym, ap, subst, ◌∙◌, Bool, true, false, [], ◌∷◌, Option, none, All, arith, Bytes,
  Time, ◌==◌,
}
use stream_analysis_tools.Errors.{Result, ok, err}
use stream_analysis_tools.Sql.Rows.{StreamRow, Database}
use stream_analysis_tools.Sql.Session.{World, continue, lift, select, statement}
use stream_analysis_tools.Sql.Session.Ensures.{
  After, Ensures, Ensures-pure, Ensures-statement, Ensures-map_err, Ensures-bind,
}
use stream_analysis_tools.Sql.StreamTable.{row_of_metadata, stream_checks, has_video}
use stream_analysis_tools.Sql.Table.{find}
use stream_analysis_tools.Sql.Table.Distinct.{find-none}
use stream_analysis_tools.Streams.Model.{Stream, Metadata}
use stream_analysis_tools.Streams.Normalize.{normalize_metadata}
use stream_analysis_tools.Streams.Repository.{scan_stream, new_stream, create, get, has_key}
use stream_analysis_tools.Streams.Service.{fetch_metadata, register}
use stream_analysis_tools.Streams.Url.{YouTubeUrl}

abbrev same_stream : StreamRow → StreamRow → Bool
same_stream a b = a.id == b.id

module _ (fresh : ℕ) (now : Time) (before : Database) where
  -- A stream was added, of an identifier and a video that no stream had.
  abbrev pub Recorded : Metadata → Stream → Database → Type 0
  Recorded m s db =
      (s ≡ scan_stream (row_of_metadata fresh m now))
      × (db ≡ record before { streams = row_of_metadata fresh m now ∷ before.streams })
      × (stream_checks (row_of_metadata fresh m now) ≡ true)
      × All (λ r. has_key fresh r ≡ false) before.streams
      × All (λ r. has_video m.youtube_video_id r ≡ false) before.streams

  abbrev Same : Database → Type 0
  Same db = db ≡ before

  inserted :
      (row r : StreamRow) (db db' : Database)
      → new_stream row db ≡ ok (r, db')
      → (r ≡ row)
        × (db' ≡ record db { streams = row ∷ db.streams })
        × (stream_checks row ≡ true)
        × (find (λ s. s.id == row.id) db.streams ≡ none)
        × (find (has_video row.youtube_video_id) db.streams ≡ none)
  inserted row r db db' e = ground arith

  inserted-Recorded :
      (m : Metadata) (db : Database)
      → db ≡ before
      → (r : StreamRow) (db' : Database) → new_stream (row_of_metadata fresh m now) db ≡ ok (r, db')
      → Recorded m (scan_stream r) db'
  unfolding row_of_metadata
  inserted-Recorded m db p r db' e =
      let (row, written, checks, no_key, no_video) =
        inserted (row_of_metadata fresh m now) r before db'
          (subst (λ d. new_stream (row_of_metadata fresh m now) d ≡ ok (r, db')) p e) in
      (
        ap scan_stream row,
        written,
        checks,
        find-none same_stream _ before.streams no_key,
        find-none same_stream _ before.streams no_video,
      )

  abbrev Created : Metadata → Stream → Database → Type 0
  Created metadata s db = (m : Metadata) × (normalize_metadata metadata ≡ ok m) × Recorded m s db

  create-Ensures :
      (metadata : Metadata) → Ensures Same (create fresh now metadata) (Created metadata) Same
  unfolding create
  create-Ensures metadata =
      Ensures-bind {R = λ m db. Same db × (normalize_metadata metadata ≡ ok m)} _ _ lifted λ m.
        Ensures-bind {R = λ r db. Created metadata (scan_stream r) db} _ _
          (Ensures-map_err _ _ (
            Ensures-statement _ (λ db p r db' e. (m, p.1, inserted-Recorded m db p.0 r db' e))
              (λ db p. p.0)))
          λ r. Ensures-pure (scan_stream r) (λ db h. h)
    where
      lifted :
          Ensures Same
            (lift (normalize_metadata metadata))
            (λ m db. Same db × (normalize_metadata metadata ≡ ok m))
            Same
      lifted = record { at = λ w p. answered (normalize_metadata metadata) refl w p }
        where
          answered :
              (r : Result Metadata)
              → normalize_metadata metadata ≡ r
              → (w : World Database) → Same w.db
              → After (λ m db. Same db × (normalize_metadata metadata ≡ ok m)) Same (lift r w)
          answered (ok m) e w p = (p, e)
          answered (err x) e w p = p

ok_inj : (x y : Stream) → ok x ≡ ok y → x ≡ y
ok_inj x y e = ground arith

read_back :
    (fresh : ℕ) (now : Time) (before : Database) (m : Metadata)
    → let row = row_of_metadata fresh m now in
      let db = record before { streams = row ∷ before.streams } in
      get (scan_stream row).id (record { db = db; faults = [] })
      ≡ (ok (scan_stream row), record { db = db; faults = [] })
unfolding get select statement find row_of_metadata scan_stream
read_back fresh now before m = let key : (fresh == fresh) ≡ true = ground arith in rw key refl

module _ (parse_youtube_url : Bytes → Result YouTubeUrl)
    (provider : Option (Bytes → Result Metadata)) (fresh : ℕ) (now : Time) (raw_url : Bytes) where
  abbrev pub Registered : Database → Stream → Database → Type 0
  Registered before s db =
      (m : Metadata) × (fetch_metadata parse_youtube_url provider raw_url ≡ ok m)
      × Created fresh now before m s db

  pub register-Registered :
      (w : World Database)
      → After
          (Registered w.db)
          (λ db. db ≡ w.db)
          (register parse_youtube_url provider fresh now raw_url w)
  unfolding register
  register-Registered w = fetched (fetch_metadata parse_youtube_url provider raw_url) refl
    where
      created :
          (m : Metadata)
          → fetch_metadata parse_youtube_url provider raw_url ≡ ok m
          → (r : Result Stream × World Database)
          → After (Created fresh now w.db m) (λ db. db ≡ w.db) r
          → After (Registered w.db) (λ db. db ≡ w.db) r
      created m e (ok s, v) h = (m, e, h)
      created m e (err x, v) h = h

      fetched :
          (r : Result Metadata)
          → fetch_metadata parse_youtube_url provider raw_url ≡ r
          → After (Registered w.db) (λ db. db ≡ w.db) (continue (lift r w) (create fresh now))
      fetched (ok m) e =
          created m e (create fresh now m w) ((create-Ensures fresh now w.db m).at w refl)
      fetched (err x) e = refl

  -- A stream that `Register` answers is what `Get` then reads under its identifier, as long as the
  -- database answers.
  pub register_then_get :
      (w : World Database) (s : Stream)
      → (register parse_youtube_url provider fresh now raw_url w).0 ≡ ok s
      → let db = (register parse_youtube_url provider fresh now raw_url w).1.db in
        get s.id (record { db = db; faults = [] }) ≡ (ok s, record { db = db; faults = [] })
  register_then_get w s e =
      read (register parse_youtube_url provider fresh now raw_url w) e (register-Registered w)
    where
      read :
          (r : Result Stream × World Database)
          → r.0 ≡ ok s
          → After (Registered w.db) (λ db. db ≡ w.db) r
          → get s.id (record { db = r.1.db; faults = [] })
            ≡ (ok s, record { db = r.1.db; faults = [] })
      read (ok x, v) e (m, _, (n, _, (made, written, _, _, _))) =
          let same : s ≡ scan_stream (row_of_metadata fresh n now) = ok_inj s x (sym e) ∙ made in
          rw written (rw same (read_back fresh now w.db n))
      read (err x, v) e h = absurd (cc)
