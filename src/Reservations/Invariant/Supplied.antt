-- ===== src/Reservations/Invariant/Supplied.antt =====
-- The stream and the job that `ApplyMetadata` makes sure of before it writes the reservation.
use stream_analysis_tools.Base.{
  ℕ, ◌≡◌, refl, ◌≢◌, ◌⊎◌, inl, inr, Bool, true, false, Option, none, some, ◌∷◌, is_some, arith,
  ◌==◌, Time, Bool-cases, subst,
}
use stream_analysis_tools.Errors.{ok, unique_violation}
use stream_analysis_tools.Reservations.Invariant.Defs.{Frame}
use stream_analysis_tools.Reservations.Machine.{state_eq→eq, state_eq_refl}
use stream_analysis_tools.Reservations.Model.{State, state_eq, collecting}
use stream_analysis_tools.Reservations.Repository.Guarded.{
  Supply, of_same_reservation, unlinked, linked_job, link_job, adopt_job, create_job, job_unless,
  ensure_automatic_collection_job, observed_stream, job_for_stream, collection_job,
}
use stream_analysis_tools.Sql.Jobs.{new_job, insertion, insert_job}
use stream_analysis_tools.Sql.Rows.{JobRow, StreamRow, Database}
use stream_analysis_tools.Sql.Session.{Session, pure, ◌>>=◌}
use stream_analysis_tools.Sql.Session.Ensures.{
  Ensures, Ensures-pure, Ensures-raise, Ensures-statement, Ensures-checked, Ensures-select,
  Ensures-optional, Ensures-bind,
}
use stream_analysis_tools.Sql.StreamTable.{
  row_of_metadata, has_video, merged, insert_on, upsertion, upsert_on, stream_checks, upsert_stream,
}
use stream_analysis_tools.Sql.Table.{count, update, is_distinct}
use stream_analysis_tools.Streams.Model.{LifecycleStatus, Metadata}

module _ {P : Database → Type 0} (frame : Frame P) where
  inserted :
      (row : StreamRow) (db : Database) (b : Bool) (a : StreamRow) (db' : Database)
      → insert_on row db b ≡ ok (a, db')
      → P db
      → P db'
  inserted row db true a db' e p = cc
  inserted row db false a db' e p =
      let same : record db { streams = row ∷ db.streams } ≡ db' = ground arith in
      subst P same (frame.at_streams db _ p)

  upserted :
      (row : StreamRow) (at : Time) (db : Database) (o : Option StreamRow) (a : StreamRow)
      (db' : Database)
      → upsert_on row at db o ≡ ok (a, db')
      → P db
      → P db'
  upserted row at db none a db' e p = inserted row db _ a db' e p
  upserted row at db (some old) a db' e p =
      let ss = update (has_video row.youtube_video_id) (merged row at) db.streams in
      let same : record db { streams = ss } ≡ db' = ground arith in
      subst P same (frame.at_streams db ss p)

  pub upsert_stream-Frame :
      (id : ℕ) (m : Metadata) (at now : Time)
      → Ensures P (upsert_stream id m at now) (λ _ db. P db) P
  unfolding upsert_stream
  upsert_stream-Frame id m at now = Ensures-statement _ kept (λ db p. p)
    where
      kept :
          (db : Database)
          → P db
          → (a : StreamRow) (db' : Database)
          → upsertion (row_of_metadata id m now) at db ≡ ok (a, db')
          → P db'
      kept db p a db' e = elim (Bool-cases (stream_checks (row_of_metadata id m now))) [
        | inl fit ↦ upserted _ at db _ a db' (rw fit at e) p
        | inr unfit ↦ absurd (ground arith)
      ]

  insert_job-Frame :
      (id stream_id : ℕ) (reservation_id : Option ℕ) (now : Time)
      → Ensures P (insert_job id stream_id reservation_id now) (λ _ db. P db) P
  unfolding insert_job
  insert_job-Frame id stream_id reservation_id now = Ensures-statement _ kept (λ db p. p)
    where
      row : JobRow
      row = new_job id stream_id reservation_id now

      kept :
          (db : Database)
          → P db
          → (a : JobRow) (db' : Database) → insertion row db ≡ ok (a, db')
          → P db'
      kept db p a db' e =
          let same : record db { jobs = row ∷ db.jobs } ≡ db' = ground arith in
          subst P same (frame.at_jobs db _ p)

  adopt_job-Frame :
      (id : ℕ) (supply : Supply) (reservation_id : ℕ)
      → Ensures P (adopt_job id supply reservation_id) (λ _ db. P db) P
  unfolding adopt_job link_job
  adopt_job-Frame id supply reservation_id =
      Ensures-bind {R = λ _ db. P db} _ _
        (Ensures-checked (λ db. is_distinct of_same_reservation db.jobs)
          (unique_violation "collection_jobs_reservation_uidx")
          (λ db. (
            count (unlinked id) db.jobs,
            record db {
              jobs = update (unlinked id) (linked_job reservation_id supply.now) db.jobs;
            },
          ))
          (λ db p. frame.at_jobs db _ p) (λ db p. p))
        λ n. elim (Bool-cases (n == 1)) [
          | inl one ↦ rw one (Ensures-pure id (λ db p. p))
          | inr other ↦ rw other (Ensures-raise _ (λ db p. p))
        ]

  create_job-Frame :
      (o : Option JobRow) (supply : Supply) (reservation_id stream_id : ℕ)
      → Ensures P (create_job o supply reservation_id stream_id) (λ _ db. P db) P
  unfolding create_job
  create_job-Frame (some j) supply reservation_id stream_id =
      adopt_job-Frame j.id supply reservation_id
  create_job-Frame none supply reservation_id stream_id =
      Ensures-bind _ _ (insert_job-Frame supply.job_id stream_id (some reservation_id) supply.now)
        (λ row. Ensures-pure row.id (λ db p. p))

  job_unless-Frame :
      (o : Option JobRow) (supply : Supply) (reservation_id stream_id : ℕ)
      → Ensures P (job_unless o supply reservation_id stream_id) (λ _ db. P db) P
  unfolding job_unless
  job_unless-Frame (some j) supply reservation_id stream_id = Ensures-pure j.id (λ db p. p)
  job_unless-Frame none supply reservation_id stream_id =
      Ensures-bind {R = λ _ db. P db} _ _
        (Ensures-optional _ (λ db p. p) (Ensures-select _ (λ db p a e. p) (λ db p. p)))
        (λ o. create_job-Frame o supply reservation_id stream_id)

  pub ensure_automatic_collection_job-Frame :
      (supply : Supply) (reservation_id stream_id : ℕ)
      → Ensures P (ensure_automatic_collection_job supply reservation_id stream_id) (λ _ db. P db) P
  unfolding ensure_automatic_collection_job
  ensure_automatic_collection_job-Frame supply reservation_id stream_id =
      Ensures-bind {R = λ _ db. P db} _ _
        (Ensures-optional _ (λ db p. p) (Ensures-select _ (λ db p a e. p) (λ db p. p)))
        (λ o. job_unless-Frame o supply reservation_id stream_id)

  -- A stream is there whenever the broadcast has ended.
  pub observed_stream-Frame :
      (supply : Supply) (m : Metadata)
      → Ensures P
          (observed_stream supply m)
          (λ o db. P db × (m.lifecycle_status ≡ LifecycleStatus.ended → is_some o ≡ true))
          P
  unfolding observed_stream
  observed_stream-Frame supply m = by_status m.lifecycle_status
    where
      by_status :
          (s : LifecycleStatus)
          → Ensures P
              (elim s as (λ _. Session Database (Option ℕ)) [
                | LifecycleStatus.ended ↦
                    upsert_stream supply.stream_id m m.metadata_fetched_at supply.now >>= λ row.
                    pure (some row.id)
                | _ ↦ pure none
              ])
              (λ o db. P db × (s ≡ LifecycleStatus.ended → is_some o ≡ true))
              P
      by_status LifecycleStatus.ended =
          Ensures-bind _ _ (upsert_stream-Frame supply.stream_id m m.metadata_fetched_at supply.now)
            (λ row. Ensures-pure (some row.id) (λ db p. (p, λ _. refl)))
      by_status _ = Ensures-pure none (λ db p. (p, λ e. cc))

  -- A job is there exactly when the target is collecting, and then a stream is too.
  pub collection_job-Frame :
      (supply : Supply) (to : State) (reservation_id : ℕ) (stream_id : Option ℕ)
      → Ensures P
          (collection_job supply to reservation_id stream_id)
          (λ o db.
            P db
            × ((to ≢ collecting) ⊎ (is_some stream_id ≡ true))
            × ((to ≡ collecting) × (is_some o ≡ true) ⊎ (to ≢ collecting) × (o ≡ none)))
          P
  unfolding collection_job
  collection_job-Frame supply to reservation_id stream_id =
      elim (Bool-cases (state_eq to collecting)) [
        | inr other ↦
            let ne : to ≢ collecting = ground (arith, other, state_eq_refl collecting) in
            rw other (Ensures-pure none (λ db p. (p, inl ne, inr (ne, refl))))
        | inl same ↦ rw same (for_stream stream_id (state_eq→eq to collecting same))
      ]
    where
      for_stream :
          (o : Option ℕ)
          → to ≡ collecting
          → Ensures P
              (job_for_stream supply reservation_id o)
              (λ j db.
                P db
                × ((to ≢ collecting) ⊎ (is_some o ≡ true))
                × ((to ≡ collecting) × (is_some j ≡ true) ⊎ (to ≢ collecting) × (j ≡ none)))
              P
      for_stream none e = Ensures-raise _ (λ db p. p)
      for_stream (some id) e =
          Ensures-bind _ _ (ensure_automatic_collection_job-Frame supply reservation_id id)
            (λ j. Ensures-pure (some j) (λ db p. (p, inr refl, inl (e, refl))))
