-- ===== src/Reservations/Repository/Guarded.antt =====
-- The operations of apps/api/internal/reservations/repository.go that a claim guards:
-- `ApplyMetadata`, `SyncCollection` and `RecordFailure`, with `ensureAutomaticCollectionJob`.
use stream_analysis_tools.Base.{
  ℕ, ◌+◌, Bool, not, ◌&&◌, ◌||◌, Option, none, some, coalesce, String, Time, ◌==◌, ltb, is_none,
  if◌then◌else◌,
}
use stream_analysis_tools.Errors.{other, unique_violation, lease_lost}
use stream_analysis_tools.Reservations.Model.{State, ClaimedReservation, state_eq, collecting}
use stream_analysis_tools.Reservations.Repository.Leases.{owns}
use stream_analysis_tools.Reservations.Repository.Rows.{
  or_no_rows, update_reservations, insert_transition,
}
use stream_analysis_tools.Reservations.Schedule.{state_from_metadata, next_check}
use stream_analysis_tools.Sql.Jobs.{same_id, pending_for, for_reservation, insert_job}
use stream_analysis_tools.Sql.Rows.{ReservationRow, JobRow, Database}
use stream_analysis_tools.Sql.Session.{
  Session, pure, raise, lift, optional, ◌>>=◌, select, checked, transact,
}
use stream_analysis_tools.Sql.StreamTable.{upsert_stream}
use stream_analysis_tools.Sql.Table.{find, is_distinct, count, update, first_by}
use stream_analysis_tools.Streams.Model.{LifecycleStatus, Metadata}

-- What the database gives for the rows that an operation may add.
pub record Supply : Type 0 where
  pub stream_id : ℕ
  pub job_id : ℕ
  pub now : Time

-- ORDER BY requested_at, id
unfoldable pub requested_before : JobRow → JobRow → Bool
requested_before a b =
    ltb a.requested_at b.requested_at || (a.requested_at == b.requested_at && ltb a.id b.id)

unfoldable pub linked_job : ℕ → Time → JobRow → JobRow
linked_job reservation_id now j = record j {
  reservation_id = some reservation_id;
  updated_at = now;
}

-- WHERE id = $1 AND reservation_id IS NULL
abbrev pub unlinked : ℕ → JobRow → Bool
unlinked id j = j.id == id && is_none j.reservation_id

-- Two rows that the unique index collection_jobs_reservation_uidx keeps apart.
abbrev pub of_same_reservation : JobRow → JobRow → Bool
of_same_reservation a b = same_id a.reservation_id b.reservation_id

unfoldable pub link_job : ℕ → ℕ → Time → Session Database ℕ
unfolding checked
link_job id reservation_id now =
    checked (λ db. is_distinct of_same_reservation db.jobs)
      (unique_violation "collection_jobs_reservation_uidx")
      λ db. (
        count (unlinked id) db.jobs,
        record db { jobs = update (unlinked id) (linked_job reservation_id now) db.jobs },
      )

unfoldable pub adopt_job : ℕ → Supply → ℕ → Session Database ℕ
unfolding link_job
adopt_job id supply reservation_id = do
  affected ← link_job id reservation_id supply.now
  if affected == 1
      then pure id
      else raise (other "active collection job belongs to another reservation")

unfoldable pub create_job : Option JobRow → Supply → ℕ → ℕ → Session Database ℕ
unfolding adopt_job
create_job (some j) supply reservation_id stream_id = adopt_job j.id supply reservation_id
create_job none supply reservation_id stream_id = do
  row ← insert_job supply.job_id stream_id (some reservation_id) supply.now
  pure row.id

unfoldable pub job_unless : Option JobRow → Supply → ℕ → ℕ → Session Database ℕ
unfolding create_job
job_unless (some j) supply reservation_id stream_id = pure j.id
job_unless none supply reservation_id stream_id = do
  active ←
      optional (select λ db. or_no_rows (first_by requested_before (pending_for stream_id) db.jobs))
  create_job active supply reservation_id stream_id

-- `ensureAutomaticCollectionJob`
unfoldable pub ensure_automatic_collection_job : Supply → ℕ → ℕ → Session Database ℕ
unfolding job_unless
ensure_automatic_collection_job supply reservation_id stream_id = do
  own ← optional (select λ db. or_no_rows (find (for_reservation reservation_id) db.jobs))
  job_unless own supply reservation_id stream_id

-- `if metadata.LifecycleStatus == LifecycleEnded { … upsertObservedStream … }`
unfoldable pub observed_stream : Supply → Metadata → Session Database (Option ℕ)
observed_stream supply m = elim m.lifecycle_status [
  | LifecycleStatus.ended ↦ do
    row ← upsert_stream supply.stream_id m m.metadata_fetched_at supply.now
    pure (some row.id)
  | _ ↦ pure none
]

unfoldable pub job_for_stream : Supply → ℕ → Option ℕ → Session Database (Option ℕ)
unfolding ensure_automatic_collection_job
job_for_stream supply reservation_id none =
    raise (other "archive-ready reservation requires a stream")
job_for_stream supply reservation_id (some stream_id) = do
  id ← ensure_automatic_collection_job supply reservation_id stream_id
  pure (some id)

-- `if targetState == StateCollecting { … }`
unfoldable pub collection_job : Supply → State → ℕ → Option ℕ → Session Database (Option ℕ)
unfolding job_for_stream
collection_job supply target reservation_id stream_id =
    if state_eq target collecting then job_for_stream supply reservation_id stream_id else pure none

unfoldable pub observed_row :
    State → Metadata → Time → Time → Option ℕ → Option ℕ → ReservationRow → ReservationRow
observed_row target m next_check_at checked_at stream_id job_id r = record r {
  state = target;
  scheduled_start_at = coalesce m.scheduled_start_at r.scheduled_start_at;
  actual_start_at = coalesce m.actual_start_at r.actual_start_at;
  actual_end_at = coalesce m.actual_end_at r.actual_end_at;
  next_check_at = next_check_at;
  last_checked_at = some checked_at;
  monitor_attempt = r.monitor_attempt + 1;
  last_error_code = none;
  last_error_message = none;
  last_error_retryable = none;
  stream_id = coalesce stream_id r.stream_id;
  collection_job_id = job_id;
  worker_id = none;
  lease_expires_at = none;
  heartbeat_at = none;
  revision = r.revision + 1;
  updated_at = checked_at;
}

-- `if command.RowsAffected() != 1 { return ErrLeaseLost }`, and then the log of a change of state.
unfoldable pub logged :
    ℕ → Bool → ClaimedReservation → State → String → Time → Session Database (Unit {0})
logged affected changed claimed target reason at =
    if affected == 1
    then if changed
      then insert_transition claimed.id (some claimed.state) target reason at
      else pure tt
    else raise lease_lost

unfoldable pub apply_observation :
    Supply → ClaimedReservation → Metadata → Time → State × String → Session Database (Unit {0})
unfolding logged
apply_observation supply claimed m checked_at (target, reason) = transact do
  stream_id ← observed_stream supply m
  job_id ← collection_job supply target claimed.id stream_id
  affected ← update_reservations (owns claimed checked_at) (
      observed_row target m
        (next_check target m.scheduled_start_at (claimed.monitor_attempt + 1) checked_at) checked_at
        stream_id job_id)
  logged affected (not (state_eq target claimed.state)) claimed target reason checked_at

-- `ApplyMetadata`
unfoldable pub apply_metadata :
    Supply → ClaimedReservation → Metadata → Time → Session Database (Unit {0})
apply_metadata supply claimed m checked_at = do
  answer ← lift (state_from_metadata claimed.state m)
  apply_observation supply claimed m checked_at answer
