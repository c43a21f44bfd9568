-- ===== src/Reservations/Repository/Public.antt =====
-- `Create`, `Get`, `List` and `Cancel` of apps/api/internal/reservations/repository.go.
use stream_analysis_tools.Base.{
  Option, ℕ, ◌+◌, Bool, true, false, ◌&&◌, ◌||◌, bytes_eq, List, ◌∷◌, map, none, some, str_eq, Time,
  ◌==◌, ltb, ltb_ℤ, pos, pos_part, length, take, drop, is_some, if◌then◌else◌,
}
use stream_analysis_tools.Errors.{
  Error, Result, ok, err, no_rows, database_error, unique_violation, already_active,
  reservation_not_found, not_cancellable,
}
use stream_analysis_tools.Reservations.Model.{
  State, Reservation, can_cancel, completed, failed, canceled,
}
use stream_analysis_tools.Sql.Rows.{ReservationRow, Database}
use stream_analysis_tools.Sql.Session.{
  Session, pure, raise, map_err, ◌>>=◌, ◌>>◌, statement, select, transact,
}
use stream_analysis_tools.Sql.Table.{find, order_by}
use stream_analysis_tools.Streams.Model.{ListOptions}
use stream_analysis_tools.Reservations.Repository.Rows.{
  job_of, scan_reservation, has_id, update_reservations, insert_transition,
}

-- `Get`
unfoldable pub get : ℕ → Session Database Reservation
unfolding select
get id =
    map_err (λ e. elim e [ no_rows ↦ reservation_not_found | other_error ↦ other_error ])
      (select λ db. elim (find (has_id id) db.reservations) [
        | none ↦ err no_rows
        | some r ↦ ok (scan_reservation r (job_of db r.collection_job_id))
      ])

-- state NOT IN ('completed', 'failed', 'canceled')
unfoldable pub is_active : State → Bool
is_active completed = false
is_active failed = false
is_active canceled = false
is_active _ = true

-- The row that the INSERT of `Create` adds, with the table's defaults.
unfoldable pub new_row : ℕ → Reservation → ReservationRow
new_row id r = record {
  id = id;
  youtube_video_id = r.youtube_video_id;
  source_url = r.source_url;
  state = r.state;
  stream_id = none;
  collection_job_id = none;
  scheduled_start_at = none;
  actual_start_at = none;
  actual_end_at = none;
  next_check_at = r.next_check_at;
  last_checked_at = none;
  monitor_attempt = 0;
  last_error_code = none;
  last_error_message = none;
  last_error_retryable = none;
  worker_id = none;
  heartbeat_at = none;
  lease_expires_at = none;
  revision = 0;
  canceled_at = none;
  completed_at = none;
  failed_at = none;
  created_at = r.next_check_at;
  updated_at = r.next_check_at;
}

-- Two rows that the partial unique index reservations_active_video_uidx keeps apart.
unfoldable pub conflicts : ReservationRow → ReservationRow → Bool
unfolding is_active
conflicts a b =
    is_active a.state && is_active b.state && bytes_eq a.youtube_video_id b.youtube_video_id

-- The INSERT against the primary key and the partial unique index. `id` is what
-- gen_random_uuid() gives.
abbrev pub insertion : ℕ → Reservation → Database → Result (ℕ × Database)
insertion id r db =
    if is_some (find (has_id id) db.reservations)
    then err (unique_violation "reservations_pkey")
    else if is_some (find (conflicts (new_row id r)) db.reservations)
    then err (unique_violation "reservations_active_video_uidx")
    else ok (id, record db { reservations = new_row id r ∷ db.reservations })

unfoldable pub insert_reservation : ℕ → Reservation → Session Database ℕ
unfolding statement
insert_reservation id r = statement (insertion id r)

abbrev pub creation_error : Error → Error
creation_error (unique_violation name) =
    if str_eq name "reservations_active_video_uidx" then already_active else unique_violation name
creation_error e = e

-- `Create`
unfoldable pub create_transaction : ℕ → Reservation → Session Database ℕ
create_transaction fresh r = transact do
  id ← map_err creation_error (insert_reservation fresh r)
  insert_transition id none r.state "reservation_created" r.next_check_at
  pure id

unfoldable pub create : ℕ → Reservation → Session Database Reservation
unfolding create_transaction
create fresh r = do id ← create_transaction fresh r; get id

-- `Cancel`
unfoldable pub canceled_row : Time → ReservationRow → ReservationRow
canceled_row at r = record r {
  state = canceled;
  canceled_at = some at;
  next_check_at = at;
  worker_id = none;
  heartbeat_at = none;
  lease_expires_at = none;
  revision = r.revision + 1;
  updated_at = at;
}

abbrev pub locking_error : Error → Error
locking_error no_rows = reservation_not_found
locking_error e = e

unfoldable pub cancel_if : Bool → ℕ → State → Time → Session Database (Unit {0})
cancel_if false id state at = raise not_cancellable
cancel_if true id state at = do
  _ ← update_reservations (has_id id) (canceled_row at)
  insert_transition id (some state) canceled "user_canceled" at

-- SELECT state … FOR UPDATE
abbrev pub state_of : Option ReservationRow → Result State
state_of none = err no_rows
state_of (some r) = ok r.state

unfoldable pub cancel_transaction : ℕ → Time → Session Database (Unit {0})
unfolding cancel_if
cancel_transaction id at = transact do
  state ← map_err locking_error (select λ db. state_of (find (has_id id) db.reservations))
  cancel_if (can_cancel state) id state at

unfoldable pub cancel : ℕ → Time → Session Database Reservation
unfolding cancel_transaction
cancel id at = do cancel_transaction id at; get id

-- `List`
newer : ReservationRow → ReservationRow → Bool
newer a b = ltb b.created_at a.created_at || (a.created_at == b.created_at && ltb b.id a.id)

list_page : ListOptions → Database → Result (List Reservation)
unfolding newer
list_page options db =
    if ltb_ℤ options.limit (pos 0) || ltb_ℤ options.offset (pos 0)
    then err database_error
    else ok (
        map (λ r. scan_reservation r (job_of db r.collection_job_id))
          (take (pos_part options.limit)
            (drop (pos_part options.offset) (order_by newer db.reservations))))

unfoldable pub list : ListOptions → Session Database (List Reservation × ℕ)
unfolding list_page
list options = do
  total ← select (λ db. ok (length db.reservations))
  items ← select (list_page options)
  pure (items, total)
