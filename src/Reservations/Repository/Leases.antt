-- ===== src/Reservations/Repository/Leases.antt =====
-- `ClaimDue` and `Heartbeat` of apps/api/internal/reservations/repository.go.
use stream_analysis_tools.Base.{
  ℤ, pos, pos_part, ◌+◌, Bool, true, false, ◌&&◌, ◌||◌, Option, none, some, String, str_eq, Time,
  ◌==◌, ltb, leb, ltb_ℤ, later_than, if◌then◌else◌, not,
}
use stream_analysis_tools.Errors.{Error, Result, ok, err, no_rows, other, lease_lost}
use stream_analysis_tools.Reservations.Model.{
  State, ClaimedReservation, scheduled, monitoring, live, waiting_for_archive, collecting,
}
use stream_analysis_tools.Reservations.Repository.Rows.{has_id, scan_claimed_reservation}
use stream_analysis_tools.Sql.Rows.{ReservationRow, Database}
use stream_analysis_tools.Sql.Session.{Session, raise, map_err, optional, statement}
use stream_analysis_tools.Sql.Table.{find, update, first_by}

-- state IN ('scheduled', 'monitoring', 'live', 'waiting_for_archive', 'collecting')
unfoldable pub is_open : State → Bool
is_open scheduled = true
is_open monitoring = true
is_open live = true
is_open waiting_for_archive = true
is_open collecting = true
is_open _ = false

-- lease_expires_at IS NULL OR lease_expires_at <= $2
abbrev pub is_free : Option Time → Time → Bool
is_free none at = true
is_free (some expires_at) at = leb expires_at at

-- The condition of the candidate.
unfoldable pub is_due : Time → ReservationRow → Bool
unfolding is_open
is_due at r = is_open r.state && leb r.next_check_at at && is_free r.lease_expires_at at

-- ORDER BY next_check_at, created_at, id
unfoldable pub due_before : ReservationRow → ReservationRow → Bool
due_before a b =
    ltb a.next_check_at b.next_check_at
    || (a.next_check_at == b.next_check_at
        && (ltb a.created_at b.created_at || (a.created_at == b.created_at && ltb a.id b.id)))

unfoldable pub claimed_row : String → Time → Time → ReservationRow → ReservationRow
claimed_row worker_id at expires_at r = record r {
  worker_id = some worker_id;
  heartbeat_at = some at;
  lease_expires_at = some expires_at;
  revision = r.revision + 1;
  updated_at = at;
}

abbrev pub claim_candidate :
    String → Time → Time → Database → Option ReservationRow → Result (ClaimedReservation × Database)
claim_candidate worker_id at expires_at db none = err no_rows
claim_candidate worker_id at expires_at db (some r) = ok (
  scan_claimed_reservation (claimed_row worker_id at expires_at r),
  record db {
    reservations = update (has_id r.id) (claimed_row worker_id at expires_at) db.reservations;
  },
)

-- `ClaimDue`
unfoldable pub claim_due : String → Time → ℤ → Session Database (Option ClaimedReservation)
claim_due worker_id claimed_at lease_duration =
    if str_eq worker_id ""
    then raise (other "reservation worker ID is required")
    else if not (ltb_ℤ (pos 0) lease_duration)
    then raise (other "reservation lease duration must be positive")
    else optional (
        statement λ db.
          claim_candidate worker_id claimed_at (claimed_at + pos_part lease_duration) db
            (first_by due_before (is_due claimed_at) db.reservations))

-- worker_id = $2, which NULL never is
abbrev pub held_by : Option String → String → Bool
held_by none worker_id = false
held_by (some w) worker_id = str_eq w worker_id

-- id = $1 AND worker_id = $2 AND revision = $3 AND lease_expires_at > …
unfoldable pub owns : ClaimedReservation → Time → ReservationRow → Bool
owns claimed at r =
    has_id claimed.id r
    && held_by r.worker_id claimed.lease.worker_id
    && r.revision == claimed.lease.revision
    && later_than r.lease_expires_at at

unfoldable pub beaten_row : Time → Time → ReservationRow → ReservationRow
beaten_row at expires_at r = record r {
  heartbeat_at = some at;
  lease_expires_at = some expires_at;
  revision = r.revision + 1;
  updated_at = at;
}

abbrev pub renew_owned :
    (ReservationRow → Bool)
    → (ReservationRow → ReservationRow)
    → Database
    → Option ReservationRow
    → Result (ClaimedReservation × Database)
renew_owned test set db none = err no_rows
renew_owned test set db (some r) =
    ok (
      scan_claimed_reservation (set r),
      record db { reservations = update test set db.reservations },
    )

-- The condition of `Heartbeat`.
abbrev pub beats : ClaimedReservation → Time → ReservationRow → Bool
beats claimed at r = owns claimed at r && is_open r.state

abbrev pub heartbeat_error : Error → Error
heartbeat_error no_rows = lease_lost
heartbeat_error e = e

-- `Heartbeat`
unfoldable pub heartbeat : ClaimedReservation → Time → ℤ → Session Database ClaimedReservation
heartbeat claimed at lease_duration =
    if not (ltb_ℤ (pos 0) lease_duration)
    then raise (other "reservation lease duration must be positive")
    else map_err heartbeat_error (
        statement λ db.
          renew_owned (beats claimed at) (beaten_row at (at + pos_part lease_duration)) db
            (find (beats claimed at) db.reservations))
