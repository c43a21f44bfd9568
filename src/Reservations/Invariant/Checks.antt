-- ===== src/Reservations/Invariant/Checks.antt =====
-- The CHECK constraints of reservation.reservations (migrations/000006_create_reservations.up.sql)
-- on one row, and the writes of the repository, each of which keeps them.
use Prim.Native.String.{count}
use stream_analysis_tools.Base.{
  ℕ, ◌≤◌, ◌<◌, ◌≡◌, ◌≢◌, ◌⊎◌, Bool, true, false, not, ◌&&◌, Option, none, some, is_some, is_none,
  String, str_eq, Bytes, char_length, ◌==◌, Time, ltb, leb, arith,
}
use stream_analysis_tools.Reservations.Model.{
  State, Reservation, can_cancel, scheduled, waiting_for_archive, collecting, completed, failed,
  canceled,
}
use stream_analysis_tools.Reservations.Repository.Leases.{is_open, claimed_row, beaten_row}
use stream_analysis_tools.Reservations.Repository.Outcomes.{Failure, synced_row, failed_row}
use stream_analysis_tools.Reservations.Repository.Guarded.{observed_row}
use stream_analysis_tools.Reservations.Repository.Public.{new_row, canceled_row}
use stream_analysis_tools.Sql.Rows.{ReservationRow}
use stream_analysis_tools.Streams.Model.{Metadata}

-- reservations_collection_fields_check
pub collection_fields : State → Option ℕ → Option ℕ → Bool
collection_fields waiting_for_archive stream_id job_id = is_some stream_id && is_none job_id
collection_fields collecting stream_id job_id = is_some stream_id && is_some job_id
collection_fields completed stream_id job_id = is_some stream_id && is_some job_id
collection_fields state stream_id job_id = is_none job_id

-- reservations_terminal_timestamps_check
pub terminal_timestamps : State → Option Time → Option Time → Option Time → Bool
terminal_timestamps completed completed_at failed_at canceled_at =
    is_some completed_at && is_none failed_at && is_none canceled_at
terminal_timestamps failed completed_at failed_at canceled_at =
    is_none completed_at && is_some failed_at && is_none canceled_at
terminal_timestamps canceled completed_at failed_at canceled_at =
    is_none completed_at && is_none failed_at && is_some canceled_at
terminal_timestamps state completed_at failed_at canceled_at =
    is_none completed_at && is_none failed_at && is_none canceled_at

-- reservations_monitoring_error_check; a text is empty exactly if it has no characters.
pub monitoring_error : Option String → Option String → Option Bool → Bool
monitoring_error none none none = true
monitoring_error (some code) (some message) (some retryable) =
    not (str_eq code "") && leb (count message) 1000
monitoring_error _ _ _ = false

-- reservations_lease_fields_check
pub lease_fields : State → Option String → Option Time → Option Time → Bool
unfolding is_open
lease_fields state none none none = true
lease_fields state (some worker_id) (some expires_at) (some heartbeat_at) =
    not (str_eq worker_id "") && ltb heartbeat_at expires_at && is_open state
lease_fields state _ _ _ = false

-- reservations_youtube_video_id_check and reservations_source_url_check
unfoldable pub identity_fields : Bytes → Bytes → Bool
identity_fields youtube_video_id source_url =
    char_length youtube_video_id == 11 && ltb 0 (char_length source_url)

-- The checks of the state and that the two counters are not negative hold of every row by its type.
pub record RowChecks (r : ReservationRow) : Type 0 where
  pub identity : identity_fields r.youtube_video_id r.source_url ≡ true
  pub collection : collection_fields r.state r.stream_id r.collection_job_id ≡ true
  pub timestamps : terminal_timestamps r.state r.completed_at r.failed_at r.canceled_at ≡ true
  pub error : monitoring_error r.last_error_code r.last_error_message r.last_error_retryable ≡ true
  pub lease : lease_fields r.state r.worker_id r.lease_expires_at r.heartbeat_at ≡ true

pub new_row-RowChecks :
    (id : ℕ) (r : Reservation)
    → r.state ≡ scheduled
    → identity_fields r.youtube_video_id r.source_url ≡ true
    → RowChecks (new_row id r)
unfolding new_row collection_fields terminal_timestamps monitoring_error lease_fields
new_row-RowChecks id r h i = ground arith

pub canceled_row-RowChecks :
    (at : Time) (r : ReservationRow)
    → can_cancel r.state ≡ true
    → RowChecks r
    → RowChecks (canceled_row at r)
unfolding canceled_row can_cancel collection_fields terminal_timestamps monitoring_error
    lease_fields
canceled_row-RowChecks at r h v = ground arith

pub claimed_row-RowChecks :
    (worker_id : String) (at expires_at : Time) (r : ReservationRow)
    → str_eq worker_id "" ≡ false
    → at < expires_at
    → is_open r.state ≡ true
    → RowChecks r
    → RowChecks (claimed_row worker_id at expires_at r)
unfolding claimed_row lease_fields
claimed_row-RowChecks worker_id at expires_at r w t o v = ground arith

pub beaten_row-RowChecks :
    (at expires_at : Time) (r : ReservationRow)
    → at < expires_at
    → is_some r.lease_expires_at ≡ true
    → RowChecks r
    → RowChecks (beaten_row at expires_at r)
unfolding beaten_row lease_fields
beaten_row-RowChecks at expires_at r t l v = ground arith

-- A row with a lease is in an open state.
pub lease-open :
    (r : ReservationRow) → RowChecks r → is_some r.lease_expires_at ≡ true → is_open r.state ≡ true
unfolding lease_fields
lease-open r v h = ground arith

-- The observation's write, where the stream and the job are there that the target state wants.
abbrev pub Supplies : State → State → Option ℕ → Option ℕ → Type 0
Supplies from to stream_id job_id =
    ((from ≡ waiting_for_archive) ⊎ (to ≢ waiting_for_archive) ⊎ (is_some stream_id ≡ true))
    × ((to ≢ collecting) ⊎ (is_some stream_id ≡ true))
    × ((to ≡ collecting) × (is_some job_id ≡ true) ⊎ (to ≢ collecting) × (job_id ≡ none))

pub observed_row-RowChecks :
    (to : State) (m : Metadata) (next at : Time) (stream_id job_id : Option ℕ) (r : ReservationRow)
    → is_open r.state ≡ true
    → is_open to ≡ true
    → Supplies r.state to stream_id job_id
    → RowChecks r
    → RowChecks (observed_row to m next at stream_id job_id r)
unfolding observed_row is_open collection_fields terminal_timestamps monitoring_error lease_fields
observed_row-RowChecks to m next at stream_id job_id r o t s v = ground arith

pub synced_row-RowChecks :
    (to : State) (at : Time) (r : ReservationRow)
    → r.state ≡ collecting
    → (to ≡ collecting) ⊎ (to ≡ completed)
    → RowChecks r
    → RowChecks (synced_row to at r)
unfolding synced_row collection_fields terminal_timestamps monitoring_error lease_fields
synced_row-RowChecks to at r c t v = ground arith

pub failed_row-RowChecks :
    (f : Failure) (at : Time) (code message : String) (r : ReservationRow)
    → can_cancel r.state ≡ true
    → ((f.target ≡ r.state) × (f.failed_at ≡ none))
      ⊎ ((f.target ≡ failed) × (f.failed_at ≡ some at))
    → str_eq code "" ≡ false
    → count message ≤ 1000
    → RowChecks r
    → RowChecks (failed_row f at code message r)
unfolding failed_row can_cancel collection_fields terminal_timestamps monitoring_error lease_fields
failed_row-RowChecks f at code message r c t n l v = ground arith
