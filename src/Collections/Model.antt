-- ===== src/Collections/Model.antt =====
-- apps/api/internal/collections/model.go, without the cursor.
use stream_analysis_tools.Base.{
  ℕ, ℤ, Bool, true, false, ◌&&◌, Option, none, some, String, Bytes, Time, List, ◌==◌, str_eq,
  if◌then◌else◌,
}

pub data JobStatus : Type 0 where
  queued running succeeded no_data failed : JobStatus

pub record SafeError : Type 0 where
  pub code : String
  pub message : String
  pub retryable : Bool

pub record Job : Type 0 where
  pub id : ℕ
  pub stream_id : ℕ
  pub kind : String
  pub status : JobStatus
  pub attempt : ℕ
  pub processed_count : ℕ
  pub skipped_count : ℕ
  pub requested_at : Time
  pub started_at : Option Time
  pub updated_at : Time
  pub finished_at : Option Time
  pub error : Option SafeError

abbrev public_status_of : JobStatus → ℕ → ℕ → JobStatus
public_status_of succeeded processed skipped =
    if processed == 0 && skipped == 0 then no_data else succeeded
public_status_of status processed skipped = status

-- `Job.PublicStatus`
unfoldable pub public_status : Job → JobStatus
public_status job = public_status_of job.status job.processed_count job.skipped_count

abbrev current_step_of : JobStatus → Option String
current_step_of queued = some "chat_replay"
current_step_of running = some "chat_replay"
current_step_of _ = none

-- `Job.CurrentStep`
unfoldable pub current_step : Job → Option String
current_step job = current_step_of job.status

pub record ChatMessage : Type 0 where
  pub id : ℕ
  pub author_channel_id : Option Bytes
  pub author_display_name : Bytes
  pub message_text : Bytes
  pub published_at : Time
  pub offset_milliseconds : ℤ
  pub message_type : String

pub record ActivityBucket : Type 0 where
  pub start_offset_milliseconds : ℕ
  pub message_count : ℕ

pub record Activity : Type 0 where
  pub bucket_seconds : ℤ
  pub items : List ActivityBucket

pub record Cursor : Type 0 where
  pub offset_milliseconds : ℤ
  pub id : ℕ

pub record MessagePage : Type 0 where
  pub items : List ChatMessage
  pub next_cursor : Option Bytes

abbrev safe_error : String → String → Bool → SafeError
safe_error code message retryable = record { code = code; message = message; retryable = retryable }

-- `safeErrorFor`
unfoldable pub safe_error_for : String → SafeError
safe_error_for code =
    if str_eq code "CHAT_REPLAY_NOT_AVAILABLE"
    then safe_error code "Chat replay is not available for this stream." false
    else if str_eq code "SOURCE_NOT_READY"
    then safe_error code "The stream archive is not ready yet." true
    else if str_eq code "YOUTUBE_ACCESS_DENIED"
    then safe_error code "YouTube denied access to this stream." false
    else if str_eq code "YOUTUBE_RATE_LIMITED"
    then safe_error code "YouTube temporarily limited collection requests." true
    else if str_eq code "YTDLP_TIMEOUT"
    then safe_error code "Chat replay collection timed out." true
    else if str_eq code "YTDLP_PROCESS_FAILED"
    then safe_error code "Chat replay collection failed." true
    else if str_eq code "YTDLP_OUTPUT_CHANGED"
    then safe_error code "The chat replay format is currently unsupported." false
    else if str_eq code "CHAT_IMPORT_FAILED"
    then safe_error code "Chat messages could not be saved." true
    else safe_error "COLLECTION_FAILED" "Collection failed." false

-- `PublicErrorFor`
unfoldable pub public_error_for : String → Option SafeError
unfolding safe_error_for
public_error_for code = if str_eq code "" then none else some (safe_error_for code)
