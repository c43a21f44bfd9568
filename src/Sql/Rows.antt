-- ===== src/Sql/Rows.antt =====
-- The tables that the API reads and writes, from migrations/000001, 000002, 000003 and 000006:
-- a nullable column is an `Option`, an identifier a number, a timestamp a `Time`.
use stream_analysis_tools.Base.{ℕ, ℤ, Bool, Bytes, List, Option, String, Time}
use stream_analysis_tools.Collections.Model.{JobStatus}
use stream_analysis_tools.Reservations.Model.{State}
use stream_analysis_tools.Streams.Model.{LifecycleStatus}

-- reservation.reservations
pub record ReservationRow : Type 0 where
  pub id : ℕ
  pub youtube_video_id : Bytes
  pub source_url : Bytes
  pub state : State
  pub stream_id : Option ℕ
  pub collection_job_id : Option ℕ
  pub scheduled_start_at : Option Time
  pub actual_start_at : Option Time
  pub actual_end_at : Option Time
  pub next_check_at : Time
  pub last_checked_at : Option Time
  pub monitor_attempt : ℕ
  pub last_error_code : Option String
  pub last_error_message : Option String
  pub last_error_retryable : Option Bool
  pub worker_id : Option String
  pub heartbeat_at : Option Time
  pub lease_expires_at : Option Time
  pub revision : ℕ
  pub canceled_at : Option Time
  pub completed_at : Option Time
  pub failed_at : Option Time
  pub created_at : Time
  pub updated_at : Time

-- reservation.reservation_transitions, without its identity column and the empty facts
pub record TransitionRow : Type 0 where
  pub reservation_id : ℕ
  pub from_state : Option State
  pub to_state : State
  pub reason_code : String
  pub created_at : Time

-- collection.collection_jobs, without the lease columns, which only the worker reads
pub record JobRow : Type 0 where
  pub id : ℕ
  pub stream_id : ℕ
  pub reservation_id : Option ℕ
  pub kind : String
  pub status : JobStatus
  pub attempt : ℕ
  pub processed_count : ℕ
  pub skipped_count : ℕ
  pub requested_at : Time
  pub started_at : Option Time
  pub updated_at : Time
  pub finished_at : Option Time
  pub error_code : Option String

-- chat.chat_messages, as far as the API reads it
pub record MessageRow : Type 0 where
  pub id : ℕ
  pub stream_id : ℕ
  pub author_channel_id : Option Bytes
  pub author_display_name : Bytes
  pub message_text : Bytes
  pub published_at : Time
  pub offset_milliseconds : ℤ
  pub message_type : String

-- stream.streams; the row has the fields of `Stream`, with the duration in milliseconds
pub record StreamRow : Type 0 where
  pub id : ℕ
  pub youtube_video_id : Bytes
  pub canonical_url : Bytes
  pub title : Bytes
  pub channel_id : Bytes
  pub channel_title : Bytes
  pub thumbnail_url : Option Bytes
  pub scheduled_start_at : Option Time
  pub actual_start_at : Option Time
  pub actual_end_at : Option Time
  pub duration_ms : Option ℤ
  pub lifecycle_status : LifecycleStatus
  pub metadata_fetched_at : Time
  pub created_at : Time
  pub updated_at : Time

pub record Database : Type 0 where
  pub reservations : List ReservationRow
  pub transitions : List TransitionRow
  pub jobs : List JobRow
  pub streams : List StreamRow
  pub messages : List MessageRow
