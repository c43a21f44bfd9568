-- ===== src/Http/Types.antt =====
-- The bodies of apps/api/internal/generated/openapiv1/api.gen.go: the structs that are encoded as
-- JSON. A member that is omitted when nil is an `Option`; an enum is the text that it is in Go.
use stream_analysis_tools.Base.{ℕ, ℤ, Bool, Bytes, List, Option, String, Time}
use stream_analysis_tools.Http.Problems.{Problem}

pub record HealthResponse : Type 0 where
  pub component : String
  pub status : String

pub record CollectionError : Type 0 where
  pub code : String
  pub message : String
  pub retryable : Bool

pub record CollectionJob : Type 0 where
  pub attempt : ℕ
  pub current_step : Option String
  pub error : Option CollectionError
  pub finished_at : Option Time
  pub id : Bytes
  pub kind : String
  pub processed_count : ℕ
  pub requested_at : Time
  pub skipped_count : ℕ
  pub started_at : Option Time
  pub status : String
  pub stream_id : Bytes
  pub updated_at : Time

pub record Reservation : Type 0 where
  pub actual_end_at : Option Time
  pub actual_start_at : Option Time
  pub can_cancel : Bool
  pub collection_error : Option CollectionError
  pub collection_job_id : Option ℕ
  pub collection_status : Option String
  pub created_at : Time
  pub id : ℕ
  pub last_checked_at : Option Time
  pub last_error_code : Option String
  pub last_error_message : Option String
  pub last_error_retryable : Option Bool
  pub monitor_attempt : ℕ
  pub next_check_at : Time
  pub scheduled_start_at : Option Time
  pub source_url : Bytes
  pub state : String
  pub stream_id : Option ℕ
  pub updated_at : Time
  pub youtube_video_id : Bytes

pub record ReservationList : Type 0 where
  pub items : List Reservation
  pub limit : ℤ
  pub offset : ℤ
  pub total : ℕ

pub record Stream : Type 0 where
  pub actual_end_at : Option Time
  pub actual_start_at : Option Time
  pub canonical_url : Bytes
  pub channel_id : Bytes
  pub channel_title : Bytes
  pub created_at : Time
  pub duration_ms : Option ℤ
  pub id : Bytes
  pub lifecycle_status : Bytes
  pub metadata_fetched_at : Time
  pub scheduled_start_at : Option Time
  pub thumbnail_url : Option Bytes
  pub title : Bytes
  pub updated_at : Time
  pub youtube_video_id : Bytes

pub record StreamListItem : Type 0 where
  pub actual_end_at : Option Time
  pub actual_start_at : Option Time
  pub canonical_url : Bytes
  pub channel_id : Bytes
  pub channel_title : Bytes
  pub chat_message_count : ℕ
  pub collection_status : Option String
  pub created_at : Time
  pub duration_ms : Option ℤ
  pub id : Bytes
  pub lifecycle_status : Bytes
  pub metadata_fetched_at : Time
  pub scheduled_start_at : Option Time
  pub thumbnail_url : Option Bytes
  pub title : Bytes
  pub updated_at : Time
  pub youtube_video_id : Bytes

pub record StreamList : Type 0 where
  pub items : List StreamListItem
  pub limit : ℤ
  pub offset : ℤ

pub record StreamPreview : Type 0 where
  pub actual_end_at : Option Time
  pub actual_start_at : Option Time
  pub canonical_url : Bytes
  pub channel_id : Bytes
  pub channel_title : Bytes
  pub duration_ms : Option ℤ
  pub lifecycle_status : Bytes
  pub metadata_fetched_at : Time
  pub scheduled_start_at : Option Time
  pub thumbnail_url : Option Bytes
  pub title : Bytes
  pub youtube_video_id : Bytes

pub record ChatActivityBucket : Type 0 where
  pub message_count : ℕ
  pub start_offset_milliseconds : ℕ

pub record ChatActivity : Type 0 where
  pub bucket_seconds : ℤ
  pub items : List ChatActivityBucket

pub record ChatMessage : Type 0 where
  pub author_channel_id : Option Bytes
  pub author_display_name : Bytes
  pub id : Bytes
  pub message_text : Bytes
  pub message_type : String
  pub offset_milliseconds : ℤ
  pub published_at : Time

pub record ChatMessagePage : Type 0 where
  pub items : List ChatMessage
  pub next_cursor : Option Bytes

-- What a response encodes.
pub data Body : Type 0 where
  health : HealthResponse → Body
  preview : StreamPreview → Body
  stream : Stream → Body
  streams : StreamList → Body
  job : CollectionJob → Body
  activity : ChatActivity → Body
  messages : ChatMessagePage → Body
  reservation : Reservation → Body
  reservations : ReservationList → Body
  problem : Problem → Body

-- What a response object's Visit method writes: the status line, the Location header and the body.
-- Its content type is application/problem+json where the body is a problem.
pub record Answer : Type 0 where
  pub status : ℕ
  pub location : Option Bytes
  pub body : Body
