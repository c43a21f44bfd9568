-- ===== src/Streams/Model.antt =====
-- apps/api/internal/streams/model.go
use stream_analysis_tools.Base.{ℕ, ℤ, Bytes, Option, Time, String}

-- The Go type is a string: the five named values, the empty string, and any other text.
pub data LifecycleStatus : Type 0 where
  unknown scheduled live ended unavailable : LifecycleStatus
  blank : LifecycleStatus
  unsupported : Bytes → LifecycleStatus

pub record Stream : Type 0 where
  pub id : ℕ
  pub youtube_video_id : Bytes
  pub canonical_url : Bytes
  pub title : Bytes
  pub channel_id : Bytes
  pub channel_title : Bytes
  pub thumbnail_url : Option Bytes
  pub scheduled_start_at : Option Time
  pub actual_start_at : Option Time
  pub actual_end_at : Option Time
  pub duration : Option ℤ
  pub lifecycle_status : LifecycleStatus
  pub metadata_fetched_at : Time
  pub created_at : Time
  pub updated_at : Time

-- `ListItem` embeds `Stream`.
pub record ListItem : Type 0 where
  pub stream : Stream
  pub open stream use *
  pub collection_status : Option String
  pub chat_message_count : ℕ

pub record Metadata : Type 0 where
  pub youtube_video_id : Bytes
  pub canonical_url : Bytes
  pub title : Bytes
  pub channel_id : Bytes
  pub channel_title : Bytes
  pub thumbnail_url : Option Bytes
  pub scheduled_start_at : Option Time
  pub actual_start_at : Option Time
  pub actual_end_at : Option Time
  pub duration : Option ℤ
  pub lifecycle_status : LifecycleStatus
  pub metadata_fetched_at : Time

pub record ListOptions : Type 0 where
  pub limit : ℤ
  pub offset : ℤ
