-- ===== src/Http/Responses.antt =====
-- The response bodies of apps/api/internal/httpapi/router.go. `uuid_string` is the method String of
-- a UUID.
use stream_analysis_tools.Base.{ℕ, ℤ, div_ℤ, Bytes, Option, none, some, String, map}
use stream_analysis_tools.Collections.Model as CollectionsModel
use stream_analysis_tools.Collections.Model.{
  public_status, current_step, public_error_for, SafeError, Activity, ActivityBucket, MessagePage,
}
use stream_analysis_tools.Http.Enums.{state_text, lifecycle_text}
use stream_analysis_tools.Http.Types.{
  CollectionError, CollectionJob, Reservation, Stream, StreamListItem, StreamPreview, ChatActivity,
  ChatActivityBucket, ChatMessage, ChatMessagePage,
}
use stream_analysis_tools.Reservations.Model as ReservationsModel
use stream_analysis_tools.Reservations.Model.{can_cancel}
use stream_analysis_tools.Reservations.Repository.Rows.{status_text}
use stream_analysis_tools.Streams.Model as StreamsModel
use stream_analysis_tools.Streams.Model.{ListItem, Metadata}

-- `durationMilliseconds`
unfoldable pub duration_milliseconds : Option ℤ → Option ℤ
duration_milliseconds none = none
duration_milliseconds (some d) = some (div_ℤ d 1_000_000)

abbrev error_of : SafeError → CollectionError
error_of e = record { code = e.code; message = e.message; retryable = e.retryable }

-- The body of `if job.Error != nil`, and of `if reservation.CollectionErrorCode != nil`. For the
-- empty code `PublicErrorFor` is nil, which the latter would dereference; a CHECK constraint of
-- migrations/000002 keeps that code out of the table.
abbrev pub error_body : Option SafeError → Option CollectionError
error_body none = none
error_body (some e) = some (error_of e)

abbrev pub collection_error_of : Option String → Option CollectionError
collection_error_of none = none
collection_error_of (some code) = error_body (public_error_for code)

-- `reservationResponse`
unfoldable pub reservation_response : ReservationsModel.Reservation → Reservation
reservation_response r = record {
  actual_end_at = r.actual_end_at;
  actual_start_at = r.actual_start_at;
  can_cancel = can_cancel r.state;
  collection_error = collection_error_of r.collection_error_code;
  collection_job_id = r.collection_job_id;
  collection_status = r.collection_status;
  created_at = r.created_at;
  id = r.id;
  last_checked_at = r.last_checked_at;
  last_error_code = r.last_error_code;
  last_error_message = r.last_error_message;
  last_error_retryable = r.last_error_retryable;
  monitor_attempt = r.monitor_attempt;
  next_check_at = r.next_check_at;
  scheduled_start_at = r.scheduled_start_at;
  source_url = r.source_url;
  state = state_text r.state;
  stream_id = r.stream_id;
  updated_at = r.updated_at;
  youtube_video_id = r.youtube_video_id;
}

-- `metadataResponse`
unfoldable pub metadata_response : Metadata → StreamPreview
unfolding duration_milliseconds
metadata_response m = record {
  actual_end_at = m.actual_end_at;
  actual_start_at = m.actual_start_at;
  canonical_url = m.canonical_url;
  channel_id = m.channel_id;
  channel_title = m.channel_title;
  duration_ms = duration_milliseconds m.duration;
  lifecycle_status = lifecycle_text m.lifecycle_status;
  metadata_fetched_at = m.metadata_fetched_at;
  scheduled_start_at = m.scheduled_start_at;
  thumbnail_url = m.thumbnail_url;
  title = m.title;
  youtube_video_id = m.youtube_video_id;
}

module _ (uuid_string : ℕ → Bytes) where
  -- `collectionJobResponse`
  unfoldable pub collection_job_response : CollectionsModel.Job → CollectionJob
  collection_job_response job = record {
    attempt = job.attempt;
    current_step = current_step job;
    error = error_body job.error;
    finished_at = job.finished_at;
    id = uuid_string job.id;
    kind = job.kind;
    processed_count = job.processed_count;
    requested_at = job.requested_at;
    skipped_count = job.skipped_count;
    started_at = job.started_at;
    status = status_text (public_status job);
    stream_id = uuid_string job.stream_id;
    updated_at = job.updated_at;
  }

  -- `streamResponse`
  unfoldable pub stream_response : StreamsModel.Stream → Stream
  unfolding duration_milliseconds
  stream_response s = record {
    actual_end_at = s.actual_end_at;
    actual_start_at = s.actual_start_at;
    canonical_url = s.canonical_url;
    channel_id = s.channel_id;
    channel_title = s.channel_title;
    created_at = s.created_at;
    duration_ms = duration_milliseconds s.duration;
    id = uuid_string s.id;
    lifecycle_status = lifecycle_text s.lifecycle_status;
    metadata_fetched_at = s.metadata_fetched_at;
    scheduled_start_at = s.scheduled_start_at;
    thumbnail_url = s.thumbnail_url;
    title = s.title;
    updated_at = s.updated_at;
    youtube_video_id = s.youtube_video_id;
  }

  -- `streamListItemResponse`
  unfoldable pub stream_list_item_response : ListItem → StreamListItem
  unfolding duration_milliseconds
  stream_list_item_response i = record {
    actual_end_at = i.actual_end_at;
    actual_start_at = i.actual_start_at;
    canonical_url = i.canonical_url;
    channel_id = i.channel_id;
    channel_title = i.channel_title;
    chat_message_count = i.chat_message_count;
    collection_status = i.collection_status;
    created_at = i.created_at;
    duration_ms = duration_milliseconds i.duration;
    id = uuid_string i.id;
    lifecycle_status = lifecycle_text i.lifecycle_status;
    metadata_fetched_at = i.metadata_fetched_at;
    scheduled_start_at = i.scheduled_start_at;
    thumbnail_url = i.thumbnail_url;
    title = i.title;
    updated_at = i.updated_at;
    youtube_video_id = i.youtube_video_id;
  }

  -- The literal in the loops of `ListChatMessages` and `SearchChatMessages`.
  unfoldable pub chat_message : CollectionsModel.ChatMessage → ChatMessage
  chat_message m = record {
    author_channel_id = m.author_channel_id;
    author_display_name = m.author_display_name;
    id = uuid_string m.id;
    message_text = m.message_text;
    message_type = m.message_type;
    offset_milliseconds = m.offset_milliseconds;
    published_at = m.published_at;
  }

  unfoldable pub message_page : MessagePage → ChatMessagePage
  message_page page = record { items = map chat_message page.items; next_cursor = page.next_cursor }

-- The literal in the loop of `GetChatActivity`.
abbrev bucket : ActivityBucket → ChatActivityBucket
bucket b = record {
  message_count = b.message_count;
  start_offset_milliseconds = b.start_offset_milliseconds;
}

unfoldable pub chat_activity : Activity → ChatActivity
chat_activity a = record { bucket_seconds = a.bucket_seconds; items = map bucket a.items }
