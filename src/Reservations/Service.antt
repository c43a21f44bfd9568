-- ===== src/Reservations/Service.antt =====
-- apps/api/internal/reservations/service.go over the repository of this model. URL parsing is an
-- argument: the parser of apps/api/internal/streams/url.go rests on the package net/url.
use stream_analysis_tools.Base.{ℕ, Bytes, none, List, Time}
use stream_analysis_tools.Errors.{Result, ok, err, invalid_url}
use stream_analysis_tools.Reservations.Model.{Reservation, scheduled}
use stream_analysis_tools.Reservations.Repository.Public
use stream_analysis_tools.Sql.Rows.{Database}
use stream_analysis_tools.Sql.Session.{Session, raise}
use stream_analysis_tools.Streams.Model.{ListOptions}
use stream_analysis_tools.Streams.Url.{YouTubeUrl}

-- The `Reservation` literal of `Create`: the fields that it leaves out are Go's zero values.
unfoldable pub requested : YouTubeUrl → Time → Reservation
requested parsed now = record {
  id = 0;
  youtube_video_id = parsed.video_id;
  source_url = parsed.canonical_url;
  state = scheduled;
  scheduled_start_at = none;
  actual_start_at = none;
  actual_end_at = none;
  next_check_at = now;
  last_checked_at = none;
  monitor_attempt = 0;
  last_error_code = none;
  last_error_message = none;
  last_error_retryable = none;
  stream_id = none;
  collection_job_id = none;
  collection_status = none;
  collection_error_code = none;
  created_at = 0;
  updated_at = 0;
}

module _ (parse_youtube_url : Bytes → Result YouTubeUrl) where
  abbrev pub create_parsed : ℕ → Time → Result YouTubeUrl → Session Database Reservation
  create_parsed fresh now (err e) = raise invalid_url
  create_parsed fresh now (ok parsed) = Public.create fresh (requested parsed now)

  -- `Create`
  unfoldable pub create : ℕ → Time → Bytes → Session Database Reservation
  create fresh now raw_url = create_parsed fresh now (parse_youtube_url raw_url)

-- `List`, `Get` and `Cancel`
unfoldable pub list : ListOptions → Session Database (List Reservation × ℕ)
list options = Public.list options

unfoldable pub get : ℕ → Session Database Reservation
get id = Public.get id

unfoldable pub cancel : ℕ → Time → Session Database Reservation
cancel id now = Public.cancel id now
