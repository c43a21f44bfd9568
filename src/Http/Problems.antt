-- ===== src/Http/Problems.antt =====
-- The problems of apps/api/internal/httpapi/router.go: what a client is told of an error.
use stream_analysis_tools.Base.{ℕ, String}
use stream_analysis_tools.Errors.{
  Error, invalid_youtube_url, video_unavailable, youtube_video_id_exists, stream_not_found,
  invalid_stream, metadata_provider_unavailable, invalid_request, collection_stream_not_found,
  job_not_found, not_retryable, active_job, invalid_url, already_active, reservation_not_found,
  not_cancellable,
}

-- `openapiv1.ProblemDetails`
pub record Problem : Type 0 where
  pub code : String
  pub detail : String
  pub status : ℕ
  pub title : String

abbrev problem : String → String → ℕ → String → Problem
problem code detail status title = record {
  code = code;
  detail = detail;
  status = status;
  title = title;
}

-- `requestProblem`
abbrev pub request_problem : Problem
request_problem =
    problem "INVALID_REQUEST" "The request could not be parsed or validated." 400 "Invalid request"

-- `internalProblem`
abbrev pub internal_problem : Problem
internal_problem =
    problem "INTERNAL_ERROR" "The request could not be completed." 500 "Internal server error"

-- `problemFor`
unfoldable pub problem_for : Error → Problem × ℕ
problem_for invalid_youtube_url = (
  problem "INVALID_YOUTUBE_URL" "Provide a supported YouTube video URL." 400 "Invalid YouTube URL",
  400,
)
problem_for video_unavailable = (
  problem "VIDEO_UNAVAILABLE" "The YouTube live stream is unavailable or unsupported." 422
      "Video unavailable",
  422,
)
problem_for youtube_video_id_exists = (
  problem "STREAM_ALREADY_REGISTERED" "This YouTube stream is already registered." 409
      "Stream already registered",
  409,
)
problem_for stream_not_found =
    (problem "STREAM_NOT_FOUND" "The requested stream does not exist." 404 "Stream not found", 404)
problem_for invalid_stream = (request_problem, request_problem.status)
problem_for metadata_provider_unavailable = (
  problem "METADATA_PROVIDER_UNAVAILABLE"
      "YouTube metadata could not be retrieved. Try again later." 503
      "Metadata provider unavailable",
  503,
)
problem_for _ = (internal_problem, internal_problem.status)

-- `collectionProblemFor`
unfoldable pub collection_problem_for : Error → Problem × ℕ
collection_problem_for invalid_request = (request_problem, request_problem.status)
collection_problem_for collection_stream_not_found =
    (problem "STREAM_NOT_FOUND" "The requested stream does not exist." 404 "Stream not found", 404)
collection_problem_for job_not_found = (
  problem "COLLECTION_JOB_NOT_FOUND" "The requested collection job does not exist." 404
      "Collection job not found",
  404,
)
collection_problem_for not_retryable = (
  problem "COLLECTION_NOT_RETRYABLE" "This collection job cannot be retried." 409
      "Collection is not retryable",
  409,
)
collection_problem_for active_job = (
  problem "COLLECTION_ALREADY_ACTIVE" "A collection job is already queued or running." 409
      "Collection already active",
  409,
)
collection_problem_for _ = (internal_problem, internal_problem.status)

-- `reservationProblemFor`
unfoldable pub reservation_problem_for : Error → Problem × ℕ
reservation_problem_for invalid_url = (
  problem "INVALID_RESERVATION_URL" "Provide a supported YouTube video URL." 400
      "Invalid reservation URL",
  400,
)
reservation_problem_for already_active = (
  problem "RESERVATION_ALREADY_ACTIVE" "This YouTube video already has an active reservation." 409
      "Reservation already active",
  409,
)
reservation_problem_for reservation_not_found = (
  problem "RESERVATION_NOT_FOUND" "The requested reservation does not exist." 404
      "Reservation not found",
  404,
)
reservation_problem_for not_cancellable = (
  problem "RESERVATION_NOT_CANCELLABLE" "This reservation can no longer be canceled." 409
      "Reservation is not cancellable",
  409,
)
reservation_problem_for _ = (internal_problem, internal_problem.status)
