-- ===== src/Http/Streams.antt =====
-- The stream handlers of apps/api/internal/httpapi/router.go. The text of a UUID and its reading,
-- the URL parser and the metadata provider are arguments. A handler never returns an error: an
-- error of a service becomes the answer.
use stream_analysis_tools.Base.{ℕ, ℤ, pos, Bytes, List, codes, ◌++◌, Option, none, some, Time, map}
use stream_analysis_tools.Errors.{Error, Result, ok, err, invalid_youtube_url}
use stream_analysis_tools.Http.Problems.{Problem, problem_for, request_problem}
use stream_analysis_tools.Http.Responses.{
  metadata_response, stream_response, stream_list_item_response,
}
use stream_analysis_tools.Http.Types.{Body, Answer}
use stream_analysis_tools.Sql.Rows.{Database}
use stream_analysis_tools.Sql.Session.{World, Session, lift}
use stream_analysis_tools.Streams.Model.{Stream, ListItem, Metadata}
use stream_analysis_tools.Streams.Service
use stream_analysis_tools.Streams.Url.{YouTubeUrl}

-- A handler, from the request's values on.
abbrev pub Handler : Type 0
Handler = World Database → Answer × World Database

abbrev pub answer : ℕ → Body → Answer
answer status body = record { status = status; location = none; body = body }

-- `…defaultApplicationProblemPlusJSONResponse{Body: problem, StatusCode: status}`
abbrev pub refusal : Problem × ℕ → Answer
refusal (problem, status) = answer status (Body.problem problem)

abbrev pub refuse : Problem × ℕ → Handler
refuse p w = (refusal p, w)

module _ {A : Type 0} (problem_of : Error → Problem × ℕ) (success : A → Answer) where
  abbrev pub answered : Result A × World Database → Answer × World Database
  answered (ok a, w) = (success a, w)
  answered (err e, w) = (refusal (problem_of e), w)

  -- A call of a service, whose error becomes a problem.
  unfoldable pub respond : Session Database A → Handler
  respond call w = answered (call w)

-- `limit := default; if request.Params.Limit != nil { limit = *request.Params.Limit }`
abbrev pub or_default {ℓ} : {A : Type ℓ} → A → Option A → A
or_default d none = d
or_default d (some a) = a

unfoldable pub parsed : Option ℕ → (ℕ → Handler) → Handler
parsed none f = refuse (request_problem, request_problem.status)
parsed (some id) f = f id

-- `openapiv1.GetHealth200JSONResponse{Component: "main-api", Status: openapiv1.Ok}`
unfoldable pub get_health : Handler
get_health w = (answer 200 (Body.health (record { component = "main-api"; status = "ok" })), w)

module _ (uuid_string : ℕ → Bytes) where
  -- `CreateStream201JSONResponse`, and what its Visit method writes
  unfoldable pub stream_created : Stream → Answer
  stream_created s = record {
    status = 201;
    location = some (codes "/v1/streams/" ++ uuid_string s.id);
    body = Body.stream (stream_response uuid_string s);
  }

  -- `GetStream200JSONResponse`, likewise
  unfoldable pub stream_found : Stream → Answer
  stream_found s = answer 200 (Body.stream (stream_response uuid_string s))

abbrev pub previewed : Metadata → Answer
previewed m = answer 200 (Body.preview (metadata_response m))

module _ (parse_youtube_url : Bytes → Result YouTubeUrl)
    (provider : Option (Bytes → Result Metadata)) where
  -- `PreviewStream`; `none` is a request without a body.
  unfoldable pub preview_stream : Option Bytes → Handler
  preview_stream none = refuse (problem_for invalid_youtube_url)
  preview_stream (some url) =
      respond problem_for previewed (lift (Service.fetch_metadata parse_youtube_url provider url))

  module _ (uuid_string : ℕ → Bytes) where
    -- `CreateStream`
    unfoldable pub create_stream : ℕ → Time → Option Bytes → Handler
    unfolding stream_created
    create_stream fresh now none = refuse (problem_for invalid_youtube_url)
    create_stream fresh now (some url) =
        respond problem_for (stream_created uuid_string)
          (Service.register parse_youtube_url provider fresh now url)

module _ (uuid_string : ℕ → Bytes) where
  abbrev pub streams_listed : ℤ → ℤ → List ListItem → Answer
  streams_listed limit offset items = answer 200 (
      Body.streams (record {
        items = map (stream_list_item_response uuid_string) items;
        limit = limit;
        offset = offset;
      }))

  abbrev stream_list : ℤ → ℤ → Handler
  stream_list limit offset =
      respond problem_for (streams_listed limit offset)
        (Service.list_items (record { limit = limit; offset = offset }))

  -- `ListStreams`; the defaults are `defaultListLimit` and `defaultListOffset`
  unfoldable pub list_streams : Option ℤ → Option ℤ → Handler
  list_streams limit offset = stream_list (or_default (pos 20) limit) (or_default (pos 0) offset)

  -- `GetStream`
  unfoldable pub get_stream : (Bytes → Option ℕ) → Bytes → Handler
  unfolding stream_found
  get_stream uuid_parse stream_id =
      parsed (uuid_parse stream_id)
        λ id. respond problem_for (stream_found uuid_string) (Service.get id)
