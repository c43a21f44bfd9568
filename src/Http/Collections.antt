-- ===== src/Http/Collections.antt =====
-- The collection handlers of apps/api/internal/httpapi/router.go, over the service that the API is
-- started with, which offers the chat activity.
use stream_analysis_tools.Base.{ℕ, Bool, ℤ, pos, Bytes, [], codes, ◌++◌, Option, some, Time}
use stream_analysis_tools.Collections.Model.{Job, Activity, MessagePage}
use stream_analysis_tools.Collections.Service
use stream_analysis_tools.Http.Problems.{collection_problem_for}
use stream_analysis_tools.Http.Responses.{collection_job_response, message_page, chat_activity}
use stream_analysis_tools.Http.Streams.{Handler, answer, respond, or_default, parsed}
use stream_analysis_tools.Http.Types.{Body, Answer}

module _ (uuid_string : ℕ → Bytes) where
  -- `StartCollection202JSONResponse` and `RetryCollection202JSONResponse`
  unfoldable pub job_accepted : Job → Answer
  job_accepted job = record {
    status = 202;
    location =
        some (codes "/v1/streams/" ++ uuid_string job.stream_id ++ codes "/collections/latest");
    body = Body.job (collection_job_response uuid_string job);
  }

  unfoldable pub job_found : Job → Answer
  job_found job = answer 200 (Body.job (collection_job_response uuid_string job))

  unfoldable pub page_found : MessagePage → Answer
  page_found page = answer 200 (Body.messages (message_page uuid_string page))

  module _ (uuid_parse : Bytes → Option ℕ) where
    -- `StartCollection`
    unfoldable pub start_collection : ℕ → Time → Bytes → Handler
    unfolding job_accepted
    start_collection fresh now stream_id =
        parsed (uuid_parse stream_id)
          λ id. respond collection_problem_for (job_accepted) (Service.start fresh now id)

    -- `GetLatestCollection`
    unfoldable pub get_latest_collection : Bytes → Handler
    unfolding job_found
    get_latest_collection stream_id =
        parsed (uuid_parse stream_id)
          λ id. respond collection_problem_for (job_found) (Service.latest id)

    -- `RetryCollection`
    unfoldable pub retry_collection : ℕ → Time → Bytes → Handler
    unfolding job_accepted
    retry_collection fresh now job_id =
        parsed (uuid_parse job_id)
          λ id. respond collection_problem_for (job_accepted) (Service.retry fresh now id)

    -- `ListChatMessages`; the default limit is `collections.DefaultMessageLimit`
    unfoldable pub list_chat_messages : Bytes → Option ℤ → Option Bytes → Handler
    unfolding page_found
    list_chat_messages stream_id limit cursor = parsed (uuid_parse stream_id) λ id.
        respond collection_problem_for page_found (
          Service.list_messages uuid_string uuid_parse id (or_default (pos 50) limit)
            (or_default [] cursor))

    -- `SearchChatMessages`; `same` is the collation's equality of letters
    unfoldable pub search_chat_messages :
        (ℕ → ℕ → Bool) → Bytes → Bytes → Option ℤ → Option Bytes → Handler
    unfolding page_found
    search_chat_messages same stream_id q limit cursor = parsed (uuid_parse stream_id) λ id.
        respond collection_problem_for page_found (
          Service.search_messages uuid_string uuid_parse same id q (or_default (pos 50) limit)
            (or_default [] cursor))

abbrev pub measured : Activity → Answer
measured a = answer 200 (Body.activity (chat_activity a))

-- `GetChatActivity`
unfoldable pub get_chat_activity : (Bytes → Option ℕ) → Bytes → Option ℤ → Handler
get_chat_activity uuid_parse stream_id bucket_seconds = parsed (uuid_parse stream_id) λ id.
    respond collection_problem_for measured
      (Service.chat_activity id (or_default (pos 10) bucket_seconds))
