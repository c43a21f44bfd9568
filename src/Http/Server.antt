-- ===== src/Http/Server.antt =====
-- A request on its way to a handler: `rejectCollectorOptions` of apps/api/internal/httpapi/router.go,
-- and the wrappers and the strict handlers of apps/api/internal/generated/openapiv1/api.gen.go,
-- for which no middleware is configured. What the mux answers by itself, a 404 or a 405, is `none`.
use stream_analysis_tools.Base.{
  ℕ, Bool, false, not, ◌&&◌, ◌||◌, Bytes, codes, bytes_eq, take, length, Option, none, some, ltb,
  leb, ◌==◌, if◌then◌else◌,
}
use stream_analysis_tools.Go.Strings.{trim_space, has_suffix}
use stream_analysis_tools.Http.Collections.{
  start_collection, get_latest_collection, retry_collection, list_chat_messages,
  search_chat_messages, get_chat_activity,
}
use stream_analysis_tools.Http.Problems.{request_problem}
use stream_analysis_tools.Http.Reservations.{
  create_reservation, list_reservations, get_reservation, cancel_reservation,
}
use stream_analysis_tools.Http.Routes.{Content, Request, Packages, Surroundings, Operation, route}
use stream_analysis_tools.Http.Streams.{
  Handler, refuse, get_health, preview_stream, create_stream, list_streams, get_stream,
}
use stream_analysis_tools.Http.Types.{Answer}
use stream_analysis_tools.Sql.Rows.{Database}
use stream_analysis_tools.Sql.Session.{World}

-- `siw.ErrorHandlerFunc`, which writes the request problem, where a value is not bound, and likewise
-- `sh.options.RequestErrorHandlerFunc`.
unfoldable pub bound : {A : Type 0} → Option A → (A → Handler) → Handler
bound none f = refuse (request_problem, request_problem.status)
bound (some a) f = f a

module _ (packages : Packages) where
  -- `len(object) != 0` and what stands after the object
  abbrev is_empty_object : Option (Option ℕ × Bytes) → Bool
  is_empty_object none = false
  is_empty_object (some (none, rest)) = false
  is_empty_object (some (some n, rest)) = n == 0 && packages.is_eof rest

  -- `emptyCommandBody`
  unfoldable pub empty_command_body : Bytes → Bool
  empty_command_body body =
      length (trim_space body) == 0 || is_empty_object (packages.decode_map body)

  -- io.ReadAll(io.LimitReader(request.Body, maxCommandBody+1))
  abbrev pub read_limited : Content → Option Bytes
  read_limited c =
      if leb 4097 (length c.bytes)
      then some (take 4097 c.bytes)
      else if c.is_broken
      then none
      else some c.bytes

  -- err != nil || len(body) > maxCommandBody || !emptyCommandBody(body)
  abbrev pub is_command : Bytes → Bool
  is_command body = not (ltb 4096 (length body)) && empty_command_body body

  -- request.Method != http.MethodPost || …
  abbrev pub is_checked : Request → Bool
  is_checked r =
      bytes_eq r.method (codes "POST")
      && (has_suffix r.path (codes "/collections") || has_suffix r.path (codes "/retry"))

  module _ (now : Surroundings) where
    -- The wrapper of an operation with the strict handler and the handler; `value` is `r.PathValue`.
    unfoldable pub dispatch : Operation → Bytes → Request → Handler
    dispatch Operation.get_health_op value r = get_health
    dispatch Operation.preview_stream_op value r =
        bound (packages.decode_url r.content)
          λ url. preview_stream now.parse_youtube_url now.provider (some url)
    dispatch Operation.list_streams_op value r =
        bound (packages.bind_integer "limit" r.query) λ limit.
          bound (packages.bind_integer "offset" r.query)
            λ offset. list_streams packages.uuid_string limit offset
    dispatch Operation.create_stream_op value r = bound (packages.decode_url r.content) λ url.
        create_stream now.parse_youtube_url now.provider packages.uuid_string now.fresh now.now
          (some url)
    dispatch Operation.get_stream_op value r =
        bound (packages.bind_path value)
          λ id. get_stream packages.uuid_string packages.uuid_parse id
    dispatch Operation.start_collection_op value r =
        bound (packages.bind_path value)
          λ id. start_collection packages.uuid_string packages.uuid_parse now.fresh now.now id
    dispatch Operation.get_latest_collection_op value r =
        bound (packages.bind_path value)
          λ id. get_latest_collection packages.uuid_string packages.uuid_parse id
    dispatch Operation.retry_collection_op value r =
        bound (packages.bind_path value)
          λ id. retry_collection packages.uuid_string packages.uuid_parse now.fresh now.now id
    dispatch Operation.list_chat_messages_op value r = bound (packages.bind_path value) λ id.
        bound (packages.bind_integer "limit" r.query) λ limit.
          bound (packages.bind_text "cursor" r.query)
            λ cursor. list_chat_messages packages.uuid_string packages.uuid_parse id limit cursor
    dispatch Operation.search_chat_messages_op value r = bound (packages.bind_path value) λ id.
        bound (packages.bind_required_text "q" r.query) λ q.
          bound (packages.bind_integer "limit" r.query) λ limit.
            bound (packages.bind_text "cursor" r.query) λ cursor.
              search_chat_messages packages.uuid_string packages.uuid_parse now.same id q limit
                cursor
    dispatch Operation.get_chat_activity_op value r = bound (packages.bind_path value) λ id.
        bound (packages.bind_integer "bucketSeconds" r.query)
          λ bucket_seconds. get_chat_activity packages.uuid_parse id bucket_seconds
    dispatch Operation.list_reservations_op value r =
        bound (packages.bind_integer "limit" r.query) λ limit.
          bound (packages.bind_integer "offset" r.query) λ offset. list_reservations limit offset
    dispatch Operation.create_reservation_op value r = bound (packages.decode_url r.content) λ url.
        create_reservation now.parse_youtube_url packages.uuid_string now.fresh now.now (some url)
    dispatch Operation.get_reservation_op value r =
        bound (packages.bind_path value) λ id. get_reservation packages.uuid_parse id
    dispatch Operation.cancel_reservation_op value r =
        bound (packages.bind_path value) λ id. cancel_reservation packages.uuid_parse now.now id

    abbrev pub by_mux :
        Option (Operation × Bytes) → Request → World Database → Option Answer × World Database
    by_mux none r w = (none, w)
    by_mux (some (operation, value)) r w =
        let (answer, v) = dispatch operation value r w in (some answer, v)

    abbrev pub rejected : World Database → Option Answer × World Database
    rejected w =
        let (answer, v) = refuse (request_problem, request_problem.status) w in (some answer, v)

    abbrev pub check_body : Option Bytes → Request → World Database → Option Answer × World Database
    check_body none r w = rejected w
    check_body (some body) r w =
        if is_command body
        then by_mux (route r) (record r { content = record { bytes = body; is_broken = false } }) w
        else rejected w

    -- `newHandler`, with `rejectCollectorOptions` outermost
    unfoldable pub serve : Request → World Database → Option Answer × World Database
    unfolding dispatch empty_command_body
    serve r w =
        if is_checked r then check_body (read_limited r.content) r w else by_mux (route r) r w
