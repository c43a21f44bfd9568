-- ===== src/Http/Routes.antt =====
-- Requests, and the patterns that `HandlerWithOptions` of
-- apps/api/internal/generated/openapiv1/api.gen.go registers. The path of a request is clean and
-- nothing in it is escaped, so that the mux does not redirect. A HEAD request, which the mux also
-- gives to the handlers of GET, is left out.
use stream_analysis_tools.Base.{
  ℕ, ℤ, Bool, true, false, Bytes, codes, bytes_eq, List, [], ◌∷◌, Option, none, some, String, Time,
  if◌then◌else◌,
}
use stream_analysis_tools.Errors.{Result}
use stream_analysis_tools.Go.Strings.{split}
use stream_analysis_tools.Streams.Model.{Metadata}
use stream_analysis_tools.Streams.Url.{YouTubeUrl}

-- What a request's body yields when it is read: its bytes, and whether reading fails after them.
pub record Content : Type 0 where
  pub bytes : Bytes
  pub is_broken : Bool

pub record Request : Type 0 where
  pub method : Bytes
  pub path : Bytes
  pub query : Bytes
  pub content : Content

-- The packages that the server calls: uuid, the binding of parameters of the oapi-codegen runtime,
-- and encoding/json; `none` is an error. The pair of `decode_map` is the number of members, where
-- the object is not null, and the input left; `is_eof` says that decoding it further answers io.EOF.
pub record Packages : Type 0 where
  pub uuid_string : ℕ → Bytes
  pub uuid_parse : Bytes → Option ℕ
  pub bind_path : Bytes → Option Bytes
  pub bind_integer : String → Bytes → Option (Option ℤ)
  pub bind_text : String → Bytes → Option (Option Bytes)
  pub bind_required_text : String → Bytes → Option Bytes
  pub decode_url : Content → Option Bytes
  pub decode_map : Bytes → Option (Option ℕ × Bytes)
  pub is_eof : Bytes → Bool

-- The services' surroundings at the time of a request: the URL parser, the metadata provider, the
-- collation's equality of letters, and what gen_random_uuid() and the clock give.
pub record Surroundings : Type 0 where
  pub parse_youtube_url : Bytes → Result YouTubeUrl
  pub provider : Option (Bytes → Result Metadata)
  pub same : ℕ → ℕ → Bool
  pub fresh : ℕ
  pub now : Time

pub data Operation : Type 0 where
  get_health_op preview_stream_op list_streams_op create_stream_op get_stream_op : Operation
  start_collection_op get_latest_collection_op retry_collection_op : Operation
  list_chat_messages_op search_chat_messages_op get_chat_activity_op : Operation
  list_reservations_op create_reservation_op get_reservation_op cancel_reservation_op : Operation

-- A pattern's segments: `wild` is one like {streamId}.
pub data Segment : Type 0 where
  literal : String → Segment
  wild : Segment

pub record Pattern : Type 0 where
  pub method : String
  pub segments : List Segment
  pub operation : Operation

abbrev on : String → List Segment → Operation → Pattern
on method segments operation = record {
  method = method;
  segments = segments;
  operation = operation;
}

abbrev stream_of : String → List Segment → List Segment
stream_of resource rest = literal "v1" ∷ literal resource ∷ wild ∷ rest

-- The registrations of `HandlerWithOptions`.
abbrev pub patterns : List Pattern
patterns =
    on "GET" (literal "healthz" ∷ []) get_health_op
    ∷ on "POST" (literal "v1" ∷ literal "streams" ∷ literal "preview" ∷ []) preview_stream_op
    ∷ on "GET" (literal "v1" ∷ literal "streams" ∷ []) list_streams_op
    ∷ on "POST" (literal "v1" ∷ literal "streams" ∷ []) create_stream_op
    ∷ on "GET" (stream_of "streams" []) get_stream_op
    ∷ on "POST" (stream_of "streams" (literal "collections" ∷ [])) start_collection_op
    ∷ on "GET" (stream_of "streams" (literal "collections" ∷ literal "latest" ∷ []))
        get_latest_collection_op
    ∷ on "POST" (stream_of "collection-jobs" (literal "retry" ∷ [])) retry_collection_op
    ∷ on "GET" (stream_of "streams" (literal "chat-messages" ∷ [])) list_chat_messages_op
    ∷ on "GET" (stream_of "streams" (literal "chat-search" ∷ [])) search_chat_messages_op
    ∷ on "GET" (stream_of "streams" (literal "chat-activity" ∷ [])) get_chat_activity_op
    ∷ on "GET" (literal "v1" ∷ literal "reservations" ∷ []) list_reservations_op
    ∷ on "POST" (literal "v1" ∷ literal "reservations" ∷ []) create_reservation_op
    ∷ on "GET" (stream_of "reservations" []) get_reservation_op
    ∷ on "POST" (stream_of "reservations" (literal "cancel" ∷ [])) cancel_reservation_op
    ∷ []

-- Whether a path's segments match, and the value of the wild one, which is not empty.
abbrev matched : Bool → Option Bytes → Option Bytes
matched true value = value
matched false value = none

abbrev with_value : Bytes → Option Bytes → Option Bytes
with_value [] rest = none
with_value (c ∷ s) none = none
with_value (c ∷ s) (some _) = some (c ∷ s)

unfoldable pub match_segments : List Segment → List Bytes → Option Bytes
match_segments [] [] = some []
match_segments [] (s ∷ ss) = none
match_segments (p ∷ ps) [] = none
match_segments (literal t ∷ ps) (s ∷ ss) = matched (bytes_eq s (codes t)) (match_segments ps ss)
match_segments (wild ∷ ps) (s ∷ ss) = with_value s (match_segments ps ss)

-- The segments after the leading slash.
abbrev pub segments_of : List Bytes → List Bytes
segments_of [] = []
segments_of (first ∷ rest) = rest

abbrev pub chosen :
    Operation → Option Bytes → Option (Operation × Bytes) → Option (Operation × Bytes)
chosen o none rest = rest
chosen o (some value) rest = some (o, value)

unfoldable pub find_pattern : Bytes → List Bytes → List Pattern → Option (Operation × Bytes)
unfolding match_segments
find_pattern method segments [] = none
find_pattern method segments (p ∷ ps) =
    let rest = find_pattern method segments ps in
    if bytes_eq method (codes p.method)
    then chosen p.operation (match_segments p.segments segments) rest
    else rest

-- The operation that the mux chooses, and `r.PathValue`. No two patterns of one method match a path,
-- so that their order does not count.
unfoldable pub route : Request → Option (Operation × Bytes)
unfolding find_pattern
route r = find_pattern r.method (segments_of (split 47 r.path)) patterns
