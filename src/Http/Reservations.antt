-- ===== src/Http/Reservations.antt =====
-- The reservation handlers of apps/api/internal/httpapi/router.go.
use stream_analysis_tools.Base.{ℕ, ℤ, pos, Bytes, codes, ◌++◌, Option, none, some, Time, map, List}
use stream_analysis_tools.Errors.{Result, invalid_url}
use stream_analysis_tools.Http.Problems.{reservation_problem_for}
use stream_analysis_tools.Http.Responses.{reservation_response}
use stream_analysis_tools.Http.Streams.{Handler, answer, refuse, respond, or_default, parsed}
use stream_analysis_tools.Http.Types.{Body, Answer}
use stream_analysis_tools.Reservations.Model.{Reservation}
use stream_analysis_tools.Reservations.Service
use stream_analysis_tools.Streams.Url.{YouTubeUrl}

-- `CreateReservation201JSONResponse`; the text of a UUID is an argument
unfoldable pub reservation_created : (ℕ → Bytes) → Reservation → Answer
reservation_created uuid_string r = record {
  status = 201;
  location = some (codes "/v1/reservations/" ++ uuid_string r.id);
  body = Body.reservation (reservation_response r);
}

unfoldable pub reservation_found : Reservation → Answer
reservation_found r = answer 200 (Body.reservation (reservation_response r))

abbrev pub listed : ℤ → ℤ → List Reservation × ℕ → Answer
listed limit offset (items, total) = answer 200 (
    Body.reservations (record {
      items = map reservation_response items;
      limit = limit;
      offset = offset;
      total = total;
    }))

-- `CreateReservation`; `none` is a request without a body
unfoldable pub create_reservation :
    (Bytes → Result YouTubeUrl) → (ℕ → Bytes) → ℕ → Time → Option Bytes → Handler
unfolding reservation_created
create_reservation parse_youtube_url uuid_string fresh now none =
    refuse (reservation_problem_for invalid_url)
create_reservation parse_youtube_url uuid_string fresh now (some url) =
    respond reservation_problem_for (reservation_created uuid_string)
      (Service.create parse_youtube_url fresh now url)

abbrev reservation_list : ℤ → ℤ → Handler
reservation_list limit offset =
    respond reservation_problem_for (listed limit offset)
      (Service.list (record { limit = limit; offset = offset }))

-- `ListReservations`
unfoldable pub list_reservations : Option ℤ → Option ℤ → Handler
list_reservations limit offset =
    reservation_list (or_default (pos 20) limit) (or_default (pos 0) offset)

-- `GetReservation`
unfoldable pub get_reservation : (Bytes → Option ℕ) → Bytes → Handler
unfolding reservation_found
get_reservation uuid_parse reservation_id =
    parsed (uuid_parse reservation_id)
      λ id. respond reservation_problem_for reservation_found (Service.get id)

-- `CancelReservation`
unfoldable pub cancel_reservation : (Bytes → Option ℕ) → Time → Bytes → Handler
unfolding reservation_found
cancel_reservation uuid_parse now reservation_id =
    parsed (uuid_parse reservation_id)
      λ id. respond reservation_problem_for reservation_found (Service.cancel id now)
