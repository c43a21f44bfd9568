-- ===== src/Http/Reads.antt =====
-- The operations of apps/api/internal/httpapi/router.go that only read.
use stream_analysis_tools.Base.{ℕ, Bool, true, false, Bytes, List, Option, if◌then◌else◌}
use stream_analysis_tools.Collections.Repository.ChatActivity
use stream_analysis_tools.Collections.Repository.Jobs
use stream_analysis_tools.Collections.Repository.Jobs.{require_stream}
use stream_analysis_tools.Collections.Repository.Messages
use stream_analysis_tools.Collections.Model.{ChatMessage, Cursor}
use stream_analysis_tools.Base.{ℤ, ◌==◌, not}
use stream_analysis_tools.Collections.Service as CollectionsService
use stream_analysis_tools.Collections.Service.{
  read_page, message_page, is_page_limit, is_bucket, is_query,
}
use stream_analysis_tools.Go.Strings.{trim_space}
use stream_analysis_tools.Reservations.Repository.Public
use stream_analysis_tools.Reservations.Service as ReservationsService
use stream_analysis_tools.Sql.Rows.{Database}
use stream_analysis_tools.Sql.Session.{Session}
use stream_analysis_tools.Sql.Session.Reads.{
  Reads, Reads-pure, Reads-raise, Reads-lift, Reads-select, Reads-bind, Reads-map_err,
}
use stream_analysis_tools.Streams.Model.{ListOptions}
use stream_analysis_tools.Streams.Repository as StreamRepository
use stream_analysis_tools.Streams.Service as StreamsService

Reads-if :
    {A : Type 0} (b : Bool) (m n : Session Database A)
    → Reads m
    → Reads n
    → Reads (if b then m else n)
Reads-if true m n h k = h
Reads-if false m n h k = k

pub list_items-Reads : (o : ListOptions) → Reads (StreamsService.list_items o)
unfolding StreamsService.list_items StreamRepository.list_items
list_items-Reads o = Reads-bind _ _ (Reads-lift _) (λ _. Reads-select _)

pub get-Reads : (id : ℕ) → Reads (StreamsService.get id)
unfolding StreamsService.get StreamRepository.get
get-Reads id = Reads-bind _ _ (Reads-map_err _ _ (Reads-select _)) (λ _. Reads-pure _)

pub get_reservation-Reads : (id : ℕ) → Reads (ReservationsService.get id)
unfolding ReservationsService.get Public.get
get_reservation-Reads id = Reads-map_err _ _ (Reads-select _)

pub list_reservations-Reads : (o : ListOptions) → Reads (ReservationsService.list o)
unfolding ReservationsService.list Public.list
list_reservations-Reads o =
    Reads-bind _ _ (Reads-select _) (λ _. Reads-bind _ _ (Reads-select _) (λ _. Reads-pure _))

require_stream-Reads : (id : ℕ) → Reads (require_stream id)
unfolding require_stream
require_stream-Reads id =
    Reads-bind _ _ (Reads-select _) (λ b. Reads-if b _ _ (Reads-pure _) (Reads-raise _))

pub latest-Reads : (id : ℕ) → Reads (CollectionsService.latest id)
unfolding CollectionsService.latest Jobs.latest
latest-Reads id =
    Reads-if (id == 0) _ _ (Reads-raise _)
      (Reads-bind _ _ (require_stream-Reads id) (λ _. Reads-map_err _ _ (Reads-select _)))

pub chat_activity-Reads :
    (id : ℕ) (seconds : ℤ) → Reads (CollectionsService.chat_activity id seconds)
unfolding CollectionsService.chat_activity ChatActivity.chat_activity
chat_activity-Reads id seconds = Reads-if (id == 0) _ _ (Reads-raise _) (
    Reads-if (not (is_bucket seconds)) _ _ (Reads-raise _) (
      Reads-bind _ _ (Reads-bind _ _ (require_stream-Reads id) (λ _. Reads-select _))
        (λ _. Reads-pure _)))

module _ (uuid_string : ℕ → Bytes) (uuid_parse : Bytes → Option ℕ) where
  read_page-Reads :
      (read : ℤ → Option Cursor → Session Database (List ChatMessage)) (limit : ℤ) (text : Bytes)
      → ((n : ℤ) (c : Option Cursor) → Reads (read n c))
      → Reads (read_page uuid_string uuid_parse read limit text)
  unfolding read_page
  read_page-Reads read limit text h =
      Reads-bind _ _ (Reads-lift _) (λ c. Reads-bind _ _ (h _ c) (λ _. Reads-pure _))

  pub list_messages-Reads :
      (id : ℕ) (limit : ℤ) (text : Bytes)
      → Reads (CollectionsService.list_messages uuid_string uuid_parse id limit text)
  unfolding CollectionsService.list_messages Messages.list_messages
  list_messages-Reads id limit text = Reads-if (id == 0) _ _ (Reads-raise _) (
      Reads-if (not (is_page_limit limit)) _ _ (Reads-raise _) (
        read_page-Reads (Messages.list_messages id) limit text
          λ n c. Reads-bind _ _ (require_stream-Reads id) (λ _. Reads-select _)))

  pub search_messages-Reads :
      (same : ℕ → ℕ → Bool) (id : ℕ) (query : Bytes) (limit : ℤ) (text : Bytes)
      → Reads (CollectionsService.search_messages uuid_string uuid_parse same id query limit text)
  unfolding CollectionsService.search_messages Messages.search_messages
  search_messages-Reads same id query limit text = Reads-if (id == 0) _ _ (Reads-raise _) (
      Reads-if (not (is_query (trim_space query))) _ _ (Reads-raise _) (
        Reads-if (not (is_page_limit limit)) _ _ (Reads-raise _) (
          read_page-Reads (Messages.search_messages same id (trim_space query)) limit text
            λ n c. Reads-bind _ _ (require_stream-Reads id) (λ _. Reads-select _))))
