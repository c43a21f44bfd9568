-- ===== src/Http/Contract.antt =====
-- What every answer of the server looks like: apps/api/internal/httpapi/router.go behind
-- apps/api/internal/generated/openapiv1/api.gen.go.
use stream_analysis_tools.Base.{
  ℕ, pos, ◌≡◌, refl, ◌⊎◌, inl, inr, ◌≢◌, ◌≤◌, true, Bytes, Option, none, some, arith, is_some,
  Bool-cases,
}
use stream_analysis_tools.Errors.{Error, Result, ok, err}
use stream_analysis_tools.Http.Collections.{
  job_accepted, job_found, page_found, measured, start_collection, get_latest_collection,
  retry_collection, list_chat_messages, search_chat_messages, get_chat_activity,
}
use stream_analysis_tools.Http.Problems.{
  Problem, problem_for, collection_problem_for, reservation_problem_for, request_problem,
  internal_problem,
}
use stream_analysis_tools.Http.Reservations.{
  reservation_created, reservation_found, listed, create_reservation, list_reservations,
  get_reservation, cancel_reservation,
}
use stream_analysis_tools.Http.Routes.{Request, Packages, Surroundings, Operation, route}
use stream_analysis_tools.Http.Server.{
  bound, dispatch, serve, is_command, is_checked, by_mux, check_body, read_limited,
}
use stream_analysis_tools.Http.Streams.{
  Handler, or_default, previewed, streams_listed, refusal, answered, respond, parsed, get_health,
  preview_stream, stream_created, stream_found, create_stream, list_streams, get_stream,
}
use stream_analysis_tools.Http.Types.{Body, Answer}
use stream_analysis_tools.Sql.Rows.{Database}
use stream_analysis_tools.Sql.Session.{World, Session}

-- A problem goes out with its own status, which is one of an error, without a Location, and with
-- status 500 it is the internal problem. Any other body goes out with status 200, or with 201 or
-- 202 and a Location.
abbrev pub IsProblem : Problem → Answer → Type 0
IsProblem p a =
    (a.status ≡ p.status)
    × (a.location ≡ none)
    × (400 ≤ a.status)
    × ((p.status ≢ 500) ⊎ (p ≡ internal_problem))

abbrev pub IsSuccess : Answer → Type 0
IsSuccess a =
    ((a.status ≡ 200) × (a.location ≡ none))
    ⊎ (((a.status ≡ 201) ⊎ (a.status ≡ 202)) × (is_some a.location ≡ true))

abbrev pub WellFormed : Answer → Type 0
WellFormed a = elim a.body [ Body.problem p ↦ IsProblem p a | _ ↦ IsSuccess a ]

pub problem_for-WellFormed : (e : Error) → WellFormed (refusal (problem_for e))
unfolding problem_for
problem_for-WellFormed e = (ground arith, refl, ground arith, ground arith)

collection-WellFormed : (e : Error) → WellFormed (refusal (collection_problem_for e))
unfolding collection_problem_for
collection-WellFormed e = (ground arith, refl, ground arith, ground arith)

pub reservation-WellFormed : (e : Error) → WellFormed (refusal (reservation_problem_for e))
unfolding reservation_problem_for
reservation-WellFormed e = (ground arith, refl, ground arith, ground arith)

request-WellFormed : WellFormed (refusal (request_problem, request_problem.status))
request-WellFormed = (refl, refl, omega arith, inl (λ e. omega arith))

-- A handler all of whose answers are well formed.
record Good (h : Handler) : Type 0 where
  at : (w : World Database) → WellFormed (h w).0

answered-WellFormed :
    {A : Type 0} (problem_of : Error → Problem × ℕ) (success : A → Answer)
    → ((e : Error) → WellFormed (refusal (problem_of e)))
    → ((a : A) → WellFormed (success a))
    → (r : Result A × World Database) → WellFormed (answered problem_of success r).0
answered-WellFormed problem_of success bad good (ok a, w) = good a
answered-WellFormed problem_of success bad good (err e, w) = bad e

parsed-Good : (id : Option ℕ) (f : ℕ → Handler) → ((n : ℕ) → Good (f n)) → Good (parsed id f)
unfolding parsed
parsed-Good none f h = record { at = λ w. request-WellFormed }
parsed-Good (some n) f h = h n

bound-Good :
    {A : Type 0} (o : Option A) (f : A → Handler) → ((a : A) → Good (f a)) → Good (bound o f)
unfolding bound
bound-Good none f h = record { at = λ w. request-WellFormed }
bound-Good (some a) f h = h a

module _ {A : Type 0} (success : A → Answer) (good : (a : A) → WellFormed (success a))
    (call : Session Database A) where
  streams-Good : Good (respond problem_for success call)
  unfolding respond
  streams-Good = record {
    at = λ w. answered-WellFormed problem_for success problem_for-WellFormed good (call w);
  }

  collections-Good : Good (respond collection_problem_for success call)
  unfolding respond
  collections-Good = record {
    at =
        λ w. answered-WellFormed collection_problem_for success collection-WellFormed good (call w);
  }

  reservations-Good : Good (respond reservation_problem_for success call)
  unfolding respond
  reservations-Good = record {
    at = λ w.
        answered-WellFormed reservation_problem_for success reservation-WellFormed good (call w);
  }

module _ (packages : Packages) (now : Surroundings) where
  dispatch-Good :
      (o : Operation) (value : Bytes) (r : Request) → Good (dispatch packages now o value r)
  unfolding dispatch get_health preview_stream create_stream list_streams get_stream stream_created
      stream_found start_collection get_latest_collection retry_collection list_chat_messages
      search_chat_messages get_chat_activity job_accepted job_found page_found create_reservation
      list_reservations get_reservation cancel_reservation reservation_created reservation_found
  dispatch-Good Operation.get_health_op value r = record { at = λ w. inl (refl, refl) }
  dispatch-Good Operation.preview_stream_op value r =
      bound-Good _ _ λ url. streams-Good previewed (λ a. inl (refl, refl)) _
  dispatch-Good Operation.list_streams_op value r = bound-Good _ _ λ limit. bound-Good _ _ λ offset.
      streams-Good
        (streams_listed packages.uuid_string (or_default (pos 20) limit)
          (or_default (pos 0) offset))
        (λ a. inl (refl, refl)) _
  dispatch-Good Operation.create_stream_op value r =
      bound-Good _ _
        λ url. streams-Good (stream_created packages.uuid_string) (λ a. inr (inl refl, refl)) _
  dispatch-Good Operation.get_stream_op value r = bound-Good _ _ λ id.
      parsed-Good _ _
        λ n. streams-Good (stream_found packages.uuid_string) (λ a. inl (refl, refl)) _
  dispatch-Good Operation.start_collection_op value r = bound-Good _ _ λ id.
      parsed-Good _ _
        λ n. collections-Good (job_accepted packages.uuid_string) (λ a. inr (inr refl, refl)) _
  dispatch-Good Operation.get_latest_collection_op value r = bound-Good _ _ λ id.
      parsed-Good _ _
        λ n. collections-Good (job_found packages.uuid_string) (λ a. inl (refl, refl)) _
  dispatch-Good Operation.retry_collection_op value r = bound-Good _ _ λ id.
      parsed-Good _ _
        λ n. collections-Good (job_accepted packages.uuid_string) (λ a. inr (inr refl, refl)) _
  dispatch-Good Operation.list_chat_messages_op value r = bound-Good _ _ λ id.
      bound-Good _ _ λ limit. bound-Good _ _ λ cursor.
        parsed-Good _ _
          λ n. collections-Good (page_found packages.uuid_string) (λ a. inl (refl, refl)) _
  dispatch-Good Operation.search_chat_messages_op value r = bound-Good _ _ λ id. bound-Good _ _ λ q.
      bound-Good _ _ λ limit. bound-Good _ _ λ cursor.
        parsed-Good _ _
          λ n. collections-Good (page_found packages.uuid_string) (λ a. inl (refl, refl)) _
  dispatch-Good Operation.get_chat_activity_op value r = bound-Good _ _ λ id.
      bound-Good _ _
        λ seconds. parsed-Good _ _ λ n. collections-Good measured (λ a. inl (refl, refl)) _
  dispatch-Good Operation.list_reservations_op value r = bound-Good _ _ λ limit.
      bound-Good _ _ λ offset.
        reservations-Good (listed (or_default (pos 20) limit) (or_default (pos 0) offset))
          (λ a. inl (refl, refl)) _
  dispatch-Good Operation.create_reservation_op value r = bound-Good _ _ λ url.
      reservations-Good (reservation_created packages.uuid_string) (λ a. inr (inl refl, refl)) _
  dispatch-Good Operation.get_reservation_op value r =
      bound-Good _ _
        λ id. parsed-Good _ _ λ n. reservations-Good reservation_found (λ a. inl (refl, refl)) _
  dispatch-Good Operation.cancel_reservation_op value r =
      bound-Good _ _
        λ id. parsed-Good _ _ λ n. reservations-Good reservation_found (λ a. inl (refl, refl)) _

  abbrev pub Answered : Option Answer → Type 0
  Answered none = Unit
  Answered (some a) = WellFormed a

  by_mux-Answered :
      (o : Option (Operation × Bytes)) (r : Request) (w : World Database)
      → Answered (by_mux packages now o r w).0
  by_mux-Answered none r w = tt
  by_mux-Answered (some (operation, value)) r w = (dispatch-Good operation value r).at w

  check_body-Answered :
      (o : Option Bytes) (r : Request) (w : World Database)
      → Answered (check_body packages now o r w).0
  check_body-Answered none r w = request-WellFormed
  check_body-Answered (some body) r w = elim (Bool-cases (is_command packages body)) [
    | inl e ↦ rw e (by_mux-Answered (route r) _ w)
    | inr e ↦ rw e request-WellFormed
  ]

  -- Whatever the request, the packages, the services' surroundings, the database and its faults: an
  -- answer that the mux leaves to the handlers is either a problem with its own status, at least 400,
  -- and with 500 only the internal problem; or another body with status 200 and no Location, or with
  -- 201 or 202 and a Location.
  pub serve-Answered : (r : Request) (w : World Database) → Answered (serve packages now r w).0
  unfolding serve
  serve-Answered r w = elim (Bool-cases (is_checked packages r)) [
    | inl e ↦ rw e (check_body-Answered (read_limited packages r.content) r w)
    | inr e ↦ rw e (by_mux-Answered (route r) r w)
  ]
