-- ===== src/Http/Resources.antt =====
-- What a POST of apps/api/internal/httpapi/router.go created is what GET finds at its Location.
use stream_analysis_tools.Base.{
  ℕ, ◌≡◌, ◌≢◌, ◌≤◌, refl, All, false, Bytes, codes, bytes_eq, [], ◌∷◌, ◌++◌, some, arith, ◌==◌,
}
use stream_analysis_tools.Errors.{Result, ok, err}
use stream_analysis_tools.Go.Strings.{split, split-one}
use stream_analysis_tools.Http.Contract.{problem_for-WellFormed, reservation-WellFormed}
use stream_analysis_tools.Http.Problems.{problem_for, reservation_problem_for}
use stream_analysis_tools.Http.Reservations.{
  reservation_created, reservation_found, create_reservation, get_reservation,
}
use stream_analysis_tools.Http.Routes.{
  Request, Packages, Surroundings, Operation, match_segments, find_pattern, route,
}
use stream_analysis_tools.Http.Server.{bound, dispatch, serve}
use stream_analysis_tools.Http.Streams.{
  Handler, answer, refusal, respond, parsed, answered, stream_created, stream_found, create_stream,
  get_stream,
}
use stream_analysis_tools.Http.Types.{Answer}
use stream_analysis_tools.Sql.Rows.{Database}
use stream_analysis_tools.Sql.Session.{World}
use stream_analysis_tools.Streams.Model.{Stream}
use stream_analysis_tools.Streams.Registered.{register_then_get}
use stream_analysis_tools.Streams.Service.{register}
use stream_analysis_tools.Streams.Service as StreamsService
use stream_analysis_tools.Streams.Repository as StreamRepository
use stream_analysis_tools.Reservations.Service as ReservationsService
use stream_analysis_tools.Reservations.Model.{Reservation}
use stream_analysis_tools.Http.Problems.{Problem}
use stream_analysis_tools.Reservations.Created.{create_then_get}

-- What the server relies on: the text of a UUID is not empty, holds no slash and is read back, and a
-- path parameter of type string is bound as it stands.
pub record UuidPaths (packages : Packages) : Type 0 where
  pub read_back : (id : ℕ) → packages.uuid_parse (packages.uuid_string id) ≡ some id
  pub is_segment : (id : ℕ) → All (λ c. (c == 47) ≡ false) (packages.uuid_string id)
  pub not_empty : (id : ℕ) → packages.uuid_string id ≢ []
  pub bound_as_is :
      (id : ℕ) → packages.bind_path (packages.uuid_string id) ≡ some (packages.uuid_string id)

abbrev pub get_of : Bytes → Request
get_of path = record {
  method = codes "GET";
  path = path;
  query = [];
  content = record { bytes = []; is_broken = false };
}

abbrev pub quiet : Database → World Database
quiet db = record { db = db; faults = [] }

route_stream :
    (id : Bytes)
    → id ≢ []
    → split 47 id ≡ id ∷ []
    → route (get_of (codes "/v1/streams/" ++ id)) ≡ some (Operation.get_stream_op, id)
unfolding route find_pattern match_segments split bytes_eq
route_stream [] n e = absurd (n refl)
route_stream (c ∷ s) n e = rw e refl

route_reservation :
    (id : Bytes)
    → id ≢ []
    → split 47 id ≡ id ∷ []
    → route (get_of (codes "/v1/reservations/" ++ id)) ≡ some (Operation.get_reservation_op, id)
unfolding route find_pattern match_segments split bytes_eq
route_reservation [] n e = absurd (n refl)
route_reservation (c ∷ s) n e = rw e refl

module _ (packages : Packages) (now : Surroundings) (texts : UuidPaths packages) where
  one_segment : (id : ℕ) → split 47 (packages.uuid_string id) ≡ packages.uuid_string id ∷ []
  one_segment id = split-one 47 (packages.uuid_string id) (texts.is_segment id)

  -- GET of a stream by its path, and of a reservation.
  get_stream_at :
      (id : ℕ) (w : World Database) (s : Stream)
      → StreamsService.get id w ≡ (ok s, w)
      → serve packages now (get_of (codes "/v1/streams/" ++ packages.uuid_string id)) w
        ≡ (some (stream_found packages.uuid_string s), w)
  unfolding serve dispatch get_stream bound parsed respond bytes_eq
  get_stream_at id w s e =
      rw (route_stream (packages.uuid_string id) (texts.not_empty id) (one_segment id))
        (rw (texts.bound_as_is id) (rw (texts.read_back id) (rw e refl)))

  get_reservation_at :
      (id : ℕ) (w : World Database) (r : Reservation)
      → ReservationsService.get id w ≡ (ok r, w)
      → serve packages now (get_of (codes "/v1/reservations/" ++ packages.uuid_string id)) w
        ≡ (some (reservation_found r), w)
  unfolding serve dispatch get_reservation bound parsed respond bytes_eq
  get_reservation_at id w r e =
      rw (route_reservation (packages.uuid_string id) (texts.not_empty id) (one_segment id))
        (rw (texts.bound_as_is id) (rw (texts.read_back id) (rw e refl)))

  -- The Location of `a` serves the body of `a` from `db`.
  abbrev pub Served : Database → Answer → Type 0
  Served db a =
      (path : Bytes) × (a.location ≡ some path)
      × (serve packages now (get_of path) (quiet db) ≡ (some (answer 200 a.body), quiet db))

  refusal-Served : (p : Problem × ℕ) (db : Database) → 400 ≤ p.1 → p.1 ≡ 201 → Served db (refusal p)
  refusal-Served p db h e = absurd (omega (arith, h, e))

  abbrev pub post_stream : Bytes → Handler
  post_stream url =
      create_stream now.parse_youtube_url now.provider packages.uuid_string now.fresh now.now
        (some url)

  -- When a POST of a stream is answered with 201, a GET of the Location in that answer finds the same
  -- body with status 200, as long as the database answers and nothing else has written to it. The
  -- texts of UUIDs fit into a path.
  pub create_stream-Served :
      (url : Bytes) (w : World Database)
      → (post_stream url w).0.status ≡ 201
      → Served (post_stream url w).1.db (post_stream url w).0
  unfolding create_stream stream_created stream_found respond StreamsService.get
  create_stream-Served url w =
      by_result (register now.parse_youtube_url now.provider now.fresh now.now url w)
        (λ s e. register_then_get now.parse_youtube_url now.provider now.fresh now.now url w s e)
    where
      by_result :
          (r : Result Stream × World Database)
          → ((s : Stream)
              → r.0 ≡ ok s
              → StreamRepository.get s.id (quiet r.1.db) ≡ (ok s, quiet r.1.db))
          → (answered problem_for (stream_created packages.uuid_string) r).0.status ≡ 201
          → Served
              (answered problem_for (stream_created packages.uuid_string) r).1.db
              (answered problem_for (stream_created packages.uuid_string) r).0
      by_result (ok s, v) h e = (
        codes "/v1/streams/" ++ packages.uuid_string s.id,
        refl,
        get_stream_at s.id (quiet v.db) s (h s refl),
      )
      by_result (err x, v) h e = refusal-Served (problem_for x) v.db (problem_for-WellFormed x).2 e

  abbrev pub post_reservation : Bytes → Handler
  post_reservation url =
      create_reservation now.parse_youtube_url packages.uuid_string now.fresh now.now (some url)

  -- When a POST of a reservation is answered with 201, a GET of the Location in that answer finds the
  -- same body with status 200, under the same conditions as for a stream.
  pub create_reservation-Served :
      (url : Bytes) (w : World Database)
      → (post_reservation url w).0.status ≡ 201
      → Served (post_reservation url w).1.db (post_reservation url w).0
  unfolding create_reservation reservation_created reservation_found respond ReservationsService.get
  create_reservation-Served url w =
      by_result (ReservationsService.create now.parse_youtube_url now.fresh now.now url w)
        (create_then_get now.parse_youtube_url now.fresh now.now url w)
    where
      by_result :
          (r : Result Reservation × World Database)
          → ((x : Reservation)
              → r.0 ≡ ok x
              → ReservationsService.get x.id (quiet r.1.db) ≡ (ok x, quiet r.1.db))
          → (answered reservation_problem_for (reservation_created packages.uuid_string) r).0.status
            ≡ 201
          → Served
              (answered reservation_problem_for (reservation_created packages.uuid_string) r).1.db
              (answered reservation_problem_for (reservation_created packages.uuid_string) r).0
      by_result (ok x, v) h e = (
        codes "/v1/reservations/" ++ packages.uuid_string x.id,
        refl,
        get_reservation_at x.id (quiet v.db) x (h x refl),
      )
      by_result (err x, v) h e =
          refusal-Served (reservation_problem_for x) v.db (reservation-WellFormed x).2 e
