-- ===== src/Errors.antt =====
-- The error values of the Go packages under apps/api/internal, and results that may carry one.
-- A Go error is a chain of wrapped errors of which the program only ever asks, by `errors.Is` and
-- `errors.As`, which sentinel stands in it; an `Error` here is that sentinel. An error in whose
-- chain no sentinel stands is `other`, with the text of its outermost message where it is built
-- in the repository. `no_rows` is pgx.ErrNoRows.
use stream_analysis_tools.Base.{◌≡◌, refl, ◌⊎◌, inl, inr, String, Bool, true, false}

pub data Error : Type 0 where
  -- package reservations
  invalid_transition lease_lost reservation_not_found already_active not_cancellable : Error
  invalid_url : Error
  -- package streams
  invalid_stream stream_not_found youtube_video_id_exists invalid_youtube_url : Error
  video_unavailable metadata_provider_unavailable : Error
  -- package collections
  invalid_request collection_stream_not_found job_not_found not_retryable active_job : Error
  -- package pgx, a failed call of the database, and errors without a sentinel
  no_rows database_error : Error
  -- pgconn.PgError with code 23505, by the name of the unique constraint
  unique_violation : String → Error
  -- pgconn.PgError for a CHECK constraint
  check_violation : String → Error
  other : String → Error

pub data Result {ℓ} (A : Type ℓ) : Type ℓ where
  ok : A → Result A
  err : Error → Result A

abbrev pub is_ok {ℓ} : {A : Type ℓ} → Result A → Bool
is_ok (ok a) = true
is_ok (err e) = false

-- Sequencing of fallible pure functions.
infixl 5 ◌>>=◌
abbrev pub ◌>>=◌ {ℓ κ} : {A : Type ℓ} {B : Type κ} → Result A → (A → Result B) → Result B
ok a >>= f = f a
err e >>= f = err e

pub Result-cases {ℓ} :
    {A : Type ℓ} (r : Result A) → ((a : A) × (r ≡ ok a)) ⊎ ((e : Error) × (r ≡ err e))
Result-cases (ok a) = inl (a, refl)
Result-cases (err e) = inr (e, refl)
