-- ===== src/Streams/Normalize.antt =====
-- `normalizeMetadata`, `validateListOptions` and `LifecycleStatus.Valid` of
-- apps/api/internal/streams/repository.go.
use stream_analysis_tools.Base.{
  ℕ, ◌≤◌, ℤ, pos, negsuc, ltb_ℤ, ◌≡◌, refl, sym, subst, Bool, true, false, not, ◌||◌, [], ◌∷◌,
  length, Option, none, some, Bytes, char_length, arith, Time, ◌==◌, ltb, if◌then◌else◌, ◌/◌,
}
use stream_analysis_tools.Errors.{Result, ok, err, invalid_stream}
use stream_analysis_tools.Sql.StreamTable.{
  nonnegative, is_stored_status, duration_milliseconds, row_of_metadata, stream_checks,
}
use stream_analysis_tools.Streams.Model.{
  LifecycleStatus, Metadata, ListOptions, unknown, scheduled, live, ended, unavailable, blank,
}

-- `LifecycleStatus.Valid`
unfoldable pub is_valid : LifecycleStatus → Bool
is_valid unknown = true
is_valid scheduled = true
is_valid live = true
is_valid ended = true
is_valid unavailable = true
is_valid _ = false

abbrev pub is_empty : Bytes → Bool
is_empty [] = true
is_empty (c ∷ s) = false

-- if metadata.LifecycleStatus == "" { metadata.LifecycleStatus = LifecycleUnknown }
abbrev pub or_unknown : LifecycleStatus → LifecycleStatus
or_unknown blank = unknown
or_unknown s = s

-- metadata.Duration != nil && *metadata.Duration < 0
abbrev pub negative : Option ℤ → Bool
negative none = false
negative (some d) = ltb_ℤ d (pos 0)

-- metadata.ActualStartAt != nil && metadata.ActualEndAt != nil && …Before(…)
abbrev pub ends_early : Option Time → Option Time → Bool
ends_early (some start) (some end_at) = ltb end_at start
ends_early _ _ = false

-- `normalizeMetadata`; a zero time is Go's `IsZero`.
unfoldable pub normalize_metadata : Metadata → Result Metadata
unfolding is_valid
normalize_metadata m =
    if is_empty m.youtube_video_id || ltb 64 (length m.youtube_video_id)
    then err invalid_stream
    else if is_empty m.canonical_url
        || is_empty m.title
        || is_empty m.channel_id
        || is_empty m.channel_title
    then err invalid_stream
    else if m.metadata_fetched_at == 0
    then err invalid_stream
    else if negative m.duration
    then err invalid_stream
    else if ends_early m.actual_start_at m.actual_end_at
    then err invalid_stream
    else if not (is_valid (or_unknown m.lifecycle_status))
    then err invalid_stream
    else ok (record m { lifecycle_status = or_unknown m.lifecycle_status })

-- `validateListOptions`
unfoldable pub validate_list_options : ListOptions → Result (Unit {0})
validate_list_options options =
    if ltb_ℤ options.limit (pos 1) || ltb_ℤ (pos 100) options.limit
    then err invalid_stream
    else if ltb_ℤ options.offset (pos 0)
    then err invalid_stream
    else ok tt

-- What the checks have found.
abbrev Passed : Metadata → Type 0
Passed m =
    (is_empty m.youtube_video_id ≡ false)
    × (ltb 64 (length m.youtube_video_id) ≡ false)
    × (is_empty m.canonical_url ≡ false)
    × (is_empty m.title ≡ false)
    × (is_empty m.channel_id ≡ false)
    × (is_empty m.channel_title ≡ false)
    × ((m.metadata_fetched_at == 0) ≡ false)
    × (negative m.duration ≡ false)
    × (ends_early m.actual_start_at m.actual_end_at ≡ false)
    × (is_valid (or_unknown m.lifecycle_status) ≡ true)

normalized :
    (m n : Metadata)
    → normalize_metadata m ≡ ok n
    → (n ≡ record m { lifecycle_status = or_unknown m.lifecycle_status }) × Passed m
unfolding normalize_metadata
normalized m n h = ground arith

normalized_again :
    (m : Metadata)
    → Passed m
    → let n = record m { lifecycle_status = or_unknown m.lifecycle_status } in
      normalize_metadata n ≡ ok n
unfolding normalize_metadata is_valid
normalized_again m p = ground arith

-- A text of UTF-8 does not begin inside a character.
abbrev pub starts_whole : Bytes → Bool
starts_whole [] = true
starts_whole (c ∷ s) = not (c / 64 == 2)

char_length-le : (s : Bytes) → char_length s ≤ length s
unfolding char_length
char_length-le [] = omega arith
char_length-le (c ∷ s) = ground (arith, char_length-le s)

char_length_pos :
    (s : Bytes) → is_empty s ≡ false → starts_whole s ≡ true → ltb 0 (char_length s) ≡ true
unfolding char_length
char_length_pos [] h k = cc
char_length_pos (c ∷ s) h k = ground arith

duration_stored : (d : Option ℤ) → negative d ≡ false → nonnegative (duration_milliseconds d) ≡ true
unfolding duration_milliseconds
duration_stored none h = refl
duration_stored (some (pos n)) h = ground arith
duration_stored (some (negsuc n)) h = absurd (ground arith)

-- The texts of a metadata record that the table wants are UTF-8.
abbrev pub Whole : Metadata → Type 0
Whole m =
    (starts_whole m.youtube_video_id ≡ true)
    × (starts_whole m.canonical_url ≡ true)
    × (starts_whole m.title ≡ true)
    × (starts_whole m.channel_id ≡ true)
    × (starts_whole m.channel_title ≡ true)

checked :
    (m : Metadata) (id : ℕ) (now : Time)
    → Whole m
    → Passed m
    → stream_checks
        (row_of_metadata id (record m { lifecycle_status = or_unknown m.lifecycle_status }) now)
      ≡ true
unfolding stream_checks row_of_metadata is_stored_status is_valid
checked m id now w p = ground (
  arith,
  char_length_pos m.youtube_video_id p.0 w.0,
  char_length-le m.youtube_video_id,
  char_length_pos m.canonical_url p.2 w.1,
  char_length_pos m.title p.3 w.2,
  char_length_pos m.channel_id p.4 w.3,
  char_length_pos m.channel_title p.5 w.4,
  duration_stored m.duration p.7,
)

-- Metadata that normalizes, of texts that are UTF-8, satisfies the CHECK constraints of
-- stream.streams, and normalizing it again changes nothing.
pub normalize_metadata-stream_checks :
    (m n : Metadata) (id : ℕ) (now : Time)
    → Whole m
    → normalize_metadata m ≡ ok n
    → (stream_checks (row_of_metadata id n now) ≡ true) × (normalize_metadata n ≡ ok n)
normalize_metadata-stream_checks m n id now w h =
    let (same, passed) = normalized m n h in
    subst (λ n. (stream_checks (row_of_metadata id n now) ≡ true) × (normalize_metadata n ≡ ok n))
      (sym same) (checked m id now w passed, normalized_again m passed)

-- Metadata that was normalized has one of the five named statuses.
pub status_valid :
    (m n : Metadata) → normalize_metadata m ≡ ok n → is_valid n.lifecycle_status ≡ true
unfolding normalize_metadata
status_valid m n e =
    let (same, passed) = normalized m n e in
    subst (λ k. is_valid k.lifecycle_status ≡ true) (sym same) passed.9
