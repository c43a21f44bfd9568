-- ===== src/Youtube/Fetched.antt =====
-- What `Fetch` of apps/api/internal/youtube/client.go answers, and what the stream service of
-- apps/api/internal/streams makes of it.
use stream_analysis_tools.Base.{
  ℕ, ℤ, ◌≡◌, refl, sym, subst, ◌⊎◌, inl, inr, Bool, true, false, not, ◌||◌, List, [], ◌∷◌, Option,
  none, some, Bytes, bytes_eq, Time, length, arith, ltb, leb, ◌==◌, Bool-cases, is_some, pos,
}
use stream_analysis_tools.Errors.{
  Result, ok, err, metadata_provider_unavailable, video_unavailable, is_ok,
}
use stream_analysis_tools.Go.Strings.{trim_space}
use stream_analysis_tools.Streams.Model.{LifecycleStatus, Metadata}
use stream_analysis_tools.Streams.Normalize.{
  is_empty, negative, ends_early, is_valid, or_unknown, normalize_metadata,
}
use stream_analysis_tools.Youtube.Client.{
  LiveDetails, VideoResource, Response, Location, lifecycle_status, completed, of_live,
  metadata_from_video, of_items, of_payload, of_response, fetch, is_blank,
}
use stream_analysis_tools.Youtube.Duration
use stream_analysis_tools.Youtube.Sums.{value_of, fitting, sum_of_parts, add_parts_sum}
use stream_analysis_tools.Youtube.Duration.{
  match_duration, join, with_units, units, add_parts, some_duration, parsed, parse_duration,
}

-- The lifecycle status that times call for: an end makes the broadcast ended; a start without an end
-- makes it live; a plan without either makes it scheduled.
abbrev pub Timed : LifecycleStatus → Option Time → Option Time → Option Time → Type 0
Timed LifecycleStatus.ended scheduled start end = is_some end ≡ true
Timed LifecycleStatus.live scheduled start end = (is_some start ≡ true) × (end ≡ none)
Timed LifecycleStatus.scheduled scheduled start end =
    (is_some scheduled ≡ true) × (start ≡ none) × (end ≡ none)
Timed LifecycleStatus.unknown scheduled start end =
    (scheduled ≡ none) × (start ≡ none) × (end ≡ none)
Timed _ scheduled start end = ⊥

lifecycle_status-Timed :
    (scheduled start end : Option Time)
    → Timed (lifecycle_status scheduled start end) scheduled start end
unfolding lifecycle_status
lifecycle_status-Timed scheduled start (some t) = refl
lifecycle_status-Timed scheduled (some t) none = (refl, refl)
lifecycle_status-Timed (some t) none none = (refl, refl, refl)
lifecycle_status-Timed none none none = (refl, refl, refl)

-- A status that times call for is one of the four that the table stores.
Timed-is_valid :
    (status : LifecycleStatus) (scheduled start end : Option Time)
    → Timed status scheduled start end
    → is_valid (or_unknown status) ≡ true
unfolding is_valid
Timed-is_valid LifecycleStatus.ended a b c h = refl
Timed-is_valid LifecycleStatus.live a b c h = refl
Timed-is_valid LifecycleStatus.scheduled a b c h = refl
Timed-is_valid LifecycleStatus.unknown a b c h = refl
Timed-is_valid _ a b c h = absurd h

module _ (parse_url : Bytes → Option Location) {F : Type 0} (parse_float : Bytes → Option F)
    (is_negative : F → Bool) (scaled : F → ℕ → ℕ) (now : Time) where
  -- Metadata with texts that are not empty, a duration that is not negative, and a status that its
  -- times call for.
  abbrev pub Provided : Metadata → Type 0
  Provided m =
      (is_empty m.title ≡ false)
      × (is_empty m.channel_id ≡ false)
      × (is_empty m.channel_title ≡ false)
      × (negative m.duration ≡ false)
      × (m.metadata_fetched_at ≡ now)
      × Timed m.lifecycle_status m.scheduled_start_at m.actual_start_at m.actual_end_at

  abbrev pub Outcome : Result Metadata → Type 0
  Outcome (ok m) = Provided m
  Outcome (err e) = (e ≡ metadata_provider_unavailable) ⊎ (e ≡ video_unavailable)

  abbrev NotNegative : Result (Option ℤ) → Type 0
  NotNegative (ok d) = negative d ≡ false
  NotNegative (err e) = Unit

  -- A sum that fits an int64 is not negative.
  summed :
      (r : Result ℤ) (o : Option ℕ)
      → value_of r ≡ fitting o
      → NotNegative (some_duration parse_float is_negative scaled r)
  summed (ok d) none h = cc
  summed (ok d) (some n) h = ground (arith, h)
  summed (err e) o h = tt

  parsed-NotNegative :
      (o : Option (List Bytes)) → NotNegative (parsed parse_float is_negative scaled o)
  parsed-NotNegative none = tt
  parsed-NotNegative (some groups) = elim (Bool-cases (Duration.is_blank (join groups))) [
    | inl e ↦ rw e tt
    | inr e ↦ rw e (
        summed (add_parts parse_float is_negative scaled (pos 0) (with_units groups units))
          (sum_of_parts parse_float is_negative scaled (with_units groups units))
          (add_parts_sum parse_float is_negative scaled (with_units groups units)))
  ]

  parse_duration-NotNegative :
      (value : Bytes) → NotNegative (parse_duration parse_float is_negative scaled value)
  unfolding parse_duration
  parse_duration-NotNegative [] = refl
  parse_duration-NotNegative (c ∷ s) = parsed-NotNegative (match_duration (c ∷ s))

  same_test : (s : Bytes) → is_blank s ≡ false → is_empty s ≡ false
  same_test [] e = cc
  same_test (c ∷ s) e = refl

  completed-Outcome :
      (video : VideoResource) (details : LiveDetails) (d : Result (Option ℤ))
      (t : Result (Option Bytes))
      → is_blank (trim_space video.title) ≡ false
      → is_blank (trim_space video.channel_id) ≡ false
      → is_blank (trim_space video.channel_title) ≡ false
      → NotNegative d
      → Outcome (completed parse_url parse_float is_negative scaled now video details d t)
  completed-Outcome video details (err e) t a b c n = inl refl
  completed-Outcome video details (ok d) (err e) a b c n = inl refl
  completed-Outcome video details (ok d) (ok t) a b c n =
      (same_test _ a, same_test _ b, same_test _ c, n, refl, lifecycle_status-Timed _ _ _)

  of_live-Outcome :
      (video : VideoResource) (o : Option LiveDetails)
      → Outcome (of_live parse_url parse_float is_negative scaled now video o)
  of_live-Outcome video none = inr refl
  of_live-Outcome video (some details) = elim (Bool-cases (is_blank (trim_space video.title))) [
    | inl e ↦ rw e (inl refl)
    | inr a ↦ elim (Bool-cases (is_blank (trim_space video.channel_id))) [
      | inl e ↦ rw a (rw e (inl refl))
      | inr b ↦ elim (Bool-cases (is_blank (trim_space video.channel_title))) [
        | inl e ↦ rw a (rw b (rw e (inl refl)))
        | inr c ↦ rw a (
            rw b (
              rw c (
                completed-Outcome video details _ _ a b c
                  (parse_duration-NotNegative video.duration))))
      ]
    ]
  ]

  of_items-Outcome :
      (id : Bytes) (items : List VideoResource)
      → Outcome (of_items parse_url parse_float is_negative scaled now id items)
  unfolding metadata_from_video
  of_items-Outcome id [] = inr refl
  of_items-Outcome id (video ∷ []) = elim (Bool-cases (bytes_eq video.id id)) [
    | inl e ↦ rw e (of_live-Outcome video video.live_streaming_details)
    | inr e ↦ rw e (inl refl)
  ]
  of_items-Outcome id (video ∷ other ∷ rest) = inl refl

  of_response-Outcome :
      (id : Bytes) (o : Option Response)
      → Outcome (of_response parse_url parse_float is_negative scaled now id o)
  of_response-Outcome id none = inl refl
  of_response-Outcome id (some r) =
      elim (Bool-cases (ltb r.status_code 200 || leb 300 r.status_code)) [
        | inl e ↦ rw e (inl refl)
        | inr e ↦ rw e (of_body r.items)
      ]
    where
      of_body :
          (items : Option (List VideoResource))
          → Outcome (of_payload parse_url parse_float is_negative scaled now id items)
      of_body none = inl refl
      of_body (some items) = of_items-Outcome id items

  module _ (api_key : Bytes) (is_buildable : Bytes → Bool) (exchange : Bytes → Option Response)
      (video_id : Bytes) where
    abbrev pub fetched : Result Metadata
    fetched =
        fetch parse_url parse_float is_negative scaled now api_key is_buildable exchange video_id

    -- Whatever the YouTube API sends and the packages answer: `Fetch` answers metadata with texts
    -- that are not empty, an int64 duration that is not negative (if any), the time of the clock as
    -- the time of the fetch, and the status that its times call for (ended if there is an actual end,
    -- otherwise live if there is an actual start, otherwise scheduled if there is a planned start,
    -- otherwise unknown); or one of the two errors for an unavailable provider and an unavailable
    -- video.
    pub fetch-Outcome : Outcome fetched
    unfolding fetch
    fetch-Outcome = elim (Bool-cases (is_blank api_key)) [
      | inl e ↦ rw e (inl refl)
      | inr k ↦ elim (Bool-cases (is_buildable video_id)) [
        | inl e ↦ rw k (rw e (of_response-Outcome video_id (exchange video_id)))
        | inr e ↦ rw k (rw e (inl refl))
      ]
    ]

  accepted :
      (m : Metadata)
      → Provided m
      → is_empty m.youtube_video_id ≡ false
      → ltb 64 (length m.youtube_video_id) ≡ false
      → is_empty m.canonical_url ≡ false
      → (now == 0) ≡ false
      → is_ok (normalize_metadata m) ≡ not (ends_early m.actual_start_at m.actual_end_at)
  unfolding normalize_metadata
  accepted m (title, channel, channel_title, duration, at, status) id short url clock =
      let valid : is_valid (or_unknown m.lifecycle_status) ≡ true =
        Timed-is_valid m.lifecycle_status m.scheduled_start_at m.actual_start_at m.actual_end_at
          status in
      let set : (m.metadata_fetched_at == 0) ≡ false =
        subst (λ t. (t == 0) ≡ false) (sym at) clock in
      ground arith

  -- Metadata that `Fetch` answers, with the identity that the service writes into it, is accepted by
  -- `normalizeMetadata` unless the broadcast ends before it starts, which the client does not test.
  -- The identity has a video ID of at most 64 bytes and a URL; the clock is not at Go's zero time.
  pub fetch-normalize_metadata :
      (api_key : Bytes) (is_buildable : Bytes → Bool) (exchange : Bytes → Option Response)
      (video_id canonical_url : Bytes) (m : Metadata)
      → fetched api_key is_buildable exchange video_id ≡ ok m
      → is_empty video_id ≡ false
      → ltb 64 (length video_id) ≡ false
      → is_empty canonical_url ≡ false
      → (now == 0) ≡ false
      → is_ok (
          normalize_metadata
            (record m { youtube_video_id = video_id; canonical_url = canonical_url }))
        ≡ not (ends_early m.actual_start_at m.actual_end_at)
  fetch-normalize_metadata api_key is_buildable exchange video_id canonical_url m e id short url
        clock =
      let provided : Provided m =
        subst Outcome e (fetch-Outcome api_key is_buildable exchange video_id) in
      accepted (record m { youtube_video_id = video_id; canonical_url = canonical_url }) provided id
        short url clock
