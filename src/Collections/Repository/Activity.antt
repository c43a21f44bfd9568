-- ===== src/Collections/Repository/Activity.antt =====
-- The counts of `ChatActivity` against the messages.
use native.Mathlib.Nat.{suc-mul}
use stream_analysis_tools.Base.{
  ℕ, zero, suc, ◌+◌, ◌-◌, ◌*◌, ◌/◌, ◌≤◌, ◌<◌, pos, pos_part, ltb_ℤ, ◌≡◌, refl, ◌∙◌, true, List, [],
  ◌∷◌, map, arith, ltb, leb, ◌==◌, if◌then◌else◌,
}
use stream_analysis_tools.Collections.Model.{ActivityBucket}
use stream_analysis_tools.Collections.Repository.ChatActivity.{series, bucket_rows, bucket_at}
use stream_analysis_tools.Sql.Rows.{MessageRow}
use stream_analysis_tools.Sql.Table.{count}

-- The messages that the buckets count.
abbrev pub total : List ActivityBucket → ℕ
total [] = 0
total (b ∷ bs) = b.message_count + total bs

-- How often a value stands in a list.
hits : ℕ → List ℕ → ℕ
hits x [] = 0
hits x (s ∷ ss) = let rest = hits x ss in if x == s then suc rest else rest

early : (rounds x start last width : ℕ) → x < start → hits x (series rounds start last width) ≡ 0
unfolding hits series
early zero x start last width h = refl
early (suc rounds) x start last width h =
    ground (arith, early rounds x (start + width) last width (omega (arith, h)))

-- A value of the series stands in it once, as long as it does not pass the end.
once :
    (rounds k x start last width : ℕ)
    → x ≡ start + k * width
    → 1 ≤ width
    → last < start + rounds
    → hits x (series rounds start last width) ≡ (if leb x last then 1 else 0)
unfolding hits series
once zero k x start last width e w h = ground (arith, e, h)
once (suc rounds) zero x start last width e w h =
    let same : x ≡ start = omega (arith, e) in
    ground (arith, same, early rounds x (start + width) last width (omega (arith, same, w)))
once (suc rounds) (suc k) x start last width e w h =
    let further : x ≡ start + width + k * width = omega (arith, e, suc-mul k width) in
    ground (
      arith,
      e,
      w,
      further,
      once rounds k x (start + width) last width further w (omega (arith, w, h)),
    )

-- A message is counted in the bucket of its start, and only there.
total-cons :
    (width : ℕ) (m : MessageRow) (ms : List MessageRow) (starts : List ℕ)
    → total (map (bucket_at width (m ∷ ms)) starts)
      ≡ hits (pos_part m.offset_milliseconds / width * width) starts
        + total (map (bucket_at width ms) starts)
unfolding count hits
total-cons width m ms [] = refl
total-cons width m ms (s ∷ ss) = ground (arith, total-cons width m ms ss)

total-nil : (width : ℕ) (starts : List ℕ) → total (map (bucket_at width []) starts) ≡ 0
unfolding count
total-nil width [] = refl
total-nil width (s ∷ ss) = omega (arith, total-nil width ss)

total-series :
    (rounds width last : ℕ) (ms : List MessageRow)
    → 1 ≤ width
    → last < rounds
    → total (map (bucket_at width ms) (series rounds 0 last width))
      ≡ count (λ m. leb (pos_part m.offset_milliseconds / width * width) last) ms
unfolding count
total-series rounds width last [] w r = total-nil width (series rounds 0 last width)
total-series rounds width last (m ∷ ms) w r =
    let x : ℕ = pos_part m.offset_milliseconds / width * width in
    total-cons width m ms (series rounds 0 last width)
    ∙ ground (
      arith,
      once rounds (pos_part m.offset_milliseconds / width) x 0 last width (omega arith) w
          (omega (arith, r)),
      total-series rounds width last ms w r,
    )

count_before :
    (width duration : ℕ) (ms : List MessageRow)
    → 1 ≤ duration
    → count (λ m. leb (pos_part m.offset_milliseconds / width * width) (duration - 1)) ms
      ≡ count (λ m. ltb (pos_part m.offset_milliseconds / width * width) duration) ms
unfolding count
count_before width duration [] d = refl
count_before width duration (m ∷ ms) d = ground (arith, count_before width duration ms d, d)

-- The buckets of a positive duration count exactly the messages whose bucket starts before the end
-- of the stream, each of them once, whatever the width of the buckets.
pub total-bucket_rows :
    (width duration : ℕ) (messages : List MessageRow)
    → 1 ≤ width
    → 1 ≤ duration
    → total (bucket_rows width messages (pos duration))
      ≡ count (λ m. ltb (pos_part m.offset_milliseconds / width * width) duration) messages
unfolding bucket_rows
total-bucket_rows width duration messages w d =
    let some_time : ltb_ℤ (pos 0) (pos duration) ≡ true = ground (arith, d) in
    rw some_time (
      total-series duration width (duration - 1) messages w (omega (arith, d))
      ∙ count_before width duration messages d)
