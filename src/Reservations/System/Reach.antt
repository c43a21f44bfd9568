-- ===== src/Reservations/System/Reach.antt =====
-- What holds in every state that the system can reach.
use Prim.Native.String.{count as char_count}
use mathlib.Core.List.{Memᴰ}
use stream_analysis_tools.Base.{
  ◌≡◌, refl, subst, sym, inl, inr, true, false, List, [], ◌∷◌, Option, none, some, All, arith,
  Bool-cases, String, str_eq, Bytes, length, char_length, ◌/◌, ◌==◌, ℕ, Time, ◌≤◌,
}
use stream_analysis_tools.Errors.{Error, Result, ok, err}
use stream_analysis_tools.Reservations.Invariant.Defs.{Genuine, Valid, Inv, Inv-Frame, Held}
use stream_analysis_tools.Reservations.Invariant.Heartbeat.{heartbeat-Inv}
use stream_analysis_tools.Reservations.Invariant.Leases.{claim_due-Inv, with_claim}
use stream_analysis_tools.Reservations.Invariant.Operations.{
  apply_metadata-Inv, record_failure-Inv, sync_collection-Inv,
}
use stream_analysis_tools.Reservations.Invariant.Public.{create-Inv, cancel-Inv}
use stream_analysis_tools.Reservations.Machine.{state_eq→eq}
use stream_analysis_tools.Reservations.Model.{
  ClaimedReservation, state_eq, can_cancel, scheduled, collecting,
}
use stream_analysis_tools.Reservations.Monitor.{
  Provider, identified, failure_code, failure_message, failure_retryable, persisted, recorded,
  fetched, look_up, check_claimed,
}
use stream_analysis_tools.Reservations.Repository.Guarded.{Supply}
use stream_analysis_tools.Reservations.Repository.Leases.{is_open, claim_due, heartbeat}
use stream_analysis_tools.Reservations.Service
use stream_analysis_tools.Reservations.Service.{requested, create_parsed}
use stream_analysis_tools.Streams.Parse.{
  ParsedUrl, all_id_bytes, is_video_id, canonical_of, parse_youtube_url,
}
use stream_analysis_tools.Streams.Canonical.{parse_youtube_url-IsCanonical}
use stream_analysis_tools.Reservations.Invariant.Checks.{identity_fields}
use stream_analysis_tools.Reservations.System.{
  System, Step, Steps, creates, cancels, claims_due, beats, checks, works, here, next, world,
  claimed_by, renewed_by, empty,
}
use stream_analysis_tools.Sql.Rows.{Database}
use stream_analysis_tools.Sql.Session.{World}
use stream_analysis_tools.Sql.Session.Ensures.{Ensures, Ensures-raise, After}
use stream_analysis_tools.Streams.Model.{Metadata}
use stream_analysis_tools.Streams.Url.{YouTubeUrl}

-- The state after an operation whose result does not matter.
settled :
    {A : Type 0}
    → (P : Database → Type 0) (r : Result A × World Database) → After (λ _ db. P db) P r
    → P r.1.db
settled P (ok a, w) h = h
settled P (err e, w) h = h

pick :
    (P : ClaimedReservation → Type 0) {c : ClaimedReservation} (cs : List ClaimedReservation)
    → Memᴰ c cs
    → All P cs
    → P c
pick P [] m h = elim m [ ]
pick P (d ∷ cs) (Memᴰ.head e) h = subst P (sym e) h.0
pick P (d ∷ cs) (Memᴰ.tail m) h = pick P cs m h.1

code_given : (e : Error) → str_eq (failure_code e) "" ≡ false
code_given Error.video_unavailable = refl
code_given _ = refl

message_short : (e : Error) → char_count (failure_message e) ≤ 1000
message_short Error.video_unavailable = omega arith
message_short _ = omega arith

requested-scheduled : (url : YouTubeUrl) (now : Time) → (requested url now).state ≡ scheduled
unfolding requested
requested-scheduled url now = refl

module _ (claims : List ClaimedReservation) (c : ClaimedReservation) where
  persisted_db :
      (outcome : String) (r : Result (Unit {0}) × World Database)
      → After (λ _ db. Inv claims db) (Inv claims) r
      → Inv claims (persisted c outcome r).1.db
  unfolding persisted
  persisted_db outcome (ok _, w) h = h
  persisted_db outcome (err e, w) h = h

  recorded_db :
      (code : String) (r : Result (Unit {0}) × World Database)
      → After (λ _ db. Inv claims db) (Inv claims) r
      → Inv claims (recorded c code r).1.db
  unfolding recorded
  recorded_db code (ok _, w) h = h
  recorded_db code (err e, w) h = h

  fetched-Inv :
      (supply : Supply) (now : Time) (answer : Result Metadata) (w : World Database)
      → can_cancel c.state ≡ true
      → Held claims c w.db
      → Inv claims (fetched supply c now answer w).1.db
  unfolding fetched
  fetched-Inv supply now (ok m) w o h = persisted_db "metadata_applied" _ (
      (apply_metadata-Inv claims c supply (identified c m) now
          (unfold is_open can_cancel in ground arith)).at
        w h)
  fetched-Inv supply now (err e) w o h = recorded_db (failure_code e) _ (
      (record_failure-Inv claims c now (failure_code e) (failure_message e) (failure_retryable e) o
          (code_given e) (message_short e)).at
        w h)

  pub check_claimed-Inv :
      (provider : Provider) (supply : Supply) (now : Time) (w : World Database)
      → is_open c.state ≡ true
      → Held claims c w.db
      → Inv claims (check_claimed provider supply c now w).1.db
  unfolding check_claimed
  check_claimed-Inv provider supply now w o h = elim (Bool-cases (state_eq c.state collecting)) [
    | inl same ↦ rw same (
        persisted_db "collection_synced" _
          ((sync_collection-Inv claims c now (state_eq→eq c.state collecting same)).at w h))
    | inr other ↦ rw other (looked_up provider other)
  ]
    where
      looked_up :
          (p : Provider)
          → state_eq c.state collecting ≡ false
          → Inv claims (look_up p supply c now w).1.db
      looked_up none other = unfold look_up in h.0
      looked_up (some fetch) other =
          unfold look_up in
          fetched-Inv supply now (fetch c.youtube_video_id) w
            (unfold is_open can_cancel state_eq in ground arith) h

-- A video ID and the URL made of it have the lengths that the table wants.
ascii_length : (s : Bytes) → all_id_bytes s ≡ true → char_length s ≡ length s
unfolding all_id_bytes char_length
ascii_length [] h = refl
ascii_length (c ∷ s) h =
    let whole : (c / 64 == 2) ≡ false = ground (arith, h) in
    rw whole (rw (ascii_length s (ground arith)) refl)

IsCanonical-identity :
    (u : YouTubeUrl)
    → (is_video_id u.video_id ≡ true) × (u.canonical_url ≡ canonical_of u.video_id)
    → identity_fields u.video_id u.canonical_url ≡ true
unfolding is_video_id identity_fields char_length
IsCanonical-identity u (id, url) =
    let letters : all_id_bytes u.video_id ≡ true = ground arith in
    let eleven : length u.video_id ≡ 11 = ground arith in
    rw (ascii_length u.video_id letters) (rw eleven (rw url (ground arith)))

service_create-Inv :
    (claims : List ClaimedReservation) (unescape : Bytes → Option Bytes)
    (parse : Bytes → Option ParsedUrl) (to_lower : Bytes → Bytes) (fresh : ℕ) (raw_url : Bytes)
    (now : Time)
    → Ensures
        (Inv claims)
        (Service.create (parse_youtube_url unescape parse to_lower) fresh now raw_url)
        (λ _ db. Inv claims db)
        (Inv claims)
unfolding Service.create
service_create-Inv claims unescape parse to_lower fresh raw_url now =
    by_url (parse_youtube_url unescape parse to_lower raw_url) refl
  where
    by_url :
        (r : Result YouTubeUrl)
        → parse_youtube_url unescape parse to_lower raw_url ≡ r
        → Ensures
            (Inv claims)
            (create_parsed (parse_youtube_url unescape parse to_lower) fresh now r)
            (λ _ db. Inv claims db)
            (Inv claims)
    by_url (err e) p = Ensures-raise _ (λ db i. i)
    by_url (ok u) p = create-Inv claims fresh (requested u now) (requested-scheduled u now) (
        unfold requested in
        IsCanonical-identity u (parse_youtube_url-IsCanonical unescape parse to_lower raw_url u p))

Step-Inv : {s t : System} → Step s t → Inv s.claims s.db → Inv t.claims t.db
Step-Inv {s} (creates unescape parse to_lower fresh raw_url now faults) i =
    settled (Inv s.claims) _ (
      (service_create-Inv s.claims unescape parse to_lower fresh raw_url now).at (world s faults) i)
Step-Inv {s} (cancels id now faults) i =
    settled (Inv s.claims) _ ((cancel-Inv s.claims id now).at (world s faults) i)
Step-Inv {s} (claims_due worker_id now lease_duration faults) i =
    handed (claim_due worker_id now lease_duration (world s faults))
      ((claim_due-Inv s.claims worker_id now lease_duration).at (world s faults) i)
  where
    handed :
        (r : Result (Option ClaimedReservation) × World Database)
        → After (λ o db. Inv (with_claim o s.claims) db) (Inv s.claims) r
        → Inv (claimed_by r.0 s.claims) r.1.db
    handed (ok none, w) h = h
    handed (ok (some c), w) h = h
    handed (err e, w) h = h
Step-Inv {s} (beats c now lease_duration faults) i =
    renewed (heartbeat c now lease_duration (world s faults))
      ((heartbeat-Inv s.claims c now lease_duration).at (world s faults) i)
  where
    renewed :
        (r : Result ClaimedReservation × World Database)
        → After (λ c db. Inv (c ∷ s.claims) db) (Inv s.claims) r
        → Inv (renewed_by r.0 s.claims) r.1.db
    renewed (ok c, w) h = h
    renewed (err e, w) h = h
Step-Inv {s} (checks c provider supply now faults m) i =
    let g = pick (Genuine s.db) s.claims m i.genuine in
    check_claimed-Inv s.claims c provider supply now (world s faults) g.unfinished (i, g.since)
Step-Inv {s} (works jobs) i = (Inv-Frame s.claims).at_jobs s.db jobs i

empty-Inv : Inv [] empty.db
empty-Inv = record { valid = record { rows = tt; keys = tt; videos = tt; log = tt }; genuine = tt }

reach-Inv : {s t : System} → Steps s t → Inv s.claims s.db → Inv t.claims t.db
reach-Inv here i = i
reach-Inv (next r st) i = Step-Inv st (reach-Inv r i)

-- In every state that the system can reach from the empty database, whatever users, workers,
-- YouTube, the collection worker and failing database calls do, and in whatever order: every
-- reservation satisfies the CHECK constraints of its table, no two have the same key, no two
-- active ones are for the same video, and every line of the log is a creation or a change of
-- state that the transition table allows.
pub reach-Valid : {t : System} → Steps empty t → Valid t.db
reach-Valid r = (reach-Inv r empty-Inv).valid
