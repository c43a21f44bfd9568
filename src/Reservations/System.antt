-- ===== src/Reservations/System.antt =====
-- The reservations as a system: users who create and cancel, and any number of monitor workers
-- whose operations interleave. A worker acts on any claim that was ever handed out, however old.
-- Each operation may meet any faults.
pub mod Reach
use stream_analysis_tools.Base.{
  ℕ, ℤ, ◌≡◌, Bool, List, [], ◌∷◌, Option, none, some, String, Bytes, Time,
}
use mathlib.Core.List.{Memᴰ}
use stream_analysis_tools.Errors.{Result, ok, err}
use stream_analysis_tools.Reservations.Model.{ClaimedReservation}
use stream_analysis_tools.Reservations.Monitor.{Provider, check_claimed}
use stream_analysis_tools.Reservations.Repository.Guarded.{Supply}
use stream_analysis_tools.Reservations.Repository.Leases.{claim_due, heartbeat}
use stream_analysis_tools.Reservations.Service
use stream_analysis_tools.Reservations.Repository.Public.{cancel}
use stream_analysis_tools.Sql.Rows.{Database, JobRow}
use stream_analysis_tools.Sql.Session.{World}
use stream_analysis_tools.Streams.Parse.{ParsedUrl, parse_youtube_url}

pub record System : Type 0 where
  pub db : Database
  pub claims : List ClaimedReservation

abbrev pub world : System → List Bool → World Database
world s faults = record { db = s.db; faults = faults }

-- The claims that are known after `ClaimDue`, and after `Heartbeat`.
abbrev pub claimed_by :
    Result (Option ClaimedReservation) → List ClaimedReservation → List ClaimedReservation
claimed_by (ok (some c)) claims = c ∷ claims
claimed_by (ok none) claims = claims
claimed_by (err e) claims = claims

abbrev pub renewed_by :
    Result ClaimedReservation → List ClaimedReservation → List ClaimedReservation
renewed_by (ok c) claims = c ∷ claims
renewed_by (err e) claims = claims

pub data Step (s : System) : System → Type 0 where
  creates :
      (unescape : Bytes → Option Bytes) (parse : Bytes → Option ParsedUrl)
      (to_lower : Bytes → Bytes) (fresh : ℕ) (raw_url : Bytes) (now : Time) (faults : List Bool)
      → Step s (record s {
        db =
            (Service.create
              (parse_youtube_url unescape parse to_lower)
              fresh
              now
              raw_url
              (world s faults)).1.db;
      })
  cancels :
      (id : ℕ) (now : Time) (faults : List Bool)
      → Step s (record s { db = (cancel id now (world s faults)).1.db })
  claims_due :
      (worker_id : String) (now : Time) (lease_duration : ℤ) (faults : List Bool)
      → Step s (record {
        db = (claim_due worker_id now lease_duration (world s faults)).1.db;
        claims = claimed_by (claim_due worker_id now lease_duration (world s faults)).0 s.claims;
      })
  beats :
      (c : ClaimedReservation) (now : Time) (lease_duration : ℤ) (faults : List Bool)
      → Step s (record {
        db = (heartbeat c now lease_duration (world s faults)).1.db;
        claims = renewed_by (heartbeat c now lease_duration (world s faults)).0 s.claims;
      })
  checks :
      (c : ClaimedReservation) (provider : Provider) (supply : Supply) (now : Time)
      (faults : List Bool)
      → Memᴰ c s.claims
      → Step s (record s { db = (check_claimed provider supply c now (world s faults)).1.db })
  -- the collection worker moves its jobs on
  works : (jobs : List JobRow) → Step s (record s { db = record s.db { jobs = jobs } })

pub data Steps (s : System) : System → Type 0 where
  here : Steps s s
  next : {t u : System} → Steps s t → Step t u → Steps s u

-- The database as the migrations leave it.
abbrev pub empty : System
empty = record {
  db = record { reservations = []; transitions = []; jobs = []; streams = []; messages = [] };
  claims = [];
}
