-- ===== src/Reservations/Invariant/Defs.antt =====
-- The invariant of the reservation tables, with the claims that workers hold.
use stream_analysis_tools.Base.{
  ℕ, ◌+◌, ◌≤◌, ◌≡◌, refl, ◌≢◌, inl, inr, Bool, true, false, List, [], ◌∷◌, Option, none, some, All,
  arith, ◌==◌, Bool-cases, is_some, ◌∙◌,
}
use stream_analysis_tools.Errors.{ok}
use stream_analysis_tools.Reservations.Invariant.Checks.{RowChecks}
use stream_analysis_tools.Reservations.Model.{
  State, Event, ClaimedReservation, transition, scheduled,
}
use stream_analysis_tools.Reservations.Repository.Leases.{is_open}
use stream_analysis_tools.Reservations.Repository.Public.{is_active, conflicts}
use stream_analysis_tools.Reservations.Repository.Rows.{has_id}
use stream_analysis_tools.Sql.Rows.{ReservationRow, TransitionRow, JobRow, StreamRow, Database}
use stream_analysis_tools.Sql.Table.{find, update}
use stream_analysis_tools.Sql.Table.Distinct.{Distinct, update-Distinct}
use stream_analysis_tools.Sql.Table.Laws.{All-update}

-- Two rows with one primary key.
abbrev pub same_key : ReservationRow → ReservationRow → Bool
same_key a b = a.id == b.id

pub same_key_sym : (a b : ReservationRow) → same_key a b ≡ false → same_key b a ≡ false
same_key_sym a b h = ground arith

-- A claim against a row: the row has moved on since, or it is still as it was claimed.
pub record Since (c : ClaimedReservation) (r : ReservationRow) : Type 0 where
  pub behind : r.id ≡ c.id → c.lease.revision ≤ r.revision
  pub state_kept : r.id ≡ c.id → r.revision ≡ c.lease.revision → r.state ≡ c.state
  pub job_kept :
      r.id ≡ c.id → r.revision ≡ c.lease.revision → r.collection_job_id ≡ c.collection_job_id
  pub attempt_kept :
      r.id ≡ c.id → r.revision ≡ c.lease.revision → r.monitor_attempt ≡ c.monitor_attempt

-- A claim whose row is there, and of which no row says otherwise.
pub record Genuine (db : Database) (c : ClaimedReservation) : Type 0 where
  pub since : All (Since c) db.reservations
  pub present : is_some (find (has_id c.id) db.reservations) ≡ true
  pub unfinished : is_open c.state ≡ true

-- A line of the log: the creation, or a change of state that the transition table allows.
abbrev pub LoggedFrom : Option State → State → Type 0
LoggedFrom none to = to ≡ scheduled
LoggedFrom (some from) to = (from ≢ to) × ((e : Event) × (transition from e ≡ ok to))

abbrev pub Logged : TransitionRow → Type 0
Logged t = LoggedFrom t.from_state t.to_state

pub record Valid (db : Database) : Type 0 where
  pub rows : All RowChecks db.reservations
  pub keys : Distinct same_key db.reservations
  pub videos : Distinct conflicts db.reservations
  pub log : All Logged db.transitions

-- A write that advances the revision of the rows that it changes, as every write does.
pub record Advances (f : ReservationRow → ReservationRow) : Type 0 where
  pub key : (r : ReservationRow) → (f r).id ≡ r.id
  pub revision : (r : ReservationRow) → (f r).revision ≡ r.revision + 1

-- After such a write no older claim matches.
Since-advance :
    (c : ClaimedReservation) (f : ReservationRow → ReservationRow) (r : ReservationRow)
    → Advances f
    → Since c r
    → Since c (f r)
Since-advance c f r a s = record {
  behind = λ e. omega (arith, a.key r, a.revision r, s.behind (ground (arith, a.key r)));
  state_kept =
      λ e h. absurd (omega (arith, a.key r, a.revision r, s.behind (ground (arith, a.key r))));
  job_kept =
      λ e h. absurd (omega (arith, a.key r, a.revision r, s.behind (ground (arith, a.key r))));
  attempt_kept =
      λ e h. absurd (omega (arith, a.key r, a.revision r, s.behind (ground (arith, a.key r))));
}

-- The state of the workers and the database: the claims that have been handed out are genuine.
pub record Inv (claims : List ClaimedReservation) (db : Database) : Type 0 where
  pub valid : Valid db
  pub genuine : All (Genuine db) claims

pub find-update :
    (id : ℕ) (test : ReservationRow → Bool) (f : ReservationRow → ReservationRow)
    (rows : List ReservationRow)
    → Advances f
    → is_some (find (has_id id) (update test f rows)) ≡ is_some (find (has_id id) rows)
unfolding find update
find-update id test f [] a = refl
find-update id test f (r ∷ rs) a = ground (arith, a.key r, find-update id test f rs a)

pub Genuine-update :
    (claims : List ClaimedReservation) (test : ReservationRow → Bool)
    (f : ReservationRow → ReservationRow) (db : Database)
    → Advances f
    → All (Genuine db) claims
    → All (Genuine (record db { reservations = update test f db.reservations })) claims
Genuine-update [] test f db a h = tt
Genuine-update (c ∷ cs) test f db a h = (
  record {
    since =
        All-update (Since c) test f db.reservations (λ r _ s. Since-advance c f r a s) h.0.since;
    present = find-update c.id test f db.reservations a ∙ h.0.present;
    unfinished = h.0.unfinished;
  },
  Genuine-update cs test f db a h.1,
)

-- A write that keeps a row's video and wakes no row up, of the rows that satisfy `P`.
pub record Settles (P : ReservationRow → Type 0) (test : ReservationRow → Bool)
    (f : ReservationRow → ReservationRow) : Type 0 where
  pub advances : Advances f
  pub video : (r : ReservationRow) → (f r).youtube_video_id ≡ r.youtube_video_id
  pub checks : (r : ReservationRow) → test r ≡ true → P r → RowChecks r → RowChecks (f r)
  pub asleep :
      (r : ReservationRow)
      → test r ≡ true
      → P r
      → RowChecks r
      → is_active (f r).state ≡ true
      → is_active r.state ≡ true

module _ {P : ReservationRow → Type 0} {test : ReservationRow → Bool}
    {f : ReservationRow → ReservationRow} (s : Settles P test f) where
  abbrev Fit : ReservationRow → Type 0
  Fit r = P r × RowChecks r

  both : (rows : List ReservationRow) → All P rows → All RowChecks rows → All Fit rows
  both [] p c = tt
  both (r ∷ rs) p c = ((p.0, c.0), both rs p.1 c.1)

  keys_left :
      (x y : ReservationRow)
      → Fit x
      → test x ≡ true
      → same_key x y ≡ false
      → same_key (f x) y ≡ false
  keys_left x y p t h = ground (arith, s.advances.key x)

  keys_right :
      (x y : ReservationRow)
      → Fit x
      → test x ≡ true
      → same_key y x ≡ false
      → same_key y (f x) ≡ false
  keys_right x y p t h = ground (arith, s.advances.key x)

  videos_left :
      (x y : ReservationRow)
      → Fit x
      → test x ≡ true
      → conflicts x y ≡ false
      → conflicts (f x) y ≡ false
  unfolding conflicts
  videos_left x y p t h = ground (arith, s.video x, s.asleep x t p.0 p.1)

  videos_right :
      (x y : ReservationRow)
      → Fit x
      → test x ≡ true
      → conflicts y x ≡ false
      → conflicts y (f x) ≡ false
  unfolding conflicts
  videos_right x y p t h = ground (arith, s.video x, s.asleep x t p.0 p.1)

  All-checks : (rows : List ReservationRow) → All Fit rows → All RowChecks (update test f rows)
  unfolding update
  All-checks [] h = tt
  All-checks (r ∷ rs) h = elim (Bool-cases (test r)) [
    | inl hit ↦ rw hit (s.checks r hit h.0.0 h.0.1, All-checks rs h.1)
    | inr miss ↦ rw miss (h.0.1, All-checks rs h.1)
  ]

  pub Valid-update :
      (db : Database)
      → All P db.reservations
      → Valid db
      → Valid (record db { reservations = update test f db.reservations })
  Valid-update db p v =
      let fit = both db.reservations p v.rows in
      record {
        rows = All-checks db.reservations fit;
        keys = update-Distinct same_key Fit test f keys_left keys_right db.reservations fit v.keys;
        videos =
            update-Distinct conflicts Fit test f videos_left videos_right db.reservations fit
              v.videos;
        log = v.log;
      }

  pub Inv-update :
      (claims : List ClaimedReservation) (db : Database)
      → All P db.reservations
      → Inv claims db
      → Inv claims (record db { reservations = update test f db.reservations })
  Inv-update claims db p i = record {
    valid = Valid-update db p i.valid;
    genuine = Genuine-update claims test f db s.advances i.genuine;
  }

-- What only speaks of reservations and their log is not touched by other tables.
pub record Frame (P : Database → Type 0) : Type 0 where
  pub at_streams : (db : Database) (ss : List StreamRow) → P db → P (record db { streams = ss })
  pub at_jobs : (db : Database) (js : List JobRow) → P db → P (record db { jobs = js })

abbrev pub Held : List ClaimedReservation → ClaimedReservation → Database → Type 0
Held claims c db = Inv claims db × All (Since c) db.reservations

Genuine-streams :
    (claims : List ClaimedReservation) (db : Database) (ss : List StreamRow)
    → All (Genuine db) claims
    → All (Genuine (record db { streams = ss })) claims
Genuine-streams [] db ss h = tt
Genuine-streams (c ∷ cs) db ss h = (
  record { since = h.0.since; present = h.0.present; unfinished = h.0.unfinished },
  Genuine-streams cs db ss h.1,
)

Genuine-jobs :
    (claims : List ClaimedReservation) (db : Database) (js : List JobRow)
    → All (Genuine db) claims
    → All (Genuine (record db { jobs = js })) claims
Genuine-jobs [] db js h = tt
Genuine-jobs (c ∷ cs) db js h = (
  record { since = h.0.since; present = h.0.present; unfinished = h.0.unfinished },
  Genuine-jobs cs db js h.1,
)

Valid-streams :
    (db : Database) (ss : List StreamRow) → Valid db → Valid (record db { streams = ss })
Valid-streams db ss v = record { rows = v.rows; keys = v.keys; videos = v.videos; log = v.log }

Valid-jobs : (db : Database) (js : List JobRow) → Valid db → Valid (record db { jobs = js })
Valid-jobs db js v = record { rows = v.rows; keys = v.keys; videos = v.videos; log = v.log }

pub Inv-Frame : (claims : List ClaimedReservation) → Frame (Inv claims)
Inv-Frame claims = record {
  at_streams = λ db ss i. record {
    valid = Valid-streams db ss i.valid;
    genuine = Genuine-streams claims db ss i.genuine;
  };
  at_jobs = λ db js i. record {
    valid = Valid-jobs db js i.valid;
    genuine = Genuine-jobs claims db js i.genuine;
  };
}

pub Held-Frame : (claims : List ClaimedReservation) (c : ClaimedReservation) → Frame (Held claims c)
Held-Frame claims c = record {
  at_streams = λ db ss h. ((Inv-Frame claims).at_streams db ss h.0, h.1);
  at_jobs = λ db js h. ((Inv-Frame claims).at_jobs db js h.0, h.1);
}
