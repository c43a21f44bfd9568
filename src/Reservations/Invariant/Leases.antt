-- ===== src/Reservations/Invariant/Leases.antt =====
-- `ClaimDue` and `Heartbeat` keep the invariant, and the claims that they hand out are genuine.
use stream_analysis_tools.Base.{
  ℕ, ℤ, pos, pos_part, ◌+◌, ◌<◌, ◌≡◌, refl, ◌≢◌, ◌⊎◌, inl, inr, Bool, true, false, List, [], ◌∷◌,
  Option, none, some, is_some, All, arith, ==_iff, String, str_eq, Time, ltb_ℤ, Bool-cases, subst,
  ◌∙◌, if◌then◌else◌,
}
use stream_analysis_tools.Errors.{ok}
use stream_analysis_tools.Reservations.Invariant.Checks.{
  claimed_row-RowChecks, beaten_row-RowChecks,
}
use stream_analysis_tools.Reservations.Invariant.Defs.{
  same_key, same_key_sym, Since, Genuine, Inv, Advances, Settles, Valid-update, Genuine-update,
  find-update,
}
use stream_analysis_tools.Reservations.Model.{ClaimedReservation}
use stream_analysis_tools.Reservations.Repository.Leases.{
  is_open, is_due, due_before, claimed_row, claim_candidate, claim_due, owns, beaten_row, beats,
}
use stream_analysis_tools.Reservations.Repository.Rows.{has_id, scan_claimed_reservation}
use stream_analysis_tools.Sql.Rows.{ReservationRow, Database}
use stream_analysis_tools.Sql.Session.Ensures.{
  Ensures, Ensures-raise, Ensures-statement, Ensures-optional,
}
use stream_analysis_tools.Sql.Table.{find, update, first_by}
use stream_analysis_tools.Sql.Table.Laws.{All-first_by, first_by-cons}
use stream_analysis_tools.Sql.Table.Distinct.{Only, first_by-Only}

claimed_row-Settles :
    (id : ℕ) (worker_id : String) (at expires_at : Time)
    → str_eq worker_id "" ≡ false
    → at < expires_at
    → Settles
        (λ r. has_id id r ≡ true → is_open r.state ≡ true)
        (has_id id)
        (claimed_row worker_id at expires_at)
unfolding claimed_row
claimed_row-Settles id worker_id at expires_at w t = record {
  advances = record { key = λ r. refl; revision = λ r. refl };
  video = λ r. refl;
  checks = λ r hit p c. claimed_row-RowChecks worker_id at expires_at r w t (p hit) c;
  asleep = λ r hit p c a. a;
}

pub beaten_row-Settles :
    (c : ClaimedReservation) (at expires_at : Time)
    → at < expires_at
    → Settles (λ _. Unit {0}) (beats c at) (beaten_row at expires_at)
unfolding beaten_row owns
beaten_row-Settles c at expires_at t = record {
  advances = record { key = λ r. refl; revision = λ r. refl };
  video = λ r. refl;
  checks = λ r hit p v. beaten_row-RowChecks at expires_at r t (ground arith) v;
  asleep = λ r hit p v a. a;
}

pub any_row : (rows : List ReservationRow) → All (λ _. Unit {0}) rows
any_row [] = tt
any_row (r ∷ rs) = (tt, any_row rs)

-- A claim that a write hands out of the one row with its key.
module _ (test : ReservationRow → Bool) (f : ReservationRow → ReservationRow) (a : Advances f)
    (r : ReservationRow) (hit : test r ≡ true) where
  Since-written :
      (q : ReservationRow)
      → (same_key r q ≡ false) ⊎ (q ≡ r)
      → Since (scan_claimed_reservation (f r)) (if test q then f q else q)
  unfolding scan_claimed_reservation
  Since-written q (inr e) =
      rw (e, hit)
        (record {
          behind = λ _. omega arith;
          state_kept = λ _ _. refl;
          job_kept = λ _ _. refl;
          attempt_kept = λ _ _. refl;
        })
  Since-written q (inl ne) =
      let other : (if test q then f q else q).id ≢ (f r).id = ground (arith, a.key q, a.key r) in
      record {
        behind = λ e. absurd (other e);
        state_kept = λ e _. absurd (other e);
        job_kept = λ e _. absurd (other e);
        attempt_kept = λ e _. absurd (other e);
      }

  written-all :
      (rows : List ReservationRow)
      → Only same_key r rows
      → All (Since (scan_claimed_reservation (f r))) (update test f rows)
  unfolding update
  written-all [] h = tt
  written-all (q ∷ qs) h = (Since-written q h.0, written-all qs h.1)

  -- Where the row was found under the key of the claim.
  pub Genuine-written :
      (db : Database)
      → Only same_key r db.reservations
      → is_some (find (has_id r.id) db.reservations) ≡ true
      → is_open (f r).state ≡ true
      → Genuine
          (record db { reservations = update test f db.reservations })
          (scan_claimed_reservation (f r))
  Genuine-written db o p u = record {
    since = written-all db.reservations o;
    present =
        unfold scan_claimed_reservation in
        rw (a.key r) (find-update r.id test f db.reservations a ∙ p);
    unfinished = unfold scan_claimed_reservation in u;
  }

chosen_present :
    (test : ReservationRow → Bool) (rows : List ReservationRow) (r : ReservationRow)
    → first_by due_before test rows ≡ some r
    → is_some (find (has_id r.id) rows) ≡ true
unfolding find first_by
chosen_present test [] r e = cc
chosen_present test (q ∷ qs) r e = elim (first_by-cons due_before test q qs r e) [
  | inl (same, _) ↦ rw same (ground arith)
  | inr later ↦ ground (arith, chosen_present test qs r later)
]

pub found_present :
    (test : ReservationRow → Bool) (rows : List ReservationRow) (r : ReservationRow)
    → find test rows ≡ some r
    → is_some (find (has_id r.id) rows) ≡ true
unfolding find
found_present test [] r e = cc
found_present test (q ∷ qs) r e = ground (arith, found_present test qs r)

-- The claims that are held once an operation has handed one out, or none.
abbrev pub with_claim :
    Option ClaimedReservation → List ClaimedReservation → List ClaimedReservation
with_claim none claims = claims
with_claim (some c) claims = c ∷ claims

Only-open :
    (at : Time) (r : ReservationRow) (rows : List ReservationRow)
    → is_due at r ≡ true
    → Only same_key r rows
    → All (λ q. has_id r.id q ≡ true → is_open q.state ≡ true) rows
unfolding is_due
Only-open at r [] d h = tt
Only-open at r (q ∷ qs) d h = ((λ t. ground (arith, h.0, d)), Only-open at r qs d h.1)

open_claimed :
    (worker_id : String) (at expires_at : Time) (r : ReservationRow)
    → is_due at r ≡ true
    → is_open (claimed_row worker_id at expires_at r).state ≡ true
unfolding claimed_row is_due
open_claimed worker_id at expires_at r d = ground arith

pub positive : (at : Time) (d : ℤ) → ltb_ℤ (pos 0) d ≡ true → at < at + pos_part d
positive at d h = ground arith

module _ (claims : List ClaimedReservation) where
  candidate-Inv :
      (worker_id : String) (at expires_at : Time) (db : Database) (o : Option ReservationRow)
      (c : ClaimedReservation) (db' : Database)
      → str_eq worker_id "" ≡ false
      → at < expires_at
      → first_by due_before (is_due at) db.reservations ≡ o
      → Inv claims db
      → claim_candidate worker_id at expires_at db o ≡ ok (c, db')
      → Inv (c ∷ claims) db'
  candidate-Inv worker_id at expires_at db none c db' w t e i h = cc
  candidate-Inv worker_id at expires_at db (some r) c db' w t e i h =
      let f = claimed_row worker_id at expires_at in
      let s = claimed_row-Settles r.id worker_id at expires_at w t in
      let only =
        first_by-Only same_key same_key_sym due_before (is_due at) db.reservations r e
          i.valid.keys in
      let due : is_due at r ≡ true =
        (All-first_by due_before (is_due at) (λ _. Unit {0}) db.reservations r e
          (any_row db.reservations)).1 in
      let both : (
        scan_claimed_reservation (f r),
        record db { reservations = update (has_id r.id) f db.reservations },
      )
          ≡ (c, db') =
        ground arith in
      subst (λ (t : ClaimedReservation × Database). Inv (t.0 ∷ claims) t.1) both
        (record {
          valid = Valid-update s db (Only-open at r db.reservations due only) i.valid;
          genuine = (
            Genuine-written (has_id r.id) f s.advances r ((==_iff r.id r.id).1 refl) db only
                (chosen_present (is_due at) db.reservations r e)
                (open_claimed worker_id at expires_at r due),
            Genuine-update claims (has_id r.id) f db s.advances i.genuine,
          );
        })

  pub claim_due-Inv :
      (worker_id : String) (at : Time) (lease_duration : ℤ)
      → Ensures
          (Inv claims)
          (claim_due worker_id at lease_duration)
          (λ o db. Inv (with_claim o claims) db)
          (Inv claims)
  unfolding claim_due
  claim_due-Inv worker_id at lease_duration = elim (Bool-cases (str_eq worker_id "")) [
    | inl blank ↦ rw blank (Ensures-raise _ (λ db i. i))
    | inr named ↦ rw named (elim (Bool-cases (ltb_ℤ (pos 0) lease_duration)) [
      | inr short ↦ rw short (Ensures-raise _ (λ db i. i))
      | inl lasting ↦ rw lasting (
          Ensures-optional _ (λ db i. i)
            (Ensures-statement _
              (λ db i c db' e.
                candidate-Inv worker_id at (at + pos_part lease_duration) db _ c db' named
                  (positive at lease_duration lasting) refl i e)
              (λ db i. i)))
    ])
  ]
