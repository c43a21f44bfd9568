-- ===== src/Reservations/Invariant/Guarded.antt =====
-- `ApplyMetadata`, `SyncCollection` and `RecordFailure` keep the invariant when the claim that
-- guards them is genuine.
use Prim.Native.String.{count as char_count}
use stream_analysis_tools.Base.{
  ℕ, ◌≤◌, ◌≡◌, refl, ◌∙◌, sym, ◌⊎◌, inl, inr, Bool, true, false, List, Option, none, some, arith,
  ◌==◌, String, str_eq, Time, Bool-cases, subst, if◌then◌else◌,
}
use stream_analysis_tools.Reservations.Invariant.Checks.{
  RowChecks, Supplies, lease-open, observed_row-RowChecks, synced_row-RowChecks,
  failed_row-RowChecks,
}
use stream_analysis_tools.Reservations.Invariant.Defs.{LoggedFrom, Since, Inv, Settles}
use stream_analysis_tools.Reservations.Invariant.Writes.{insert_transition-Inv}
use stream_analysis_tools.Reservations.Model.{
  State, ClaimedReservation, can_cancel, collecting, completed, failed,
}
use stream_analysis_tools.Reservations.Repository.Guarded.{logged, observed_row}
use stream_analysis_tools.Reservations.Repository.Leases.{is_open, owns}
use stream_analysis_tools.Reservations.Repository.Outcomes.{Failure, synced_row, failed_row}
use stream_analysis_tools.Reservations.Repository.Public.{is_active}
use stream_analysis_tools.Reservations.Repository.Rows.{insert_transition}
use stream_analysis_tools.Sql.Rows.{ReservationRow}
use stream_analysis_tools.Sql.Session.{pure}
use stream_analysis_tools.Sql.Session.Ensures.{Ensures, Ensures-pure, Ensures-raise}
use stream_analysis_tools.Streams.Model.{Metadata}

-- What the guard of these operations says of a row, given a genuine claim.
pub record Owned (c : ClaimedReservation) (r : ReservationRow) : Type 0 where
  pub open_state : is_open r.state ≡ true
  pub state_kept : r.state ≡ c.state

pub Owned-row :
    (c : ClaimedReservation) (at : Time) (r : ReservationRow)
    → owns c at r ≡ true
    → Since c r
    → RowChecks r
    → Owned c r
unfolding owns
Owned-row c at r h s v = record {
  open_state = lease-open r v (ground arith);
  state_kept = s.state_kept (ground arith) (ground arith);
}

open-active : (s : State) → is_open s ≡ true → is_active s ≡ true
unfolding is_open is_active
open-active s h = ground arith

pub observed_row-Settles :
    (c : ClaimedReservation) (to : State) (m : Metadata) (next at : Time)
    (stream_id job_id : Option ℕ)
    → is_open to ≡ true
    → Supplies c.state to stream_id job_id
    → Settles (Since c) (owns c at) (observed_row to m next at stream_id job_id)
unfolding observed_row
observed_row-Settles c to m next at stream_id job_id t s = record {
  advances = record { key = λ r. refl; revision = λ r. refl };
  video = λ r. refl;
  checks = λ r hit p v.
      let o = Owned-row c at r hit p v in
      observed_row-RowChecks to m next at stream_id job_id r o.open_state t
        (subst (λ x. Supplies x to stream_id job_id) (sym o.state_kept) s) v;
  asleep = λ r hit p v a. open-active r.state (Owned-row c at r hit p v).open_state;
}

pub synced_row-Settles :
    (c : ClaimedReservation) (to : State) (at : Time)
    → c.state ≡ collecting
    → (to ≡ collecting) ⊎ (to ≡ completed)
    → Settles (Since c) (owns c at) (synced_row to at)
unfolding synced_row
synced_row-Settles c to at e t = record {
  advances = record { key = λ r. refl; revision = λ r. refl };
  video = λ r. refl;
  checks =
      λ r hit p v. synced_row-RowChecks to at r ((Owned-row c at r hit p v).state_kept ∙ e) t v;
  asleep = λ r hit p v a. open-active r.state (Owned-row c at r hit p v).open_state;
}

pub failed_row-Settles :
    (c : ClaimedReservation) (f : Failure) (at : Time) (code message : String)
    → can_cancel c.state ≡ true
    → ((f.target ≡ c.state) × (f.failed_at ≡ none))
      ⊎ ((f.target ≡ failed) × (f.failed_at ≡ some at))
    → str_eq code "" ≡ false
    → char_count message ≤ 1000
    → Settles (Since c) (owns c at) (failed_row f at code message)
unfolding failed_row
failed_row-Settles c f at code message e t n l = record {
  advances = record { key = λ r. refl; revision = λ r. refl };
  video = λ r. refl;
  checks = λ r hit p v.
      let kept = (Owned-row c at r hit p v).state_kept in
      failed_row-RowChecks f at code message r (ground (arith, kept)) (ground (arith, kept)) n l v;
  asleep = λ r hit p v a. open-active r.state (Owned-row c at r hit p v).open_state;
}

module _ (claims : List ClaimedReservation) where
  -- The log line behind a guarded write.
  pub logged-Inv :
      (affected : ℕ) (changed : Bool) (c : ClaimedReservation) (to : State) (reason : String)
      (at : Time)
      → (changed ≡ true → LoggedFrom (some c.state) to)
      → Ensures
          (Inv claims)
          (logged affected changed c to reason at)
          (λ _ db. Inv claims db)
          (Inv claims)
  unfolding logged
  logged-Inv affected changed c to reason at h = elim (Bool-cases (affected == 1)) [
    | inr lost ↦ rw lost (Ensures-raise _ (λ db i. i))
    | inl one ↦ rw one (by_change changed h)
  ]
    where
      by_change :
          (b : Bool)
          → (b ≡ true → LoggedFrom (some c.state) to)
          → Ensures
              (Inv claims)
              (if b then insert_transition c.id (some c.state) to reason at else pure tt)
              (λ _ db. Inv claims db)
              (Inv claims)
      by_change true l = insert_transition-Inv claims c.id (some c.state) to reason at (l refl)
      by_change false l = Ensures-pure tt (λ db i. i)
