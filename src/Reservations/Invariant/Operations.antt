-- ===== src/Reservations/Invariant/Operations.antt =====
-- `ApplyMetadata`, `SyncCollection` and `RecordFailure` under a genuine claim keep the invariant.
use Prim.Native.String.{count as char_count}
use stream_analysis_tools.Base.{
  ℕ, ◌+◌, ◌≤◌, ◌≡◌, sym, ◌≢◌, ◌⊎◌, inl, inr, Bool, true, false, not, List, Option, none, some,
  is_some, arith, String, str_eq, Time, Bool-cases, subst,
}
use stream_analysis_tools.Collections.Model.{JobStatus}
use stream_analysis_tools.Errors.{other}
use stream_analysis_tools.Reservations.Invariant.Checks.{Supplies}
use stream_analysis_tools.Reservations.Invariant.Defs.{LoggedFrom, Inv, Held, Held-Frame}
use stream_analysis_tools.Reservations.Invariant.Guarded.{
  observed_row-Settles, synced_row-Settles, failed_row-Settles, logged-Inv,
}
use stream_analysis_tools.Reservations.Invariant.Supplied.{
  observed_stream-Frame, collection_job-Frame,
}
use stream_analysis_tools.Reservations.Invariant.Writes.{update_reservations-Inv}
use stream_analysis_tools.Reservations.Machine.{state_eq→eq, state_eq_refl, transition-failed}
use stream_analysis_tools.Reservations.Model.{
  State, Event, ClaimedReservation, can_cancel, state_eq, transition, transitions, collecting,
  completed, failed, waiting_for_archive,
}
use stream_analysis_tools.Reservations.Repository.Guarded.{
  Supply, apply_observation, apply_metadata,
}
use stream_analysis_tools.Reservations.Repository.Leases.{is_open}
use stream_analysis_tools.Reservations.Repository.Outcomes.{
  sync_target, sync_job, sync_collection, failure_of, record_failure,
}
use stream_analysis_tools.Reservations.Schedule.{state_from_metadata}
use stream_analysis_tools.Reservations.Schedule.Observation.{
  observed_event, observed_state, state_from_metadata-total, observed_state-waiting,
}
use stream_analysis_tools.Sql.Rows.{Database}
use stream_analysis_tools.Sql.Session.{Session, raise}
use stream_analysis_tools.Sql.Session.Ensures.{
  Ensures, Ensures-raise, Ensures-select, Ensures-transact, Ensures-bind, Ensures-error,
  Ensures-given, Ensures-given₂,
}
use stream_analysis_tools.Streams.Model.{LifecycleStatus, Metadata}

-- An open reservation stays open whatever is observed.
observed_state-open :
    (s : State) (m : Metadata) → is_open s ≡ true → is_open (observed_state s m) ≡ true
unfolding observed_state state_from_metadata transitions is_open
observed_state-open s m h = ground arith

observed_LoggedFrom :
    (s : State) (m : Metadata)
    → not (state_eq (observed_state s m) s) ≡ true
    → LoggedFrom (some s) (observed_state s m)
observed_LoggedFrom s m h = elim (state_from_metadata-total s m).1 [
  | inl same ↦ absurd (ground (arith, h, same, state_eq_refl s))
  | inr edge ↦
      (λ e. ground (arith, h, e, state_eq_refl s), (observed_event s m.lifecycle_status, edge))
]

supplied :
    (s : State) (m : Metadata) (stream_id job_id : Option ℕ)
    → (m.lifecycle_status ≡ LifecycleStatus.ended → is_some stream_id ≡ true)
    → (observed_state s m ≢ collecting) ⊎ (is_some stream_id ≡ true)
    → (observed_state s m ≡ collecting) × (is_some job_id ≡ true)
      ⊎ (observed_state s m ≢ collecting) × (job_id ≡ none)
    → Supplies s (observed_state s m) stream_id job_id
supplied s m stream_id job_id a b c = (by_state (observed_state-waiting s m), b, c)
  where
    by_state :
        (observed_state s m ≡ waiting_for_archive
          → (s ≡ waiting_for_archive) ⊎ (m.lifecycle_status ≡ LifecycleStatus.ended))
        → (s ≡ waiting_for_archive)
          ⊎ (observed_state s m ≢ waiting_for_archive)
          ⊎ (is_some stream_id ≡ true)
    by_state h = elim (Bool-cases (state_eq (observed_state s m) waiting_for_archive)) [
      | inr ne ↦ inr (inl (λ e. ground (arith, ne, e, state_eq_refl waiting_for_archive)))
      | inl e ↦ elim (h (state_eq→eq (observed_state s m) waiting_for_archive e)) [
        | inl waits ↦ inl waits
        | inr ended ↦ inr (inr (a ended))
      ]
    ]

failure_targets :
    (s : State) (attempt : ℕ) (at : Time) (retryable : Bool)
    → let f = failure_of s attempt at retryable in
      ((f.target ≡ s) × (f.failed_at ≡ none)) ⊎ ((f.target ≡ failed) × (f.failed_at ≡ some at))
unfolding failure_of
failure_targets s attempt at retryable = ground arith

failed_log : (s t : State) → can_cancel s ≡ true → state_eq t failed ≡ true → LoggedFrom (some s) t
unfolding can_cancel
failed_log s t h e =
    subst (LoggedFrom (some s)) (sym (state_eq→eq t failed e))
      (ground arith, (Event.permanent_monitoring_failure, (transition-failed s).1 h))

sync_targets : (s : JobStatus) → (sync_target s ≡ collecting) ⊎ (sync_target s ≡ completed)
sync_targets s = ground arith

synced_log :
    (status : JobStatus) (s : State)
    → s ≡ collecting
    → state_eq (sync_target status) completed ≡ true
    → LoggedFrom (some s) (sync_target status)
unfolding state_eq
synced_log JobStatus.succeeded s h e =
    (ground arith, (Event.collection_succeeded, unfold transition transitions in ground arith))
synced_log _ s h e = cc

module _ (claims : List ClaimedReservation) (c : ClaimedReservation) where
  pub apply_metadata-Inv :
      (supply : Supply) (m : Metadata) (at : Time)
      → is_open c.state ≡ true
      → Ensures (Held claims c) (apply_metadata supply c m at) (λ _ db. Inv claims db) (Inv claims)
  unfolding apply_metadata apply_observation
  apply_metadata-Inv supply m at o = rw ((state_from_metadata-total c.state m).0) (
      Ensures-transact _ (λ db h. h.0)
        (Ensures-bind _ _
          (Ensures-error _ (λ db h. h.0) (observed_stream-Frame (Held-Frame claims c) supply m))
          λ stream_id. Ensures-given _ λ a.
            Ensures-bind _ _
              (Ensures-error _ (λ db h. h.0)
                (collection_job-Frame (Held-Frame claims c) supply (observed_state c.state m) c.id
                  stream_id))
              λ job_id. Ensures-given₂ _ λ b d.
                Ensures-bind _ _
                  (update_reservations-Inv claims (
                    observed_row-Settles c (observed_state c.state m) m _ at stream_id job_id
                      (observed_state-open c.state m o)
                      (supplied c.state m stream_id job_id a b d)))
                  λ n.
                    logged-Inv claims n _ c (observed_state c.state m) _ at
                      (observed_LoggedFrom c.state m)))

  pub record_failure-Inv :
      (at : Time) (code message : String) (retryable : Bool)
      → can_cancel c.state ≡ true
      → str_eq code "" ≡ false
      → char_count message ≤ 1000
      → Ensures
          (Held claims c)
          (record_failure c at code message retryable)
          (λ _ db. Inv claims db)
          (Inv claims)
  unfolding record_failure
  record_failure-Inv at code message retryable h n l =
      let f = failure_of c.state (c.monitor_attempt + 1) at retryable in
      Ensures-transact _ (λ db h. h.0)
        (Ensures-bind _ _
          (update_reservations-Inv claims (
            failed_row-Settles c f at code message h
              (failure_targets c.state (c.monitor_attempt + 1) at retryable) n l))
          (λ n.
            logged-Inv claims n (state_eq f.target failed) c f.target _ at
              (failed_log c.state f.target h)))

  pub sync_collection-Inv :
      (at : Time)
      → c.state ≡ collecting
      → Ensures (Held claims c) (sync_collection c at) (λ _ db. Inv claims db) (Inv claims)
  unfolding sync_collection
  sync_collection-Inv at h = by_job c.collection_job_id
    where
      by_job :
          (o : Option ℕ)
          → Ensures
              (Held claims c)
              (elim o as (λ _. Session Database (Unit {0})) [
                | none ↦ raise (other "collecting reservation has no collection job")
                | some job_id ↦ sync_job c at job_id
              ])
              (λ _ db. Inv claims db)
              (Inv claims)
      by_job none = Ensures-raise _ (λ db i. i.0)
      by_job (some job_id) =
          unfold sync_job in
          Ensures-transact _ (λ db i. i.0)
            (Ensures-bind _ _ (Ensures-select _ (λ db i a e. i) (λ db i. i.0)) λ job.
              Ensures-bind _ _
                (update_reservations-Inv claims
                  (synced_row-Settles c (sync_target job.status) at h (sync_targets job.status)))
                (λ n.
                  logged-Inv claims n _ c (sync_target job.status) _ at
                    (synced_log job.status c.state h)))
