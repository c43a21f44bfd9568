-- ===== src/Reservations/Invariant/Heartbeat.antt =====
-- `Heartbeat` keeps the invariant, and the claim that it hands out is genuine.
use stream_analysis_tools.Base.{
  ℤ, pos, pos_part, ◌+◌, ◌<◌, ◌≡◌, refl, inl, inr, true, List, ◌∷◌, Option, none, some, arith, Time,
  ltb_ℤ, Bool-cases, subst,
}
use stream_analysis_tools.Errors.{ok}
use stream_analysis_tools.Reservations.Invariant.Defs.{
  same_key, same_key_sym, Inv, Valid-update, Genuine-update,
}
use stream_analysis_tools.Reservations.Invariant.Leases.{
  beaten_row-Settles, any_row, Genuine-written, found_present, positive,
}
use stream_analysis_tools.Reservations.Model.{ClaimedReservation}
use stream_analysis_tools.Reservations.Repository.Leases.{
  beaten_row, is_open, renew_owned, beats, heartbeat,
}
use stream_analysis_tools.Reservations.Repository.Rows.{scan_claimed_reservation}
use stream_analysis_tools.Sql.Rows.{ReservationRow, Database}
use stream_analysis_tools.Sql.Session.Ensures.{
  Ensures, Ensures-raise, Ensures-statement, Ensures-map_err,
}
use stream_analysis_tools.Sql.Table.{find, update}
use stream_analysis_tools.Sql.Table.Laws.{All-find}
use stream_analysis_tools.Sql.Table.Distinct.{find-Only}

open_beaten :
    (c : ClaimedReservation) (at expires_at : Time) (r : ReservationRow)
    → beats c at r ≡ true
    → is_open (beaten_row at expires_at r).state ≡ true
unfolding beaten_row
open_beaten c at expires_at r h = ground arith

module _ (claims : List ClaimedReservation) where
  renewed-Inv :
      (claimed : ClaimedReservation) (at expires_at : Time) (db : Database)
      (o : Option ReservationRow) (c : ClaimedReservation) (db' : Database)
      → at < expires_at
      → find (beats claimed at) db.reservations ≡ o
      → Inv claims db
      → renew_owned (beats claimed at) (beaten_row at expires_at) db o ≡ ok (c, db')
      → Inv (c ∷ claims) db'
  renewed-Inv claimed at expires_at db none c db' t e i h = cc
  renewed-Inv claimed at expires_at db (some r) c db' t e i h =
      let test = beats claimed at in
      let f = beaten_row at expires_at in
      let s = beaten_row-Settles claimed at expires_at t in
      let only = find-Only same_key same_key_sym test db.reservations r e i.valid.keys in
      let hit : test r ≡ true =
        (All-find (λ _. Unit {0}) test db.reservations e (any_row db.reservations)).1 in
      let both : (
        scan_claimed_reservation (f r),
        record db { reservations = update test f db.reservations },
      )
          ≡ (c, db') =
        ground arith in
      subst (λ (t : ClaimedReservation × Database). Inv (t.0 ∷ claims) t.1) both
        (record {
          valid = Valid-update s db (any_row db.reservations) i.valid;
          genuine = (
            Genuine-written test f s.advances r hit db only (found_present test db.reservations r e)
                (open_beaten claimed at expires_at r hit),
            Genuine-update claims test f db s.advances i.genuine,
          );
        })

  pub heartbeat-Inv :
      (claimed : ClaimedReservation) (at : Time) (lease_duration : ℤ)
      → Ensures
          (Inv claims)
          (heartbeat claimed at lease_duration)
          (λ c db. Inv (c ∷ claims) db)
          (Inv claims)
  unfolding heartbeat
  heartbeat-Inv claimed at lease_duration = elim (Bool-cases (ltb_ℤ (pos 0) lease_duration)) [
    | inr short ↦ rw short (Ensures-raise _ (λ db i. i))
    | inl lasting ↦ rw lasting (
        Ensures-map_err _ _ (
          Ensures-statement _
            (λ db i c db' e.
              renewed-Inv claimed at (at + pos_part lease_duration) db _ c db'
                (positive at lease_duration lasting) refl i e)
            (λ db i. i)))
  ]
