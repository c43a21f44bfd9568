-- ===== src/Reservations/Claims.antt =====
-- What `ClaimDue` of apps/api/internal/reservations/repository.go hands out.
use stream_analysis_tools.Base.{
  ℕ, ℤ, pos, pos_part, suc, ◌+◌, ◌<◌, ◌≡◌, refl, ◌≢◌, sym, inl, inr, ◌∙◌, Bool, true, false, List,
  [], ◌∷◌, Option, none, some, All, arith, String, str_eq, Time, Bool-cases, if◌then◌else◌, ltb_ℤ,
  str_eq_iff, subst, ap,
}
use stream_analysis_tools.Errors.{Result, ok, err}
use stream_analysis_tools.Reservations.Invariant.Defs.{same_key, same_key_sym}
use stream_analysis_tools.Reservations.Model.{ClaimedReservation}
use stream_analysis_tools.Reservations.Repository.Leases.{
  is_due, due_before, claimed_row, claim_candidate, claim_due, owns,
}
use stream_analysis_tools.Reservations.Repository.Rows.{has_id, scan_claimed_reservation}
use stream_analysis_tools.Sql.Rows.{ReservationRow, Database}
use stream_analysis_tools.Sql.Session.{World, found, settle, send, statement}
use stream_analysis_tools.Sql.Table.{count, update, first_by}
use stream_analysis_tools.Sql.Table.Distinct.{Distinct}
use stream_analysis_tools.Sql.Table.Laws.{Chosen, first_by-Chosen, All-first_by, first_by-cons}

due_before-asym : (a b : ReservationRow) → due_before a b ≡ true → due_before b a ≡ false
unfolding due_before
due_before-asym a b h = ground arith

due_before_trans :
    (a b c : ReservationRow)
    → due_before b a ≡ false
    → due_before c b ≡ false
    → due_before c a ≡ false
unfolding due_before
due_before_trans a b c h k = ground arith

module _ (worker_id : String) (at expires_at : Time) where
  -- The answer of a claim on a database, and the database after it.
  abbrev pub Handed : Database → Result (Option ClaimedReservation) × World Database → Type 0
  Handed db (err e, w) = w.db ≡ db
  Handed db (ok none, w) = (w.db ≡ db) × All (λ r. is_due at r ≡ false) db.reservations
  Handed db (ok (some c), w) =
      (r : ReservationRow) × (first_by due_before (is_due at) db.reservations ≡ some r)
      × (is_due at r ≡ true)
      × All (λ z. is_due at z ≡ true → due_before z r ≡ false) db.reservations
      × (c ≡ scan_claimed_reservation (claimed_row worker_id at expires_at r))
      × (w.db ≡ record db {
        reservations = update (has_id r.id) (claimed_row worker_id at expires_at) db.reservations;
      })

  anything : (rows : List ReservationRow) → All (λ _. Unit {0}) rows
  anything [] = tt
  anything (r ∷ rs) = (tt, anything rs)

  candidate-Handed :
      (db : Database) (faults : List Bool) (o : Option ReservationRow)
      → first_by due_before (is_due at) db.reservations ≡ o
      → Chosen due_before (is_due at) db.reservations o
      → Handed db (found (settle db faults (claim_candidate worker_id at expires_at db o)))
  candidate-Handed db faults none e h = (refl, h)
  candidate-Handed db faults (some r) e h = (
    r,
    e,
    (All-first_by due_before (is_due at) (λ _. Unit {0}) db.reservations r e
        (anything db.reservations)).1,
    h,
    refl,
    refl,
  )

  sent-Handed :
      (db : Database) (faults : List Bool)
      → Handed db (
          found (
            send
              (λ db.
                claim_candidate worker_id at expires_at db
                  (first_by due_before (is_due at) db.reservations))
              db
              faults))
  sent-Handed db [] =
      candidate-Handed db [] _ refl
        (first_by-Chosen due_before (is_due at) due_before-asym due_before_trans db.reservations)
  sent-Handed db (false ∷ faults) =
      candidate-Handed db faults _ refl
        (first_by-Chosen due_before (is_due at) due_before-asym due_before_trans db.reservations)
  sent-Handed db (true ∷ faults) = refl

pub claim_due-Handed :
    (worker_id : String) (at : Time) (lease_duration : ℤ) (w : World Database)
    → Handed worker_id at
        (at + pos_part lease_duration)
        w.db
        (claim_due worker_id at lease_duration w)
unfolding claim_due statement
claim_due-Handed worker_id at lease_duration w = elim (Bool-cases (str_eq worker_id "")) [
  | inl e ↦ rw e refl
  | inr e ↦ rw e (elim (Bool-cases (ltb_ℤ (pos 0) lease_duration)) [
    | inr l ↦ rw l refl
    | inl l ↦ rw l (sent-Handed worker_id at (at + pos_part lease_duration) w.db w.faults)
  ])
]

module _ (worker_id : String) (at expires_at now : Time) (r : ReservationRow)
    (early : now < expires_at) where
  abbrev claim : ClaimedReservation
  claim = scan_claimed_reservation (claimed_row worker_id at expires_at r)

  -- The claimed row is not due until its lease ends.
  leased :
      (rows : List ReservationRow)
      → All
          (λ z. z.id ≡ r.id → is_due now z ≡ false)
          (update (has_id r.id) (claimed_row worker_id at expires_at) rows)
  unfolding update is_due claimed_row
  leased [] = tt
  leased (z ∷ zs) = elim (Bool-cases (has_id r.id z)) [
    | inl hit ↦ rw hit ((λ _. ground (arith, early)), leased zs)
    | inr miss ↦ rw miss ((λ e. ground (arith, miss, e)), leased zs)
  ]

  unowned : (z : ReservationRow) → same_key r z ≡ false → owns claim now z ≡ false
  unfolding owns scan_claimed_reservation claimed_row
  unowned z h = ground arith

  owned : owns claim now (claimed_row worker_id at expires_at r) ≡ true
  unfolding owns scan_claimed_reservation claimed_row
  owned = ground (arith, early, (str_eq_iff worker_id worker_id).1 refl)

  none_owned :
      (rows : List ReservationRow)
      → All (λ z. same_key r z ≡ false) rows
      → count (owns claim now) (update (has_id r.id) (claimed_row worker_id at expires_at) rows) ≡ 0
  unfolding count update
  none_owned [] h = refl
  none_owned (z ∷ zs) h =
      let miss : has_id r.id z ≡ false = same_key_sym r z h.0 in
      rw miss (rw (unowned z h.0) (none_owned zs h.1))

  one_owned :
      (rows : List ReservationRow)
      → first_by due_before (is_due at) rows ≡ some r
      → Distinct same_key rows
      → count (owns claim now) (update (has_id r.id) (claimed_row worker_id at expires_at) rows) ≡ 1
  unfolding count update first_by
  one_owned [] e h = cc
  one_owned (z ∷ zs) e h = elim (first_by-cons due_before (is_due at) z zs r e) [
    | inl (same, _) ↦
        let hit : has_id r.id z ≡ true = ground (arith, same) in
        rw hit (
          subst
            (λ x.
              (if owns claim now (claimed_row worker_id at expires_at x)
                then suc (rest zs)
                else rest zs)
              ≡ 1)
            same
            (rw owned (
              ap suc
                (none_owned zs (subst (λ x. All (λ y. same_key x y ≡ false) zs) (sym same) h.0)))))
    | inr later ↦
        let other_key : same_key z r ≡ false =
          (All-first_by due_before (is_due at) (λ y. same_key z y ≡ false) zs r later h.0).0 in
        let clear : same_key r z ≡ false = same_key_sym z r other_key in
        rw other_key (rw (unowned z clear) (one_owned zs later h.1))
  ]
    where
      rest : List ReservationRow → ℕ
      rest zs =
          count (owns claim now) (update (has_id r.id) (claimed_row worker_id at expires_at) zs)

some_inj :
    (x y : ClaimedReservation)
    → ◌≡◌ {A = Result (Option ClaimedReservation)} (ok (some x)) (ok (some y))
    → x ≡ y
some_inj x y e = ground arith

scan_key :
    {x d : ClaimedReservation} (worker_id : String) (at expires_at : Time) (s : ReservationRow)
    → x ≡ d
    → x ≡ scan_claimed_reservation (claimed_row worker_id at expires_at s)
    → s.id ≡ d.id
unfolding scan_claimed_reservation claimed_row
scan_key worker_id at expires_at s one made = sym (ap (λ k. k.id) made) ∙ ap (λ k. k.id) one

contrary : {b : Bool} → b ≡ false → b ≡ true → ⊥
contrary f t = cc

-- A lease is exclusive and good for its time. After a successful `ClaimDue`, in a table without two
-- rows of one key, and before the lease ends: exactly one row is owned under the claim, and another
-- `ClaimDue`, by whatever worker and with whatever calls failing, does not claim that reservation.
pub claim_due-exclusive :
    (worker_id another : String) (at now : Time) (lease_duration again : ℤ) (w : World Database)
    (faults : List Bool) (c d : ClaimedReservation)
    → Distinct same_key w.db.reservations
    → now < at + pos_part lease_duration
    → (claim_due worker_id at lease_duration w).0 ≡ ok (some c)
    → let v = record (claim_due worker_id at lease_duration w).1 { faults = faults } in
      (count (owns c now) v.db.reservations ≡ 1)
      × ((claim_due another now again v).0 ≡ ok (some d) → d.id ≢ c.id)
claim_due-exclusive worker_id another at now lease_duration again w faults c d keys early e =
    first_claim (claim_due worker_id at lease_duration w) e
      (claim_due-Handed worker_id at lease_duration w)
  where
    second_claim :
        (r : ReservationRow) (db : Database)
        → All (λ z. z.id ≡ r.id → is_due now z ≡ false) db.reservations
        → (t : Result (Option ClaimedReservation) × World Database) → t.0 ≡ ok (some d)
        → Handed another now (now + pos_part again) db t
        → d.id ≢ r.id
    second_claim r db h (ok (some x), v) same (s, found_row, due, _, made, _) = λ e.
        let one : x ≡ d = some_inj x d same in
        let key : s.id ≡ r.id = scan_key another now (now + pos_part again) s one made ∙ e in
        absurd (
          contrary
            ((All-first_by due_before (is_due now) (λ z. z.id ≡ r.id → is_due now z ≡ false)
                db.reservations s found_row h).0
              key)
            due)
    second_claim r db h (ok none, v) same a = absurd (cc)
    second_claim r db h (err x, v) same a = absurd (cc)

    first_claim :
        (t : Result (Option ClaimedReservation) × World Database)
        → t.0 ≡ ok (some c)
        → Handed worker_id at (at + pos_part lease_duration) w.db t
        → let v = record t.1 { faults = faults } in
          (count (owns c now) v.db.reservations ≡ 1)
          × ((claim_due another now again v).0 ≡ ok (some d) → d.id ≢ c.id)
    first_claim (ok (some x), v) same (r, chosen, due, _, made, written) =
        let one : x ≡ c = some_inj x c same in
        let key : r.id ≡ c.id = scan_key worker_id at (at + pos_part lease_duration) r one made in
        (
          rw written (
              subst
                (λ k.
                  count (owns k now) (
                    update (has_id r.id) (claimed_row worker_id at (at + pos_part lease_duration))
                      w.db.reservations)
                  ≡ 1)
                (sym made ∙ one)
                (one_owned worker_id at (at + pos_part lease_duration) now r early w.db.reservations
                  chosen keys)),
          λ q e.
              second_claim r v.db
                (rw written (
                  leased worker_id at (at + pos_part lease_duration) now r early w.db.reservations))
                (claim_due another now again (record v { faults = faults })) q
                (claim_due-Handed another now again (record v { faults = faults })) (e ∙ sym key),
        )
    first_claim (ok none, v) same a = absurd (cc)
    first_claim (err x, v) same a = absurd (cc)
