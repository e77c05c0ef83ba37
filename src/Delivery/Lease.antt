-- ===== src/Delivery/Lease.antt =====
-- Leases: which worker works on a delivery.
use huddle.Prelude.{
  ap, ◌≡◌, ◌≢◌, ◌≤◌, inl, inr, refl, arith, Option-cases, ℕ, ◌+◌, String, some, true, ◌&&◌, same,
}
use huddle.Archive.{Archive, DeliveryRow}
use huddle.Fault.{ok}
use huddle.DeliveryWorld.{Environment, World}
use huddle.Delivery.{is_candidate, claimable, claimed_by, claim_next_delivery}

-- The claim of one row: it is claimable, and gets the lease.
claim-row :
    (db : Archive) (t : db.deliveries.Table) (owner : String) (now : ℕ) (id : String)
    (d : DeliveryRow)
    → db.deliveries.find_unique id t ≡ some d
    → claimable now d ≡ true
    → let (count, t') =
        db.deliveries.update_many (λ d. same d.id id && claimable now d) (claimed_by owner now) t in
      (count ≡ 1) × (db.deliveries.find_unique id t' ≡ some (claimed_by owner now d))
claim-row db t owner now id d found free = (
  ground (arith, db.deliveries.update_many_count id (claimable now) (claimed_by owner now) t),
  ground (
    arith,
    db.deliveries.find_unique_key id t d found,
    db.deliveries.find_unique-update_many id (λ d. same d.id id && claimable now d)
        (claimed_by owner now) t (λ r. refl),
  ),
)

module _ (db : Archive) where
  -- The first candidate is claimed.
  claim_first :
      (env : Environment) (w : World db) (c : DeliveryRow)
      → db.deliveries.find_first (is_candidate db env w) (λ d. d.next_attempt_at) w.deliveries
        ≡ some c
      → (db.deliveries.find_unique c.id w.deliveries ≡ some c)
        × (is_candidate db env w c ≡ true)
        × (claim_next_delivery db env w ≡ (
          ok (some c.id),
          record w {
            deliveries =
                (db.deliveries.update_many
                  (λ d. same d.id c.id && claimable w.now d)
                  (claimed_by env.owner w.now)
                  w.deliveries).1;
          },
        ))
  unfolding claim_next_delivery
  claim_first env w c first =
      let (due, there) =
        db.deliveries.find_first_found (is_candidate db env w) (λ d. d.next_attempt_at) w.deliveries
          c first in
      let (one, row) =
        claim-row db w.deliveries env.owner w.now c.id c there (ground (arith, due)) in
      (there, due, rw (first) (ground (arith, one)))

  -- A worker that claims a delivery has found it first.
  claim_inv :
      (env : Environment) (w : World db) (id : String)
      → (claim_next_delivery db env w).0 ≡ ok (some id)
      → (c : DeliveryRow) × (c.id ≡ id)
        × (db.deliveries.find_first (is_candidate db env w) (λ d. d.next_attempt_at) w.deliveries
            ≡ some c)
  unfolding claim_next_delivery
  claim_inv env w id done =
      elim (Option-cases
        (db.deliveries.find_first (is_candidate db env w) (λ d. d.next_attempt_at) w.deliveries)) [
          | inl e ↦ absurd (ground (arith, e, done))
          | inr (c, e) ↦ (c, ground (arith, done, claim_first env w c e), e)
        ]

  leased :
      (env : Environment) (w : World db) (until : ℕ) (d : DeliveryRow)
      → d.lease_until ≡ some until
      → w.now ≤ until
      → is_candidate db env w d ≢ true
  leased env w until d lease soon due = ground arith

  -- As long as the end of the lease that a claim gave stands in the delivery's row, nobody claims the
  -- delivery until two minutes after the claim, neither another worker nor the same, whatever its
  -- configuration, and whatever else has changed in the database or in the row.
  pub claim_excludes :
      (env env' : Environment) (w later : World db) (id : String) (taken d : DeliveryRow)
      → (claim_next_delivery db env w).0 ≡ ok (some id)
      → db.deliveries.find_unique id (claim_next_delivery db env w).1.deliveries ≡ some taken
      → db.deliveries.find_unique id later.deliveries ≡ some d
      → d.lease_until ≡ taken.lease_until
      → later.now ≤ w.now + 120_000
      → (claim_next_delivery db env' later).0 ≢ ok (some id)
  claim_excludes env env' w later id taken d done is_taken is_row stands soon again =
      let (c, same_id, first) = claim_inv env w id done in
      let (there, due, step) = claim_first env w c first in
      let (one, row) =
        claim-row db w.deliveries env.owner w.now c.id c there (ground (arith, due)) in
      let (c', same_id', first') = claim_inv env' later id again in
      let (there', due', step') = claim_first env' later c' first' in
      let after : db.deliveries.find_unique c.id (claim_next_delivery db env w).1.deliveries
          ≡ some (claimed_by env.owner w.now c) =
        rw (step) row in
      let given : some taken ≡ some (claimed_by env.owner w.now c) =
        cc (is_taken, after, same_id) in
      leased env' later (w.now + 120_000) d (ground (arith, given, stands)) soon
        (cc (due', is_row, there', same_id'))

  -- A delivery that may be claimed is not left behind: some delivery is claimed, and none that was due
  -- later than this one.
  pub claim_progress :
      (env : Environment) (w : World db) (id : String) (d : DeliveryRow)
      → db.deliveries.find_unique id w.deliveries ≡ some d
      → is_candidate db env w d ≡ true
      → (c : DeliveryRow) × ((claim_next_delivery db env w).0 ≡ ok (some c.id))
        × (c.next_attempt_at ≤ d.next_attempt_at)
        × (db.deliveries.find_unique c.id (claim_next_delivery db env w).1.deliveries
            ≡ some (claimed_by env.owner w.now c))
  claim_progress env w id d found due =
      let (c, first, least) =
        db.deliveries.find_first_least (is_candidate db env w) (λ d. d.next_attempt_at) w.deliveries
          id d found due in
      let (there, candidate, step) = claim_first env w c first in
      let (one, row) =
        claim-row db w.deliveries env.owner w.now c.id c there (ground (arith, candidate)) in
      (c, ap (λ o. o.0) step, least, rw (step) row)
