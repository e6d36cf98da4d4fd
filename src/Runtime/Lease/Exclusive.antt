-- ===== src/Runtime/Lease/Exclusive.antt =====
-- Who may take the lease of runtime/session_state.py.
use market_brain.Prelude.{
  ◌≡◌, ◌≢◌, ◌⊎◌, ◌↔◌, inl, inr, refl, ◌+◌, ◌≤◌, String, true, false, Option, none, some, arith,
  str_eq, eq_iff, Bool-cases,
}
use market_brain.Domain.{Instant}
use market_brain.Runtime.Lease.{
  LeaseFile, inspect_lease, judge_lease, judge_status, lease_held_by_other, renew_lease,
  acquired_of, is_run_out, is_live, lease_minutes,
}

-- The holder's run is reported to have ended.
abbrev pub IsDead : Option (String → Option String) → String → Type 0
IsDead none holder = ⊥
IsDead (some ask) holder = (status : String) × (ask holder ≡ some status) × (is_live status ≡ false)

-- Why a lease that is there may be taken.
pub data IsFree (lease : LeaseFile) (now : Instant) (session_id run_id : String)
    (status_of : Option (String → Option String)) : Type 0 where
  other_session : lease.session_id ≢ session_id → IsFree lease now session_id run_id status_of
  run_out : is_run_out lease.expires_at now ≡ true → IsFree lease now session_id run_id status_of
  own :
      lease.workflow_run_id ≢ ""
      → lease.workflow_run_id ≡ run_id
      → IsFree lease now session_id run_id status_of
  holder_dead :
      lease.workflow_run_id ≢ ""
      → IsDead status_of lease.workflow_run_id
      → IsFree lease now session_id run_id status_of

module _ (lease : LeaseFile) (now : Instant) (session_id run_id : String) where
  judge_status-IsFree :
      (ask : String → Option String) (answer : Option String)
      → ask lease.workflow_run_id ≡ answer
      → lease.workflow_run_id ≢ ""
      → (judge_status lease.workflow_run_id answer).held_by_other ≡ false
      → IsFree lease now session_id run_id (some ask)
  unfolding judge_status
  judge_status-IsFree ask none e some_id h = absurd (ground arith)
  judge_status-IsFree ask (some status) e some_id h = holder_dead some_id (status, e, ground arith)

  judge_lease-IsFree :
      (status_of : Option (String → Option String))
      → (judge_lease lease now run_id status_of).held_by_other ≡ false
      → IsFree lease now session_id run_id status_of
  unfolding judge_lease
  judge_lease-IsFree status_of h = elim (Bool-cases (is_run_out lease.expires_at now)) [
    | inl ended ↦ run_out ended
    | inr valid ↦ elim (Bool-cases (str_eq lease.workflow_run_id "")) [
      | inl no_id ↦ absurd (ground arith)
      | inr some_id ↦
          let named : lease.workflow_run_id ≢ "" =
            ground (arith, eq_iff lease.workflow_run_id "") in
          elim (Bool-cases (str_eq lease.workflow_run_id run_id)) [
            | inl same ↦ own named (ground (arith, eq_iff lease.workflow_run_id run_id))
            | inr other ↦ asked status_of named valid some_id other h
          ]
    ]
  ]
    where
      asked :
          (status_of : Option (String → Option String))
          → lease.workflow_run_id ≢ ""
          → is_run_out lease.expires_at now ≡ false
          → str_eq lease.workflow_run_id "" ≡ false
          → str_eq lease.workflow_run_id run_id ≡ false
          → (judge_lease lease now run_id status_of).held_by_other ≡ false
          → IsFree lease now session_id run_id status_of
      asked none named v s o h = absurd (ground arith)
      asked (some ask) named v s o h =
          judge_status-IsFree ask (ask lease.workflow_run_id) refl named (ground arith)

  free_held :
      (status_of : Option (String → Option String))
      → IsFree lease now session_id run_id status_of
      → lease_held_by_other (some lease) now session_id run_id status_of ≡ false
  unfolding inspect_lease judge_lease judge_status
  free_held status_of (other_session e) = ground (arith, eq_iff lease.session_id session_id)
  free_held status_of (run_out e) = ground arith
  free_held status_of (own e f) =
      ground (arith, eq_iff lease.workflow_run_id run_id, eq_iff lease.workflow_run_id "")
  free_held none (holder_dead e f) = elim f [ ]
  free_held (some ask) (holder_dead e (status, f, g)) =
      ground (arith, eq_iff lease.workflow_run_id "")

  -- A run may take a lease exactly where the lease is of another session, has run out, is the run's
  -- own, or names a holder whose run is reported to have ended.
  pub lease_held_by_other_iff :
      (status_of : Option (String → Option String))
      → (lease_held_by_other (some lease) now session_id run_id status_of ≡ false)
        ↔ IsFree lease now session_id run_id status_of
  unfolding inspect_lease
  lease_held_by_other_iff status_of = (forwards, free_held status_of)
    where
      forwards :
          lease_held_by_other (some lease) now session_id run_id status_of ≡ false
          → IsFree lease now session_id run_id status_of
      forwards h = elim (Bool-cases (str_eq lease.session_id session_id)) [
        | inr other ↦ other_session (ground (arith, eq_iff lease.session_id session_id))
        | inl same ↦ judge_lease-IsFree status_of (ground arith)
      ]

-- A lease that a named run has renewed keeps every other run out for 25 minutes, unless the run is
-- reported to have ended, and never the run itself; and where the run renews it again, the lease
-- keeps the time at which it was first taken.
pub renew_lease-held :
    (current : Option LeaseFile) (at now : Instant) (session_id run_id other_id : String)
    (status_of : Option (String → Option String))
    → run_id ≢ ""
    → now ≤ at + lease_minutes
    → let lease = renew_lease current at session_id run_id in
      (lease_held_by_other (some lease) now session_id other_id status_of ≡ false
        → (at + lease_minutes ≡ now) ⊎ ((run_id ≡ other_id) ⊎ IsDead status_of run_id))
      × (lease_held_by_other (some lease) now session_id run_id status_of ≡ false)
      × ((renew_lease (some lease) now session_id run_id).acquired_at ≡ lease.acquired_at)
unfolding renew_lease acquired_of inspect_lease judge_lease
renew_lease-held current at now session_id run_id other_id status_of named within =
    let lease = renew_lease current at session_id run_id in
    (
      λ h. reason ((lease_held_by_other_iff lease now session_id other_id status_of).0 h),
      ground (arith, eq_iff session_id session_id, eq_iff run_id "", eq_iff run_id run_id),
      ground (arith, eq_iff session_id session_id, eq_iff run_id run_id),
    )
  where
    reason :
        IsFree (renew_lease current at session_id run_id) now session_id other_id status_of
        → (at + lease_minutes ≡ now) ⊎ ((run_id ≡ other_id) ⊎ IsDead status_of run_id)
    reason (other_session e) = absurd (e refl)
    reason (run_out e) = inl (ground arith)
    reason (own e f) = inr (inl f)
    reason (holder_dead e f) = inr (inr f)
