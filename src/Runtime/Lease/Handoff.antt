-- ===== src/Runtime/Lease/Handoff.antt =====
-- The handoff of runtime/session_state.py between the phases of a session.
use market_brain.Prelude.{
  ◌≡◌, ◌≢◌, inl, inr, String, Option, none, some, arith, eq_iff, Option-cases,
}
use market_brain.Prelude.Result.{ok, err}
use market_brain.Runtime.Lease.{HandoffFile, StateDir, write_handoff, verify_handoff, check_handoff}

module _ (sha256 : String → String) (session_id run_id : String) (tick : Option String)
    (dir : StateDir) where
  -- A handoff that is written is the one that is verified, as long as the dump has its digest; where
  -- the dump is gone or has another digest, the verification raises HANDOFF_MISMATCH; and another
  -- session finds no handoff.
  pub verify_handoff-write_handoff :
      {payload : HandoffFile} {written : StateDir}
      → write_handoff sha256 session_id run_id tick dir ≡ ok (payload, written)
      → (verify_handoff sha256 session_id written ≡ ok (some payload))
        × ((dump : String)
            → sha256 dump ≢ payload.state_dump_sha256
            → verify_handoff sha256 session_id (record written { dump = some dump })
              ≡ err "HANDOFF_MISMATCH")
        × (verify_handoff sha256 session_id (record written { dump = none })
            ≡ err "HANDOFF_MISMATCH")
        × ((other : String) → session_id ≢ other → verify_handoff sha256 other written ≡ ok none)
  unfolding write_handoff verify_handoff check_handoff
  verify_handoff-write_handoff {payload} {written} e = elim (Option-cases dir.dump) [
    | inl gone ↦ absurd (ground arith)
    | inr (dump, found) ↦ (
      ground (
        arith,
        eq_iff session_id session_id,
        eq_iff "a" "a",
        eq_iff "b" "b",
        eq_iff (sha256 dump) (sha256 dump),
      ),
      λ changed differs.
          ground (
            arith,
            eq_iff session_id session_id,
            eq_iff (sha256 changed) payload.state_dump_sha256,
          ),
      ground (arith, eq_iff session_id session_id),
      λ other differs. ground (arith, eq_iff session_id other),
    )
  ]
