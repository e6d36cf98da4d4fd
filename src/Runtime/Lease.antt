-- ===== src/Runtime/Lease.antt =====
-- runtime/session_state.py: the lease of a session and the handoff between its phases. A state
-- directory is the values of its files; a file that is not there or does not parse is `none`, and a
-- time stands as the instant that `fromisoformat` reads back.
pub mod Exclusive
pub mod Handoff
use market_brain.Prelude.{
  ◌+◌, ◌*◌, String, Bool, true, false, not, ◌||◌, ◌&&◌, Option, none, some, List, [], ◌∷◌,
  if◌then◌else◌, leb, str_eq,
}
use market_brain.Prelude.Lists.{mem_text}
use market_brain.Prelude.Result.{Result, ok, err, raise_if, or_raise, ◌>>=◌, ◌>>◌}
use market_brain.Domain.{Instant, minute}

-- The values of lease.json. A value of another type than text is read by `str`, and a time that is
-- no text or does not parse is `none`.
pub record LeaseFile : Type 0 where
  pub session_id : String
  -- `""` where the key is missing
  pub workflow_run_id : String
  pub acquired_at : Option Instant
  pub expires_at : Option Instant

pub record LeaseInspection : Type 0 where
  pub held_by_other : Bool
  pub reason : String
  pub holder_run_id : Option String
  pub holder_status : Option String

abbrev pub lease_minutes : Instant
lease_minutes = 25 * minute

abbrev pub inspection : Bool → String → Option String → Option String → LeaseInspection
inspection held reason holder status = record {
  held_by_other = held;
  reason = reason;
  holder_run_id = holder;
  holder_status = status;
}

-- `holder_status not in LIVE_WORKFLOW_STATUSES`
abbrev pub is_live : String → Bool
is_live status = str_eq status "in_progress" || str_eq status "queued"

-- the answer that the status of the holder's run decides
unfoldable pub judge_status : String → Option String → LeaseInspection
judge_status holder none = inspection true "LEASE_HOLDER_STATUS_UNKNOWN" (some holder) none
judge_status holder (some status) =
    if is_live status
    then inspection true "LEASE_HELD" (some holder) (some status)
    else inspection false "LEASE_STALE_HOLDER_DEAD" (some holder) (some status)

-- `expires_at is None or expires_at <= now`
abbrev pub is_run_out : Option Instant → Instant → Bool
is_run_out none now = true
is_run_out (some at) now = leb at now

-- the answer on a lease of this session. The last argument is `workflow_run_status`, and `none`
-- where no repository is given.
unfoldable pub judge_lease :
    LeaseFile → Instant → String → Option (String → Option String) → LeaseInspection
unfolding judge_status
judge_lease lease now run_id status_of =
    if is_run_out lease.expires_at now
    then inspection false "LEASE_EXPIRED" none none
    else if str_eq lease.workflow_run_id ""
    then inspection true "LEASE_HOLDER_INVALID" none none
    else if str_eq lease.workflow_run_id run_id
    then inspection false "LEASE_OWNED" (some lease.workflow_run_id) none
    else elim status_of [
      | none ↦ inspection true "LEASE_HELD" (some lease.workflow_run_id) none
      | some ask ↦ judge_status lease.workflow_run_id (ask lease.workflow_run_id)
    ]

unfoldable pub inspect_lease :
    Option LeaseFile → Instant → String → String → Option (String → Option String) → LeaseInspection
unfolding judge_lease
inspect_lease none now session_id run_id status_of = inspection false "LEASE_ABSENT" none none
inspect_lease (some lease) now session_id run_id status_of =
    if not (str_eq lease.session_id session_id)
    then inspection false "LEASE_ABSENT" none none
    else judge_lease lease now run_id status_of

abbrev pub lease_held_by_other :
    Option LeaseFile → Instant → String → String → Option (String → Option String) → Bool
lease_held_by_other lease now session_id run_id status_of =
    (inspect_lease lease now session_id run_id status_of).held_by_other

-- `parse_timestamp(...) or timestamp`
abbrev pub instant_or : Option Instant → Instant → Instant
instant_or none default = default
instant_or (some at) default = at

abbrev pub is_own : LeaseFile → String → String → Bool
is_own lease session_id run_id =
    str_eq lease.session_id session_id && str_eq lease.workflow_run_id run_id

-- when the lease of this run was taken
unfoldable pub acquired_of : Option LeaseFile → Instant → String → String → Instant
acquired_of none now session_id run_id = now
acquired_of (some lease) now session_id run_id =
    if is_own lease session_id run_id then instant_or lease.acquired_at now else now

-- `renew_lease`: the file that it writes over the one that it reads
unfoldable pub renew_lease : Option LeaseFile → Instant → String → String → LeaseFile
unfolding acquired_of
renew_lease current now session_id run_id = record {
  session_id = session_id;
  workflow_run_id = run_id;
  acquired_at = some (acquired_of current now session_id run_id);
  expires_at = some (now + lease_minutes);
}

-- The object in handoff.json: its keys, and the values of those it must have.
pub record HandoffFile : Type 0 where
  pub from_phase : String
  pub to_phase : String
  pub session_id : String
  pub workflow_run_id : String
  pub last_completed_tick : Option String
  pub state_dump_sha256 : String
  pub keys : List String

-- `required`, and the keys that `write_handoff` gives its payload
abbrev pub handoff_keys : List String
handoff_keys =
    "from_phase" ∷ "to_phase" ∷ "session_id" ∷ "workflow_run_id" ∷ "last_completed_tick"
    ∷ "state_dump_sha256" ∷ []

abbrev pub is_subset : List String → List String → Bool
is_subset [] ys = true
is_subset (x ∷ xs) ys = mem_text x ys && is_subset xs ys

-- `set(xs) == set(ys)`
abbrev pub is_same_set : List String → List String → Bool
is_same_set xs ys = is_subset xs ys && is_subset ys xs

-- A state directory. A dump is its bytes, as the text that stands for them.
pub record StateDir : Type 0 where
  pub lease : Option LeaseFile
  pub handoff : Option HandoffFile
  pub dump : Option String

-- the functions that work on the files; the argument is SHA-256 of a dump
module _ (sha256 : String → String) where
  unfoldable pub write_handoff :
      String → String → Option String → StateDir → Result (HandoffFile × StateDir)
  write_handoff session_id run_id tick dir = do
    dump ← or_raise dir.dump "HANDOFF_DUMP_MISSING"
    let payload : HandoffFile = record {
      from_phase = "a";
      to_phase = "b";
      session_id = session_id;
      workflow_run_id = run_id;
      last_completed_tick = tick;
      state_dump_sha256 = sha256 dump;
      keys = handoff_keys;
    }
    ok (payload, record dir { handoff = some payload })

  -- the dump is there and is the one of the handoff
  abbrev pub is_same_dump : HandoffFile → Option String → Bool
  is_same_dump handoff none = false
  is_same_dump handoff (some dump) = str_eq (sha256 dump) handoff.state_dump_sha256

  unfoldable pub check_handoff : HandoffFile → StateDir → Result (Option HandoffFile)
  check_handoff handoff dir = do
    raise_if
        (not (is_same_set handoff.keys handoff_keys)
          || (not (str_eq handoff.from_phase "a") || not (str_eq handoff.to_phase "b")))
        "HANDOFF_MISMATCH"
    raise_if (not (is_same_dump handoff dir.dump)) "HANDOFF_MISMATCH"
    ok (some handoff)

  unfoldable pub verify_handoff : String → StateDir → Result (Option HandoffFile)
  unfolding check_handoff
  verify_handoff session_id dir = elim dir.handoff [
    | none ↦ ok none
    | some handoff ↦
        if not (str_eq handoff.session_id session_id) then ok none else check_handoff handoff dir
  ]
