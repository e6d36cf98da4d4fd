-- ===== src/Runtime/Coverage/Complete.antt =====
-- The counts of runtime/coverage.py.
use Prim.Native.String.{◌++◌ as append_text}
use market_brain.Prelude.{
  ap, ◌∙◌, ℕ, zero, suc, ◌+◌, ◌*◌, ◌<◌, ◌≡◌, ◌↔◌, refl, String, Bool, true, false, Option, none,
  some, List, [], ◌∷◌, ◌++◌, map, arith, ◌==◌, eq_iff, if◌then◌else◌,
}
use mathlib.Core.Path.{subst}
use market_brain.Prelude.Lists.{length, text_or}
use market_brain.Prelude.Dict.{lookup}
use market_brain.Runtime.Coverage.{
  Tally, Latest, no_tally, tally_radar, tally_premarket, tally_all, slots_from, discovery_end,
  expected_radar_slots, radar_run_ids, premarket_checkpoints, session_status_of, coverage_of,
  coverage_for_events, Evidence, note_events, is_nil, with_reason, learning_status_of, slot_rounds,
  discovery_start, Coverage, premarket_prefix,
}

length-snoc {ℓ} : {A : Type ℓ} (xs : List A) (x : A) → length (xs ++ x ∷ []) ≡ length xs + 1
length-snoc [] x = refl
length-snoc (y ∷ xs) x = omega (arith, length-snoc xs x)

length-append {ℓ} : {A : Type ℓ} (xs ys : List A) → length (xs ++ ys) ≡ length xs + length ys
length-append [] ys = omega arith
length-append (x ∷ xs) ys = omega (arith, length-append xs ys)

length-map {ℓ κ} :
    {A : Type ℓ} {B : Type κ} (f : A → B) (xs : List A) → length (map f xs) ≡ length xs
length-map f [] = refl
length-map f (x ∷ xs) = omega (arith, length-map f xs)

-- Each slot is counted once, and stands among the incomplete ones unless it is ok.
abbrev pub Counts : Tally → Tally → ℕ → Type 0
Counts s t n =
    (t.ok + t.unavailable + t.missed + t.never_ran
      ≡ s.ok + s.unavailable + s.missed + s.never_ran + n)
    × (length t.incomplete + t.ok ≡ length s.incomplete + s.ok + n)

tally_radar-Counts :
    (run_id : String) (row : Option (Option String)) (t : Tally)
    → Counts t (tally_radar run_id row t) 1
unfolding tally_radar
tally_radar-Counts run_id none t =
    ground (arith, length-snoc t.incomplete (with_reason run_id "NEVER_RAN"))
tally_radar-Counts run_id (some payload) t = ground (
  arith,
  length-snoc t.incomplete (with_reason run_id "DATA_UNAVAILABLE"),
  length-snoc t.incomplete (with_reason run_id (text_or payload "UNKNOWN")),
)

tally_all_radar-Counts :
    (run_id : String → String) (latest : Latest) (slots : List String) (t : Tally)
    → Counts t (tally_all tally_radar run_id latest slots t) (length slots)
unfolding tally_all
tally_all_radar-Counts run_id latest [] t = omega arith
tally_all_radar-Counts run_id latest (slot ∷ slots) t =
    let next = tally_radar (run_id slot) (lookup slot latest) t in
    omega (
      arith,
      tally_radar-Counts (run_id slot) (lookup slot latest) t,
      tally_all_radar-Counts run_id latest slots next,
    )

-- The same for the checkpoints, where what never ran is counted as missed too.
abbrev pub CountsMissed : Tally → Tally → ℕ → Type 0
CountsMissed s t n =
    (t.ok + t.missed ≡ s.ok + s.missed + n)
    × (length t.incomplete + t.ok ≡ length s.incomplete + s.ok + n)

tally_premarket-CountsMissed :
    (run_id : String) (row : Option (Option String)) (t : Tally)
    → CountsMissed t (tally_premarket run_id row t) 1
unfolding tally_premarket
tally_premarket-CountsMissed run_id none t =
    ground (arith, length-snoc t.incomplete (with_reason run_id "NEVER_RAN"))
tally_premarket-CountsMissed run_id (some payload) t =
    ground (arith, length-snoc t.incomplete (with_reason run_id (text_or payload "UNKNOWN")))

tally_all_premarket-CountsMissed :
    (run_id : String → String) (latest : Latest) (slots : List String) (t : Tally)
    → CountsMissed t (tally_all tally_premarket run_id latest slots t) (length slots)
unfolding tally_all
tally_all_premarket-CountsMissed run_id latest [] t = omega arith
tally_all_premarket-CountsMissed run_id latest (slot ∷ slots) t =
    let next = tally_premarket (run_id slot) (lookup slot latest) t in
    omega (
      arith,
      tally_premarket-CountsMissed (run_id slot) (lookup slot latest) t,
      tally_all_premarket-CountsMissed run_id latest slots next,
    )

-- Without a row no slot of the radar is ok.
tally_all-ok_none :
    (run_id : String → String) (slots : List String) (t : Tally)
    → (tally_all tally_radar run_id [] slots t).ok ≡ t.ok
unfolding tally_all tally_radar lookup
tally_all-ok_none run_id [] t = refl
tally_all-ok_none run_id (slot ∷ slots) t =
    tally_all-ok_none run_id slots (tally_radar (run_id slot) none t)

is_nil-length : (xs : List String) → is_nil xs ≡ (length xs == 0)
is_nil-length [] = refl
is_nil-length (x ∷ xs) = ground arith

-- More rounds give no more slots, and every round before gives one.
pub slots_from_enough :
    (rounds more current : ℕ)
    → discovery_end < current + rounds * 10
    → slots_from (rounds + more) current ≡ slots_from rounds current
unfolding slots_from
slots_from_enough zero more current h = empty more current (omega arith)
  where
    empty : (more current : ℕ) → discovery_end < current → slots_from (0 + more) current ≡ []
    empty zero current h = refl
    empty (suc more) current h = ground arith
slots_from_enough (suc rounds) more current h =
    let e : suc rounds + more ≡ suc (rounds + more) = omega arith in
    rw e (ground (arith, slots_from_enough rounds more (current + 10)))

length-expected_radar_slots : length expected_radar_slots ≡ 37
unfolding expected_radar_slots
length-expected_radar_slots = refl

-- The loop over the slots of the radar ends: however many more rounds it is given, it gives the same
-- 37 slots.
pub expected_radar_slots_ends :
    (more : ℕ)
    → (slots_from (slot_rounds + more) discovery_start ≡ expected_radar_slots)
      × (length expected_radar_slots ≡ 37)
unfolding expected_radar_slots
expected_radar_slots_ends more =
    (slots_from_enough slot_rounds more discovery_start (omega arith), length-expected_radar_slots)

length-radar_run_ids : (date : String) → length (radar_run_ids date) ≡ 37
length-radar_run_ids date = length-map _ expected_radar_slots ∙ length-expected_radar_slots

-- the loop over the radar's slots gives no ok without a row
abbrev pub IsReady : Coverage → Type 0
IsReady c = (c.radar.ok ≡ 37) × (c.premarket.ok ≡ 3)

-- the status that two tests choose
abbrev status_by : Bool → Bool → String
status_by none_ran none_left =
    if none_ran then "NEVER_RAN" else if none_left then "COMPLETE" else "INCOMPLETE"

not-blocked_ready : {P : Type 0} → ◌≡◌ {A = String} "BLOCKED" "READY" → P
not-blocked_ready h = let e : false ≡ true = (eq_iff "BLOCKED" "READY").1 h in absurd (cc)

ready_tests :
    (none_ran none_left : Bool)
    → learning_status_of (status_by none_ran none_left) ≡ "READY"
    → (none_ran ≡ false) × (none_left ≡ true)
ready_tests true none_left h = not-blocked_ready h
ready_tests false true h = (refl, refl)
ready_tests false false h = not-blocked_ready h

ready_by : learning_status_of (status_by false true) ≡ "READY"
ready_by = refl

-- the learning status by its two numbers
ready-status :
    (attempts : ℕ) (incomplete : List String)
    → (learning_status_of (session_status_of attempts incomplete) ≡ "READY")
      ↔ ((0 < attempts) × (length incomplete ≡ 0))
unfolding session_status_of
ready-status attempts incomplete = (
  λ h.
      let (some_ran, none_left) = ready_tests (attempts == 0) (is_nil incomplete) h in
      (ground arith, ground (arith, is_nil-length incomplete)),
  λ h.
      let some_ran : (attempts == 0) ≡ false = ground arith in
      let none_left : is_nil incomplete ≡ true = ground (arith, is_nil-length incomplete) in
      rw (some_ran, none_left) ready_by,
)

module _ (date : String) (radar premarket : Latest) where
  radar-Counts :
      let t = (coverage_of date radar premarket).radar in
      (t.ok + t.unavailable + t.missed + t.never_ran ≡ 37) × (length t.incomplete + t.ok ≡ 37)
  unfolding coverage_of
  radar-Counts = omega (
    arith,
    tally_all_radar-Counts (λ id. id) radar (radar_run_ids date) no_tally,
    length-radar_run_ids date,
  )

  premarket-Counts :
      let t = (coverage_of date radar premarket).premarket in
      (t.ok + t.missed ≡ 3) × (length t.incomplete + t.ok ≡ 3)
  unfolding coverage_of
  premarket-Counts = omega (
    arith,
    tally_all_premarket-CountsMissed (append_text (premarket_prefix date)) premarket
        premarket_checkpoints no_tally,
  )

  IsReady-iff :
      let c = coverage_of date radar premarket in (c.learning_status ≡ "READY") ↔ IsReady c
  unfolding coverage_of
  IsReady-iff =
      let c = coverage_of date radar premarket in
      let split = length-append c.radar.incomplete c.premarket.incomplete in
      let status =
        ready-status (length radar + length premarket)
          (c.radar.incomplete ++ c.premarket.incomplete) in
      (
        λ h.
            let (_, none_left) = status.0 h in
            omega (arith, none_left, split, radar-Counts, premarket-Counts),
        λ (r, p).
            status.1 (attempted radar refl r, omega (arith, split, radar-Counts, premarket-Counts)),
      )
    where
      attempted :
          (rows : Latest)
          → rows ≡ radar
          → (coverage_of date radar premarket).radar.ok ≡ 37
          → 0 < length radar + length premarket
      attempted [] e r =
          let none_ok = tally_all-ok_none (λ id. id) (radar_run_ids date) no_tally in
          absurd (
            omega (
              arith,
              subst
                  (λ (l : Latest).
                    (tally_all tally_radar (λ id. id) l (radar_run_ids date) no_tally).ok ≡ 0)
                  e none_ok,
            ))
      attempted (row ∷ rows) e r = omega (arith, ap length e)

-- Every slot of the radar is counted once, as ok, unavailable, missed or never run, and every
-- checkpoint of the premarket as ok or missed; and the session is READY for learning exactly where
-- all the 37 slots and all the three checkpoints are ok.
pub coverage_for_events-Counts :
    (events : List Evidence) (date : String)
    → let c = coverage_for_events events date in
      (c.radar.ok + c.radar.unavailable + c.radar.missed + c.radar.never_ran ≡ 37)
      × (c.premarket.ok + c.premarket.missed ≡ 3)
      × ((c.learning_status ≡ "READY") ↔ IsReady c)
unfolding coverage_for_events
coverage_for_events-Counts events date =
    let latest = note_events date events ([], []) in
    (
      (radar-Counts date latest.0 latest.1).0,
      (premarket-Counts date latest.0 latest.1).0,
      IsReady-iff date latest.0 latest.1,
    )
