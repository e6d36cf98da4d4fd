-- ===== src/Runtime/Stream/Flagged.antt =====
-- The flag that the check of runtime/stream_health.py keeps, and the events that it tells.
use market_brain.Prelude.{
  ap, ◌∙◌, ◌≡◌, sym, String, Bool, true, false, not, Option, none, some, [], ◌∷◌, ◌++◌, arith,
  eq_refl, refl,
}
use market_brain.Prelude.Result.{ok}
use market_brain.Domain.{Instant}
use market_brain.Ledger.Events.{EventType, event_of, empty_payload}
use market_brain.Ledger.Store.{Store}
use market_brain.Runtime.Stream.{
  RuntimeStatus, Session, Days, is_within, is_stale_at, was_stale, kind_of, log_change,
  check_session, check,
}

was_stale-marked :
    (date : String) (stale : Bool) (status : RuntimeStatus) (now : Instant)
    → was_stale
        (record status { stale = stale; session_date = some date; changed_at = some now })
        date
      ≡ stale
was_stale-marked date stale status now = ground (arith, eq_refl date)

module _ {F : Type 0} (threshold : Instant) (session : Session) (date : String) where
  -- the check found the stream `stale`, or not, and left the status and the store behind it
  pub record IsTold (now : Instant) (status : RuntimeStatus) (s : Store F) (stale : Bool)
      (told : Option EventType) (status' : RuntimeStatus) (s' : Store F) : Type 0 where
    pub flag : was_stale status' date ≡ stale
    pub quiet : told ≡ none → (was_stale status date ≡ stale) × (status' ≡ status) × (s' ≡ s)
    pub loud :
        {kind : EventType}
        → told ≡ some kind
        → (was_stale status date ≡ not stale)
          × (kind ≡ kind_of stale)
          × (s'.events ≡ s.events ++ event_of kind "market_stream" empty_payload now ∷ [])

  check_session-IsTold :
      (now : Instant) (alert_id : String) (status : RuntimeStatus) (s : Store F) (stale was : Bool)
      → is_stale_at threshold status session now ≡ stale
      → was_stale status date ≡ was
      → let (told, (status', s')) = check_session threshold date session now alert_id status s in
        IsTold now status s stale told status' s'
  unfolding check_session log_change
  check_session-IsTold now alert_id status s true true e w =
      rw e
        (rw w (record { flag = w; quiet = λ n. (w, refl, refl); loud = λ {kind} n. absurd (cc) }))
  check_session-IsTold now alert_id status s false false e w =
      rw e
        (rw w (record { flag = w; quiet = λ n. (w, refl, refl); loud = λ {kind} n. absurd (cc) }))
  check_session-IsTold now alert_id status s true false e w = rw e (
      rw w (record {
        flag = was_stale-marked date true status now;
        quiet = λ n. absurd (cc);
        loud = λ {kind} n. (w, cc, cc);
      }))
  check_session-IsTold now alert_id status s false true e w = rw e (
      rw w (record {
        flag = was_stale-marked date false status now;
        quiet = λ n. absurd (cc);
        loud = λ {kind} n. (w, cc, cc);
      }))

check-within :
    {F : Type 0} (threshold : Instant) (days : Days) (now : Instant) (alert_id : String)
    (status : RuntimeStatus) (s : Store F) {session_for : String → Option Session}
    {session : Session}
    → days.session_for ≡ some session_for
    → session_for (days.date_of now) ≡ some session
    → is_within session now ≡ true
    → check threshold days now alert_id status s
      ≡ ok (check_session threshold (days.date_of now) session now alert_id status s)
unfolding check
check-within threshold days now alert_id status s c d w = ground arith

check_session-quiet :
    {F : Type 0} (threshold : Instant) (session : Session) (date : String) (now : Instant)
    (alert_id : String) (status : RuntimeStatus) (s : Store F)
    → is_stale_at threshold status session now ≡ was_stale status date
    → check_session threshold date session now alert_id status s ≡ (none, (status, s))
unfolding check_session
check_session-quiet threshold session date now alert_id status s e = ground arith

-- Within a session, a check leaves a flag that is up exactly where the stream has been silent for
-- longer than the threshold. It tells nothing, and changes nothing, where the flag was right before;
-- otherwise it adds the one event of the change to the ledger. So the events of a session alternate:
-- a check that finds the stream as the last one found it tells nothing, whatever the store is.
pub check-IsTold :
    {F : Type 0} (threshold : Instant) (days : Days) (now : Instant) (alert_id : String)
    (status : RuntimeStatus) (s : Store F) {session_for : String → Option Session}
    {session : Session}
    → days.session_for ≡ some session_for
    → session_for (days.date_of now) ≡ some session
    → is_within session now ≡ true
    → let date = days.date_of now in
      let stale = is_stale_at threshold status session now in
      (told : Option EventType) × (status' : RuntimeStatus) × (s' : Store F) × (check threshold days
          now alert_id status s
        ≡ ok (told, (status', s')))
      × IsTold threshold session date now status s stale told status' s'
      × ((later : Instant) (later_id : String) (t : Store F)
          → days.date_of later ≡ date
          → is_within session later ≡ true
          → is_stale_at threshold status' session later ≡ stale
          → check threshold days later later_id status' t ≡ ok (none, (status', t)))
unfolding check
check-IsTold threshold days now alert_id status s {session_for} {session} c d w =
    let date = days.date_of now in
    let answer = check_session threshold date session now alert_id status s in
    let done =
      check_session-IsTold threshold session date now alert_id status s
        (is_stale_at threshold status session now) (was_stale status date) refl refl in
    (
      answer.0,
      answer.1.0,
      answer.1.1,
      check-within threshold days now alert_id status s c d w,
      done,
      λ later later_id t same within found.
          check-within threshold days later later_id answer.1.0 t c (ap session_for same ∙ d) within
          ∙ ap ok (
              check_session-quiet threshold session (days.date_of later) later later_id answer.1.0 t
                (found ∙ sym done.flag ∙ ap (was_stale answer.1.0) (sym same))),
    )
