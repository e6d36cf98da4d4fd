-- ===== src/Service/Replay/Holdings.antt =====
-- The last event of `reconcile_holdings` (orchestration/service.py), which carries every position,
-- and the rounds before it.
use mathlib.Core.Path.{subst}
use mathlib.Core.List.{append_assoc, append-nil}
use market_brain.Prelude.{
  ◌≡◌, refl, ap, sym, ◌∙◌, String, true, none, List, [], ◌∷◌, ◌++◌, arith, inl, inr, Bool-cases,
  is_some, str_eq, eq_iff,
}
use market_brain.Prelude.Dict.{Dict, Keyed, lookup, insert, values, Keyed-insert}
use market_brain.Prelude.Result.{ok}
use market_brain.Domain.{Instant, PositionState}
use market_brain.Ledger.Events.{LedgerEvent}
use market_brain.Ledger.Store.{Store, append, save_position}
use market_brain.Ledger.Replay.{Rebuilt, apply_event, apply_events, view, put_positions}
use market_brain.Ledger.Replay.Append.{apply_events-append}
use market_brain.Service.Holdings.{completed, log_completed}
use market_brain.Service.Replay.Consistent.{IsKeyed, Keeps, plan_key, reservation_key, position_key}

module _ {V : Type 0} where
  pub keys : Dict V → List String
  keys [] = []
  keys ((k, v) ∷ d) = k ∷ keys d

  keys-insert :
      (k : String) (v : V) (d : Dict V) → is_some (lookup k d) ≡ true → keys (insert k v d) ≡ keys d
  unfolding keys lookup insert
  keys-insert k v [] h = absurd (ground arith)
  keys-insert k v ((j, w) ∷ d) h = ground (arith, keys-insert k v d)

  keys-is_some :
      (k : String) (d e : Dict V) → keys d ≡ keys e → is_some (lookup k d) ≡ is_some (lookup k e)
  unfolding keys lookup
  keys-is_some k [] [] h = refl
  keys-is_some k [] ((j, w) ∷ e) h = absurd (cc)
  keys-is_some k ((j, w) ∷ d) [] h = absurd (cc)
  keys-is_some k ((j, w) ∷ d) ((i, v) ∷ e) h =
      let same : j ≡ i = cc in
      let rest : keys d ≡ keys e = cc in ground (arith, keys-is_some k d e rest, same)

module _ {F : Type 0} where
  -- Writing rows that all have other keys than the first passes the first by.
  put_positions-cons :
      (j : String) (w : PositionState F) (d e : Dict (PositionState F))
      → Keyed position_key d
      → lookup j d ≡ none
      → put_positions (values d) ((j, w) ∷ e) ≡ (j, w) ∷ put_positions (values d) e
  unfolding put_positions values lookup insert
  put_positions-cons j w [] e h n = refl
  put_positions-cons j w ((i, v) ∷ d) e (own, new, h) n = elim (Bool-cases (str_eq i j)) [
    | inl b ↦ absurd (ground arith)
    | inr b ↦
        let passes : insert v.position_id v ((j, w) ∷ e) ≡ (j, w) ∷ insert v.position_id v e =
          ground (arith, eq_iff i j, eq_iff j v.position_id) in
        ap (put_positions (values d)) passes
        ∙ put_positions-cons j w d (insert v.position_id v e) h (rw b at n)
  ]

  -- Writing all rows of a dict over one with the same keys gives the dict.
  put_positions-values :
      (d e : Dict (PositionState F))
      → Keyed position_key d
      → keys d ≡ keys e
      → put_positions (values d) e ≡ d
  unfolding put_positions values keys lookup insert
  put_positions-values [] [] h k = refl
  put_positions-values [] ((j, w) ∷ e) h k = absurd (cc)
  put_positions-values ((i, v) ∷ d) [] h k = absurd (cc)
  put_positions-values ((i, v) ∷ d) ((j, w) ∷ e) (own, new, h) k =
      let same : i ≡ j = cc in
      let rest : keys d ≡ keys e = cc in
      let replaces : insert v.position_id v ((j, w) ∷ e) ≡ (i, v) ∷ e =
        ground (arith, eq_iff j v.position_id) in
      ap (put_positions (values d)) replaces
      ∙ put_positions-cons i v d e h new
      ∙ ap (λ r. (i, v) ∷ r) (put_positions-values d e h rest)

  -- What the rounds over the symbols do: rows under the same keys, and events that carry none.
  pub record Marks (s t : Store F) : Type 0 where
    pub added : List (LedgerEvent F)
    pub events : t.events ≡ s.events ++ added
    pub silent : (r : Rebuilt F) → apply_events r added ≡ ok r
    pub rest : view t ≡ record (view s) { positions = t.positions }
    pub same_keys : keys t.positions ≡ keys s.positions
    pub keyed : Keyed position_key t.positions

  pub Marks-refl : (s : Store F) → IsKeyed s → Marks s s
  unfolding apply_events
  Marks-refl s h = record {
    added = [];
    events = rw append-nil refl;
    silent = λ r. refl;
    rest = refl;
    same_keys = refl;
    keyed = h.2;
  }

  pub save_position-Marks :
      (row : PositionState F) (s t : Store F)
      → is_some (lookup row.position_id s.positions) ≡ true
      → Marks s t
      → Marks s (save_position row t)
  save_position-Marks row s t present m = record {
    added = m.added;
    events = m.events;
    silent = m.silent;
    rest =
        ap (λ (r : Rebuilt F). record r { positions = insert row.position_id row t.positions })
          m.rest;
    same_keys =
        keys-insert row.position_id row t.positions
          (keys-is_some row.position_id t.positions s.positions m.same_keys ∙ present)
        ∙ m.same_keys;
    keyed = Keyed-insert position_key row t.positions m.keyed;
  }

  pub append-Marks :
      (event : LedgerEvent F) (s t : Store F)
      → ((r : Rebuilt F) → apply_event r event ≡ ok r)
      → Marks s t
      → Marks s (append event t)
  unfolding apply_events
  append-Marks event s t quiet m = record {
    added = m.added ++ event ∷ [];
    events = rw (m.events, append_assoc) refl;
    silent = λ r. apply_events-append r m.added (event ∷ []) (m.silent r) ∙ rw (quiet r) refl;
    rest = m.rest;
    same_keys = m.same_keys;
    keyed = m.keyed;
  }

  pub log_completed-Keeps :
      (now : Instant) (s t : Store F) → IsKeyed s → Marks s t → Keeps s (log_completed now t)
  unfolding apply_events apply_event
  log_completed-Keeps now s t h m = record {
    keyed = (
      subst (Keyed plan_key) (sym (ap (λ (r : Rebuilt F). r.plans) m.rest)) h.0,
      subst (Keyed reservation_key) (sym (ap (λ (r : Rebuilt F). r.reservations) m.rest)) h.1,
      m.keyed,
    );
    logs = record {
      added = m.added ++ completed now t ∷ [];
      events = rw (m.events, append_assoc) refl;
      told =
          apply_events-append (view s) m.added (completed now t ∷ []) (m.silent (view s))
          ∙ rw (put_positions-values t.positions s.positions m.keyed m.same_keys)
              (ap (λ (r : Rebuilt F). ok r) (sym m.rest));
    };
  }
