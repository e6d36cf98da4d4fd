-- ===== src/Service/Replay/Reconcile.antt =====
-- The rounds of `reconcile_holdings` (orchestration/service.py) against the ledger.
use market_brain.Prelude.{
  ◌≡◌, refl, ℕ, String, Bool, true, Option, none, some, List, [], ◌∷◌, ◌++◌, arith, inl, inr,
  Bool-cases, is_some, str_eq, eq_iff, ◌==◌,
}
use market_brain.Prelude.Dict.{Dict, Keyed, lookup, insert, values}
use market_brain.Prelude.Lists.{All, select}
use market_brain.Number.{Double}
use market_brain.Domain.{Instant, PositionState}
use market_brain.Ledger.Store.{Store, save_position}
use market_brain.Ledger.Replay.{apply_event}
use market_brain.Service.Action.{Config, Settles, returns, settle_bind}
use market_brain.Service.Wallet.{open_positions}
use market_brain.Service.Holdings.{
  Holding, declare, or_empty, put_row, group_rows, missing, differing, agreeing, mark_rows,
  settle_group, settle_groups, log_unknown, reconcile_holdings, twin_quantity,
}
use market_brain.Service.Replay.Consistent.{IsKeyed, Keeps, position_key}
use market_brain.Service.Replay.Writes.{Keeps-refl}
use market_brain.Service.Replay.Holdings.{
  Marks, Marks-refl, save_position-Marks, append-Marks, log_completed-Keeps,
}

module _ {A : Type 0} (P : A → Type 0) where
  All-append : (xs : List A) (x : A) → All P xs → P x → All P (xs ++ x ∷ [])
  All-append [] x h p = (p, tt)
  All-append (y ∷ xs) x (q, h) p = (q, All-append xs x h p)

  select-All : (p : A → Bool) (xs : List A) → All P xs → All P (select p xs)
  unfolding select
  select-All p [] h = tt
  select-All p (x ∷ xs) (q, h) = ground (arith, select-All p xs h)

module _ {F : Type 0} (P : PositionState F → Type 0) where
  -- every row of every group
  abbrev AllRows : Dict (List (PositionState F)) → Type 0
  AllRows [] = Unit
  AllRows ((k, rows) ∷ groups) = All P rows × AllRows groups

  lookup-AllRows :
      (k : String) (groups : Dict (List (PositionState F)))
      → AllRows groups
      → All P (or_empty (lookup k groups))
  unfolding lookup
  lookup-AllRows k [] h = tt
  lookup-AllRows k ((j, rows) ∷ groups) (a, h) = elim (Bool-cases (str_eq j k)) [
    | inl b ↦ rw b a
    | inr b ↦ rw b (lookup-AllRows k groups h)
  ]

  insert-AllRows :
      (k : String) (rows : List (PositionState F)) (groups : Dict (List (PositionState F)))
      → All P rows
      → AllRows groups
      → AllRows (insert k rows groups)
  unfolding insert
  insert-AllRows k rows [] a h = (a, tt)
  insert-AllRows k rows ((j, others) ∷ groups) a (b, h) = elim (Bool-cases (str_eq j k)) [
    | inl e ↦ rw e (a, h)
    | inr e ↦ rw e (b, insert-AllRows k rows groups a h)
  ]

  group_rows-AllRows :
      (upper : String → String) (rows : List (PositionState F))
      (groups : Dict (List (PositionState F)))
      → All P rows
      → AllRows groups
      → AllRows (group_rows upper rows groups)
  unfolding group_rows
  group_rows-AllRows upper [] groups a h = h
  group_rows-AllRows upper (row ∷ rows) groups (p, a) h =
      let key = upper row.symbol in
      group_rows-AllRows upper rows (put_row key row groups) a (
        insert-AllRows key (or_empty (lookup key groups) ++ row ∷ []) groups
          (All-append P (or_empty (lookup key groups)) row (lookup-AllRows key groups h) p) h)

module _ {F : Type 0} where
  -- a row whose key a dict has
  abbrev IsStored : Dict (PositionState F) → PositionState F → Type 0
  IsStored d row = is_some (lookup row.position_id d) ≡ true

  values-IsStored :
      (d e : Dict (PositionState F))
      → ((k : String) → is_some (lookup k d) ≡ true → is_some (lookup k e) ≡ true)
      → Keyed position_key d
      → All (IsStored e) (values d)
  unfolding values lookup
  values-IsStored [] e f h = tt
  values-IsStored ((j, v) ∷ d) e f (own, new, h) = (
    f v.position_id (ground (arith, eq_iff j v.position_id)),
    values-IsStored d e (λ k p. f k (ground arith)) h,
  )

  mark_rows-Marks :
      (mark : PositionState F → PositionState F)
      → ((row : PositionState F) → (mark row).position_id ≡ row.position_id)
      → (rows : List (PositionState F)) (s t : Store F) → All (IsStored s.positions) rows
      → Marks s t
      → Marks s (mark_rows mark rows t)
  unfolding mark_rows
  mark_rows-Marks mark own [] s t a m = m
  mark_rows-Marks mark own (row ∷ rows) s t (p, a) m =
      mark_rows-Marks mark own rows s (save_position (mark row) t) a
        (save_position-Marks (mark row) s t (rw (own row) p) m)

  settle_group-Marks :
      (now : Instant) (symbol : String) (rows : List (PositionState F)) (q : Option ℕ)
      (s t : Store F)
      → All (IsStored s.positions) rows
      → Marks s t
      → Marks s (settle_group now symbol rows q t)
  unfolding apply_event
  settle_group-Marks now symbol rows none s t a m =
      append-Marks _ s (mark_rows missing rows t) (λ r. refl)
        (mark_rows-Marks missing (λ row. refl) rows s t a m)
  settle_group-Marks now symbol rows (some quantity) s t a m =
      elim (Bool-cases (quantity == twin_quantity rows)) [
        | inl e ↦ rw e (mark_rows-Marks (agreeing now) (λ row. refl) rows s t a m)
        | inr e ↦ rw e (
            append-Marks _ s (mark_rows differing rows t) (λ r. refl)
              (mark_rows-Marks differing (λ row. refl) rows s t a m))
      ]

  settle_groups-Marks :
      (now : Instant) (declared : Dict ℕ) (groups : Dict (List (PositionState F))) (s t : Store F)
      → AllRows (IsStored s.positions) groups
      → Marks s t
      → Marks s (settle_groups now declared groups t)
  unfolding settle_groups
  settle_groups-Marks now declared [] s t a m = m
  settle_groups-Marks now declared ((symbol, rows) ∷ groups) s t (p, a) m =
      settle_groups-Marks now declared groups s
        (settle_group now symbol rows (lookup symbol declared) t) a
        (settle_group-Marks now symbol rows (lookup symbol declared) s t p m)

  log_unknown-Marks :
      (now : Instant) (groups : Dict (List (PositionState F))) (declared : Dict ℕ) (s t : Store F)
      → Marks s t
      → Marks s (log_unknown now groups declared t)
  unfolding log_unknown apply_event
  log_unknown-Marks now groups [] s t m = m
  log_unknown-Marks now groups ((symbol, quantity) ∷ declared) s t m =
      elim (Bool-cases (is_some (lookup symbol groups))) [
        | inl e ↦ rw e (log_unknown-Marks now groups declared s t m)
        | inr e ↦
            rw e (log_unknown-Marks now groups declared s _ (append-Marks _ s t (λ r. refl) m))
      ]

module _ {F : Type 0} ⦃num : Double F⦄ where
  pub reconcile_holdings-Keeps :
      (cfg : Config F) (strip : String → String) (holdings : List Holding) (now : Instant)
      (s : Store F)
      → IsKeyed s
      → Settles (Keeps s) s (reconcile_holdings cfg strip holdings now s)
  unfolding reconcile_holdings
  reconcile_holdings-Keeps cfg strip holdings now s h =
      let stored =
        select-All (IsStored s.positions) _ _
          (values-IsStored s.positions s.positions (λ k p. p) h.2) in
      let groups = group_rows cfg.upper (open_positions s) [] in
      let grouped =
        group_rows-AllRows (IsStored s.positions) cfg.upper (open_positions s) [] stored tt in
      settle_bind (Keeps-refl s h) (declare (λ symbol. strip (cfg.upper symbol)) holdings []) _
        (λ declared _. returns _ _ (
          log_completed-Keeps now s _ h (
            log_unknown-Marks now groups declared s _
              (settle_groups-Marks now declared groups s s grouped (Marks-refl s h)))))
