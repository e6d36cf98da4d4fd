-- ===== src/Engines/Intraday/Retest.antt =====
-- The states that `update_intraday_structure` of engines/intraday.py moves through.
use market_brain.Prelude.{
  ℕ, ◌≡◌, ◌⊎◌, inl, inr, Bool, true, false, not, ◌||◌, Option, arith, ltb, Bool-cases, Option-cases,
}
use market_brain.Prelude.Result.{ok, >>=-eq-ok, ok-injective}
use market_brain.Number.{Double}
use market_brain.Domain.{Instant}
use market_brain.Domain.Intraday.{
  IntradayStructureState, IntradayStructure, building_or, armed, breakout_seen, retest_valid,
  invalid,
}
use market_brain.Settings.{Settings}
use market_brain.Engines.Intraday.Bars.{Zone, Bar, apply_vwap, is_outside, minute_index}
use market_brain.Engines.Intraday.Update.{
  Prices, check_bar, is_old, noted, take_opening, take_trading, take_bar, on_state, on_range,
  update_intraday_structure,
}

-- The moves between two states; the flag says that the bar is behind the opening range.
abbrev pub can_move : Bool → IntradayStructureState → IntradayStructureState → Bool
can_move trading _ invalid = true
can_move false _ armed = true
can_move true breakout_seen armed = true
can_move true armed armed = true
can_move true armed breakout_seen = true
can_move true breakout_seen retest_valid = true
can_move _ building_or building_or = true
can_move _ breakout_seen breakout_seen = true
can_move _ retest_valid retest_valid = true
can_move _ _ _ = false

can_move_refl : (trading : Bool) (a : IntradayStructureState) → can_move trading a a ≡ true
can_move_refl trading a = ground arith

module _ {F : Type 0} ⦃num : Double F⦄ where
  -- An update that is more than the structure it was given is the taking of a complete new bar.
  abbrev pub IsTaken :
      Settings F
      → Zone
      → Instant
      → Bar F
      → IntradayStructure F
      → IntradayStructure F
      → Prices F
      → Type 0
  IsTaken cfg zone now raw s t bar =
      (check_bar raw ≡ ok bar)
      × (is_old s.last_bar_at bar.stamp ≡ false)
      × (is_outside (zone.time_of_day bar.stamp) ≡ false)
      × (take_bar cfg zone now raw bar s ≡ ok t)

  pub update_intraday_structure-IsTaken :
      (cfg : Settings F) (zone : Zone) (now : Instant) (raw : Bar F) (s : IntradayStructure F)
      {t : IntradayStructure F}
      → update_intraday_structure cfg zone now raw s ≡ ok t
      → (t ≡ s) ⊎ ((bar : Prices F) × IsTaken cfg zone now raw s t bar)
  unfolding update_intraday_structure
  update_intraday_structure-IsTaken cfg zone now raw s {t} e =
      let (bar, checked, rest) = >>=-eq-ok (check_bar raw) _ e in
      elim (Bool-cases
        (is_old s.last_bar_at bar.stamp || is_outside (zone.time_of_day bar.stamp))) [
          | inl old ↦ inl (ground arith)
          | inr new ↦ inr (bar, (checked, ground arith, ground arith, ground arith))
        ]

  noted-state :
      (now : Instant) (raw : Bar F) (bar : Prices F) (s : IntradayStructure F)
      → (noted now raw bar s).state ≡ s.state
  unfolding apply_vwap
  noted-state now raw bar s = ground arith

  on_state-can_move :
      (cfg : Settings F) (s : IntradayStructure F) (bar : Prices F) (orh : F) (previous : Option F)
      {t : IntradayStructure F}
      → on_state cfg s bar orh previous s.state ≡ ok t
      → can_move true s.state t.state ≡ true
  unfolding on_state
  on_state-can_move cfg s bar orh previous e = ground arith

  on_range-can_move :
      (cfg : Settings F) (s : IntradayStructure F) (bar : Prices F) (previous : Option F)
      (orh orl : F) {t : IntradayStructure F}
      → on_range cfg s bar previous orh orl ≡ ok t
      → can_move true s.state t.state ≡ true
  unfolding on_range
  on_range-can_move cfg s bar previous orh orl {t} e =
      ground (arith, on_state-can_move cfg s bar orh previous {t = t})

  take_trading-can_move :
      (cfg : Settings F) (s : IntradayStructure F) (bar : Prices F) (previous : Option F)
      {t : IntradayStructure F}
      → take_trading cfg s bar previous ≡ ok t
      → can_move true s.state t.state ≡ true
  unfolding take_trading
  take_trading-can_move cfg s bar previous {t} e = elim (Option-cases s.opening_range_high) [
    | inl no_high ↦ ground arith
    | inr (orh, e1) ↦ elim (Option-cases s.opening_range_low) [
      | inl no_low ↦ ground arith
      | inr (orl, e2) ↦ ground (arith, on_range-can_move cfg s bar previous orh orl {t = t})
    ]
  ]

  take_opening-can_move :
      (cfg : Settings F) (s : IntradayStructure F) (index : ℕ) (bar : Prices F)
      → can_move false s.state (take_opening cfg s index bar).state ≡ true
  unfolding take_opening
  take_opening-can_move cfg s index bar = ground arith

  -- the bar is behind the opening range
  abbrev pub is_trading : Settings F → Zone → Prices F → Bool
  is_trading cfg zone bar =
      not (ltb (minute_index (zone.time_of_day bar.stamp)) cfg.intraday_opening_range_minutes)

  take_bar-can_move :
      (cfg : Settings F) (zone : Zone) (now : Instant) (raw : Bar F) (bar : Prices F)
      (s : IntradayStructure F) {t : IntradayStructure F}
      → take_bar cfg zone now raw bar s ≡ ok t
      → can_move (is_trading cfg zone bar) s.state t.state ≡ true
  unfolding take_bar
  take_bar-can_move cfg zone now raw bar s {t} e =
      let index = minute_index (zone.time_of_day bar.stamp) in
      let s' = noted now raw bar s in
      let kept : s'.state ≡ s.state = noted-state now raw bar s in
      ground (
        arith,
        take_opening-can_move cfg s' index bar,
        take_trading-can_move cfg s' bar s.last_close {t = t},
      )

  -- An update that returns was given a complete bar, and its state is the one it had or one that a
  -- move reaches: behind the opening range INVALID is kept, a breakout is seen only while ARMED,
  -- and a retest is valid only after a breakout.
  pub update_intraday_structure-can_move :
      (cfg : Settings F) (zone : Zone) (now : Instant) (raw : Bar F) (s : IntradayStructure F)
      {t : IntradayStructure F}
      → update_intraday_structure cfg zone now raw s ≡ ok t
      → (bar : Prices F) × (check_bar raw ≡ ok bar)
        × (can_move (is_trading cfg zone bar) s.state t.state ≡ true)
  unfolding update_intraday_structure
  update_intraday_structure-can_move cfg zone now raw s {t} e =
      let (bar, checked, rest) = >>=-eq-ok (check_bar raw) _ e in
      (
        bar,
        checked,
        elim (update_intraday_structure-IsTaken cfg zone now raw s e) [
          | inl same ↦ ground (arith, can_move_refl (is_trading cfg zone bar) s.state)
          | inr (b, (c, _, _, taken)) ↦
              let same : b ≡ bar = ok-injective (cc) in
              rw (← same) (take_bar-can_move cfg zone now raw b s {t = t} taken)
        ],
      )
