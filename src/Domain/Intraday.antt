-- ===== src/Domain/Intraday.antt =====
-- The intraday structure of domain/models.py.
use market_brain.Prelude.{ℕ, String, Option, none, List, []}
use market_brain.Number.{Double, zero_f}
use market_brain.Domain.Enums.{Instant}

pub data IntradayStructureState : Type 0 where
  building_or armed breakout_seen retest_valid invalid : IntradayStructureState

pub record IntradayStructure (F : Type 0) : Type 0 where
  pub symbol : String
  pub session_date : String
  pub state : IntradayStructureState
  pub opening_range_high : Option F
  pub opening_range_low : Option F
  pub opening_bars_seen : ℕ
  pub running_vwap : Option F
  pub cumulative_volume : F
  pub cumulative_vwap_notional : F
  pub last_bar_at : Option Instant
  pub last_close : Option F
  pub breakout_at : Option Instant
  pub retest_at : Option Instant
  pub reasons : List String
  pub updated_at : Instant

module _ {F : Type 0} ⦃num : Double F⦄ where
  -- the dataclass with its defaults
  abbrev pub fresh_structure : String → String → Instant → IntradayStructure F
  fresh_structure symbol session_date updated_at = record {
    symbol = symbol;
    session_date = session_date;
    state = IntradayStructureState.building_or;
    opening_range_high = none;
    opening_range_low = none;
    opening_bars_seen = 0;
    running_vwap = none;
    cumulative_volume = zero_f;
    cumulative_vwap_notional = zero_f;
    last_bar_at = none;
    last_close = none;
    breakout_at = none;
    retest_at = none;
    reasons = [];
    updated_at = updated_at;
  }
