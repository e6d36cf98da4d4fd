-- ===== src/Tests/Intraday.antt =====
-- The theorems on engines/intraday.py at a session of four bars.
use market_brain.Prelude.{◌≡◌, ◌⊎◌, ◌+◌, ◌*◌, ℕ, refl, true, none, some, List, [], ◌∷◌}
use market_brain.Prelude.Lists.{All}
use market_brain.Prelude.Result.{ok}
use market_brain.Number.{Cents, cents_double}
use market_brain.Domain.{Instant, minute}
use market_brain.Domain.Intraday.{IntradayStructure, breakout_seen, retest_valid, fresh_structure}
use market_brain.Engines.Intraday.Bars.{Zone, Bar, open_time, close_time}
use market_brain.Engines.Intraday.Update.{
  Prices, check_bar, noted, update_intraday_structure, new_intraday_structure, on_state,
}
use market_brain.Engines.Intraday.Retest.{can_move, is_trading, update_intraday_structure-can_move}
use market_brain.Engines.Intraday.Confirmed.{IsRetest, update_intraday_structure-IsRetest}
use market_brain.Engines.Intraday.Reached.{Reached, opened, fed, IsSound, Reached-IsSound}
use market_brain.Engines.Intraday.Merge.{merged_bars}
use market_brain.Engines.Intraday.Merge.Ascending.{IsAscending, IsCovered, merged_bars-IsAscending}
use market_brain.Engines.Intraday.Compute.{compute_structure, session_rows, follow_bar}
use market_brain.Engines.Intraday.Replayed.{follow_bar-on_state}
use market_brain.Engines.Intraday.Recomputed.{IsReplayed, compute_structure-IsReplayed}
use market_brain.Tests.Data.{usd, settings}

-- a clock whose instants are the times of one day
abbrev zone : Zone
zone = record {
  date_of = λ at. "day";
  time_of_day = λ at. at;
  opens_at = λ date. open_time;
  closes_at = λ date. close_time;
}

abbrev at_minute : ℕ → Instant
at_minute n = open_time + n * minute

abbrev bar_at : ℕ → ℕ → ℕ → ℕ → Bar Cents
bar_at n high low close = record {
  stamp = some (some (at_minute n));
  high = some (usd high);
  low = some (usd low);
  close = some (usd close);
  volume = none;
  vwap = none;
  source = "SIP";
  canonical = "bar";
}

abbrev touch : Bar Cents
touch = bar_at 3 102 100 101

abbrev bars : List (Bar Cents)
bars = bar_at 0 100 96 99 ∷ bar_at 1 100 97 99 ∷ bar_at 2 102 98 101 ∷ touch ∷ []

abbrev seen : IntradayStructure Cents
seen = record (fresh_structure "ACME" "day" 0) {
  state = breakout_seen;
  opening_range_high = some (usd 100);
  opening_range_low = some (usd 96);
  opening_bars_seen = 2;
  last_bar_at = some (at_minute 2);
  last_close = some (usd 101);
  breakout_at = some (at_minute 2);
  reasons = "ORH_BREAKOUT_CONFIRMED" ∷ [];
}

abbrev retested : IntradayStructure Cents
retested = record seen {
  state = retest_valid;
  last_bar_at = some (at_minute 3);
  retest_at = some (at_minute 3);
  reasons = "SERVER_RETEST_VALID" ∷ [];
}

update_intraday_structure-IsRetest_example :
    (seen.state ≡ retest_valid)
    ⊎ ((bar : Prices Cents) × (check_bar touch ≡ ok bar)
        × IsRetest settings (noted 0 touch bar seen) bar retested)
unfolding update_intraday_structure
update_intraday_structure-IsRetest_example =
    update_intraday_structure-IsRetest settings zone 0 touch seen {t = retested} refl refl

update_intraday_structure-can_move_example :
    (bar : Prices Cents) × (check_bar touch ≡ ok bar)
    × (can_move (is_trading settings zone bar) seen.state retested.state ≡ true)
unfolding update_intraday_structure
update_intraday_structure-can_move_example =
    update_intraday_structure-can_move settings zone 0 touch seen {t = retested} refl

abbrev first_bar : IntradayStructure Cents
first_bar = record (fresh_structure "ACME" "day" 0) {
  opening_range_high = some (usd 100);
  opening_range_low = some (usd 96);
  opening_bars_seen = 1;
  last_bar_at = some (at_minute 0);
  last_close = some (usd 99);
}

reached_first : Reached settings zone first_bar
unfolding update_intraday_structure new_intraday_structure
reached_first = fed 0 (bar_at 0 100 96 99) (opened (λ text. text) "ACME" 0) refl

Reached-IsSound_example : IsSound settings first_bar
Reached-IsSound_example = Reached-IsSound settings zone reached_first

merged_bars-IsAscending_example :
    IsAscending (merged_bars bars) × All (IsCovered (merged_bars bars)) bars
merged_bars-IsAscending_example = merged_bars-IsAscending bars

abbrev touch_prices : Prices Cents
touch_prices = record { stamp = at_minute 3; high = usd 102; low = usd 100; close = usd 101 }

follow_bar-on_state_example :
    follow_bar settings seen touch_prices (usd 100) none seen.state
    ≡ on_state settings seen touch_prices (usd 100) none seen.state
follow_bar-on_state_example =
    follow_bar-on_state settings seen touch_prices (usd 100) none refl refl refl

abbrev replayed : IntradayStructure Cents
replayed = record retested { updated_at = at_minute 3 }

compute_structure-IsReplayed_example :
    IsReplayed settings zone replayed "day" (session_rows zone "day" bars)
unfolding compute_structure
compute_structure-IsReplayed_example =
    compute_structure-IsReplayed settings zone (λ text. text) "ACME" "day" bars none none
      {t = replayed} refl refl
