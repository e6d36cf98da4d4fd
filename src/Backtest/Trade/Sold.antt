-- ===== src/Backtest/Trade/Sold.antt =====
-- What the virtual trade of replay/engine.py has sold, from its fill to its last exit.
use market_brain.Prelude.{◌≡◌, ◌⊎◌, inl, inr, Bool, true, false, List, [], ◌∷◌, ◌++◌}
use market_brain.Number.{Double, ◌<?◌, ◌≤?◌, zero_f, min_f}
use market_brain.Domain.{Instant}
use market_brain.Backtest.Trade.{
  VirtualTradeState, ExitLeg, whole, tp1_fraction, left_after, leg_of, transition, stopped,
  timed_out, took_profit, trimmed,
}

module _ {F : Type 0} ⦃num : Double F⦄ where
  -- the half that a trim sells, and what it leaves
  abbrev pub half : F
  half = min_f tp1_fraction whole

  abbrev pub half_left : F
  half_left = left_after whole half

-- What the fractions of a trade are: 1.0 and 0.5 are positive, and nothing is left of either when it
-- is sold.
pub record IsSplit (F : Type 0) ⦃num : Double F⦄ : Type 0 where
  pub whole_positive : (◌<?◌ {F = F} zero_f whole) ≡ true
  pub whole_open : (◌≤?◌ {F = F} whole zero_f) ≡ false
  pub half_positive : (◌<?◌ {F = F} zero_f half_left) ≡ true
  pub half_open : (◌≤?◌ {F = F} half_left zero_f) ≡ false
  pub whole_sold : (◌≤?◌ {F = F} (left_after whole whole) zero_f) ≡ true
  pub half_sold : (◌≤?◌ {F = F} (left_after half_left half_left) zero_f) ≡ true

module _ {F : Type 0} ⦃num : Double F⦄ (stop tp1 tp2 : F) where
  -- The last exit of a trade sells `fraction`, at the stop, at the second target, or on time.
  pub data IsExit (fraction : F) : ExitLeg F → Type 0 where
    at_stop :
        {price : F} (at : Instant)
        → price ≡ stop
        → IsExit fraction (leg_of "STOP" price fraction at)
    at_target :
        {price : F} (at : Instant) → price ≡ tp2 → IsExit fraction (leg_of "TP2" price fraction at)
    on_time : (price : F) (at : Instant) → IsExit fraction (leg_of "TIME_STOP" price fraction at)

  -- The legs of a trade that is over: one of the whole, or a half at the first target and the rest.
  pub data IsSold : List (ExitLeg F) → Type 0 where
    at_once : {leg : ExitLeg F} → IsExit whole leg → IsSold (leg ∷ [])
    in_halves :
        {price : F} (at : Instant) {leg : ExitLeg F}
        → price ≡ tp1
        → IsExit half_left leg
        → IsSold (leg_of "TP1" price half at ∷ leg ∷ [])

  -- the three phases of a trade
  pub data IsPhase : F → Bool → List (ExitLeg F) → Type 0 where
    untouched : IsPhase whole false []
    halved :
        {price : F} (at : Instant)
        → price ≡ tp1
        → IsPhase half_left true (leg_of "TP1" price half at ∷ [])
    over :
        {remaining : F} {taken : Bool} {legs : List (ExitLeg F)}
        → (remaining ≤? zero_f) ≡ true
        → IsSold legs
        → IsPhase remaining taken legs

module _ {F : Type 0} ⦃num : Double F⦄ where
  -- A trade with these levels is in one of its phases.
  pub record IsPhased (stop tp1 tp2 : F) (s : VirtualTradeState F) : Type 0 where
    pub same_stop : s.stop ≡ stop
    pub same_tp1 : s.tp1 ≡ tp1
    pub same_tp2 : s.tp2 ≡ tp2
    pub phase : IsPhase stop tp1 tp2 s.remaining_fraction s.tp1_taken s.exit_legs

module _ {F : Type 0} ⦃num : Double F⦄ (split : IsSplit F) (stop tp1 tp2 : F) where
  open split use {whole_positive, whole_open, half_positive, half_open, whole_sold, half_sold}

  -- the legs behind an exit of all that remains
  pub exit-IsSold :
      {remaining : F} {taken : Bool} {legs : List (ExitLeg F)} {leg : ExitLeg F}
      → IsPhase stop tp1 tp2 remaining taken legs
      → (remaining ≤? zero_f) ≡ false
      → IsExit stop tp1 tp2 remaining leg
      → IsSold stop tp1 tp2 (legs ++ leg ∷ [])
  exit-IsSold untouched open_now exit = at_once exit
  exit-IsSold (halved at e) open_now exit = in_halves at e exit
  exit-IsSold (over closed sold) open_now exit = absurd (cc)

  -- the legs of a trade of which nothing remains
  pub IsPhase-IsSold :
      {remaining : F} {taken : Bool} {legs : List (ExitLeg F)}
      → IsPhase stop tp1 tp2 remaining taken legs
      → ((zero_f <? remaining) ≡ false) ⊎ ((remaining ≤? zero_f) ≡ true)
      → IsSold stop tp1 tp2 legs
  IsPhase-IsSold untouched (inl none_left) = absurd (cc)
  IsPhase-IsSold untouched (inr none_left) = absurd (cc)
  IsPhase-IsSold (halved at e) (inl none_left) = absurd (cc)
  IsPhase-IsSold (halved at e) (inr none_left) = absurd (cc)
  IsPhase-IsSold (over closed sold) none_left = sold

  -- the legs and the rest behind an exit of all that remains
  exit-IsPhase :
      {remaining : F} {taken : Bool} {legs : List (ExitLeg F)} {leg : ExitLeg F} (later : Bool)
      → IsPhase stop tp1 tp2 remaining taken legs
      → (remaining ≤? zero_f) ≡ false
      → IsExit stop tp1 tp2 remaining leg
      → IsPhase stop tp1 tp2 (left_after remaining remaining) later (legs ++ leg ∷ [])
  exit-IsPhase later untouched open_now exit = over whole_sold (at_once exit)
  exit-IsPhase later (halved at e) open_now exit = over half_sold (in_halves at e exit)
  exit-IsPhase later (over closed sold) open_now exit = absurd (cc)

  module _ {s : VirtualTradeState F} (phased : IsPhased stop tp1 tp2 s)
      (open_now : (s.remaining_fraction ≤? zero_f) ≡ false) where
    open phased use {same_stop, same_tp1, same_tp2, phase}

    pub stopped-IsPhased : (at : Instant) → IsPhased stop tp1 tp2 (stopped s at)
    unfolding transition
    stopped-IsPhased at = record {
      same_stop = same_stop;
      same_tp1 = same_tp1;
      same_tp2 = same_tp2;
      phase = exit-IsPhase s.tp1_taken phase open_now (at_stop at same_stop);
    }

    pub timed_out-IsPhased :
        (price : F) (at : Instant) → IsPhased stop tp1 tp2 (timed_out s price at)
    unfolding transition
    timed_out-IsPhased price at = record {
      same_stop = same_stop;
      same_tp1 = same_tp1;
      same_tp2 = same_tp2;
      phase = exit-IsPhase s.tp1_taken phase open_now (on_time price at);
    }

    pub took_profit-IsPhased : (at : Instant) → IsPhased stop tp1 tp2 (took_profit s at)
    unfolding transition
    took_profit-IsPhased at = record {
      same_stop = same_stop;
      same_tp1 = same_tp1;
      same_tp2 = same_tp2;
      phase = exit-IsPhase true phase open_now (at_target at same_tp2);
    }

  trim-IsPhase :
      {remaining : F} {taken : Bool} {legs : List (ExitLeg F)} {price : F} (at : Instant)
      → IsPhase stop tp1 tp2 remaining taken legs
      → (remaining ≤? zero_f) ≡ false
      → taken ≡ false
      → price ≡ tp1
      → let sold = min_f tp1_fraction remaining in
        IsPhase stop tp1 tp2
          (left_after remaining sold)
          true
          (legs ++ leg_of "TP1" price sold at ∷ [])
  trim-IsPhase at untouched open_now first e = halved at e
  trim-IsPhase at (halved before e') open_now first e = absurd (cc)
  trim-IsPhase at (over closed sold) open_now first e = absurd (cc)

  pub trimmed-IsPhased :
      {s : VirtualTradeState F} (at : Instant)
      → IsPhased stop tp1 tp2 s
      → (s.remaining_fraction ≤? zero_f) ≡ false
      → s.tp1_taken ≡ false
      → IsPhased stop tp1 tp2 (trimmed s at)
  unfolding transition
  trimmed-IsPhased at phased open_now first = record {
    same_stop = phased.same_stop;
    same_tp1 = phased.same_tp1;
    same_tp2 = phased.same_tp2;
    phase = trim-IsPhase at phased.phase open_now first phased.same_tp1;
  }
