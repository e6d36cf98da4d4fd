-- ===== src/Engines/Volatility/Gate.antt =====
-- What the volatility gates of engines/volatility.py let through.
use mathlib.Core.Path.{subst, ap₂}
use mathlib.Core.Option.{some_inj}
use market_brain.Prelude.{
  ◌≡◌, ◌↔◌, ◌⊎◌, refl, sym, ◌∙◌, true, false, Option, none, some, ◌&&◌, arith, inl, inr,
  Option-cases, Bool-cases,
}
use market_brain.Number.{
  Double, ◌⊖◌, ◌<?◌, ◌≤?◌, zero_f, max_f, abs_f, IsOrdered, ◌≼◌, ◌≺◌, zero-le-max_f,
}
use market_brain.Domain.{LiquidityProfile, MarketSnapshot}
use market_brain.Engines.Volatility.{
  apply_volatility_context, remaining_atr, used_range, true_range, volatility_gate_reason,
  profile_atr,
}

module _ {F : Type 0} ⦃num : Double F⦄ where
  -- what a snapshot must hold to pass the gate
  pub record IsVolatile (snapshot : MarketSnapshot F) (min_pct : F) : Type 0 where
    pub atr : F
    pub pct : F
    pub remaining : F
    pub has_atr : snapshot.atr14 ≡ some atr
    pub has_pct : snapshot.atr14_pct ≡ some pct
    pub has_remaining : snapshot.remaining_atr ≡ some remaining
    pub atr_positive : (atr ≤? zero_f) ≡ false
    pub pct_reached : (pct <? min_pct) ≡ false
    pub remaining_positive : (remaining ≤? zero_f) ≡ false

  -- The gate gives no reason exactly for the snapshots that know their range, its percentage and
  -- what is left of it, where none of the three is too low.
  pub volatility_gate_reason_iff :
      (snapshot : MarketSnapshot F) (min_pct : F)
      → (volatility_gate_reason snapshot min_pct ≡ none) ↔ IsVolatile snapshot min_pct
  unfolding volatility_gate_reason
  volatility_gate_reason_iff snapshot min_pct = (forwards, λ v. ground arith)
    where
      forwards : volatility_gate_reason snapshot min_pct ≡ none → IsVolatile snapshot min_pct
      forwards h = elim (Option-cases snapshot.atr14) [
        | inl e ↦ absurd (ground arith)
        | inr (atr, e1) ↦ elim (Option-cases snapshot.atr14_pct) [
          | inl e ↦ absurd (ground arith)
          | inr (pct, e2) ↦ elim (Option-cases snapshot.remaining_atr) [
            | inl e ↦ absurd (ground arith)
            | inr (remaining, e3) ↦ record {
              atr = atr;
              pct = pct;
              remaining = remaining;
              has_atr = e1;
              has_pct = e2;
              has_remaining = e3;
              atr_positive = ground arith;
              pct_reached = ground arith;
              remaining_positive = ground arith;
            }
          ]
        ]
      ]

module _ {F : Type 0} ⦃num : Double F⦄ where
  -- the first number is one of the other three, and none of them is above it
  abbrev pub IsLargest : F → F → F → F → Type 0
  IsLargest x a b c =
      ((x ≡ a) ⊎ ((x ≡ b) ⊎ (x ≡ c))) × ((x <? a) ≡ false) × ((x <? b) ≡ false) × ((x <? c) ≡ false)

  -- A day's range in order: both ends are positive, and the low is not above the high.
  pub record IsDay (snapshot : MarketSnapshot F) (high low : F) : Type 0 where
    pub has_high : snapshot.high ≡ some high
    pub has_low : snapshot.low ≡ some low
    pub high_positive : zero_f ≺ high
    pub low_positive : zero_f ≺ low
    pub in_order : low ≼ high

  -- What the day has used of the range: with a day's range in order the largest of the range itself
  -- and of the ways from the prior close to its ends, and else the way to the last price.
  pub data IsUsed (snapshot : MarketSnapshot F) (prior : F) : F → Type 0 where
    by_range :
        {used : F} (high low : F)
        → IsDay snapshot high low
        → IsLargest used (high ⊖ low) (abs_f (high ⊖ prior)) (abs_f (low ⊖ prior))
        → IsUsed snapshot prior used
    by_last :
        {used : F}
        → ((high low : F) → IsDay snapshot high low → ⊥)
        → used ≡ abs_f (snapshot.last ⊖ prior)
        → IsUsed snapshot prior used

module _ {F : Type 0} ⦃num : Double F⦄ (laws : IsOrdered F) where
  lt_asym : (a b : F) → a ≺ b → (b <? a) ≡ false
  lt_asym a b h = ground (arith, laws.not-le_of_lt a b, laws.le_of_lt b a)

  lt_irrefl : (a : F) → (a <? a) ≡ false
  lt_irrefl a = ground (arith, laws.not-le_of_lt a a, laws.le_of_lt a a)

  lt_trans : (a b c : F) → a ≺ b → b ≺ c → a ≺ c
  lt_trans a b c h k = laws.lt_of_lt_of_le a b c h (laws.le_of_lt b c k)

  max_f-IsLargest : (a b c : F) → IsLargest (max_f (max_f a b) c) a b c
  max_f-IsLargest a b c = ground (
    arith,
    lt_irrefl a,
    lt_irrefl b,
    lt_irrefl c,
    lt_asym a b,
    lt_asym a c,
    lt_asym b c,
    lt_trans a c b,
    lt_trans a b c,
  )

  used_range-IsUsed :
      (snapshot : MarketSnapshot F) (prior : F) → IsUsed snapshot prior (used_range snapshot prior)
  unfolding used_range
  used_range-IsUsed snapshot prior = elim (Option-cases snapshot.high) [
    | inl none_high ↦ by_last (λ high low day. absurd (other_high day none_high)) (ground arith)
    | inr (high, h) ↦ elim (Option-cases snapshot.low) [
      | inl none_low ↦ by_last (λ high low day. absurd (other_low day none_low)) (ground arith)
      | inr (low, l) ↦ elim (Bool-cases (zero_f <? high && zero_f <? low && low ≤? high)) [
        | inr wrong ↦
            by_last (λ high' low' day. absurd (not_day high low h l wrong day)) (ground arith)
        | inl right ↦
            by_range high low
              (record {
                has_high = h;
                has_low = l;
                high_positive = ground arith;
                low_positive = ground arith;
                in_order = ground arith;
              })
              (subst
                (λ (x : F). IsLargest x (high ⊖ low) (abs_f (high ⊖ prior)) (abs_f (low ⊖ prior)))
                (sym (is_true_range high low h l right))
                (max_f-IsLargest (high ⊖ low) (abs_f (high ⊖ prior)) (abs_f (low ⊖ prior))))
      ]
    ]
  ]
    where
      other_high : {high low : F} → IsDay snapshot high low → snapshot.high ≡ none → ⊥
      other_high day e = let k = day.has_high in cc

      other_low : {high low : F} → IsDay snapshot high low → snapshot.low ≡ none → ⊥
      other_low day e = let k = day.has_low in cc

      not_day :
          (high low : F)
          → snapshot.high ≡ some high
          → snapshot.low ≡ some low
          → (zero_f <? high && zero_f <? low && low ≤? high) ≡ false
          → {high' low' : F} → IsDay snapshot high' low'
          → ⊥
      not_day high low h l wrong {high'} {low'} day =
          let same_high : high' ≡ high = some_inj.0 (sym day.has_high ∙ h) in
          let same_low : low' ≡ low = some_inj.0 (sym day.has_low ∙ l) in
          let a : zero_f ≺ high = subst (λ (x : F). zero_f ≺ x) same_high day.high_positive in
          let b : zero_f ≺ low = subst (λ (x : F). zero_f ≺ x) same_low day.low_positive in
          let c : low ≼ high =
            subst (λ (x : F). x ≼ high) same_low
              (subst (λ (x : F). low' ≼ x) same_high day.in_order) in
          ground arith

      is_true_range :
          (high low : F)
          → snapshot.high ≡ some high
          → snapshot.low ≡ some low
          → (zero_f <? high && zero_f <? low && low ≤? high) ≡ true
          → used_range snapshot prior ≡ true_range high low prior
      is_true_range high low h l right = ground arith

  -- With the laws of comparison, the context leaves of the range of the profile either nothing, where
  -- that range or the prior close is missing or one of them and the last price is not positive; or,
  -- where all three are, the range less what the day has used of it, and not less than zero. The day
  -- has used the largest of its own range and of the ways from the prior close to its ends, if its
  -- high and low are positive and in order, and else the way from the prior close to the last price.
  pub apply_volatility_context-IsUsed :
      (snapshot : MarketSnapshot F) (profile : Option (LiquidityProfile F))
      → let left = (apply_volatility_context snapshot profile).remaining_atr in
        ((left ≡ none)
          × ((atr prior : F)
              → profile_atr profile ≡ some atr
              → snapshot.prior_close ≡ some prior
              → (zero_f <? atr && zero_f <? prior && zero_f <? snapshot.last) ≡ false))
        ⊎ ((atr : F) × (prior : F) × (used : F) × (rest : F) × (left ≡ some rest)
            × (profile_atr profile ≡ some atr)
            × (snapshot.prior_close ≡ some prior)
            × (zero_f ≺ atr)
            × (zero_f ≺ prior)
            × (zero_f ≺ snapshot.last)
            × IsUsed snapshot prior used
            × (rest ≡ max_f zero_f (atr ⊖ used))
            × (zero_f ≼ rest))
  unfolding apply_volatility_context remaining_atr
  apply_volatility_context-IsUsed snapshot profile = elim (Option-cases (profile_atr profile)) [
    | inl e ↦ inl (ground arith, λ atr prior h k. absurd (cc))
    | inr (atr, e1) ↦ elim (Option-cases snapshot.prior_close) [
      | inl e ↦ inl (ground arith, λ atr prior h k. absurd (cc))
      | inr (prior, e2) ↦
          elim (Bool-cases (zero_f <? atr && zero_f <? prior && zero_f <? snapshot.last)) [
            | inr low ↦ inl (ground arith, λ atr' prior' h k. same atr prior e1 e2 low h k)
            | inl high ↦ inr (
              atr,
              prior,
              used_range snapshot prior,
              max_f zero_f (atr ⊖ used_range snapshot prior),
              ground arith,
              e1,
              e2,
              ground arith,
              ground arith,
              ground arith,
              used_range-IsUsed snapshot prior,
              refl,
              zero-le-max_f laws (atr ⊖ used_range snapshot prior),
            )
          ]
    ]
  ]
    where
      same :
          (atr prior : F)
          → profile_atr profile ≡ some atr
          → snapshot.prior_close ≡ some prior
          → (zero_f <? atr && zero_f <? prior && zero_f <? snapshot.last) ≡ false
          → {atr' prior' : F} → profile_atr profile ≡ some atr'
          → snapshot.prior_close ≡ some prior'
          → (zero_f <? atr' && zero_f <? prior' && zero_f <? snapshot.last) ≡ false
      same atr prior e1 e2 low {atr'} {prior'} h k =
          let a : atr ≡ atr' = some_inj.0 (sym e1 ∙ h) in
          let b : prior ≡ prior' = some_inj.0 (sym e2 ∙ k) in
          ap₂ (λ x y. zero_f <? x && zero_f <? y && zero_f <? snapshot.last) (sym a) (sym b) ∙ low
