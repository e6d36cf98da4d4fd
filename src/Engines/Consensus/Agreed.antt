-- ===== src/Engines/Consensus/Agreed.antt =====
-- What `resolve_market_authority` of engines/consensus.py accepts.
use mathlib.Core.List.{Mem, mem-cons_self, mem-cons_of_mem}
use market_brain.Prelude.{
  ap, sym, map, ◌&&◌, Option-cases, ℕ, ◌+◌, ◌≤◌, ◌≡◌, ◌⊎◌, inl, inr, refl, Bool, true, false,
  Option, none, some, List, [], ◌∷◌, arith, if◌then◌else◌, ltb, Bool-cases, String, str_eq,
}
use market_brain.Prelude.Lists.{All, any, length, select}
use market_brain.Prelude.Dict.{Dict, lookup, insert, values, Keyed, Keyed-insert}
use market_brain.Number.{Double, ◌⊖◌, ◌⊗◌, ◌⊘◌, ◌<?◌, ◌≤?◌, zero_f, max_f, min_f}
use market_brain.Domain.{MarketSnapshot}
use market_brain.Engines.Consensus.{
  MarketAuthorityResult, is_valid, freshest, age_key, put_group, group_rows, group_of, quorum,
  no_sample, full_market, on_groups, on_valid, divergence_of, synthetic, median, fold_f,
  resolve_market_authority,
}

select-All {ℓ κ} :
    {A : Type ℓ} (P : A → Type κ) (p : A → Bool) (xs : List A) → All P xs → All P (select p xs)
unfolding select
select-All P p [] h = tt
select-All P p (x ∷ xs) h = elim (Bool-cases (p x)) as (λ _. All P (select p (x ∷ xs))) [
  | inl e ↦ rw e (h.0, select-All P p xs h.1)
  | inr e ↦ rw e (select-All P p xs h.1)
]

Mem-tail {ℓ} :
    {A : Type ℓ} (y : A) (xs ys : List A) → All (λ x. Mem x xs) ys → All (λ x. Mem x (y ∷ xs)) ys
Mem-tail y xs [] h = tt
Mem-tail y xs (z ∷ zs) h = (mem-cons_of_mem y h.0, Mem-tail y xs zs h.1)

Mem-self {ℓ} : {A : Type ℓ} (xs : List A) → All (λ x. Mem x xs) xs
Mem-self [] = tt
Mem-self (x ∷ xs) = (mem-cons_self, Mem-tail x xs xs (Mem-self xs))

-- Nothing is selected twice over where no element passes both tests.
select-none {ℓ} :
    {A : Type ℓ} (p q : A → Bool) (xs : List A)
    → select p (select q xs) ≡ []
    → any (λ x. q x && p x) xs ≡ false
unfolding select any
select-none p q [] e = refl
select-none p q (x ∷ xs) e = ground (arith, select-none p q xs)

-- What is selected passes the test.
select-passes {ℓ} : {A : Type ℓ} (p : A → Bool) (xs : List A) → All (λ x. p x ≡ true) (select p xs)
unfolding select
select-passes p [] = tt
select-passes p (x ∷ xs) =
    elim (Bool-cases (p x)) as (λ _. All (λ x. p x ≡ true) (select p (x ∷ xs))) [
      | inl e ↦ rw e (e, select-passes p xs)
      | inr e ↦ rw e (select-passes p xs)
    ]

values-insert {ℓ κ} :
    {V : Type ℓ} (P : V → Type κ) (k : String) (v : V) (d : Dict V)
    → P v
    → All P (values d)
    → All P (values (insert k v d))
unfolding values insert
values-insert P k v [] p h = (p, tt)
values-insert P k v ((j, w) ∷ d) p h =
    elim (Bool-cases (str_eq j k)) as (λ _. All P (values (insert k v ((j, w) ∷ d)))) [
      | inl e ↦ rw e (p, h.1)
      | inr e ↦ rw e (h.0, values-insert P k v d p h.1)
    ]

module _ {F : Type 0} ⦃num : Double F⦄ where
  freshest-All :
      (P : MarketSnapshot F → Type 0) (best : MarketSnapshot F) (rows : List (MarketSnapshot F))
      → P best
      → All P rows
      → P (freshest best rows)
  unfolding freshest
  freshest-All P best [] p h = p
  freshest-All P best (row ∷ rows) p h =
      elim (Bool-cases (age_key row <? age_key best)) as (λ _. P (freshest best (row ∷ rows))) [
        | inl e ↦ rw e (freshest-All P row rows h.0 h.1)
        | inr e ↦ rw e (freshest-All P best rows p h.1)
      ]

  -- A usable sample of the given ones: a positive price, a book that is not crossed, an age within
  -- the limit, and no halt.
  pub record IsSample (limit : F) (snapshots : List (MarketSnapshot F)) (row : MarketSnapshot F)
      : Type 0 where
    pub bid : F
    pub ask : F
    pub age : F
    pub given : Mem row snapshots
    pub has_bid : row.bid ≡ some bid
    pub has_ask : row.ask ≡ some ask
    pub has_age : row.data_age_seconds ≡ some age
    pub priced : (zero_f <? row.last) ≡ true
    pub uncrossed : (bid ≤? ask) ≡ true
    pub fresh : (age ≤? limit) ≡ true
    pub trading : row.halted ≡ false

  is_valid-IsSample :
      (limit : F) (snapshots : List (MarketSnapshot F)) (row : MarketSnapshot F)
      → Mem row snapshots
      → is_valid limit row ≡ true
      → IsSample limit snapshots row
  unfolding is_valid
  is_valid-IsSample limit snapshots row m h = elim (Option-cases row.bid) [
    | inl e ↦ absurd (ground arith)
    | inr (bid, b) ↦ elim (Option-cases row.ask) [
      | inl e ↦ absurd (ground arith)
      | inr (ask, a) ↦ elim (Option-cases row.data_age_seconds) [
        | inl e ↦ absurd (ground arith)
        | inr (age, d) ↦ record {
          bid = bid;
          ask = ask;
          age = age;
          given = m;
          has_bid = b;
          has_ask = a;
          has_age = d;
          priced = ground arith;
          uncrossed = ground arith;
          fresh = ground arith;
          trading = ground arith;
        }
      ]
    ]
  ]

  -- What is selected of the given samples is usable.
  select-IsSample :
      (limit : F) (snapshots rows : List (MarketSnapshot F))
      → All (λ row. Mem row snapshots) rows
      → All (IsSample limit snapshots) (select (is_valid limit) rows)
  unfolding select
  select-IsSample limit snapshots [] h = tt
  select-IsSample limit snapshots (row ∷ rows) h =
      elim (Bool-cases (is_valid limit row))
        as (λ _. All (IsSample limit snapshots) (select (is_valid limit) (row ∷ rows))) [
          | inl e ↦ rw e (
            is_valid-IsSample limit snapshots row h.0 e,
            select-IsSample limit snapshots rows h.1,
          )
          | inr e ↦ rw e (select-IsSample limit snapshots rows h.1)
        ]

  module _ (limit : F) (snapshots : List (MarketSnapshot F)) where
    abbrev Valid : MarketSnapshot F → Type 0
    Valid = IsSample limit snapshots

    -- no usable sample of the given ones is authoritative
    abbrev pub IsUnauthorised : Type 0
    IsUnauthorised =
        any (λ (row : MarketSnapshot F). is_valid limit row && row.authoritative) snapshots ≡ false

    put_group-All :
        (row : MarketSnapshot F) (d : Dict (MarketSnapshot F))
        → Valid row
        → All Valid (values d)
        → All Valid (values (put_group row d))
    unfolding put_group
    put_group-All row d v h = found (lookup (group_of row) d)
      where
        chosen :
            (fresher : Bool)
            → All Valid (values (if fresher then insert (group_of row) row d else d))
        chosen true = values-insert Valid (group_of row) row d v h
        chosen false = h

        found :
            (o : Option (MarketSnapshot F))
            → All Valid (
                values (elim o [
                  | none ↦ insert (group_of row) row d
                  | some current ↦
                      if age_key row <? age_key current then insert (group_of row) row d else d
                ]))
        found none = values-insert Valid (group_of row) row d v h
        found (some current) = chosen (age_key row <? age_key current)

    group_rows-All :
        (rows : List (MarketSnapshot F)) (d : Dict (MarketSnapshot F))
        → All Valid rows
        → All Valid (values d)
        → All Valid (values (group_rows rows d))
    unfolding group_rows
    group_rows-All [] d v h = h
    group_rows-All (row ∷ rows) d v h =
        group_rows-All rows (put_group row d) v.1 (put_group-All row d v.0 h)

    put_group-Keyed :
        (row : MarketSnapshot F) (d : Dict (MarketSnapshot F))
        → Keyed group_of d
        → Keyed group_of (put_group row d)
    unfolding put_group
    put_group-Keyed row d h = ground (arith, Keyed-insert group_of row d h)

    group_rows-Keyed :
        (rows : List (MarketSnapshot F)) (d : Dict (MarketSnapshot F))
        → Keyed group_of d
        → Keyed group_of (group_rows rows d)
    unfolding group_rows
    group_rows-Keyed [] d h = h
    group_rows-Keyed (row ∷ rows) d h =
        group_rows-Keyed rows (put_group row d) (put_group-Keyed row d h)

    -- What an accepted sample is: a usable one of the given that is authoritative; or, where none of
    -- those is, what a quorum of usable ones of different groups makes, of which there are as many as
    -- the minimum, whose prices lie within the limit, and whose median price it has.
    abbrev pub IsMarket : F → ℕ → MarketSnapshot F → Type 0
    IsMarket max_divergence minimum snapshot =
        (Valid snapshot × (snapshot.authoritative ≡ true))
        ⊎ (IsUnauthorised
            × (first : MarketSnapshot F) × (rows : List (MarketSnapshot F)) × (by_group : Dict
                (MarketSnapshot F))
            × (values by_group ≡ first ∷ rows)
            × Keyed group_of by_group
            × All Valid (first ∷ rows)
            × (minimum ≤ length rows + 1)
            × (let prices = map (λ (row : MarketSnapshot F). row.last) rows in
                let price = median (first.last ∷ prices) in
                let spread = fold_f max_f first.last prices ⊖ fold_f min_f first.last prices in
                ((max_divergence <? spread ⊘ price ⊗ num.lit 10_000 0) ≡ false)
                × (snapshot.last ≡ price))
            × (snapshot ≡ synthetic first rows))

    module _ (max_divergence : F) (minimum : ℕ) where
      -- an answer that rejects, or that accepts a sample of the market
      abbrev pub IsAnswer : MarketAuthorityResult F → Type 0
      IsAnswer result =
          ((result.accepted ≡ false) × (result.snapshot ≡ none) × (length result.reasons ≡ 1))
          ⊎ ((snapshot : MarketSnapshot F) × (result.accepted ≡ true)
              × (result.snapshot ≡ some snapshot)
              × (result.reasons ≡ [])
              × (snapshot.authoritative ≡ true)
              × IsMarket max_divergence minimum snapshot)

      quorum-IsAnswer :
          IsUnauthorised
          → (first : MarketSnapshot F) (rows : List (MarketSnapshot F))
            (d : Dict (MarketSnapshot F))
          → values d ≡ first ∷ rows
          → Keyed group_of d
          → All Valid (first ∷ rows)
          → IsAnswer (quorum max_divergence minimum first rows)
      unfolding quorum synthetic divergence_of
      quorum-IsAnswer u first rows d e k v = elim (Bool-cases (ltb (length rows + 1) minimum)) [
        | inl few ↦ inl (rw few (refl, refl, refl))
        | inr many ↦ elim (Bool-cases (max_divergence <? divergence_of first rows)) [
          | inl far ↦ inl (rw (many, far) (refl, refl, refl))
          | inr near ↦ inr (
              rw (many, near)
                (
                  synthetic first rows,
                  refl,
                  refl,
                  refl,
                  refl,
                  inr (u, first, rows, d, e, k, v, ground arith, (near, refl), refl),
                ))
        ]
      ]

      groups-IsAnswer :
          IsUnauthorised
          → (d : Dict (MarketSnapshot F)) (rows : List (MarketSnapshot F)) → values d ≡ rows
          → Keyed group_of d
          → All Valid rows
          → IsAnswer (on_groups max_divergence minimum rows)
      groups-IsAnswer u d [] e k v = inl (refl, refl, refl)
      groups-IsAnswer u d (first ∷ rows) e k v = quorum-IsAnswer u first rows d e k v

      full_market-IsAnswer :
          (first : MarketSnapshot F) (rows : List (MarketSnapshot F))
          → All Valid (first ∷ rows)
          → All (λ (row : MarketSnapshot F). row.authoritative ≡ true) (first ∷ rows)
          → IsAnswer (full_market first rows)
      unfolding full_market
      full_market-IsAnswer first rows v a =
          let source = freshest-All (λ row. row.authoritative ≡ true) first rows a.0 a.1 in
          inr (
            freshest first rows,
            refl,
            refl,
            refl,
            source,
            inl (freshest-All Valid first rows v.0 v.1, source),
          )

      Valid-IsAnswer :
          (rows : List (MarketSnapshot F))
          → All Valid rows
          → rows ≡ select (is_valid limit) snapshots
          → IsAnswer (on_valid max_divergence minimum rows)
      unfolding on_valid
      Valid-IsAnswer rows v source =
          answered (select (λ (row : MarketSnapshot F). row.authoritative) rows)
            (ap (select (λ (row : MarketSnapshot F). row.authoritative)) source)
            (select-All Valid (λ (row : MarketSnapshot F). row.authoritative) rows v)
            (select-passes (λ (row : MarketSnapshot F). row.authoritative) rows)
        where
          answered :
              (authoritative : List (MarketSnapshot F))
              → authoritative
                ≡ select
                    (λ (row : MarketSnapshot F). row.authoritative)
                    (select (is_valid limit) snapshots)
              → All Valid authoritative
              → All (λ (row : MarketSnapshot F). row.authoritative ≡ true) authoritative
              → IsAnswer (elim authoritative [
                | first ∷ others ↦ full_market first others
                | [] ↦ on_groups max_divergence minimum (values (group_rows rows []))
              ])
          answered [] e w a =
              groups-IsAnswer
                (select-none (λ (row : MarketSnapshot F). row.authoritative) (is_valid limit)
                  snapshots (sym e))
                (group_rows rows []) (values (group_rows rows [])) refl
                (group_rows-Keyed rows [] tt) (group_rows-All rows [] v tt)
          answered (first ∷ others) e w a = full_market-IsAnswer first others w a

module _ {F : Type 0} ⦃num : Double F⦄ (limit max_divergence : F) (minimum : ℕ) where
  -- An answer either rejects for one reason and gives no sample, or accepts for none. What it accepts
  -- is authoritative: a given sample that was authoritative, with a positive price, a book that is not
  -- crossed, an age within the limit and no halt; or, where no such sample is authoritative, what a
  -- quorum of them makes: one for each group and as many as the minimum, with the largest price less
  -- the smallest not above the limit, in basis points of the median, which is its price.
  pub resolve_market_authority-IsAnswer :
      (snapshots : List (MarketSnapshot F))
      → IsAnswer limit snapshots max_divergence minimum
          (resolve_market_authority snapshots limit max_divergence minimum)
  unfolding resolve_market_authority
  resolve_market_authority-IsAnswer snapshots =
      answered (select (is_valid limit) snapshots) refl
        (select-IsSample limit snapshots snapshots (Mem-self snapshots))
    where
      answered :
          (valid : List (MarketSnapshot F))
          → valid ≡ select (is_valid limit) snapshots
          → All (IsSample limit snapshots) valid
          → IsAnswer limit snapshots max_divergence minimum (elim valid [
            | [] ↦ no_sample
            | first ∷ rows ↦ on_valid max_divergence minimum (first ∷ rows)
          ])
      answered [] e v = inl (refl, refl, refl)
      answered (first ∷ rows) e v =
          Valid-IsAnswer limit snapshots max_divergence minimum (first ∷ rows) v e
