-- ===== src/Alerts/Order.antt =====
-- The alerts that `dispatch_once` of alerts/dispatcher.py takes, and their order.
use mathlib.Core.Path.{subst}
use market_brain.Prelude.{
  sym, ℕ, ◌≡◌, ◌≢◌, ◌⊎◌, ◌<◌, ◌≤◌, inl, inr, refl, ◌∙◌, String, Bool, true, false, not, ◌&&◌, List,
  [], ◌∷◌, arith, is_some, str_eq, eq_iff, Bool-cases,
}
use market_brain.Prelude.Lists.{count, select}
use market_brain.Prelude.Dict.{values}
use market_brain.Prelude.Sorting.{Ordered, Ordered-map, sort_by, count-sort_by, sort_by-Ordered}
use market_brain.Domain.{Instant, AlertRecord}
use market_brain.Ledger.Store.{Store}
use market_brain.Alerts.{
  Dispatcher, is_before, is_older, is_due, due_alerts, list_undelivered, priority,
}

-- how urgent a kind of alert is, the most urgent first
pub data IsRank : String → ℕ → Type 0 where
  sell : IsRank "SELL_NOW" 0
  place_stop : IsRank "PLACE_STOP_NOW" 1
  stale : IsRank "STREAM_STALE" 2
  other :
      {kind : String}
      → kind ≢ "SELL_NOW"
      → kind ≢ "PLACE_STOP_NOW"
      → kind ≢ "STREAM_STALE"
      → IsRank kind 3

-- the first alert is more urgent, or as urgent and not younger
pub record StandsBefore (a b : AlertRecord) : Type 0 where
  pub m : ℕ
  pub n : ℕ
  pub rank : IsRank a.kind m
  pub next_rank : IsRank b.kind n
  pub order : (m < n) ⊎ ((m ≡ n) × (a.created_at ≤ b.created_at))

IsRank-priority : (kind : String) → IsRank kind (priority kind)
unfolding priority
IsRank-priority kind =
    elim (Bool-cases (str_eq kind "SELL_NOW")) as (λ _. IsRank kind (priority kind)) [
      | inl e ↦
          subst (λ (k : String). IsRank k (priority k)) (sym ((eq_iff kind "SELL_NOW").0 e)) sell
      | inr e1 ↦
          elim (Bool-cases (str_eq kind "PLACE_STOP_NOW")) as (λ _. IsRank kind (priority kind)) [
            | inl e ↦
                subst (λ (k : String). IsRank k (priority k))
                  (sym ((eq_iff kind "PLACE_STOP_NOW").0 e)) place_stop
            | inr e2 ↦
                elim (Bool-cases (str_eq kind "STREAM_STALE"))
                  as (λ _. IsRank kind (priority kind)) [
                    | inl e ↦
                        subst (λ (k : String). IsRank k (priority k))
                          (sym ((eq_iff kind "STREAM_STALE").0 e)) stale
                    | inr e3 ↦
                        rw (e1, e2, e3)
                          (other (differs kind "SELL_NOW" e1) (differs kind "PLACE_STOP_NOW" e2)
                            (differs kind "STREAM_STALE" e3))
                  ]
          ]
    ]
  where
    differs : (a b : String) → str_eq a b ≡ false → a ≢ b
    differs a b e h = let t : str_eq a b ≡ true = (eq_iff a b).1 h in cc

is_before-StandsBefore : (a b : AlertRecord) → is_before a b ≡ true → StandsBefore a b
is_before-StandsBefore a b h = record {
  m = priority a.kind;
  n = priority b.kind;
  rank = IsRank-priority a.kind;
  next_rank = IsRank-priority b.kind;
  order = ground arith;
}

is_before_total : (a b : AlertRecord) → is_before a b ≡ false → is_before b a ≡ true
is_before_total a b h = ground arith

is_before_trans :
    (a b c : AlertRecord) → is_before a b ≡ true → is_before b c ≡ true → is_before a c ≡ true
is_before_trans a b c h k = ground arith

count-select {ℓ} :
    {A : Type ℓ} (p q : A → Bool) (xs : List A) → count p (select q xs) ≡ count (λ x. q x && p x) xs
unfolding count select
count-select p q [] = refl
count-select p q (x ∷ xs) = ground (arith, count-select p q xs)

module _ {F : Type 0} where
  -- A dispatch takes sells first, then stops to place, then silent streams, then all other kinds of
  -- alerts, and of those with the same rank the older first; and it takes exactly the stored alerts
  -- that are not delivered, have attempts left and whose next attempt is due: a test holds of as many
  -- of them as of those.
  pub due_alerts-Ordered :
      (d : Dispatcher) (now : Instant) (s : Store F)
      → Ordered StandsBefore (due_alerts d now s)
        × ((p : AlertRecord → Bool)
            → count p (due_alerts d now s)
              ≡ count
                  (λ (alert : AlertRecord).
                    not (is_some alert.delivered_at) && (is_due d now alert && p alert))
                  (values s.alerts))
  unfolding due_alerts list_undelivered
  due_alerts-Ordered d now s =
      let open_alert = λ (alert : AlertRecord). not (is_some alert.delivered_at) in
      let listed = select open_alert (values s.alerts) in
      (
        Ordered-map (λ x y. is_before x y ≡ true) StandsBefore is_before-StandsBefore
            (sort_by is_before (select (is_due d now) (sort_by is_older listed)))
            (sort_by-Ordered is_before (λ x y. is_before x y ≡ true) (λ x y h. h) is_before_total
              is_before_trans (select (is_due d now) (sort_by is_older listed))),
        λ p.
            count-sort_by is_before p (select (is_due d now) (sort_by is_older listed))
            ∙ count-select p (is_due d now) (sort_by is_older listed)
            ∙ count-sort_by is_older (λ (alert : AlertRecord). is_due d now alert && p alert) listed
            ∙ count-select (λ (alert : AlertRecord). is_due d now alert && p alert) open_alert
                (values s.alerts),
      )
