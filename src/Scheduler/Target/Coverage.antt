-- ===== src/Scheduler/Target/Coverage.antt =====
-- The set of needed keys covers the pending jobs, and each key of it is fetched once.
use mathlib.Core.Bool.{false≢true}
use text.Mathlib.TextEquality.{eq_iff}
use crypto_price_alert.Scheduler.Executor.{new_job}
use crypto_price_alert.Base.{
  String, Bool, true, false, ◌≡◌, ◌≢◌, refl, ◌∙◌, ◌==◌, ◌||◌, contains, string_eq, pair_eq, some,
  List, [], ◌∷◌, map, ok, arith, Distinct, Bool-cases, Result-cases, inl, inr, ap,
}
use crypto_price_alert.Domain.Job
use crypto_price_alert.Domain.Job.{Job}
use crypto_price_alert.Domain.Interval.{Interval}
use crypto_price_alert.Domain.Period.{Period}
use crypto_price_alert.Repository.Ports.{JobRepository}
use crypto_price_alert.Scheduler.Target.Keys.{Key, add_key, insert_key, sort_keys}
use crypto_price_alert.Scheduler.Target.Plan.{TargetExecutor, Eligible, claim, open_job}
use crypto_price_alert.Scheduler.Target.Delivery.{Outcomes, outcome_at, fetch_all}

pub contains-add_key :
    (k j : Key) (ks : List Key) → contains (add_key k ks) j ≡ (k == j || contains ks j)
unfolding add_key
contains-add_key k j ks = ground arith

pub add_key-Distinct : (k : Key) (ks : List Key) → Distinct ks → Distinct (add_key k ks)
unfolding add_key
add_key-Distinct k ks h = ground arith

contains-insert_key :
    (k j : Key) (ks : List Key) → contains (insert_key k ks) j ≡ (k == j || contains ks j)
unfolding insert_key
contains-insert_key k j [] = refl
contains-insert_key k j (x ∷ ks) = ground (arith, contains-insert_key k j ks)

pub contains-sort_keys : (j : Key) (ks : List Key) → contains (sort_keys ks) j ≡ contains ks j
unfolding sort_keys
contains-sort_keys j [] = refl
contains-sort_keys j (k ∷ ks) =
    contains-insert_key k j (sort_keys ks) ∙ ground (arith, contains-sort_keys j ks)

insert_key-Distinct :
    (k : Key) (ks : List Key) → contains ks k ≡ false → Distinct ks → Distinct (insert_key k ks)
unfolding insert_key
insert_key-Distinct k [] h d = (refl, tt)
insert_key-Distinct k (x ∷ ks) h d =
    ground (arith, insert_key-Distinct k ks, contains-insert_key k x ks)

pub sort_keys-Distinct : (ks : List Key) → Distinct ks → Distinct (sort_keys ks)
unfolding sort_keys
sort_keys-Distinct [] d = tt
sort_keys-Distinct (k ∷ ks) d =
    insert_key-Distinct k (sort_keys ks) (contains-sort_keys k ks ∙ d.0) (sort_keys-Distinct ks d.1)

-- A key that is fetched has an outcome.
unfoldable pub has_outcome : {F : Type 0} → Key → Outcomes F → Bool
has_outcome key [] = false
has_outcome key ((k, r) ∷ rest) = k == key || has_outcome key rest

pub outcome_of_has :
    {F : Type 0} (key : Key) (o : Outcomes F)
    → has_outcome key o ≡ true
    → (r : _) × (outcome_at key o ≡ some r)
unfolding has_outcome outcome_at
outcome_of_has key [] h = absurd (false≢true h)
outcome_of_has key ((k, r) ∷ rest) h = elim (Bool-cases (k == key)) [
  | inl here ↦ (r, ground arith)
  | inr other ↦ (let (found, at) = outcome_of_has key rest (ground arith) in (found, ground arith))
]

pending-ne-sent : ◌≢◌ {A = String} Job.pending Job.sent
pending-ne-sent p = false≢true ((eq_iff Job.pending Job.sent).1 p)

module _ {F W : Type 0} (e : TargetExecutor F W) where
  pub keys-fetch_all :
      (period : Period) (ks : List Key) (w : W) → map (λ o. o.0) (fetch_all e period ks w).0 ≡ ks
  unfolding fetch_all
  keys-fetch_all period [] w = refl
  keys-fetch_all period (k ∷ ks) w = ap (λ rest. k ∷ rest) (keys-fetch_all period ks _)

  -- What the program relies on in a job repository: the row that it returns is of the provider that
  -- was asked for, and a row that is reported as new has the status that was asked for.
  pub record JobContract (jobs : JobRepository W) : Type 0 where
    pub same_provider :
        (j j' : Job) (new : Bool) (w : W)
        → (jobs.create_if_not_exists j w).0 ≡ ok (j', new)
        → j'.market_provider ≡ j.market_provider
    pub new_status :
        (j j' : Job) (w : W)
        → (jobs.create_if_not_exists j w).0 ≡ ok (j', true)
        → j'.status ≡ j.status

  module _ (contract : JobContract e.jobs) where
    pub claim-open_job :
        (period : Period) (interval : Interval) (et : Eligible) (symbol : String) (w : W)
        (job : Job)
        → (claim e period interval et symbol w).0 ≡ open_job job
        → (job.market_provider ≡ et.config.market_provider) × (job.status ≢ Job.sent)
    unfolding claim
    claim-open_job period interval et symbol w job h =
        let (id, w1) = e.host.new_id w in
        let request =
          new_job id et.target.id et.config.market_provider symbol period period.interval in
        elim (Result-cases (e.jobs.create_if_not_exists request w1).0) [
          | inl ((j, true), found) ↦ ground (
            arith,
            contract.same_provider request j true w1 found,
            contract.new_status request j w1 found,
            pending-ne-sent,
          )
          | inl ((j, false), found) ↦
              ground (arith, contract.same_provider request j false w1 found)
          | inr (error, failed) ↦ absurd (ground arith)
        ]
