-- ===== src/Scheduler/Target/Readiness.antt =====
-- What phase 1 of internal/scheduler/target_executor.go hands to the delivery: rows that have not been
-- sent, each with its key in the set of the needed keys.
use crypto_price_alert.Base.{
  String, true, ◌≡◌, ◌≢◌, refl, sym, ◌∙◌, ◌⊎◌, inl, inr, contains, string_eq, pair_eq, Option, none,
  some, List, [], ◌∷◌, ◌++◌, Error, arith, All, All-append, All-mono, Distinct, Bool-cases,
  if◌then◌else◌, map,
}
use mathlib.Core.Path.{subst}
use crypto_price_alert.Domain.Job
use crypto_price_alert.Domain.Job.{Job}
use crypto_price_alert.Domain.Interval.{Interval}
use crypto_price_alert.Domain.Period.{Period}
use crypto_price_alert.Scheduler.Target.Keys.{Key, add_key}
use crypto_price_alert.Scheduler.Target.Plan.{
  TargetExecutor, Pending, Planned, Prepared, Preparation, Eligible, Claim, claim, prepare_symbols,
  prepare_all, prepare, drop, settled, open_job, keep_first,
}
use crypto_price_alert.Notification.Message.{PriceResult}
use crypto_price_alert.Scheduler.Target.Keys.{sort_keys}
use crypto_price_alert.Scheduler.Target.Delivery.{Outcomes, outcome_at, fetch_all}
use crypto_price_alert.Scheduler.Target.Coverage.{
  JobContract, claim-open_job, contains-add_key, add_key-Distinct, contains-sort_keys,
  sort_keys-Distinct, outcome_of_has, has_outcome, keys-fetch_all,
}

-- A row that may be delivered: it has not been sent, and its candle will be fetched.
pub record IsReady (needed : List Key) (p : Pending) : Type 0 where
  pub covered : contains needed (p.job.market_provider, p.symbol) ≡ true
  pub unsent : p.job.status ≢ Job.sent

abbrev Grows : List Key → List Key → Type 0
Grows old new = (k : Key) → contains old k ≡ true → contains new k ≡ true

IsReady-Grows : {old new : List Key} → Grows old new → (p : Pending) → IsReady old p → IsReady new p
IsReady-Grows g p r = record { covered = g _ r.covered; unsent = r.unsent }

add_key-Grows : (k : Key) (ks : List Key) → Grows ks (add_key k ks)
add_key-Grows k ks j h = ground (arith, contains-add_key k j ks)

-- The rows of a planned target; a dropped target has none.
abbrev pub rows : Planned → List Pending
rows p = elim p.pending [ none ↦ [] | some ps ↦ ps ]

abbrev pub AreReady : List Key → List Planned → Type 0
AreReady needed planned = All (λ p. All (IsReady needed) (rows p)) planned

AreReady-Grows :
    (old new : List Key) → Grows old new → (ps : List Planned) → AreReady old ps → AreReady new ps
AreReady-Grows old new g ps h = All-mono _ _ (λ p r. All-mono _ _ (IsReady-Grows g) (rows p) r) ps h

-- What the loop over the symbols keeps.
record Keeps (old : List Key) (res : Prepared) : Type 0 where
  ready : All (IsReady res.needed) res.pending
  grows : Grows old res.needed
  distinct : Distinct old → Distinct res.needed

Claim-cases :
    (c : Claim)
    → ((error : Error) × (c ≡ drop error)) ⊎ ((c ≡ settled) ⊎ ((job : Job) × (c ≡ open_job job)))
Claim-cases (drop error) = inl (error, refl)
Claim-cases settled = inr (inl refl)
Claim-cases (open_job job) = inr (inr (job, refl))

module _ {F W : Type 0} (e : TargetExecutor F W) (period : Period) (interval : Interval)
    (et : Eligible) where
  abbrev loop : List String → List Pending → List Key → Option Error → W → Prepared
  loop symbols pending needed first w =
      (prepare_symbols e period interval et symbols pending needed first w).0

  module _ (symbol : String) (rest : List String) (pending : List Pending) (needed : List Key)
      (first : Option Error) (w : W) where
    abbrev claimed : Claim
    claimed = (claim e period interval et symbol w).0

    abbrev after : W
    after = (claim e period interval et symbol w).1

    loop-drop :
        (error : Error)
        → claimed ≡ drop error
        → loop (symbol ∷ rest) pending needed first w ≡ record {
          dropped = true;
          pending = pending;
          needed = needed;
          first_error = keep_first first (some error);
        }
    unfolding prepare_symbols
    loop-drop error h = ground arith

    loop-settled :
        claimed ≡ settled
        → loop (symbol ∷ rest) pending needed first w ≡ loop rest pending needed first after
    unfolding prepare_symbols
    loop-settled h = ground arith

    loop-open_job :
        (job : Job)
        → claimed ≡ open_job job
        → loop (symbol ∷ rest) pending needed first w
          ≡ loop rest
              (pending ++ record { job = job; symbol = symbol } ∷ [])
              (add_key (et.config.market_provider, symbol) needed)
              first
              after
    unfolding prepare_symbols
    loop-open_job job h = ground arith

  module _ (contract : JobContract e e.jobs) where
    open_job-IsReady :
        (symbol : String) (needed : List Key) (w : W) (job : Job)
        → (claim e period interval et symbol w).0 ≡ open_job job
        → IsReady
            (add_key (et.config.market_provider, symbol) needed)
            (record { job = job; symbol = symbol })
    open_job-IsReady symbol needed w job x =
        let facts = claim-open_job e contract period interval et symbol w job x in
        record { covered = rw (facts.0, contains-add_key) (ground arith); unsent = facts.1 }

    loop-Keeps :
        (symbols : List String) (pending : List Pending) (needed : List Key) (first : Option Error)
        (w : W)
        → All (IsReady needed) pending
        → Keeps needed (loop symbols pending needed first w)
    unfolding prepare_symbols
    loop-Keeps [] pending needed first w h = record {
      ready = h;
      grows = λ k m. m;
      distinct = λ d. d;
    }
    loop-Keeps (symbol ∷ rest) pending needed first w h =
        elim (Claim-cases (claimed symbol rest pending needed first w)) [
          | inl (error, x) ↦
              subst (Keeps needed) (sym (loop-drop symbol rest pending needed first w error x))
                (record { ready = h; grows = λ k m. m; distinct = λ d. d })
          | inr (inl x) ↦
              subst (Keeps needed) (sym (loop-settled symbol rest pending needed first w x))
                (loop-Keeps rest pending needed first _ h)
          | inr (inr (job, x)) ↦
              let key : Key = (et.config.market_provider, symbol) in
              let fresh : IsReady (add_key key needed) (record { job = job; symbol = symbol }) =
                open_job-IsReady symbol needed w job x in
              let ih =
                loop-Keeps rest (pending ++ record { job = job; symbol = symbol } ∷ [])
                  (add_key key needed) first (claim e period interval et symbol w).1
                  (All-append _ pending _
                    (All-mono _ _ (IsReady-Grows (add_key-Grows key needed)) pending h)
                    (fresh, tt)) in
              subst (Keeps needed) (sym (loop-open_job symbol rest pending needed first w job x))
                (record {
                  ready = ih.ready;
                  grows = λ k m. ih.grows k (add_key-Grows key needed k m);
                  distinct = λ d. ih.distinct (add_key-Distinct key needed d);
                })
        ]

module _ {F W : Type 0} (e : TargetExecutor F W) (contract : JobContract e e.jobs) (period : Period)
    (interval : Interval) where
  abbrev plan_of : Eligible → Prepared → Planned
  plan_of et p = record { target = et.target; pending = if p.dropped then none else some p.pending }

  plan_of-IsReady :
      (et : Eligible) (p : Prepared)
      → All (IsReady p.needed) p.pending
      → All (IsReady p.needed) (rows (plan_of et p))
  plan_of-IsReady et p h = elim (Bool-cases p.dropped) [
    | inl yes_ ↦ rw yes_ tt
    | inr no_ ↦ rw no_ h
  ]

  prepare_all-ready :
      (eligible : List Eligible) (prep : Preparation) (w : W)
      → AreReady prep.needed prep.planned
      → Distinct prep.needed
      → let res = (prepare_all e period interval eligible prep w).0 in
        AreReady res.needed res.planned × Distinct res.needed
  unfolding prepare_all
  prepare_all-ready [] prep w h d = (h, d)
  prepare_all-ready (et ∷ rest) prep w h d =
      let step =
        prepare_symbols e period interval et et.config.symbols [] prep.needed prep.first_error w in
      let kept =
        loop-Keeps e period interval et contract et.config.symbols [] prep.needed prep.first_error w
          tt in
      prepare_all-ready rest _ step.1
        (All-append _ prep.planned _ (AreReady-Grows _ _ kept.grows prep.planned h)
          (plan_of-IsReady et step.0 kept.ready, tt))
        (kept.distinct d)

  -- Phase 1 leaves rows that have not been sent and whose keys are needed, and no key twice.
  pub prepare-ready :
      (eligible : List Eligible) (first : Option Error) (w : W)
      → let prep = (prepare e period interval eligible first w).0 in
        AreReady prep.needed prep.planned × Distinct prep.needed
  unfolding prepare
  prepare-ready eligible first w = prepare_all-ready eligible _ w tt tt

-- A row that is delivered with the outcome of its own key.
pub record IsServed {F : Type 0} (outcomes : Outcomes F) (p : Pending) : Type 0 where
  pub result : PriceResult F
  pub found : outcome_at (p.job.market_provider, p.symbol) outcomes ≡ some result
  pub unsent : p.job.status ≢ Job.sent

has_outcome-contains :
    {F : Type 0} (key : Key) (o : Outcomes F) → has_outcome key o ≡ contains (map (λ x. x.0) o) key
unfolding has_outcome
has_outcome-contains key [] = refl
has_outcome-contains key ((k, r) ∷ rest) = ground (arith, has_outcome-contains key rest)

module _ {F W : Type 0} (e : TargetExecutor F W) (period : Period) (needed : List Key) (w : W) where
  abbrev fetched : Outcomes F
  fetched = (fetch_all e period (sort_keys needed) w).0

  fetched-IsServed : (p : Pending) → IsReady needed p → IsServed fetched p
  fetched-IsServed p r =
      let key : Key = (p.job.market_provider, p.symbol) in
      let has =
        has_outcome-contains key fetched
        ∙ (rw (keys-fetch_all e period (sort_keys needed) w)
            (contains-sort_keys key needed ∙ r.covered)) in
      let (result, found) = outcome_of_has key fetched has in
      record { result = result; found = found; unsent = r.unsent }

  keys-Distinct : Distinct needed → Distinct (map (λ o. o.0) fetched)
  keys-Distinct d = rw (keys-fetch_all e period (sort_keys needed) w) (sort_keys-Distinct needed d)

-- Over a job repository that keeps the provider of a row and hands new rows back unsent, every row
-- that a round of the target executor is going to deliver has not been sent before and has an
-- outcome under its own provider and symbol, and no provider and symbol is fetched twice, for all
-- targets and configurations and whatever the world does between the phases.
pub pending-IsServed :
    {F W : Type 0} (e : TargetExecutor F W) (period : Period) (interval : Interval)
    (eligible : List Eligible) (first : Option Error) (w w' : W)
    → JobContract e e.jobs
    → let prep = (prepare e period interval eligible first w).0 in
      let outcomes = (fetch_all e period (sort_keys prep.needed) w').0 in
      All (λ p. All (IsServed outcomes) (rows p)) prep.planned × Distinct (map (λ o. o.0) outcomes)
pending-IsServed e period interval eligible first w w' contract =
    let prep = (prepare e period interval eligible first w).0 in
    let (ready, distinct) = prepare-ready e contract period interval eligible first w in
    (
      All-mono _ _ (λ p h. All-mono _ _ (fetched-IsServed e period prep.needed w') (rows p) h)
          prep.planned ready,
      keys-Distinct e period prep.needed w' distinct,
    )
