-- ===== src/Scheduler/Target/Rounds.antt =====
-- Whole rounds of internal/scheduler/target_executor.go: what happens when every row has been sent, and
-- how an early error survives the round.
use crypto_price_alert.Base.{
  String, true, false, ◌≡◌, refl, ◌∙◌, ap, inl, inr, string_eq, Option, none, some, List, [], ◌∷◌,
  Error, ok, err, Option-cases, empty?, All, Bool-cases,
}
use crypto_price_alert.Domain.Interval.{Interval}
use crypto_price_alert.Domain.Job
use crypto_price_alert.Domain.Job.{Job}
use crypto_price_alert.Domain.Period.{Period}
use crypto_price_alert.Domain.Target.{AlertTarget}
use crypto_price_alert.Scheduler.Executor.{new_job}
use crypto_price_alert.Scheduler.Target.{finish, execute_targets}
use crypto_price_alert.Scheduler.Target.Keys.{Key}
use crypto_price_alert.Scheduler.Target.Plan.{
  TargetExecutor, Eligible, Pending, Planned, Preparation, claim, settled, prepare_symbols,
  prepare_all, prepare, collect,
}
use crypto_price_alert.Scheduler.Target.Delivery.{Outcomes, deliver_all, error_status}

module _ {F W : Type 0} (e : TargetExecutor F W) where
  deliver_all-keeps_error :
      (period : Period) (outcomes : Outcomes F) (planned : List Planned) (error : Error) (w : W)
      → (deliver_all e period outcomes planned (some error) w).0 ≡ some error
  unfolding deliver_all
  deliver_all-keeps_error period outcomes [] error w = refl
  deliver_all-keeps_error period outcomes (p ∷ rest) error w = elim (Option-cases p.pending) [
    | inl dropped ↦ rw (dropped, deliver_all) (deliver_all-keeps_error period outcomes rest error w)
    | inr (pending, here) ↦
        rw (here, deliver_all) (deliver_all-keeps_error period outcomes rest error _)
  ]

  -- An error of the first phase of a round is the result of the round, whatever the fetches and the
  -- deliveries do.
  finish-keeps_error :
      (period : Period) (prep : Preparation) (error : Error) (w : W)
      → prep.first_error ≡ some error
      → (finish e period prep w).0 ≡ err error
  unfolding finish error_status
  finish-keeps_error period prep error w h = elim (Bool-cases (empty? prep.needed)) [
    | inl none_needed ↦ rw (none_needed, h)
    | inr some_needed ↦ rw (some_needed, h, deliver_all-keeps_error period _ prep.planned error _)
  ]

  -- The symbol of a target is supported, and its row is there and has been sent, in every world that
  -- is `Done`; to find it leaves such a world.
  pub record SymbolSent (period : Period) (interval : Interval) (Done : W → Type 0) (et : Eligible)
      (symbol : String) : Type 0 where
    pub supported : e.providers.supports et.config.market_provider symbol interval ≡ true
    pub row : String → W → Job
    pub found :
        (id : String) (w : W)
        → Done w
        → (e.jobs.create_if_not_exists
            (new_job id et.target.id et.config.market_provider symbol period period.interval)
            w).0
          ≡ ok (row id w, false)
    pub sent_before : (id : String) (w : W) → Done w → (row id w).status ≡ Job.sent
    pub still :
        (id : String) (w : W)
        → Done w
        → Done
            (e.jobs.create_if_not_exists
              (new_job id et.target.id et.config.market_provider symbol period period.interval)
              w).1

  -- Every symbol of the given targets.
  pub record RowsSent (period : Period) (interval : Interval) (Done : W → Type 0)
      (eligible : List Eligible) : Type 0 where
    pub new_id : (w : W) → Done w → Done (e.host.new_id w).1
    pub symbols : All (λ et. All (SymbolSent period interval Done et) et.config.symbols) eligible

  module _ (period : Period) (interval : Interval) (Done : W → Type 0)
      (new_id : (w : W) → Done w → Done (e.host.new_id w).1) where
    claim-settled :
        (et : Eligible) (symbol : String) (w : W)
        → SymbolSent period interval Done et symbol
        → Done w
        → ((claim e period interval et symbol w).0 ≡ settled)
          × Done (claim e period interval et symbol w).1
    unfolding claim string_eq
    claim-settled et symbol w sent here =
        let (id, w1) = e.host.new_id w in
        let there = new_id w here in
        let found = sent.found id w1 there in
        let status = sent.sent_before id w1 there in
        (
          rw (claim, sent.supported, found, status) refl,
          rw (claim, sent.supported) (sent.still id w1 there),
        )

    settled_symbols :
        (et : Eligible) (symbols : List String) (pending : List Pending) (needed : List Key)
        (first : Option Error) (w : W)
        → All (SymbolSent period interval Done et) symbols
        → Done w
        → ((prepare_symbols e period interval et symbols pending needed first w).0
            ≡ record { dropped = false; pending = pending; needed = needed; first_error = first })
          × Done (prepare_symbols e period interval et symbols pending needed first w).1
    unfolding prepare_symbols
    settled_symbols et [] pending needed first w sent here = (refl, here)
    settled_symbols et (symbol ∷ rest) pending needed first w sent here =
        let (c, later) = claim-settled et symbol w sent.0 here in
        let (r, end) = settled_symbols et rest pending needed first _ sent.1 later in
        (rw (c, prepare_symbols) r, rw (c, prepare_symbols) end)

    settled_targets :
        (eligible : List Eligible) (prep : Preparation) (w : W)
        → All (λ et. All (SymbolSent period interval Done et) et.config.symbols) eligible
        → Done w
        → ((prepare_all e period interval eligible prep w).0.needed ≡ prep.needed)
          × ((prepare_all e period interval eligible prep w).0.first_error ≡ prep.first_error)
    unfolding prepare_all
    settled_targets [] prep w sent here = (refl, refl)
    settled_targets (et ∷ rest) prep w sent here =
        let (s, later) =
          settled_symbols et et.config.symbols [] prep.needed prep.first_error w sent.0 here in
        let (n, f) = settled_targets rest _ _ sent.1 later in
        (n ∙ ap (λ p. p.needed) s, f ∙ ap (λ p. p.first_error) s)

  pub all_sent-quiet :
      (period : Period) (interval : Interval) (Done : W → Type 0) (targets : List AlertTarget)
      (first : Option Error) (eligible : List Eligible) (w w1 : W)
      → collect e interval targets none [] w ≡ ((first, eligible), w1)
      → RowsSent period interval Done eligible
      → Done w1
      → execute_targets e period interval targets w
        ≡ (error_status first, (prepare e period interval eligible first w1).1)
  unfolding execute_targets prepare finish
  all_sent-quiet period interval Done targets first eligible w w1 chosen all here =
      let (n, f) =
        settled_targets period interval Done all.new_id eligible
          (record { planned = []; needed = []; first_error = first }) w1 all.symbols here in
      rw (execute_targets, chosen, prepare, finish, n, f) refl
