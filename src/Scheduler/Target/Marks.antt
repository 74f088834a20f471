-- ===== src/Scheduler/Target/Marks.antt =====
-- What a delivery of internal/scheduler/target_executor.go leaves in the job rows.
use crypto_price_alert.Base.{
  String, true, ◌≡◌, ◌≢◌, refl, sym, ◌∙◌, ap, ◌==◌, inl, inr, contains, string_eq, Option, none,
  some, List, [], ◌∷◌, map, Error, ok, ok?, arith, All, All-mono, if◌then◌else◌, Result-cases,
}
use crypto_price_alert.Domain.Interval.{Time}
use crypto_price_alert.Domain.Job
use crypto_price_alert.Domain.Job.{Job, JobStatus}
use crypto_price_alert.Domain.Period.{Period, Message}
use crypto_price_alert.Domain.Target.{AlertTarget}
use crypto_price_alert.Notification.Message.{build_message}
use crypto_price_alert.Notification.Notifier.{Notifier, send_to_target}
use crypto_price_alert.Scheduler.Executor.{Item, mark_all}
use crypto_price_alert.Scheduler.Target.Plan.{TargetExecutor, Pending}
use crypto_price_alert.Scheduler.Target.Delivery.{
  Outcomes, send_all, item_of, items_of, deliver_items, deliver_to_target, error_status,
}

-- The status of each row, as the marks of an answering store change it. The clock and the notifiers
-- leave the rows alone.
pub record RowContract {F W : Type 0} (e : TargetExecutor F W)
    (status : W → String → Option JobStatus) : Type 0 where
  pub after_sent :
      (id j : String) (t : Time) (w : W)
      → status w id ≢ none
      → status (e.jobs.mark_sent id t w).1 j ≡ (if id == j then some Job.sent else status w j)
  pub after_failed :
      (id j reason : String) (w : W)
      → status w id ≢ none
      → status (e.jobs.mark_failed id reason w).1 j
        ≡ (if id == j then some Job.failed else status w j)
  pub after_now : (j : String) (w : W) → status (e.host.now w).1 j ≡ status w j
  pub after_send :
      All
        (λ n.
          (target : AlertTarget) (message : Message) (j : String) (w : W)
          → status (send_to_target n target message w).1 j ≡ status w j)
        e.notifiers

-- The identifier of an item's row.
abbrev pub ids : {F : Type 0} → List (Item F) → List String
ids items = map (λ x. x.job.id) items

abbrev pub mark_of : Option Error → JobStatus
mark_of none = Job.sent
mark_of (some error) = Job.failed

module _ {F W : Type 0} (e : TargetExecutor F W) (status : W → String → Option JobStatus)
    (rows : RowContract e status) where
  abbrev Exists : W → List (Item F) → Type 0
  Exists w items = All (λ x. status w x.job.id ≢ none) items

  -- One mark, with the clock that a sent mark reads.
  abbrev mark_one : Option Error → Item F → W → W
  mark_one none item w = (e.jobs.mark_sent item.job.id (e.host.now w).0 (e.host.now w).1).1
  mark_one (some error) item w = (e.jobs.mark_failed item.job.id (e.host.error_text error) w).1

  status-mark_one :
      (send_error : Option Error) (item : Item F) (w : W) (j : String)
      → status w item.job.id ≢ none
      → status (mark_one send_error item w) j
        ≡ (if item.job.id == j then some (mark_of send_error) else status w j)
  status-mark_one none item w j here = ground (
    arith,
    rows.after_sent item.job.id j (e.host.now w).0 (e.host.now w).1,
    rows.after_now item.job.id w,
    rows.after_now j w,
  )
  status-mark_one (some error) item w j here = rows.after_failed item.job.id j _ w here

  exists-mark_one :
      (send_error : Option Error) (item : Item F) (w : W) (j : String)
      → status w item.job.id ≢ none
      → status w j ≢ none
      → status (mark_one send_error item w) j ≢ none
  exists-mark_one send_error item w j here there =
      ground (arith, status-mark_one send_error item w j here)

  status-mark_all :
      (send_error : Option Error) (items : List (Item F)) (w : W) (j : String)
      → Exists w items
      → status (mark_all e.host e.jobs send_error items w) j
        ≡ (if contains (ids items) j then some (mark_of send_error) else status w j)
  unfolding mark_all
  status-mark_all none [] w j h = refl
  status-mark_all (some error) [] w j h = refl
  status-mark_all none (item ∷ items) w j h =
      let next = mark_one none item w in
      let later = All-mono _ _ (λ x. exists-mark_one none item w x.job.id h.0) items h.1 in
      ground (arith, status-mark_all none items next j later, status-mark_one none item w j h.0)
  status-mark_all (some error) (item ∷ items) w j h =
      let next = mark_one (some error) item w in
      let later = All-mono _ _ (λ x. exists-mark_one (some error) item w x.job.id h.0) items h.1 in
      ground (
        arith,
        status-mark_all (some error) items next j later,
        status-mark_one (some error) item w j h.0,
      )

  status-send_all :
      (ns : List (Notifier W)) (target : AlertTarget) (message : Message) (first : Option Error)
      (w : W) (j : String)
      → All
          (λ n.
            (target : AlertTarget) (message : Message) (j : String) (w : W)
            → status (send_to_target n target message w).1 j ≡ status w j)
          ns
      → status (send_all e ns target message first w).1 j ≡ status w j
  unfolding send_all
  status-send_all [] target message first w j h = refl
  status-send_all (n ∷ ns) target message first w j h =
      status-send_all ns target message _ _ j h.1 ∙ h.0 target message j w

  deliver_items-sent :
      (period : Period) (target : AlertTarget) (item : Item F) (items : List (Item F)) (w : W)
      (message : Message)
      → build_message e.floats period (map (λ x. x.result) (item ∷ items)) e.location ≡ ok message
      → let sends = send_all e e.notifiers target message none w in
        deliver_items e period target (item ∷ items) w
        ≡ (error_status sends.0, mark_all e.host e.jobs sends.0 (item ∷ items) sends.1)
  unfolding deliver_items
  deliver_items-sent period target item items w message built = rw (built, deliver_items)

  mark_of-error_status :
      (s : Option Error) → mark_of s ≡ (if ok? (error_status s) then Job.sent else Job.failed)
  unfolding error_status
  mark_of-error_status none = refl
  mark_of-error_status (some error) = refl

  status-deliver_items :
      (period : Period) (target : AlertTarget) (item : Item F) (items : List (Item F)) (w : W)
      (j : String)
      → ok? (build_message e.floats period (map (λ x. x.result) (item ∷ items)) e.location) ≡ true
      → All (λ x. status w x.job.id ≢ none) (item ∷ items)
      → status (deliver_items e period target (item ∷ items) w).1 j ≡ (
          if contains (ids (item ∷ items)) j
          then some (
              if ok? (deliver_items e period target (item ∷ items) w).0
              then Job.sent
              else Job.failed)
          else status w j)
  status-deliver_items period target item items w j built here =
      elim (Result-cases
        (build_message e.floats period (map (λ x. x.result) (item ∷ items)) e.location)) [
          | inr (error, x) ↦ absurd (ground arith)
          | inl (message, x) ↦
              let sends = send_all e e.notifiers target message none w in
              let unchanged = λ (k : String).
                status-send_all e.notifiers target message none w k rows.after_send in
              let there =
                All-mono _ _ (λ y h p. h (sym (unchanged y.job.id) ∙ p)) (item ∷ items) here in
              rw (
                deliver_items-sent period target item items w message x,
                ← mark_of-error_status sends.0,
                status-mark_all sends.0 (item ∷ items) sends.1 j there,
                unchanged j,
              )
        ]

  ids-items_of :
      (outcomes : Outcomes F) (ps : List Pending)
      → ids (items_of e outcomes ps) ≡ map (λ p. p.job.id) ps
  unfolding items_of
  ids-items_of outcomes [] = refl
  ids-items_of outcomes (p ∷ ps) = ap (λ rest. p.job.id ∷ rest) (ids-items_of outcomes ps)

  Exists-items_of :
      (outcomes : Outcomes F) (ps : List Pending) (w : W)
      → All (λ p. status w p.job.id ≢ none) ps
      → Exists w (items_of e outcomes ps)
  unfolding items_of
  Exists-items_of outcomes [] w h = tt
  Exists-items_of outcomes (p ∷ ps) w h = (h.0, Exists-items_of outcomes ps w h.1)

  -- Over a job repository whose marks change the status of one row, and notifiers and a clock that
  -- change none, if the pending rows exist and the message of a target can be built, then every
  -- pending row of the target ends as sent when its delivery reports success and as failed when it
  -- reports an error, and no other row changes.
  pub status-deliver_to_target :
      (period : Period) (outcomes : Outcomes F) (target : AlertTarget) (p : Pending)
      (ps : List Pending) (w : W) (j : String)
      → ok? (
          build_message e.floats period
            (map (λ x. x.result) (items_of e outcomes (p ∷ ps)))
            e.location)
        ≡ true
      → All (λ q. status w q.job.id ≢ none) (p ∷ ps)
      → status (deliver_to_target e period outcomes target (p ∷ ps) w).1 j ≡ (
          if contains (map (λ q. q.job.id) (p ∷ ps)) j
          then some (
              if ok? (deliver_to_target e period outcomes target (p ∷ ps) w).0
              then Job.sent
              else Job.failed)
          else status w j)
  unfolding deliver_to_target
  status-deliver_to_target period outcomes target p ps w j built here =
      rw (ids-items_of outcomes ps) at (
        status-deliver_items period target (item_of e outcomes p) (items_of e outcomes ps) w j built
          (Exists-items_of outcomes (p ∷ ps) w here))
