-- ===== src/Api/Handler.antt =====
-- internal/api/handler.go: the handler of a caller's own runs. What echo binds of the body and of the
-- query, and `time.Parse` of RFC 3339, are parameters.
pub mod Silence
use crypto_price_alert.Base.{
  ℕ, String, Bool, true, ◌==◌, string_eq, not, ◌||◌, Option, none, some, List, [], ◌∷◌, errorf,
  Error, Result, ok, err, empty?, if◌then◌else◌, ◌>>=◌, ◌>>◌,
}
use crypto_price_alert.Base.Dict.{Dict}
use crypto_price_alert.Domain.Interval
use crypto_price_alert.Domain.Interval.{Interval, Time}
use crypto_price_alert.Domain.Period
use crypto_price_alert.Domain.Period.{Period}
use crypto_price_alert.Scheduler.Period.{PeriodEngine, get_current_period}
use crypto_price_alert.Service.Alert.{run_with_provider, run_with_default_provider}
use crypto_price_alert.Service.Alert.Settings.{AlertService, RunResult}

pub record RunAlertRequest : Type 0 where
  pub provider : String
  pub interval : String
  pub symbols : List String
  pub at : String
  pub period_start : String
  pub period_end : String
  pub dry_run : Option Bool

-- `c.JSON` with a map of texts, or with the report of a run.
pub data ApiReply (F : Type 0) : Type 0 where
  texts : ℕ → Dict String String → ApiReply F
  report : RunResult F → ApiReply F

abbrev or_else : String → String → String
or_else value other = if value == "" then other else value

-- The request with what the query adds to it.
unfoldable pub with_query : (String → String) → RunAlertRequest → RunAlertRequest
with_query query r = record r {
  interval = or_else r.interval (query "interval");
  provider = or_else r.provider (query "provider");
  at = or_else r.at (query "at");
  dry_run = elim r.dry_run [
    | some dry ↦ some dry
    | none ↦
        if query "dry_run" == ""
        then none
        else some (query "dry_run" == "true" || query "dry_run" == "1")
  ];
}

abbrev pub wants_dry : Option Bool → Bool
wants_dry none = true
wants_dry (some dry) = dry

pub record Handler (F W : Type 0) : Type 0 where
  pub alerts : Option (AlertService F W)
  pub periods : Option PeriodEngine
  pub parse_time : String → Result Time
  pub now : W → Time × W
  pub error_text : Error → String

module _ {F W : Type 0} (h : Handler F W) where
  unfoldable pub health : ApiReply F
  health = ApiReply.texts 200 (("status", "ok") ∷ [])

  abbrev failed : ℕ → Error → ApiReply F
  failed status e = ApiReply.texts status (("error", h.error_text e) ∷ [])

  -- The period that the request gives.
  unfoldable pub given_period : Interval → String → String → Result Period
  unfolding Period.validate
  given_period interval from to =
      if from == "" || to == ""
      then err (
          errorf "code=%d, message=%v"
            ("400" ∷ "both period_start and period_end are required" ∷ []))
      else (do
        start ← h.parse_time from
        end ← h.parse_time to
        Period.validate (record { interval = interval; start = start; end = end })
        ok (record { interval = interval; start = start; end = end }))

  -- The instant that the request gives, or the present.
  unfoldable pub instant : String → W → Result Time × W
  instant at w = let (now, w1) = h.now w in if at == "" then (ok now, w1) else (h.parse_time at, w1)

  -- `resolvePeriod`; a period that is skipped is `none`.
  unfoldable pub resolve_period : Interval → RunAlertRequest → W → Result (Option Period) × W
  unfolding given_period instant get_current_period
  resolve_period interval r w =
      if not (r.period_start == "") || not (r.period_end == "")
      then (do period ← given_period interval r.period_start r.period_end; ok (some period), w)
      else (let (t, w1) = instant r.at w in
          (do now ← t; ok (get_current_period h.periods now interval), w1))

  -- The run that the request asks for.
  unfoldable pub start_run :
      AlertService F W → Interval → Period → RunAlertRequest → W → ApiReply F × W
  unfolding run_with_provider run_with_default_provider
  start_run alerts interval period r w =
      let symbols = if empty? r.symbols then alerts.default_symbols else r.symbols in
      let (result, w1) =
        (if r.provider == ""
          then run_with_default_provider alerts interval period symbols (wants_dry r.dry_run) w
          else run_with_provider alerts r.provider interval period symbols (wants_dry r.dry_run)
              w) in
      elim result [ err e ↦ (failed 400 e, w1) | ok outcome ↦ (ApiReply.report outcome, w1) ]

  -- `RunAlert` of a bound request
  unfoldable pub answer_request : AlertService F W → RunAlertRequest → W → ApiReply F × W
  unfolding Interval.validate resolve_period start_run
  answer_request alerts r w = elim (Interval.validate r.interval) [
    | err e ↦ (failed 400 e, w)
    | ok supported ↦
        let (resolved, w1) = resolve_period r.interval r w in
        elim resolved [
          | err e ↦ (failed 400 e, w1)
          | ok due ↦ elim due [
            | none ↦ (
              ApiReply.texts 202 (
                  ("status", "skipped")
                  ∷ ("reason", "no active period at given time")
                  ∷ ("interval", r.interval)
                  ∷ []),
              w1,
            )
            | some period ↦ start_run alerts r.interval period r w1
          ]
        ]
  ]

  -- `RunAlert`
  unfoldable pub run_alert : Result RunAlertRequest → (String → String) → W → ApiReply F × W
  unfolding with_query answer_request
  run_alert bound query w = elim h.alerts [
    | none ↦ (ApiReply.texts 503 (("error", "alert service not configured") ∷ []), w)
    | some alerts ↦ elim h.periods [
      | none ↦ (ApiReply.texts 503 (("error", "alert service not configured") ∷ []), w)
      | some engine ↦ elim bound [
        | err e ↦ (ApiReply.texts 400 (("error", "invalid request body") ∷ []), w)
        | ok r ↦ answer_request alerts (with_query query r) w
      ]
    ]
  ]
