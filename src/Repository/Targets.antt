-- ===== src/Repository/Targets.antt =====
-- The alert targets and the inbound events of internal/repository/postgres.go.
pub mod Claims
use crypto_price_alert.Base.{
  ℕ, String, Bool, ◌==◌, string_eq, nat_eq, none, record_not_found, List, ok, err, if◌then◌else◌,
}
use crypto_price_alert.Base.Action.{Action, pure, lift, ◌>>=◌}
use crypto_price_alert.Domain.Interval.{Time}
use crypto_price_alert.Domain.Provider.{ChatProvider}
use crypto_price_alert.Domain.Target
use crypto_price_alert.Domain.Target.{AlertTarget}
use crypto_price_alert.Domain.InboundEvent
use crypto_price_alert.Domain.InboundEvent.{InboundEvent}
use crypto_price_alert.Repository.Ports.{AlertTargetRepository, InboundEventRepository}
use crypto_price_alert.Repository.Tables.{Tables}
use crypto_price_alert.Repository.Jobs.{wrap}

module _ {W : Type 0} (t : Tables W) where
  -- The row of a target: a creation time that is not set is the present, and an update time that is
  -- not set is the creation time.
  unfoldable pub target_row : String → AlertTarget → Action W AlertTarget
  target_row id target w =
      let (now, w1) = t.now w in
      let created = if target.created_at == 0 then now else target.created_at in
      (
        ok (record target {
          id = id;
          created_at = created;
          updated_at = if target.updated_at == 0 then created else target.updated_at;
        }),
        if target.created_at == 0 then w1 else w,
      )

  unfoldable pub find_or_create_target : AlertTarget → Action W AlertTarget
  unfolding target_row
  find_or_create_target target = do
    valid ← wrap "validate alert target: %w" (lift (Target.validate target))
    id ← wrap "parse target ID: %w" (lift (t.parse_uuid target.id))
    row ← target_row id target
    affected ← wrap "create alert target: %w" (t.insert_target row)
    wrap "load alert target: %w"
        (t.find_target target.provider target.tenant_id target.external_chat_id)

  unfoldable pub get_target : ChatProvider → String → String → Action W AlertTarget
  get_target provider tenant_id external_chat_id = t.find_target provider tenant_id external_chat_id

  unfoldable pub list_enabled_targets : Action W (List AlertTarget)
  list_enabled_targets = wrap "list enabled alert targets: %w" t.enabled_targets

  unfoldable pub count_targets : Action W ℕ
  count_targets = wrap "count alert targets: %w" t.count_targets

  unfoldable pub alert_target_repository : AlertTargetRepository W
  unfolding find_or_create_target get_target list_enabled_targets count_targets
  alert_target_repository = record {
    find_or_create_target = find_or_create_target;
    get_target = get_target;
    list_enabled_targets = list_enabled_targets;
    count_targets = count_targets;
  }

  -- An event is claimed when its row is new. The processing time of the row is not set.
  unfoldable pub claim_inbound_event : InboundEvent → Action W Bool
  claim_inbound_event event = do
    valid ← wrap "validate inbound event: %w" (lift (InboundEvent.validate event))
    id ← wrap "parse inbound event ID: %w" (lift (t.parse_uuid event.id))
    affected ←
        wrap "claim inbound event: %w"
          (t.insert_event (record event { id = id; processed_at = none }))
    pure (affected == 1)

  -- `updateInboundEvent` behind its statement
  abbrev updated_event : Action W ℕ → Action W Unit
  updated_event statement = do
    affected ← statement
    lift (if affected == 0 then err record_not_found else ok tt)

  unfoldable pub mark_inbound_event_processed : ChatProvider → String → Time → Action W Unit
  mark_inbound_event_processed provider external_event_id processed_at =
      updated_event (t.set_event_processed provider external_event_id processed_at)

  unfoldable pub mark_inbound_event_failed : ChatProvider → String → String → Action W Unit
  mark_inbound_event_failed provider external_event_id reason =
      updated_event (t.set_event_failed provider external_event_id reason)

  unfoldable pub inbound_event_repository : InboundEventRepository W
  unfolding claim_inbound_event mark_inbound_event_processed mark_inbound_event_failed
  inbound_event_repository = record {
    claim_inbound_event = claim_inbound_event;
    mark_processed = mark_inbound_event_processed;
    mark_failed_event = mark_inbound_event_failed;
  }
