-- ===== src/Notification/Notifier.antt =====
-- internal/notification/notifier.go: the delivery interfaces and the routing by provider.
use crypto_price_alert.Base.{◌==◌, string_eq, not, Option, none, some, ok, Status, if◌then◌else◌}
use crypto_price_alert.Domain.Provider.{ChatProvider}
use crypto_price_alert.Domain.Target.{AlertTarget}
use crypto_price_alert.Domain.Period.{Message}

-- A `Notifier`. `target_provider` is there if it is a `TargetNotifierProvider`, `to_target` if it is a
-- `TargetNotifier`.
pub record Notifier (W : Type 0) : Type 0 where
  pub target_provider : Option ChatProvider
  pub to_target : Option (AlertTarget → Message → W → Status × W)
  pub send : Message → W → Status × W

module _ {W : Type 0} where
  -- `SendToTarget` behind the test of the provider
  unfoldable pub deliver : Notifier W → AlertTarget → Message → W → Status × W
  deliver n target message w = elim n.to_target [
    | some f ↦ f target message w
    | none ↦ n.send message w
  ]

  unfoldable pub send_to_target : Notifier W → AlertTarget → Message → W → Status × W
  unfolding deliver
  send_to_target n target message w = elim n.target_provider [
    | some p ↦ if not (p == target.provider) then (ok tt, w) else deliver n target message w
    | none ↦ deliver n target message w
  ]
