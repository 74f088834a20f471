-- ===== src/Server/Notifiers/Start.antt =====
-- With an accepted configuration, the start of cmd/server/main.go gets its channels.
use crypto_price_alert.Base.{
  ◌≡◌, ◌≢◌, refl, String, Bool, true, false, ◌==◌, string_eq, nat_eq, List, [], ◌∷◌, ◌++◌, Result,
  ok, ok?, arith, Result-cases, inl, inr, length, empty?, if◌then◌else◌, Bool-cases, ap, ==_path,
  sym, ok_injective, err≢ok, length-append, ◌+◌,
}
use crypto_price_alert.Base.Text.{trim_space}
use crypto_price_alert.Domain.Location.{Location}
use crypto_price_alert.Config.Settings.{Config}
use crypto_price_alert.Config.Check.{validate, check_notifications, check_limits, check_chat, blank}
use crypto_price_alert.Notification.Notifier.{Notifier}
use crypto_price_alert.Notification.Channels.{
  Channel, new_telegram_notifier, new_slack_notifier, new_slack_bot_notifier,
}
use crypto_price_alert.Server.Notifiers.{
  only_if, notifier_names, new_legacy_telegram, new_legacy_slack, new_notifiers,
  new_target_telegram, new_target_slack, new_target_notifiers,
}

blank-nothing : blank "" ≡ true
unfolding blank trim_space string_eq
blank-nothing = refl

not_blank : (value : String) → blank value ≡ false → (value == "") ≡ false
not_blank value h = elim (Bool-cases (value == "")) [
  | inr differ ↦ differ
  | inl same ↦ absurd (ground (arith, ap blank (==_path value "" same), blank-nothing))
]

target_named : (◌==◌ {A = String} "target" "") ≡ false
unfolding string_eq
target_named = refl

module _ {W : Type 0} (channel : Channel W) (c : Config) where
  length-legacy_telegram :
      (ns : List (Notifier W)) → new_legacy_telegram channel c ≡ ok ns → length ns ≡ 1
  unfolding new_legacy_telegram new_telegram_notifier
  length-legacy_telegram ns h = ground arith

  length-legacy_slack :
      (ns : List (Notifier W)) → new_legacy_slack channel c ≡ ok ns → length ns ≡ 1
  unfolding new_legacy_slack new_slack_notifier
  length-legacy_slack ns h = ground arith

  module _ (limits : check_limits c ≡ ok tt) where
    ok-legacy_telegram :
        check_notifications c.notifications ≡ ok tt
        → c.notifications.telegram.enabled ≡ true
        → ok? (new_legacy_telegram channel c) ≡ true
    unfolding new_legacy_telegram new_telegram_notifier check_notifications check_limits
    ok-legacy_telegram h on = ground arith

    ok-legacy_slack :
        check_notifications c.notifications ≡ ok tt
        → c.notifications.slack.enabled ≡ true
        → ok? (new_legacy_slack channel c) ≡ true
    unfolding new_legacy_slack new_slack_notifier check_notifications check_limits
    ok-legacy_slack h on = ground arith

    ok-target_telegram :
        check_chat c.chat ≡ ok tt
        → c.chat.enabled ≡ true
        → c.chat.telegram.enabled ≡ true
        → ok? (new_target_telegram channel c) ≡ true
    unfolding new_target_telegram new_telegram_notifier check_chat check_limits
    ok-target_telegram h used on = ground (arith, target_named, not_blank c.chat.telegram.bot_token)

    ok-target_slack :
        check_chat c.chat ≡ ok tt
        → c.chat.enabled ≡ true
        → c.chat.slack.enabled ≡ true
        → ok? (new_target_slack channel c) ≡ true
    unfolding new_target_slack new_slack_bot_notifier check_chat check_limits
    ok-target_slack h used on = ground (arith, not_blank c.chat.slack.bot_token)

    ok-new_target_notifiers :
        (legacy : List (Notifier W))
        → check_chat c.chat ≡ ok tt
        → ok? (new_target_notifiers channel c legacy) ≡ true
    unfolding new_target_notifiers
    ok-new_target_notifiers legacy h = ground (arith, ok-target_telegram h, ok-target_slack h)

  ok-only_if :
      (test : Bool) (r : Result (List (Notifier W)))
      → (test ≡ true → ok? r ≡ true)
      → ok? (only_if test r) ≡ true
  ok-only_if true r h = h refl
  ok-only_if false r h = refl

  -- What is only there if a test holds has that many members.
  length-only_if :
      (test : Bool) (r : Result (List (Notifier W))) (ns : List (Notifier W))
      → ((ms : List (Notifier W)) → r ≡ ok ms → length ms ≡ 1)
      → only_if test r ≡ ok ns
      → length ns ≡ (if test then 1 else 0)
  length-only_if true r ns one h = one ns h
  length-only_if false r ns one h = ap length (sym (ok_injective h))

  length-notifier_names :
      length (notifier_names c)
      ≡ (if c.notifications.telegram.enabled then 1 else 0)
        + (if c.notifications.slack.enabled then 1 else 0)
  unfolding notifier_names
  length-notifier_names = ground arith

  length-new_notifiers :
      (ns : List (Notifier W))
      → new_notifiers channel c ≡ ok ns
      → length (notifier_names c) ≡ length ns
  unfolding new_notifiers
  length-new_notifiers ns h =
      let first = only_if c.notifications.telegram.enabled (new_legacy_telegram channel c) in
      let second = only_if c.notifications.slack.enabled (new_legacy_slack channel c) in
      elim (Result-cases first) [
        | inr (error, t) ↦ absurd (err≢ok (rw (new_notifiers, t) at h))
        | inl (telegram, t) ↦ elim (Result-cases second) [
          | inr (error, s) ↦ absurd (err≢ok (rw (new_notifiers, t, s) at h))
          | inl (slack, s) ↦ ground (
            arith,
            rw (new_notifiers, t, s) at h,
            length-append telegram slack,
            length-notifier_names,
            length-only_if c.notifications.telegram.enabled _ telegram length-legacy_telegram t,
            length-only_if c.notifications.slack.enabled _ slack length-legacy_slack s,
          )
        ]
      ]

  module _ (limits : check_limits c ≡ ok tt)
      (checked : check_notifications c.notifications ≡ ok tt) where
    some_enabled : length (notifier_names c) ≢ 0
    unfolding check_notifications
    some_enabled = ground (arith, length-notifier_names)

    filled : (ns : List (Notifier W)) → length (notifier_names c) ≡ length ns → empty? ns ≡ false
    filled [] h = absurd (some_enabled h)
    filled (n ∷ ns) h = refl

    ok-new_notifiers : ok? (new_notifiers channel c) ≡ true
    unfolding new_notifiers
    ok-new_notifiers =
        let first = only_if c.notifications.telegram.enabled (new_legacy_telegram channel c) in
        let second = only_if c.notifications.slack.enabled (new_legacy_slack channel c) in
        let first_ok =
          ok-only_if c.notifications.telegram.enabled (new_legacy_telegram channel c)
            (ok-legacy_telegram limits checked) in
        let second_ok =
          ok-only_if c.notifications.slack.enabled (new_legacy_slack channel c)
            (ok-legacy_slack limits checked) in
        elim (Result-cases first) [
          | inr (error, t) ↦ absurd (ground (arith, first_ok, t))
          | inl (telegram, t) ↦ elim (Result-cases second) [
            | inr (error, s) ↦ absurd (ground (arith, second_ok, s))
            | inl (slack, s) ↦
                (let count : length (notifier_names c) ≡ length (telegram ++ slack) = ground (
                  arith,
                  length-append telegram slack,
                  length-notifier_names,
                  length-only_if c.notifications.telegram.enabled _ telegram length-legacy_telegram
                      t,
                  length-only_if c.notifications.slack.enabled _ slack length-legacy_slack s,
                ) in
                  rw (new_notifiers, t, s, filled (telegram ++ slack) count) refl)
          ]
        ]

-- What the start has of an accepted configuration: the channels, as many names, and the channels of the
-- targets.
pub record Started {W : Type 0} (channel : Channel W) (c : Config) : Type 0 where
  pub notifiers : List (Notifier W)
  pub made : new_notifiers channel c ≡ ok notifiers
  pub named : length (notifier_names c) ≡ length notifiers
  pub targets : ok? (new_target_notifiers channel c notifiers) ≡ true

-- With an accepted configuration the channels of the alerts and those of the targets can be made,
-- and there is one name for each of the former.
pub new_notifiers-Started :
    {W : Type 0} (channel : Channel W) (load : String → Result Location) (c : Config)
    → validate load c ≡ ok tt
    → Started channel c
unfolding validate
new_notifiers-Started channel load c accepted =
    let limits : check_limits c ≡ ok tt = ground arith in
    let checked : check_notifications c.notifications ≡ ok tt = ground arith in
    let chat : check_chat c.chat ≡ ok tt = ground arith in
    elim (Result-cases (new_notifiers channel c)) [
      | inr (error, m) ↦ absurd (ground (arith, ok-new_notifiers channel c limits checked, m))
      | inl (ns, m) ↦ record {
        notifiers = ns;
        made = m;
        named = length-new_notifiers channel c ns m;
        targets = ok-new_target_notifiers channel c limits ns chat;
      }
    ]
