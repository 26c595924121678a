-- ===== src/Alerts.antt =====
-- The alerts for administrators: `raise` and `acknowledge` of
-- backend/src/alerts/admin-alert.service.ts. The row of an alert is the one with its type and dedupe
-- key, or none; its message and metadata are left out, as is the delivery of a notification, which
-- `Promise.allSettled` lets fail. Times are milliseconds.
pub mod Laws
mod Tests
use dabdub.Prelude.{
  ℕ, ◌+◌, ◌*◌, Bool, true, false, Option, none, some, String, List, [], ◌∷◌, if◌then◌else◌, leb,
  ltb,
}
use dabdub.Platform.Actions.{AlertType}

pub data AdminAlertStatus : Type 0 where
  open_alert acknowledged : AdminAlertStatus

pub record AdminAlert : Type 0 where
  pub threshold_value : ℕ
  pub occurrence_count : ℕ
  pub last_notified_at : Option ℕ
  pub status : AdminAlertStatus
  pub acknowledged_at : Option ℕ
  pub acknowledged_by : Option String

-- The settings that the service reads.
pub record AlertConfig : Type 0 where
  pub stellar_failure_threshold : ℕ
  pub failure_threshold : ℕ
  pub cooldown_minutes : ℕ

abbrev pub threshold : AlertConfig → AlertType → ℕ
threshold config AlertType.stellar_monitor = config.stellar_failure_threshold
threshold config _ = config.failure_threshold

abbrev pub meets_threshold : AlertConfig → AlertType → ℕ → Bool
meets_threshold config type value = leb (threshold config type) value

abbrev pub cooldown_ms : AlertConfig → ℕ
cooldown_ms config = config.cooldown_minutes * 60_000

-- `now - lastNotifiedAt < cooldownMs`, with the time of the last notification on the other side.
abbrev pub is_cooling_down : AlertConfig → Option ℕ → (now : ℕ) → Bool
is_cooling_down config none now = false
is_cooling_down config (some last) now = ltb now (last + cooldown_ms config)

abbrev pub counted : (value : ℕ) → AdminAlert → AdminAlert
counted value alert = record alert {
  threshold_value = value;
  occurrence_count = alert.occurrence_count + 1;
}

abbrev pub reopened : (value now : ℕ) → AdminAlert → AdminAlert
reopened value now alert = record alert {
  threshold_value = value;
  occurrence_count = alert.occurrence_count + 1;
  status = AdminAlertStatus.open_alert;
  acknowledged_at = none;
  acknowledged_by = none;
  last_notified_at = some now;
}

abbrev pub created : (value now : ℕ) → AdminAlert
created value now = record {
  threshold_value = value;
  occurrence_count = 1;
  last_notified_at = some now;
  status = AdminAlertStatus.open_alert;
  acknowledged_at = none;
  acknowledged_by = none;
}

-- The row of an alert of which the threshold is met, and whether it is notified.
abbrev pub raise_met : AlertConfig → (value now : ℕ) → Option AdminAlert → Option AdminAlert × Bool
raise_met config value now none = (some (created value now), true)
raise_met config value now (some alert) =
    if is_cooling_down config alert.last_notified_at now
    then (some (counted value alert), false)
    else (some (reopened value now alert), true)

unfoldable pub raise :
    AlertConfig → AlertType → (value now : ℕ) → Option AdminAlert → Option AdminAlert × Bool
raise config type value now row =
    if meets_threshold config type value then raise_met config value now row else (row, false)

-- Of no row it throws, and nothing changes.
unfoldable pub acknowledge : (admin : String) → (now : ℕ) → Option AdminAlert → Option AdminAlert
acknowledge admin now none = none
acknowledge admin now (some alert) = some (record alert {
  status = AdminAlertStatus.acknowledged;
  acknowledged_at = some now;
  acknowledged_by = some admin;
})
