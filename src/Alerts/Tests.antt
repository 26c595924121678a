-- ===== src/Alerts/Tests.antt =====
-- A run of an alert, and the theorem at a concrete input.
use dabdub.Prelude.{◌≡◌, refl, none, List, [], ◌∷◌}
use dabdub.Platform.Actions.{AlertType}
use dabdub.Alerts.{AlertConfig, cooldown_ms}
use dabdub.Alerts.Laws.{Event, notifications, AreSpaced, notifications-AreSpaced}

abbrev hourly : AlertConfig
hourly = record { stellar_failure_threshold = 3; failure_threshold = 1; cooldown_minutes = 60 }

abbrev events : List Event
events =
    Event.raised 1 1_000
    ∷ Event.acknowledged "admin" 2_000
    ∷ Event.raised 2 3_000
    ∷ Event.raised 3 3_700_000
    ∷ []

told_twice : notifications hourly AlertType.settlement_failure events none ≡ 1_000 ∷ 3_700_000 ∷ []
unfolding notifications
told_twice = refl

notifications-AreSpaced_example :
    AreSpaced
      (cooldown_ms hourly)
      none
      (notifications hourly AlertType.settlement_failure events none)
notifications-AreSpaced_example =
    notifications-AreSpaced hourly AlertType.settlement_failure events none
