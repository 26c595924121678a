-- ===== src/Alerts/Laws.antt =====
-- How often administrators are told of an alert, and what is counted.
use dabdub.Prelude.{
  ℕ, ◌+◌, ◌≤◌, ◌≡◌, Bool, true, false, Option, none, some, String, List, [], ◌∷◌, if◌then◌else◌,
  refl, arith,
}
use dabdub.Platform.Actions.{AlertType}
use dabdub.Alerts.{
  AdminAlert, AlertConfig, cooldown_ms, meets_threshold, is_cooling_down, raise_met, raise,
  acknowledge, counted, reopened, created,
}

-- What happens to one alert.
pub data Event : Type 0 where
  raised : (value now : ℕ) → Event
  acknowledged : (admin : String) → (now : ℕ) → Event

module _ (config : AlertConfig) (type : AlertType) where
  -- The times of the notifications of a run of events.
  unfoldable pub notifications : List Event → Option AdminAlert → List ℕ
  unfolding raise acknowledge
  notifications [] row = []
  notifications (Event.raised value now ∷ events) row =
      let (row', notified) = raise config type value now row in
      let rest = notifications events row' in if notified then now ∷ rest else rest
  notifications (Event.acknowledged admin now ∷ events) row =
      notifications events (acknowledge admin now row)

abbrev pub last_notified : Option AdminAlert → Option ℕ
last_notified none = none
last_notified (some alert) = alert.last_notified_at

abbrev pub IsAfter : (gap : ℕ) → Option ℕ → ℕ → Type 0
IsAfter gap none t = Unit
IsAfter gap (some last) t = last + gap ≤ t

-- Each time is at least the gap after the one before it, and the first one after `last`.
abbrev pub AreSpaced : (gap : ℕ) → (last : Option ℕ) → List ℕ → Type 0
AreSpaced gap last [] = Unit
AreSpaced gap last (t ∷ ts) = IsAfter gap last t × AreSpaced gap (some t) ts

is_cooling_down-IsAfter :
    (config : AlertConfig) (last : Option ℕ) (now : ℕ)
    → is_cooling_down config last now ≡ false
    → IsAfter (cooldown_ms config) last now
is_cooling_down-IsAfter config none now e = tt
is_cooling_down-IsAfter config (some last) now e = ground arith

-- One raise before notifications that are spaced.
raise-AreSpaced :
    (config : AlertConfig) (type : AlertType) (value now : ℕ) (later : Option AdminAlert → List ℕ)
    → ((row : Option AdminAlert) → AreSpaced (cooldown_ms config) (last_notified row) (later row))
    → (row : Option AdminAlert)
    → AreSpaced (cooldown_ms config) (last_notified row) (
        let (row', notified) = raise config type value now row in
        let rest = later row' in if notified then now ∷ rest else rest)
unfolding raise
raise-AreSpaced config type value now later spaced row = go (meets_threshold config type value) row
  where
    Goal : Option AdminAlert → Option AdminAlert × Bool → Type 0
    Goal before after =
        AreSpaced (cooldown_ms config) (last_notified before)
          (if after.1 then now ∷ later after.0 else later after.0)

    old :
        (alert : AdminAlert) (c : Bool)
        → is_cooling_down config alert.last_notified_at now ≡ c
        → Goal (some alert) (
            if c
            then (some (counted value alert), false)
            else (some (reopened value now alert), true))
    old alert true cooling = spaced (some (counted value alert))
    old alert false cooling = (
      is_cooling_down-IsAfter config alert.last_notified_at now cooling,
      spaced (some (reopened value now alert)),
    )

    go :
        (c : Bool) (before : Option AdminAlert)
        → Goal before (if c then raise_met config value now before else (before, false))
    go false before = spaced before
    go true none = (tt, spaced (some (created value now)))
    go true (some alert) = old alert (is_cooling_down config alert.last_notified_at now) refl

-- Whatever is raised and acknowledged, and whenever, the notifications of an alert are at least the
-- cooldown apart from each other, and from the last one before.
pub notifications-AreSpaced :
    (config : AlertConfig) (type : AlertType) (events : List Event) (row : Option AdminAlert)
    → AreSpaced (cooldown_ms config) (last_notified row) (notifications config type events row)
unfolding notifications acknowledge
notifications-AreSpaced config type [] row = tt
notifications-AreSpaced config type (Event.acknowledged admin now ∷ events) none =
    notifications-AreSpaced config type events none
notifications-AreSpaced config type (Event.acknowledged admin now ∷ events) (some alert) =
    notifications-AreSpaced config type events (acknowledge admin now (some alert))
notifications-AreSpaced config type (Event.raised value now ∷ events) row =
    raise-AreSpaced config type value now (notifications config type events)
      (notifications-AreSpaced config type events) row
