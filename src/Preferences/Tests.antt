-- ===== src/Preferences/Tests.antt =====
-- Runs of the preferences, and their theorem at a concrete input.
use dabdub.Prelude.{◌≡◌, refl, true, false, [], ◌∷◌}
use dabdub.Preferences.{NotificationChannel, NotificationEventType, Preference, update_prefs}

abbrev no_mail : Preference
no_mail = record {
  channel = NotificationChannel.email;
  event_type = NotificationEventType.payment_settled;
  enabled = false;
}

abbrev mail : Preference
mail = record no_mail { enabled = true }

switched : (update_prefs (no_mail ∷ []) (mail ∷ [])).1 ≡ no_mail ∷ []
unfolding update_prefs
switched = refl
