-- ===== src/Preferences.antt =====
-- The notification preferences of a merchant: backend/src/notifications/notification-prefs.service.ts
-- and its entity. The rows of the merchant are a list that holds each channel and event once, which
-- the unique constraint of the table sees to.
pub mod Laws
mod Tests
use dabdub.Prelude.{
  Bool, true, false, not, ◌&&◌, Option, none, some, List, [], ◌∷◌, ◌++◌, map, if◌then◌else◌,
}
use dabdub.Platform.Actions.{Error, Result, ok, err}

pub data NotificationChannel : Type 0 where
  email push in_app : NotificationChannel

pub data NotificationEventType : Type 0 where
  payment_confirmed payment_settled settlement_failed : NotificationEventType

pub record Preference : Type 0 where
  pub channel : NotificationChannel
  pub event_type : NotificationEventType
  pub enabled : Bool

abbrev pub same_channel : NotificationChannel → NotificationChannel → Bool
same_channel NotificationChannel.email NotificationChannel.email = true
same_channel NotificationChannel.push NotificationChannel.push = true
same_channel NotificationChannel.in_app NotificationChannel.in_app = true
same_channel _ _ = false

abbrev pub same_event : NotificationEventType → NotificationEventType → Bool
same_event NotificationEventType.payment_confirmed NotificationEventType.payment_confirmed = true
same_event NotificationEventType.payment_settled NotificationEventType.payment_settled = true
same_event NotificationEventType.settlement_failed NotificationEventType.settlement_failed = true
same_event _ _ = false

abbrev pub is_in_app : NotificationChannel → Bool
is_in_app c = same_channel c NotificationChannel.in_app

abbrev pub all_channels : List NotificationChannel
all_channels =
    NotificationChannel.email ∷ NotificationChannel.push ∷ NotificationChannel.in_app ∷ []

abbrev pub all_events : List NotificationEventType
all_events =
    NotificationEventType.payment_confirmed ∷ NotificationEventType.payment_settled
    ∷ NotificationEventType.settlement_failed ∷ []

abbrev pub is_about : NotificationChannel → NotificationEventType → Preference → Bool
is_about c e p = same_channel p.channel c && same_event p.event_type e

-- The row of a channel and event: `stored.find(...)`, and the query of `isEnabled`.
unfoldable pub find_preference :
    NotificationChannel → NotificationEventType → List Preference → Option Preference
find_preference c e [] = none
find_preference c e (p ∷ ps) = if is_about c e p then some p else find_preference c e ps

-- `existing?.enabled ?? true`
abbrev pub enabled_or_true : Option Preference → Bool
enabled_or_true none = true
enabled_or_true (some p) = p.enabled

unfoldable pub entry : List Preference → NotificationChannel → NotificationEventType → Preference
unfolding find_preference
entry stored c e = record {
  channel = c;
  event_type = e;
  enabled = if is_in_app c then true else enabled_or_true (find_preference c e stored);
}

-- `getPrefs`: the full matrix, channel by channel.
unfoldable pub matrix :
    List Preference → List NotificationChannel → List NotificationEventType → List Preference
unfolding entry
matrix stored [] es = []
matrix stored (c ∷ cs) es = map (entry stored c) es ++ matrix stored cs es

unfoldable pub get_prefs : List Preference → List Preference
unfolding matrix
get_prefs stored = matrix stored all_channels all_events

unfoldable pub is_enabled : List Preference → NotificationChannel → NotificationEventType → Bool
unfolding find_preference
is_enabled stored c e = if is_in_app c then true else enabled_or_true (find_preference c e stored)

-- Whether an item asks for what cannot be had.
unfoldable pub disables_in_app : List Preference → Bool
disables_in_app [] = false
disables_in_app (item ∷ items) =
    if is_in_app item.channel && not item.enabled then true else disables_in_app items

-- The insert with `orUpdate`: the row of that channel and event is set, or added.
unfoldable pub upsert : Preference → List Preference → List Preference
upsert item [] = item ∷ []
upsert item (p ∷ ps) =
    let rest = upsert item ps in
    if is_about item.channel item.event_type p then item ∷ ps else p ∷ rest

abbrev pub saved_item : Preference → Preference
saved_item item = record item { enabled = if is_in_app item.channel then true else item.enabled }

unfoldable pub upsert_all : List Preference → List Preference → List Preference
unfolding upsert
upsert_all [] stored = stored
upsert_all (item ∷ items) stored = upsert_all items (upsert (saved_item item) stored)

-- `updatePrefs`: the new rows and the answer.
unfoldable pub update_prefs :
    List Preference → List Preference → Result (List Preference) × List Preference
unfolding disables_in_app upsert_all get_prefs
update_prefs items stored =
    let stored' = upsert_all items stored in
    if disables_in_app items
    then (err (Error.bad_request "in_app notifications cannot be disabled"), stored)
    else (ok (get_prefs stored'), stored')
