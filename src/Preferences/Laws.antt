-- ===== src/Preferences/Laws.antt =====
-- What the preferences guarantee.
use dabdub.Prelude.{
  ◌≡◌, ◌⊎◌, inl, inr, Bool, true, false, some, List, [], ◌∷◌, ◌&&◌, refl, sym, ap, ◌∙◌, arith,
  if◌then◌else◌, Bool-cases, All,
}
use dabdub.Platform.Actions.{Error, ok, err}
use dabdub.Preferences.{
  NotificationChannel, NotificationEventType, Preference, same_channel, same_event, is_in_app,
  is_about, find_preference, enabled_or_true, entry, matrix, get_prefs, is_enabled, disables_in_app,
  upsert, saved_item, upsert_all, update_prefs,
}

-- The preference that an update asks for last, if it names the channel and event.
unfoldable pub asked : NotificationChannel → NotificationEventType → List Preference → Bool → Bool
asked c e [] before = before
asked c e (item ∷ items) before =
    asked c e items (if is_about c e item then item.enabled else before)

same_channel-path : (a b : NotificationChannel) → same_channel a b ≡ true → a ≡ b
same_channel-path a b e = ground arith

same_event-path : (a b : NotificationEventType) → same_event a b ≡ true → a ≡ b
same_event-path a b e = ground arith

-- A row is about the channel and event of an item exactly as the item is.
is_about-same :
    (c : NotificationChannel) (e : NotificationEventType) (item p : Preference)
    → is_about item.channel item.event_type p ≡ true
    → is_about c e p ≡ is_about c e item
is_about-same c e item p about =
    let channel = same_channel-path p.channel item.channel (ground arith) in
    let event = same_event-path p.event_type item.event_type (ground arith) in
    ap (λ x. same_channel x c && same_event p.event_type e) channel
    ∙ ap (λ y. same_channel item.channel c && same_event y e) event

-- What an item is about is its channel and event.
is_about-own :
    (c : NotificationChannel) (e : NotificationEventType) (item p : Preference)
    → is_about c e item ≡ true
    → is_about c e p ≡ is_about item.channel item.event_type p
is_about-own c e item p own =
    let channel = same_channel-path item.channel c (ground arith) in
    let event = same_event-path item.event_type e (ground arith) in
    ap (λ x. same_channel p.channel x && same_event p.event_type e) (sym channel)
    ∙ ap (λ y. same_channel p.channel item.channel && same_event p.event_type y) (sym event)

-- After an upsert, its own channel and event has the item's row, all others have what they had.
find-upsert :
    (c : NotificationChannel) (e : NotificationEventType) (item : Preference) (ps : List Preference)
    → find_preference c e (upsert item ps)
      ≡ (if is_about c e item then some item else find_preference c e ps)
unfolding find_preference upsert
find-upsert c e item [] = refl
find-upsert c e item (p ∷ ps) = elim (Bool-cases (is_about item.channel item.event_type p)) [
  | inl about ↦
      let same = is_about-same c e item p about in
      let set : upsert item (p ∷ ps) ≡ item ∷ ps = ground arith in
      ap (find_preference c e) set ∙ ground arith
  | inr apart ↦
      let kept : upsert item (p ∷ ps) ≡ p ∷ upsert item ps = ground arith in
      let rest = find-upsert c e item ps in
      ap (find_preference c e) kept
      ∙ ap (λ x. if is_about c e p then some p else x) rest
      ∙ (elim (Bool-cases (is_about c e item)) [
        | inl own ↦ let off = is_about-own c e item p own ∙ apart in ground arith
        | inr other ↦ ground arith
      ])
]

enabled-upsert :
    (c : NotificationChannel) (e : NotificationEventType) (item : Preference) (ps : List Preference)
    → is_enabled (upsert (saved_item item) ps) c e ≡ (
        if is_in_app c then true else if is_about c e item then item.enabled else is_enabled ps c e)
unfolding is_enabled
enabled-upsert c e item ps =
    let found = ap enabled_or_true (find-upsert c e (saved_item item) ps) in
    elim (Bool-cases (is_in_app c)) [
      | inl forced ↦ ground arith
      | inr free ↦ elim (Bool-cases (is_about c e item)) [
        | inr other ↦ ground arith
        | inl own ↦
            let channel = same_channel-path item.channel c (ground arith) in
            let free' : is_in_app item.channel ≡ false = ap is_in_app channel ∙ free in ground arith
      ]
    ]

enabled-upsert_all :
    (c : NotificationChannel) (e : NotificationEventType) (items ps : List Preference)
    → is_enabled (upsert_all items ps) c e
      ≡ (if is_in_app c then true else asked c e items (is_enabled ps c e))
unfolding upsert_all asked is_enabled
enabled-upsert_all c e [] ps = elim (Bool-cases (is_in_app c)) [
  | inl forced ↦ ground arith
  | inr free ↦ ground arith
]
enabled-upsert_all c e (item ∷ items) ps =
    enabled-upsert_all c e items (upsert (saved_item item) ps)
    ∙ ap (λ b. if is_in_app c then true else asked c e items b) (enabled-upsert c e item ps)
    ∙ (elim (Bool-cases (is_in_app c)) [ inl forced ↦ ground arith | inr free ↦ ground arith ])

-- `getPrefs` and `isEnabled` agree on every channel and event.
get_prefs_agrees :
    (stored : List Preference)
    → All (λ p. p.enabled ≡ is_enabled stored p.channel p.event_type) (get_prefs stored)
unfolding get_prefs matrix entry is_enabled
get_prefs_agrees stored = (refl, (refl, (refl, (refl, (refl, (refl, (refl, (refl, (refl, tt)))))))))

-- An update that would disable a notification in the application is refused, and no row changes. Any
-- other answers the new preferences, in which each channel and event has what the update asks for
-- last, or else what it had, and those in the application are enabled.
update_prefs_outcome :
    (items stored : List Preference)
    → ((disables_in_app items ≡ true)
        × (update_prefs items stored
            ≡ (err (Error.bad_request "in_app notifications cannot be disabled"), stored)))
      ⊎ ((disables_in_app items ≡ false)
          × ((stored' : List Preference) × (update_prefs items stored
                ≡ (ok (get_prefs stored'), stored'))
              × ((c : NotificationChannel) (e : NotificationEventType)
                  → is_enabled stored' c e
                    ≡ (if is_in_app c then true else asked c e items (is_enabled stored c e)))))
unfolding update_prefs
update_prefs_outcome items stored = elim (Bool-cases (disables_in_app items)) [
  | inl refused ↦ inl (refused, ground arith)
  | inr fine ↦
      inr
        (fine, (upsert_all items stored, ground arith, λ c e. enabled-upsert_all c e items stored))
]
