-- ===== src/Notices/Changes.antt =====
-- backend/enterprise_platform/notification_settings.py over its host: what a saved change shows.
use easy_frame.Prelude.{
  String, Bool, true, false, ◌&&◌, Option, none, some, [], ◌∷◌, map, ◌==◌, ==_iff, string_eq,
  pair_eq, ◌≡◌, refl, sym, ap, ◌∙◌, subst, inl, inr, Bool-cases, if◌then◌else◌, arith,
}
use easy_frame.Prelude.Result.{ok}
use easy_frame.Prelude.Dict.{lookup, insert, lookup-insert}
use easy_frame.Notices.Catalog.{
  notification_channels, Switches, Scene, Group, GroupPolicy, SwitchChange, contains,
}
use easy_frame.Notices.Views.{
  lookup_switch, or_default, first_enabled, or_empty, effective_enabled, channel_state, scene_view,
  build_group_view,
}
use easy_frame.Notices.Store.{
  Store, policy_of, apply_switch, or_no_preference, save_preference, preference_of, my_group_view,
}
use easy_frame.Notices.Switching.{lookup_switch-apply_switch}

-- what the settings of an account show for one channel of a scene, by the group's policy and the
-- account's own switches
unfoldable pub shown_with : GroupPolicy → Option Switches → Scene → String → Option Bool
unfolding channel_state
shown_with policy preference scene channel =
    channel_state scene channel policy.switches (if policy.managed then none else preference)
      policy.managed

unfoldable pub shown : String → Store → Group → Scene → String → Option Bool
unfolding shown_with policy_of preference_of
shown account store group scene channel =
    shown_with (policy_of group.key store) (preference_of account group.key store) scene channel

or_empty-eq : (o : Option Switches) → or_no_preference o ≡ or_empty o
or_empty-eq none = refl
or_empty-eq (some switches) = refl

pick :
    (c k e d : Bool) (o : Option Bool)
    → (if k then some (or_default (if c then some e else o) d) else none)
      ≡ (if c && k then some e else (if k then some (or_default o d) else none))
pick true true e d o = refl
pick true false e d o = refl
pick false k e d o = refl

-- one channel of an account that has its own switches
own_state :
    (scene : Scene) (channel : String) (policy : Switches) (preference : Option Switches)
    (change : SwitchChange)
    → channel_state scene channel policy
        (some (apply_switch (or_no_preference preference) change))
        false
      ≡ (if (change.scene == scene.key && change.channel == channel)
            && contains channel scene.channels
          then some change.enabled
          else channel_state scene channel policy preference false)
unfolding channel_state effective_enabled first_enabled
own_state scene channel policy preference change =
    rw
      (
        channel_state,
        effective_enabled,
        first_enabled,
        lookup_switch-apply_switch (or_no_preference preference) change scene.key channel,
        or_empty-eq preference,
      )
      (pick (change.scene == scene.key && change.channel == channel)
        (contains channel scene.channels) change.enabled (first_enabled scene channel (policy ∷ []))
        (lookup_switch (or_empty preference) scene.key channel))

saved-policy :
    (account group_key : String) (change : SwitchChange) (store after : Store)
    → save_preference account group_key change store ≡ ok after
    → ((policy_of group_key store).managed ≡ false)
      × (record store {
        preferences =
            insert
              (account, group_key)
              (apply_switch
                (or_no_preference (lookup (account, group_key) store.preferences))
                change)
              store.preferences;
      }
          ≡ after)
unfolding save_preference
saved-policy account group_key change store after e =
    elim (Bool-cases (policy_of group_key store).managed) [
      | inl m ↦ ground (arith, e, m)
      | inr m ↦ (m, ground (arith, e, m))
    ]

abbrev stored : String → String → SwitchChange → Store → Store
unfolding apply_switch
stored account group_key change store = record store {
  preferences =
      insert (account, group_key)
        (apply_switch (or_no_preference (lookup (account, group_key) store.preferences)) change)
        store.preferences;
}

-- whether the change is about this account and group, and about this scene and channel
abbrev pub is_meant : String → String → SwitchChange → String → Group → Scene → String → Bool
is_meant account group_key change other group scene channel =
    (account == other && group_key == group.key)
    && ((change.scene == scene.key && change.channel == channel) && contains channel scene.channels)

own-shown :
    (policy : GroupPolicy) (preference : Option Switches) (change : SwitchChange) (scene : Scene)
    (channel : String)
    → policy.managed ≡ false
    → shown_with policy (some (apply_switch (or_no_preference preference) change)) scene channel ≡ (
        if (change.scene == scene.key && change.channel == channel)
          && contains channel scene.channels
        then some change.enabled
        else shown_with policy preference scene channel)
unfolding shown_with
own-shown policy preference change scene channel free =
    rw (shown_with, free) (own_state scene channel policy.switches preference change)

both : (a b : Bool) → a && b ≡ true → (a ≡ true) × (b ≡ true)
both true b h = (refl, h)
both false b h = ground (arith, h)

stored-shown :
    (account group_key : String) (change : SwitchChange) (store : Store) (other : String)
    (group : Group) (scene : Scene) (channel : String) (here : Bool)
    → (account == other && group_key == group.key) ≡ here
    → (policy_of group_key store).managed ≡ false
    → shown other (stored account group_key change store) group scene channel ≡ (
        if here
          && ((change.scene == scene.key && change.channel == channel)
              && contains channel scene.channels)
        then some change.enabled
        else shown other store group scene channel)
unfolding shown preference_of policy_of stored
stored-shown account group_key change store other group scene channel false e free =
    let new =
      apply_switch (or_no_preference (lookup (account, group_key) store.preferences)) change in
    ap (λ preference. shown_with (policy_of group.key store) preference scene channel)
      (lookup-insert (account, group_key) (other, group.key) new store.preferences
        ∙ ap (λ b. if b then some new else lookup (other, group.key) store.preferences) e)
stored-shown account group_key change store other group scene channel true e free =
    let new =
      apply_switch (or_no_preference (lookup (account, group_key) store.preferences)) change in
    let (a, g) = both (account == other) (group_key == group.key) e in
    let same : account ≡ other = (==_iff account other).0 a in
    let same_group : group_key ≡ group.key = (==_iff group_key group.key).0 g in
    ap (λ preference. shown_with (policy_of group.key store) preference scene channel)
      (lookup-insert (account, group_key) (other, group.key) new store.preferences
        ∙ ap (λ b. if b then some new else lookup (other, group.key) store.preferences) e
        ∙ ap (λ key. some (apply_switch (or_no_preference (lookup key store.preferences)) change))
            (ap (λ x. (x, group_key)) same ∙ ap (λ x. (other, x)) same_group))
    ∙ own-shown (policy_of group.key store) (lookup (other, group.key) store.preferences) change
        scene channel (subst (λ key. (policy_of key store).managed ≡ false) same_group free)

-- A preference that is saved, where the group is not managed, is what the settings then show: of that
-- account, at that scene and channel, if the scene has the channel. All else that the settings of any
-- account show stays, and so do the policies. And the settings show for each scene just these states.
pub save_preference-shown :
    (account group_key : String) (change : SwitchChange) (store after : Store)
    → save_preference account group_key change store ≡ ok after
    → (after.policies ≡ store.policies)
      × ((other : String) (group : Group) (scene : Scene) (channel : String)
          → shown other after group scene channel ≡ (
              if is_meant account group_key change other group scene channel
              then some change.enabled
              else shown other store group scene channel))
      × ((other : String) (group : Group)
          → (my_group_view other after group).scenes
            ≡ map
                (λ scene. record {
                  key = scene.key;
                  channels =
                      map
                        (λ channel. (channel, shown other after group scene channel))
                        notification_channels;
                })
                group.scenes)
unfolding shown shown_with my_group_view build_group_view scene_view stored
save_preference-shown account group_key change store after e =
    let (free, saved) = saved-policy account group_key change store after e in
    (
      sym (ap (λ s. s.policies) saved),
      λ other group scene channel.
          ap (λ s. shown other s group scene channel) (sym saved)
          ∙ stored-shown account group_key change store other group scene channel
              (account == other && group_key == group.key) refl free,
      λ other group. refl,
    )
