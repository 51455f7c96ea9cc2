-- ===== src/Notices/Store.antt =====
-- backend/blank_app/adapter_notification_settings.py: the tables of policies and of preferences, with
-- their rows locked for one transaction at a time; and the views of notification_settings.py over them.
-- The switches of a row are a well-formed dict, which `_copy_switches` copies, and
-- an account is its UUID in the canonical form. The audit is left out.
use easy_frame.Prelude.{
  String, Bool, true, false, Option, none, some, List, [], map, filter, string_eq, pair_eq,
  if◌then◌else◌,
}
use easy_frame.Prelude.Result.{Result, ok, err}
use easy_frame.Prelude.Dict.{Dict, lookup, insert}
use easy_frame.Notices.Catalog.{
  Switches, Group, GroupPolicy, SwitchChange, PolicyChange, SettingsError, group_managed, contains,
}
use easy_frame.Notices.Views.{GroupView, build_group_view}

pub record Store : Type 0 where
  pub policies : Dict String GroupPolicy
  -- by the account and the group
  pub preferences : Dict (String × String) Switches

-- `NotificationGroupPolicy()`
abbrev pub default_policy : GroupPolicy
default_policy = record { managed = true; switches = [] }

abbrev pub or_default : Option GroupPolicy → GroupPolicy
or_default none = default_policy
or_default (some policy) = policy

-- `_policy_or_default`, and the row that `_lock_policy` inserts or finds
unfoldable pub policy_of : String → Store → GroupPolicy
unfolding lookup
policy_of group_key store = or_default (lookup group_key store.policies)

abbrev pub or_no_switches : Option (Dict String Bool) → Dict String Bool
or_no_switches none = []
or_no_switches (some channels) = channels

-- `_apply_switch`
unfoldable pub apply_switch : Switches → SwitchChange → Switches
unfolding lookup insert
apply_switch switches change =
    insert change.scene
      (insert change.channel change.enabled (or_no_switches (lookup change.scene switches)))
      switches

abbrev pub with_managed : Option Bool → GroupPolicy → GroupPolicy
with_managed none policy = policy
with_managed (some managed) policy = record policy { managed = managed }

unfoldable pub with_switch : Option SwitchChange → GroupPolicy → GroupPolicy
unfolding apply_switch
with_switch none policy = policy
with_switch (some change) policy = record policy { switches = apply_switch policy.switches change }

unfoldable pub save_policy : String → PolicyChange → Store → Store
unfolding policy_of with_switch insert
save_policy group_key change store = record store {
  policies =
      insert group_key
        (with_switch change.switch (with_managed change.managed (policy_of group_key store)))
        store.policies;
}

abbrev pub or_no_preference : Option Switches → Switches
or_no_preference none = []
or_no_preference (some switches) = switches

-- An exception rolls the transaction back, with the row that was inserted.
unfoldable pub save_preference : String → String → SwitchChange → Store → Result SettingsError Store
unfolding policy_of apply_switch insert lookup
save_preference account group_key change store =
    if (policy_of group_key store).managed
    then err (group_managed group_key)
    else ok (record store {
      preferences =
          insert (account, group_key)
            (apply_switch (or_no_preference (lookup (account, group_key) store.preferences)) change)
            store.preferences;
    })

-- `load_preferences((account_id,), group_key).get(account_id)`
unfoldable pub preference_of : String → String → Store → Option Switches
unfolding lookup
preference_of account group_key store = lookup (account, group_key) store.preferences

-- `_my_group_view`
unfoldable pub my_group_view : String → Store → Group → GroupView
unfolding policy_of preference_of build_group_view
my_group_view account store group =
    let policy = policy_of group.key store in
    build_group_view group policy
      (if policy.managed then none else preference_of account group.key store) false

-- the groups of `build_my_settings`
unfoldable pub my_groups : List Group → String → List String → Store → List GroupView
unfolding my_group_view
my_groups catalog account permissions store =
    map (my_group_view account store)
      (filter (λ group. contains group.gate_permission permissions) catalog)

-- the groups of `build_policy_settings`
unfoldable pub policy_groups : List Group → Store → List GroupView
unfolding build_group_view policy_of
policy_groups catalog store =
    map (λ group. build_group_view group (policy_of group.key store) none true) catalog
