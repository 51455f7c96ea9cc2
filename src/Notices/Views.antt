-- ===== src/Notices/Views.antt =====
-- backend/enterprise_platform/notification_settings.py: what the settings show.
use easy_frame.Prelude.{
  String, Bool, true, not, ◌||◌, Option, none, some, List, [], ◌∷◌, map, string_eq, if◌then◌else◌,
}
use easy_frame.Prelude.Dict.{Dict, lookup}
use easy_frame.Notices.Catalog.{
  notification_channels, Switches, Scene, Group, GroupPolicy, contains,
}

-- `_lookup_switch`
abbrev pub in_scene : Option (Dict String Bool) → String → Option Bool
in_scene none channel = none
in_scene (some channels) channel = lookup channel channels

unfoldable pub lookup_switch : Switches → String → String → Option Bool
unfolding lookup
lookup_switch switches scene_key channel = in_scene (lookup scene_key switches) channel

abbrev pub or_default : Option Bool → Bool → Bool
or_default none default = default
or_default (some enabled) default = enabled

-- `_first_enabled`
unfoldable pub first_enabled : Scene → String → List Switches → Bool
unfolding lookup_switch
first_enabled scene channel [] = scene.default_enabled
first_enabled scene channel (layer ∷ layers) =
    or_default (lookup_switch layer scene.key channel) (first_enabled scene channel layers)

-- `preference or {}`
abbrev pub or_empty : Option Switches → Switches
or_empty none = []
or_empty (some switches) = switches

unfoldable pub effective_enabled : Scene → String → Bool → Bool → Switches → Option Switches → Bool
unfolding first_enabled
effective_enabled scene channel managed has_account policy preference =
    if managed || not has_account
    then first_enabled scene channel (policy ∷ [])
    else first_enabled scene channel (or_empty preference ∷ policy ∷ [])

-- `_channel_state`
unfoldable pub channel_state : Scene → String → Switches → Option Switches → Bool → Option Bool
unfolding effective_enabled
channel_state scene channel policy preference ignore_pref =
    if contains channel scene.channels
    then some (effective_enabled scene channel ignore_pref true policy preference)
    else none

pub record SceneView : Type 0 where
  pub key : String
  pub channels : Dict String (Option Bool)

pub record GroupView : Type 0 where
  pub key : String
  pub managed : Bool
  pub editable : Bool
  pub scenes : List SceneView

-- `_scene_view` with `_channel_states`
unfoldable pub scene_view : GroupPolicy → Option Switches → Bool → Scene → SceneView
unfolding channel_state
scene_view policy preference policy_only scene = record {
  key = scene.key;
  channels =
      map
        (λ channel. (
          channel,
          channel_state scene channel policy.switches preference (policy_only || policy.managed),
        ))
        notification_channels;
}

unfoldable pub build_group_view : Group → GroupPolicy → Option Switches → Bool → GroupView
unfolding scene_view
build_group_view group policy preference policy_only = record {
  key = group.key;
  managed = policy.managed;
  editable = policy_only || not policy.managed;
  scenes = map (scene_view policy preference policy_only) group.scenes;
}
