-- ===== src/Notices/Catalog.antt =====
-- backend/enterprise_platform/notification_settings.py: the catalog of notices, and the changes that it
-- admits. Titles and descriptions are left out.
use easy_frame.Prelude.{
  String, Bool, not, ◌||◌, Option, none, some, List, [], ◌∷◌, ◌++◌, map, ◌==◌, string_eq, option_eq,
  bool_eq, any, if◌then◌else◌,
}
use easy_frame.Prelude.Result.{Result, ok, err, ◌>>◌}
use easy_frame.Prelude.Dict.{Dict}

abbrev pub notification_channels : List String
notification_channels = "dingtalk" ∷ "in_app" ∷ []

abbrev pub Switches : Type 0
Switches = Dict String (Dict String Bool)

pub record Scene : Type 0 where
  pub key : String
  pub channels : List String
  pub default_enabled : Bool

pub record Group : Type 0 where
  pub key : String
  pub gate_permission : String
  pub scenes : List Scene

pub record GroupPolicy : Type 0 where
  pub managed : Bool
  pub switches : Switches

pub record SwitchChange : Type 0 where
  pub scene : String
  pub channel : String
  pub enabled : Bool

pub record PolicyChange : Type 0 where
  pub managed : Option Bool
  pub switch : Option SwitchChange

pub data SettingsError : Type 0 where
  unknown_target : String → SettingsError
  group_managed : String → SettingsError
  value_error : String → SettingsError

abbrev pub contains : String → List String → Bool
contains x xs = any (λ y. y == x) xs

-- `next((item for item in items if item.key == key), None)`
unfoldable pub find_scene : String → List Scene → Option Scene
find_scene key [] = none
find_scene key (scene ∷ scenes) =
    let rest = find_scene key scenes in if scene.key == key then some scene else rest

-- `NotificationCatalog.group`
unfoldable pub find_group : String → List Group → Option Group
find_group key [] = none
find_group key (group ∷ groups) =
    let rest = find_group key groups in if group.key == key then some group else rest

abbrev pub check_channel : Group → Option Scene → String → Result SettingsError (Group × Scene)
check_channel group none channel = err (unknown_target "scene")
check_channel group (some scene) channel =
    if not (contains channel notification_channels) || not (contains channel scene.channels)
    then err (unknown_target "channel")
    else ok (group, scene)

unfoldable pub check_scene : Option Group → String → String → Result SettingsError (Group × Scene)
unfolding find_scene
check_scene none scene_key channel = err (unknown_target "group")
check_scene (some group) scene_key channel =
    check_channel group (find_scene scene_key group.scenes) channel

unfoldable pub validate_change :
    List Group → String → String → String → Result SettingsError (Group × Scene)
unfolding find_group check_scene
validate_change catalog group_key scene_key channel =
    check_scene (find_group group_key catalog) scene_key channel

-- `_reject_duplicate_keys`, after the keys `seen`
unfoldable pub reject_duplicates : List String → List String → String → Result SettingsError Unit
reject_duplicates seen [] kind = ok tt
reject_duplicates seen (key ∷ keys) kind =
    let rest = reject_duplicates (key ∷ seen) keys kind in
    if contains key seen then err (value_error kind) else rest

abbrev pub scene_keys : List Group → List String
scene_keys [] = []
scene_keys (group ∷ groups) = map (λ scene. scene.key) group.scenes ++ scene_keys groups

-- `NotificationCatalog.validate_unique_keys`
unfoldable pub validate_unique_keys : List Group → Result SettingsError Unit
unfolding reject_duplicates
validate_unique_keys groups =
    reject_duplicates [] (map (λ group. group.key) groups) "group"
    >> reject_duplicates [] (scene_keys groups) "scene"

pub record PolicyPatch : Type 0 where
  pub group : String
  pub managed : Option Bool
  pub scene : Option String
  pub channel : Option String
  pub enabled : Option Bool

-- `_complete_policy_patch` with `to_policy_change`
abbrev pub change_of :
    Option Bool → Option String → Option String → Option Bool → Result SettingsError PolicyChange
change_of managed (some scene) (some channel) (some enabled) = ok (record {
  managed = managed;
  switch = some (record { scene = scene; channel = channel; enabled = enabled });
})
change_of none none none none = err (value_error "at least one of managed or switch is required")
change_of (some managed) none none none = ok (record { managed = some managed; switch = none })
change_of managed _ _ _ = err (value_error "scene, channel, and enabled must be provided together")

unfoldable pub to_policy_change : PolicyPatch → Result SettingsError PolicyChange
to_policy_change patch = change_of patch.managed patch.scene patch.channel patch.enabled
