-- ===== src/Notices/Tests.antt =====
-- A group that accounts may set, and an account that switches one of its notices off.
use easy_frame.Prelude.{String, true, false, some, [], ◌∷◌, map, ◌≡◌, refl, if◌then◌else◌}
use easy_frame.Prelude.Result.{ok}
use easy_frame.Prelude.Dict.{lookup, insert}
use easy_frame.Notices.Catalog.{notification_channels, Scene, Group, SwitchChange}
use easy_frame.Notices.Store.{Store, policy_of, apply_switch, save_preference, my_group_view}
use easy_frame.Notices.Changes.{shown, is_meant, save_preference-shown}

abbrev approvals : Scene
approvals = record { key = "approval"; channels = "in_app" ∷ []; default_enabled = true }

abbrev work : Group
work = record { key = "work"; gate_permission = "work.view"; scenes = approvals ∷ [] }

abbrev store : Store
store = record {
  policies = ("work", record { managed = false; switches = [] }) ∷ [];
  preferences = [];
}

abbrev change : SwitchChange
change = record { scene = "approval"; channel = "in_app"; enabled = false }

abbrev after : Store
after = record store {
  preferences = (("u1", "work"), ("approval", ("in_app", false) ∷ []) ∷ []) ∷ [];
}

after-saved : save_preference "u1" "work" change store ≡ ok after
unfolding save_preference policy_of apply_switch lookup insert
after-saved = refl

save_preference-shown_example :
    (after.policies ≡ store.policies)
    × ((other : String) (group : Group) (scene : Scene) (channel : String)
        → shown other after group scene channel ≡ (
            if is_meant "u1" "work" change other group scene channel
            then some false
            else shown other store group scene channel))
    × ((other : String) (group : Group)
        → (my_group_view other after group).scenes
          ≡ map
              (λ scene. record {
                key = scene.key;
                channels =
                    map
                      (λ channel. (channel, shown other after group scene channel))
                      notification_channels;
              })
              group.scenes)
save_preference-shown_example = save_preference-shown "u1" "work" change store after after-saved
