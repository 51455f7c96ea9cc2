-- ===== src/Notices/Switching.antt =====
-- backend/enterprise_platform/notification_settings.py over its host: what one switch changes.
use easy_frame.Prelude.{
  String, Bool, true, false, ◌&&◌, Option, none, some, ◌==◌, ==_iff, string_eq, pair_eq, ◌≡◌, refl,
  ap, if◌then◌else◌,
}
use easy_frame.Prelude.Dict.{Dict, lookup, insert, lookup-insert}
use easy_frame.Notices.Catalog.{Switches, SwitchChange}
use easy_frame.Notices.Views.{in_scene, lookup_switch}
use easy_frame.Notices.Store.{apply_switch, or_no_switches}

in_scene-or_no_switches :
    (o : Option (Dict String Bool)) (channel : String)
    → lookup channel (or_no_switches o) ≡ in_scene o channel
unfolding lookup
in_scene-or_no_switches none channel = refl
in_scene-or_no_switches (some channels) channel = refl

if-in_scene :
    (b : Bool) (channels : Dict String Bool) (o : Option (Dict String Bool)) (channel : String)
    → in_scene (if b then some channels else o) channel
      ≡ (if b then lookup channel channels else in_scene o channel)
if-in_scene true channels o channel = refl
if-in_scene false channels o channel = refl

if-same :
    (a b : Bool) (x y z : Option Bool)
    → (a ≡ true → y ≡ z)
    → (if a then (if b then x else y) else z) ≡ (if a && b then x else z)
if-same true true x y z h = refl
if-same true false x y z h = h refl
if-same false b x y z h = refl

-- A switch is set at its place, and the others stay.
pub lookup_switch-apply_switch :
    (switches : Switches) (change : SwitchChange) (scene_key channel : String)
    → lookup_switch (apply_switch switches change) scene_key channel ≡ (
        if change.scene == scene_key && change.channel == channel
        then some change.enabled
        else lookup_switch switches scene_key channel)
unfolding lookup_switch apply_switch
lookup_switch-apply_switch switches change scene_key channel =
    let old = or_no_switches (lookup change.scene switches) in
    let inner = insert change.channel change.enabled old in
    rw
      (
        lookup_switch,
        apply_switch,
        lookup-insert change.scene scene_key inner switches,
        if-in_scene (change.scene == scene_key) inner (lookup scene_key switches) channel,
        lookup-insert change.channel channel change.enabled old,
        in_scene-or_no_switches (lookup change.scene switches) channel,
      )
      (if-same (change.scene == scene_key) (change.channel == channel) (some change.enabled)
        (in_scene (lookup change.scene switches) channel)
        (in_scene (lookup scene_key switches) channel)
        (λ same.
          ap (λ key. in_scene (lookup key switches) channel)
            ((==_iff change.scene scene_key).0 same)))
