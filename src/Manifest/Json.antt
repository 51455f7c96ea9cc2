-- ===== src/Manifest/Json.antt =====
-- The values that backend/enterprise_platform/easyauth/manifest_sync.py stores and reads. A value that
-- it never looks into, as an array or a float, is `opaque`; an object of a response is read
-- by its keys, with null for one that is missing.
use Prim.Native.Nat.{ℕ}
use easy_frame.Prelude.{
  String, Bool, false, ◌==◌, string_eq, nat_eq, Option, none, some, if◌then◌else◌,
}
use easy_frame.Prelude.Dict.{Dict, lookup}

pub data ℤ : Type 0 where
  pos : ℕ → ℤ
  negsuc : ℕ → ℤ

pub data Json : Type 0 where
  null : Json
  truth : Bool → Json
  int : ℤ → Json
  text : String → Json
  object : (String → Json) → Json
  opaque : String → Json

abbrev pub or_null : Option Json → Json
or_null none = null
or_null (some value) = value

-- `state.get(key)`
unfoldable pub get : String → Dict String Json → Json
unfolding lookup
get key state = or_null (lookup key state)

-- `value == text`
abbrev pub is_text : Json → String → Bool
is_text (text s) t = s == t
is_text _ t = false

abbrev pub is_nat : Json → ℕ → Bool
is_nat (int (pos m)) n = m == n
is_nat _ n = false

-- `_positive_int`
abbrev pub positive_int : Json → Option ℕ
positive_int (int (pos n)) = if n == 0 then none else some n
positive_int _ = none

-- `_as_int`
abbrev pub as_int : Json → Option ℤ
as_int (int i) = some i
as_int _ = none

abbrev pub as_bool : Json → Option Bool
as_bool (truth b) = some b
as_bool _ = none

abbrev pub as_text : Json → Option String
as_text (text s) = some s
as_text _ = none
