-- ===== src/Manifest/Versions.antt =====
-- backend/enterprise_platform/easyauth/manifest_sync.py: which version a manifest is sent under.
use easy_frame.Prelude.{
  ℕ, ◌≤◌, String, Option, none, some, ◌≡◌, refl, inl, inr, Bool-cases, Option-cases, arith,
}
use easy_frame.Manifest.Json.{
  pos, negsuc, Json, null, truth, int, text, object, opaque, get, is_text, positive_int,
}
use easy_frame.Manifest.Recorded.{
  State, Document, or_one, accepted_version, version_after, next_version_of, next_schema_version,
}

pub positive_int-positive : (value : Json) (n : ℕ) → positive_int value ≡ some n → 1 ≤ n
positive_int-positive (int (pos m)) n h = ground (arith, h)
positive_int-positive (int (negsuc m)) n h = cc
positive_int-positive null n h = cc
positive_int-positive (truth b) n h = cc
positive_int-positive (text s) n h = cc
positive_int-positive (object f) n h = cc
positive_int-positive (opaque s) n h = cc

or_one-positive : (value : Json) → 1 ≤ or_one (positive_int value)
or_one-positive value = elim (Option-cases (positive_int value)) [
  | inl e ↦ rw e (omega arith)
  | inr (n, e) ↦ rw e (positive_int-positive value n e)
]

accepted-positive : (state : Option State) (n : ℕ) → accepted_version state ≡ some n → 1 ≤ n
unfolding accepted_version
accepted-positive none n h = cc
accepted-positive (some state) n h = elim (Bool-cases (is_text (get "status" state) "ok")) [
  | inl t ↦ positive_int-positive (get "schema_version" state) n (ground (arith, h, t))
  | inr f ↦ ground (arith, h, f)
]

version_after-positive :
    (local : ℕ) (state : State) (digest : String) (accepted : Option ℕ)
    → 1 ≤ local
    → ((n : ℕ) → accepted ≡ some n → 1 ≤ n)
    → 1 ≤ version_after local state digest accepted
unfolding version_after
version_after-positive local state digest none l p = l
version_after-positive local state digest (some n) l p = ground (arith, l, p n refl)

-- The version that a manifest is sent under is positive.
pub next_schema_version-positive :
    (manifest : Document) (state : Option State) (digest : String)
    → 1 ≤ next_schema_version manifest state digest
unfolding next_schema_version next_version_of
next_schema_version-positive manifest none digest = or_one-positive (get "schema_version" manifest)
next_schema_version-positive manifest (some state) digest =
    version_after-positive (or_one (positive_int (get "schema_version" manifest))) state digest
      (accepted_version (some state)) (or_one-positive (get "schema_version" manifest))
      (accepted-positive (some state))
