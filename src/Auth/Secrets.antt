-- ===== src/Auth/Secrets.antt =====
-- backend/enterprise_platform/auth.py: the strength that a bootstrap secret must have.
use easy_frame.Prelude.{ℕ, String, Bool, ◌||◌, List, [], ◌∷◌, ◌==◌, string_eq, any, ltb}
use easy_frame.Prelude.Text.{TextOps}

abbrev pub public_secret_markers : List String
public_secret_markers = "replace-with-" ∷ "change-before-deploy" ∷ "changeme" ∷ []

abbrev pub weak_bootstrap_values : List String
weak_bootstrap_values = "admin123" ∷ "password" ∷ "secret" ∷ []

unfoldable pub is_unsafe_bootstrap_secret : TextOps → String → ℕ → Bool
is_unsafe_bootstrap_secret text value min_length =
    let lowered = text.lower (text.strip value) in
    ltb (text.size value) min_length
    || any (λ weak. weak == lowered) weak_bootstrap_values
    || any (λ marker. text.contains marker lowered) public_secret_markers
