-- ===== src/SchemaStore/Tests.antt =====
-- The theorem on `validate_schema_change` at a concrete input.
use ice_log.Prelude.{ℕ, ◌≡◌, ◌↔◌, [], ◌∷◌, ◌++◌}
use ice_log.Text.{Text, codes}
use ice_log.SchemaStore.{validate_schema_change}
use ice_log.SchemaStore.Validation.{validate_schema_change_iff}

validate_schema_change_iff_example :
    (validate_schema_change (codes "{}") (codes "{oops}") ≡ [])
    ↔ ((b : ℕ) × (middle : Text) × (codes "{oops}" ≡ b'{' ∷ b ∷ middle ++ b'}' ∷ []))
validate_schema_change_iff_example = validate_schema_change_iff (codes "{}") (codes "{oops}")
