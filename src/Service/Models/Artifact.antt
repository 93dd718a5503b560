-- ===== src/Service/Models/Artifact.antt =====
-- `ArtifactRecord` and the published artifacts of models.py.
use headless_blender_charact.Prelude.{
  Bool, List, Option, String, [], any, between, false, length, ltb, map, nat_eq, none, not, some,
  string_eq, true, ℕ, ◌==◌, ◌||◌, ◌∷◌,
}
use headless_blender_charact.Service.Errors.{Code, Result, failure, ok, raise_if, ◌>>◌}
use headless_blender_charact.Service.Patterns.{codes, is_dots, object_key_pattern, parts_of}
use headless_blender_charact.Service.Contract.{Datetime, Uuid, list_eq}
use headless_blender_charact.Service.Dict.{Dict, lookup}
use headless_blender_charact.Service.Models.Status.{require_sha256}
use headless_blender_charact.Service.Models.Build.{max_published_bytes}

-- `ARTIFACT_CONTENT_TYPES`, in its order
abbrev pub artifact_content_types : Dict String String
artifact_content_types =
    ("model.blend", "application/x-blender")
    ∷ ("model.glb", "model/gltf-binary")
    ∷ ("model.stl", "model/stl")
    ∷ ("preview.png", "image/png")
    ∷ ("diagnostics/front.png", "image/png")
    ∷ ("diagnostics/side.png", "image/png")
    ∷ ("diagnostics/back.png", "image/png")
    ∷ ("qa.json", "application/json")
    ∷ ("manifest.json", "application/json")
    ∷ []

-- `tuple(ARTIFACT_CONTENT_TYPES)`
unfoldable pub required_published_artifacts : List String
required_published_artifacts = map (λ p. p.0) artifact_content_types

pub record ArtifactRecord : Type 0 where
  pub build_id : Uuid
  pub attempt_id : Uuid
  pub relative_path : String
  pub bucket : String
  pub object_key : String
  pub sha256 : String
  pub bytes : ℕ
  pub content_type : String
  pub created_at : Datetime
  pub etag : Option String
  pub version_id : Option String

-- A storage identifier that the constructor refuses.
unfoldable pub identifier_outside : Option String → Bool
identifier_outside none = false
identifier_outside (some s) =
    not (between 1 256 (length (codes s))) || any (λ c. ltb c 33 || ltb 126 c) (codes s)

abbrev type_outside : Option String → String → Bool
type_outside none _ = true
type_outside (some expected) given = not (given == expected)

-- `ArtifactRecord.__post_init__`
unfoldable pub artifact_post_init : ArtifactRecord → Result (Unit {0})
artifact_post_init r = do
  raise_if (type_outside (lookup r.relative_path artifact_content_types) r.content_type)
      (failure Code.invalid_artifact)
  raise_if (not (between 3 63 (length (codes r.bucket)))) (failure Code.invalid_artifact)
  raise_if (not (object_key_pattern r.object_key) || any is_dots (parts_of r.object_key))
      (failure Code.invalid_artifact)
  require_sha256 r.sha256
  raise_if (not (between 1 max_published_bytes r.bytes)) (failure Code.invalid_artifact)
  raise_if (identifier_outside r.etag) (failure Code.invalid_artifact)
  raise_if (identifier_outside r.version_id) (failure Code.invalid_artifact)

unfoldable pub check_artifact : ArtifactRecord → Result ArtifactRecord
check_artifact r = do artifact_post_init r; ok r
