-- ===== src/Shared/Character/Request.antt =====
-- shared/character_spec.py: `BuildRequest` and `validate_build_request`.
use headless_blender_charact.Prelude.{List, Option, String, [], none, not, some, ℕ, ◌*◌, ◌++◌, ◌∷◌}
use headless_blender_charact.Shared.Json.Decode.{decode_json_document}
use headless_blender_charact.Shared.Rejection.{
  Checked, ContractCode, Text, accepted, reject_if, rejected, root, ◌>>=◌, ◌>>◌,
}
use headless_blender_charact.Service.Patterns.{codes}
use headless_blender_charact.Service.Contract.{Bytes, Environment, Validated}
use headless_blender_charact.Service.Dict.{Dict}
use headless_blender_charact.Shared.Json.{
  Value, fields, reject_extra_fields, require_fields, require_object,
}
use headless_blender_charact.Shared.Json.Canonical.{canonical_json_bytes, canonical_sha256}
use headless_blender_charact.Shared.Readers.{is_text, item}
use headless_blender_charact.Shared.Character.Spec.{CharacterSpec, spec_from_mapping, spec_to_dict}

pub record BuildRequest : Type 0 where
  pub request_version : Text
  pub generator : Text
  pub spec : CharacterSpec
  pub output_profile : Text
  pub render_profile : Text
  pub quality_profile : Text

-- `constants`: the fields that have one value each
abbrev pub request_constants : Dict Text Text
request_constants =
    (codes "request_version", codes "build/v1")
    ∷ (codes "generator", codes "geometric-character@1.0.0")
    ∷ (codes "output_profile", codes "complete-v1")
    ∷ (codes "render_profile", codes "diagnostic-v1")
    ∷ (codes "quality_profile", codes "geometry-v1")
    ∷ []

abbrev pub request_fields : List Text
request_fields =
    codes "request_version"
    ∷ codes "generator"
    ∷ codes "spec"
    ∷ codes "output_profile"
    ∷ codes "render_profile"
    ∷ codes "quality_profile"
    ∷ []

unfoldable pub require_constants : Dict Text Value → Dict Text Text → Checked (Unit {0})
unfolding item is_text
require_constants value [] = accepted tt
require_constants value ((key, expected) ∷ rest) = do
  v ← item value key
  reject_if (not (is_text v expected)) ContractCode.unsupported_contract_value (codes "$." ++ key)
  require_constants value rest

-- `BuildRequest.from_mapping`
unfoldable pub request_from_mapping : Value → Checked BuildRequest
unfolding require_object reject_extra_fields require_fields item require_constants spec_from_mapping
request_from_mapping raw = do
  value ← require_object raw root
  reject_extra_fields value request_fields root
  require_fields value request_fields root
  require_constants value request_constants
  given ← item value (codes "spec")
  spec ← spec_from_mapping given (codes "$.spec")
  accepted (record {
    request_version = codes "build/v1";
    generator = codes "geometric-character@1.0.0";
    spec = spec;
    output_profile = codes "complete-v1";
    render_profile = codes "diagnostic-v1";
    quality_profile = codes "geometry-v1";
  })

-- `BuildRequest.to_dict`
unfoldable pub request_to_dict : BuildRequest → Value
unfolding spec_to_dict fields
request_to_dict r = Value.object (
    fields (
      (codes "generator", Value.text r.generator)
      ∷ (codes "output_profile", Value.text r.output_profile)
      ∷ (codes "quality_profile", Value.text r.quality_profile)
      ∷ (codes "render_profile", Value.text r.render_profile)
      ∷ (codes "request_version", Value.text r.request_version)
      ∷ (codes "spec", spec_to_dict r.spec)
      ∷ []))

-- `BuildRequest.canonical_bytes`
unfoldable pub request_canonical_bytes : BuildRequest → Checked Bytes
unfolding request_to_dict canonical_json_bytes
request_canonical_bytes r = canonical_json_bytes (request_to_dict r)

-- `BuildRequest.request_sha256`
unfoldable pub request_sha256_of : Environment → BuildRequest → Checked String
unfolding request_to_dict canonical_sha256
request_sha256_of env r = canonical_sha256 env (request_to_dict r)

-- `BuildRequest.spec_sha256`
unfoldable pub spec_sha256_of : Environment → BuildRequest → Checked String
unfolding spec_to_dict canonical_sha256
spec_sha256_of env r = canonical_sha256 env (spec_to_dict r.spec)

abbrev pub max_build_request_bytes : ℕ
max_build_request_bytes = 64 * 1024

-- `BuildRequest.from_json`, which `validate_build_request` calls on bytes
unfoldable pub request_from_json : Bytes → Checked BuildRequest
unfolding decode_json_document request_from_mapping
request_from_json payload =
    decode_json_document (some max_build_request_bytes) payload >>= request_from_mapping

-- What the service reads of a validated request.
unfoldable pub validated : Environment → BuildRequest → Checked Validated
unfolding request_canonical_bytes request_sha256_of spec_sha256_of
validated env r = do
  request_sha256 ← request_sha256_of env r
  spec_sha256 ← spec_sha256_of env r
  canonical_bytes ← request_canonical_bytes r
  accepted (record {
    request_sha256 = request_sha256;
    spec_sha256 = spec_sha256;
    canonical_bytes = canonical_bytes;
  })

-- A rejection is `none`.
unfoldable pub accepted_or_none {ℓ} : {V : Type ℓ} → Checked V → Option V
accepted_or_none (rejected e) = none
accepted_or_none (accepted v) = some v

-- `validate_build_request` of bytes, as the service uses it
unfoldable pub validate_build_request_bytes : Environment → Bytes → Option Validated
unfolding request_from_json validated accepted_or_none
validate_build_request_bytes env payload =
    accepted_or_none (request_from_json payload >>= validated env)
