-- ===== src/Shared/Character/Spec.antt =====
-- shared/character_spec.py: `CharacterSpec`.
use headless_blender_charact.Prelude.{
  List, Option, [], between, length, ltb, map, nat_eq, none, not, some, sort_by, string_eq, ◌&&◌,
  ◌++◌, ◌||◌, ◌∷◌,
}
use headless_blender_charact.Shared.Rejection.{
  Checked, ContractCode, Text, accepted, reject_if, rejection, ◌>>=◌, ◌>>◌,
}
use headless_blender_charact.Shared.Decimal.{Decimal}
use headless_blender_charact.Service.Patterns.{codes}
use headless_blender_charact.Service.Contract.{list_eq}
use headless_blender_charact.Service.Dict.{lookup}
use headless_blender_charact.Shared.Json.{
  Items, Value, among, elements, fields, items, reject_extra_fields, require_fields, require_object,
}
use headless_blender_charact.Shared.Json.Canonical.{text_leb}
use headless_blender_charact.Shared.Slug.{
  color_pattern, name_pattern, safe_slug_from_name, slug_pattern,
}
use headless_blender_charact.Shared.Readers.{
  collect, decimal_in, enum, get_default, is_text, item, whole,
}
use headless_blender_charact.Shared.Character.Parts.{
  BaseSpec, Proportions, base_from_mapping, base_to_dict, below, default_base,
  proportions_from_mapping, proportions_to_dict,
}

pub record CharacterSpec : Type 0 where
  pub spec_version : Text
  pub name : Text
  pub slug : Text
  pub style : Text
  pub height_mm : Decimal
  pub pose : Text
  pub palette : List Text
  pub proportions : Proportions
  pub material_preset : Text
  pub eye_preset : Text
  pub components : List Text
  pub base : BaseSpec

abbrev pub spec_version_1 : Text
spec_version_1 = codes "character/v1"

abbrev pub styles : List Text
styles = codes "geometric" ∷ codes "low_poly" ∷ codes "chibi" ∷ []

abbrev pub poses : List Text
poses = codes "standing" ∷ codes "wave" ∷ codes "heroic" ∷ []

abbrev pub material_presets : List Text
material_presets = codes "matte" ∷ codes "satin" ∷ codes "glossy" ∷ []

abbrev pub eye_presets : List Text
eye_presets = codes "round" ∷ codes "visor" ∷ codes "sleepy" ∷ []

abbrev pub component_presets : List Text
component_presets =
    codes "antenna-pair"
    ∷ codes "backpack"
    ∷ codes "chest-badge"
    ∷ codes "long-horns"
    ∷ codes "pointed-ears"
    ∷ codes "round-ears"
    ∷ codes "short-horns"
    ∷ codes "stub-tail"
    ∷ codes "swept-tail"
    ∷ []

abbrev pub required_spec_fields : List Text
required_spec_fields =
    codes "spec_version"
    ∷ codes "name"
    ∷ codes "style"
    ∷ codes "height_mm"
    ∷ codes "pose"
    ∷ codes "palette"
    ∷ codes "proportions"
    ∷ []

abbrev pub spec_fields : List Text
spec_fields =
    required_spec_fields
    ++ codes "slug"
      ∷ codes "material_preset"
      ∷ codes "eye_preset"
      ∷ codes "components"
      ∷ codes "base"
      ∷ []

unfoldable pub read_name : Value → Text → Checked Text
unfolding name_pattern
read_name (Value.text s) path =
    reject_if (ltb 64 (length s) || not (name_pattern s)) ContractCode.invalid_name path
    >> accepted s
read_name _ path = rejection ContractCode.invalid_name path

unfoldable pub read_slug : Value → Text → Checked Text
unfolding slug_pattern
read_slug (Value.text s) path =
    reject_if (ltb 48 (length s) || not (slug_pattern s)) ContractCode.invalid_slug path
    >> accepted s
read_slug _ path = rejection ContractCode.invalid_slug path

-- `value["slug"] if "slug" in value else _safe_slug_from_name(name)`
unfoldable pub choose_slug : Option Value → Text → Checked Value
unfolding safe_slug_from_name
choose_slug (some v) name = accepted v
choose_slug none name = do slug ← safe_slug_from_name name; accepted (Value.text slug)

-- one color of the palette
unfoldable pub read_color : Value → Text → Checked Text
unfolding color_pattern
read_color (Value.text s) path =
    reject_if (not (color_pattern s)) ContractCode.invalid_color path >> accepted s
read_color _ path = rejection ContractCode.invalid_color path

unfoldable pub read_palette : Value → Text → Checked (List Text)
unfolding elements collect read_color
read_palette (Value.array vs) path = do
  reject_if (not (between 1 8 (length (elements vs)))) ContractCode.invalid_palette path
  collect read_color path 0 [] (elements vs)
read_palette _ path = rejection ContractCode.invalid_palette path

-- one component
abbrev pub read_component : Value → Text → Checked Text
read_component v path = enum v path component_presets

unfoldable pub read_components : Value → Text → Checked (List Text)
unfolding elements collect enum among
read_components (Value.array vs) path = do
  reject_if (ltb 16 (length (elements vs))) ContractCode.invalid_components path
  components ← collect read_component path 0 [] (elements vs)
  reject_if (among (codes "stub-tail") components && among (codes "swept-tail") components)
      ContractCode.incompatible_components path
  accepted components
read_components _ path = rejection ContractCode.invalid_components path

-- `BaseSpec.from_mapping(value["base"], ...) if "base" in value else BaseSpec.default()`
unfoldable pub choose_base : Option Value → Text → Checked BaseSpec
unfolding base_from_mapping
choose_base (some v) path = base_from_mapping v path
choose_base none path = accepted default_base

-- `CharacterSpec.from_mapping`
unfoldable pub spec_from_mapping : Value → Text → Checked CharacterSpec
unfolding require_object reject_extra_fields require_fields item get_default is_text read_name
    read_slug choose_slug read_palette read_components choose_base enum decimal_in
    proportions_from_mapping text_leb lookup
spec_from_mapping raw path = do
  value ← require_object raw path
  reject_extra_fields value spec_fields path
  require_fields value required_spec_fields path
  version ← item value (codes "spec_version")
  reject_if (not (is_text version spec_version_1)) ContractCode.unsupported_version
      (below path "spec_version")
  named ← item value (codes "name")
  name ← read_name named (below path "name")
  slugged ← choose_slug (lookup (codes "slug") value) name
  slug ← read_slug slugged (below path "slug")
  colors ← item value (codes "palette")
  palette ← read_palette colors (below path "palette")
  components ←
      read_components (get_default value (codes "components") (Value.array Items.nil))
        (below path "components")
  base ← choose_base (lookup (codes "base") value) (below path "base")
  styled ← item value (codes "style")
  style ← enum styled (below path "style") styles
  height ← item value (codes "height_mm")
  height_mm ← decimal_in height (below path "height_mm") (whole 25) (whole 250)
  posed ← item value (codes "pose")
  pose ← enum posed (below path "pose") poses
  scales ← item value (codes "proportions")
  proportions ← proportions_from_mapping scales (below path "proportions")
  material_preset ←
      enum (get_default value (codes "material_preset") (Value.text (codes "matte")))
        (below path "material_preset") material_presets
  eye_preset ←
      enum (get_default value (codes "eye_preset") (Value.text (codes "round")))
        (below path "eye_preset") eye_presets
  accepted (record {
    spec_version = spec_version_1;
    name = name;
    slug = slug;
    style = style;
    height_mm = height_mm;
    pose = pose;
    palette = palette;
    proportions = proportions;
    material_preset = material_preset;
    eye_preset = eye_preset;
    components = sort_by text_leb components;
    base = base;
  })

-- `CharacterSpec.to_dict`
unfoldable pub spec_to_dict : CharacterSpec → Value
unfolding base_to_dict proportions_to_dict items fields
spec_to_dict s = Value.object (
    fields (
      (codes "base", base_to_dict s.base)
      ∷ (codes "components", Value.array (items (map Value.text s.components)))
      ∷ (codes "eye_preset", Value.text s.eye_preset)
      ∷ (codes "height_mm", Value.number s.height_mm)
      ∷ (codes "material_preset", Value.text s.material_preset)
      ∷ (codes "name", Value.text s.name)
      ∷ (codes "palette", Value.array (items (map Value.text s.palette)))
      ∷ (codes "pose", Value.text s.pose)
      ∷ (codes "proportions", proportions_to_dict s.proportions)
      ∷ (codes "slug", Value.text s.slug)
      ∷ (codes "spec_version", Value.text s.spec_version)
      ∷ (codes "style", Value.text s.style)
      ∷ []))
