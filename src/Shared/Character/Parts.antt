-- ===== src/Shared/Character/Parts.antt =====
-- shared/character_spec.py: `Proportions` and `BaseSpec`.
use headless_blender_charact.Prelude.{
  List, String, [], if◌then◌else◌, nat_eq, string_eq, ◌++◌, ◌==◌, ◌∷◌,
}
use headless_blender_charact.Shared.Rejection.{Checked, Text, accepted, ◌>>=◌, ◌>>◌}
use headless_blender_charact.Shared.Decimal.{Decimal}
use headless_blender_charact.Service.Patterns.{codes}
use headless_blender_charact.Service.Contract.{list_eq}
use headless_blender_charact.Shared.Json.{
  Fields, Value, reject_extra_fields, require_fields, require_object,
}
use headless_blender_charact.Shared.Readers.{decimal_in, enum, get_default, item, tenths, whole}

pub record Proportions : Type 0 where
  pub head_scale : Decimal
  pub body_scale : Decimal
  pub limb_scale : Decimal

-- `path + ".name"`
abbrev pub below : Text → String → Text
below path name = path ++ b'.' ∷ codes name

-- `Proportions.from_mapping`
unfoldable pub proportions_from_mapping : Value → Text → Checked Proportions
unfolding require_object reject_extra_fields require_fields item get_default decimal_in
proportions_from_mapping raw path = do
  value ← require_object raw path
  reject_extra_fields value (codes "head_scale" ∷ codes "body_scale" ∷ codes "limb_scale" ∷ []) path
  require_fields value (codes "head_scale" ∷ codes "limb_scale" ∷ []) path
  head ← item value (codes "head_scale")
  head_scale ← decimal_in head (below path "head_scale") (tenths 7) (tenths 16)
  body_scale ←
      decimal_in (get_default value (codes "body_scale") (Value.number (whole 1)))
        (below path "body_scale") (tenths 7) (tenths 14)
  limb ← item value (codes "limb_scale")
  limb_scale ← decimal_in limb (below path "limb_scale") (tenths 7) (tenths 13)
  accepted (record { head_scale = head_scale; body_scale = body_scale; limb_scale = limb_scale })

-- `Proportions.to_dict`
unfoldable pub proportions_to_dict : Proportions → Value
proportions_to_dict p = Value.object (
    Fields.field (codes "body_scale") (Value.number p.body_scale) (
      Fields.field (codes "head_scale") (Value.number p.head_scale)
        (Fields.field (codes "limb_scale") (Value.number p.limb_scale) Fields.end)))

pub record BaseSpec : Type 0 where
  pub preset : Text
  pub width_mm : Decimal
  pub depth_mm : Decimal
  pub height_mm : Decimal

abbrev pub base_presets : List Text
base_presets = codes "none" ∷ codes "round" ∷ codes "square" ∷ codes "hexagonal" ∷ []

abbrev pub base_fields : List Text
base_fields = codes "preset" ∷ codes "width_mm" ∷ codes "depth_mm" ∷ codes "height_mm" ∷ []

-- The least and the largest width and depth, then height, of a preset.
unfoldable pub side_limits : Text → Decimal × Decimal
side_limits preset = if preset == codes "none" then (whole 0, whole 0) else (whole 20, whole 160)

unfoldable pub height_limits : Text → Decimal × Decimal
height_limits preset = if preset == codes "none" then (whole 0, whole 0) else (whole 2, whole 25)

-- `BaseSpec.from_mapping`
unfoldable pub base_from_mapping : Value → Text → Checked BaseSpec
unfolding require_object reject_extra_fields require_fields item enum decimal_in side_limits
    height_limits
base_from_mapping raw path = do
  value ← require_object raw path
  reject_extra_fields value base_fields path
  require_fields value base_fields path
  chosen ← item value (codes "preset")
  preset ← enum chosen (below path "preset") base_presets
  width ← item value (codes "width_mm")
  width_mm ← decimal_in width (below path "width_mm") (side_limits preset).0 (side_limits preset).1
  depth ← item value (codes "depth_mm")
  depth_mm ← decimal_in depth (below path "depth_mm") (side_limits preset).0 (side_limits preset).1
  height ← item value (codes "height_mm")
  height_mm ←
      decimal_in height (below path "height_mm") (height_limits preset).0 (height_limits preset).1
  accepted
      (record { preset = preset; width_mm = width_mm; depth_mm = depth_mm; height_mm = height_mm })

-- `BaseSpec.default`
abbrev pub default_base : BaseSpec
default_base = record {
  preset = codes "round";
  width_mm = whole 48;
  depth_mm = whole 48;
  height_mm = whole 5;
}

-- `BaseSpec.to_dict`
unfoldable pub base_to_dict : BaseSpec → Value
base_to_dict b = Value.object (
    Fields.field (codes "depth_mm") (Value.number b.depth_mm) (
      Fields.field (codes "height_mm") (Value.number b.height_mm) (
        Fields.field (codes "preset") (Value.text b.preset)
          (Fields.field (codes "width_mm") (Value.number b.width_mm) Fields.end))))
