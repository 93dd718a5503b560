-- ===== src/Shared/Character/Limits.antt =====
-- The limits of proportions and bases, shared/character_spec.py, and that the readers keep to them.
use headless_blender_charact.Prelude.{Option, [], none, refl, some, subst, true, ◌∷◌, ◌≡◌}
use headless_blender_charact.Shared.Rejection.{
  Ensures, Text, accepted, accepted-injective, Ensures-accepted, Ensures-bind, passes,
}
use headless_blender_charact.Shared.Decimal.{decimal_below, validate_decimal_bounds}
use headless_blender_charact.Service.Patterns.{codes}
use headless_blender_charact.Service.Contract.{same_list}
use headless_blender_charact.Shared.Json.{
  Value, among, reject_extra_fields, require_fields, require_object,
}
use headless_blender_charact.Shared.Readers.{decimal_in, enum, get_default, item, tenths, whole}
use headless_blender_charact.Shared.Readers.Accepted.{decimal_in-within, enum-among, within}
use headless_blender_charact.Shared.Character.Parts.{
  BaseSpec, Proportions, base_fields, base_from_mapping, base_presets, below, default_base,
  height_limits, proportions_from_mapping, side_limits,
}
use headless_blender_charact.Shared.Character.Spec.{choose_base}

pub record IsProportions (p : Proportions) : Type 0 where
  pub head_within : within (tenths 7) (tenths 16) p.head_scale ≡ true
  pub body_within : within (tenths 7) (tenths 14) p.body_scale ≡ true
  pub limb_within : within (tenths 7) (tenths 13) p.limb_scale ≡ true

pub IsProportions-ensured :
    (raw : Value) (path : Text) → Ensures IsProportions (proportions_from_mapping raw path)
unfolding proportions_from_mapping
IsProportions-ensured raw path =
    let allowed = codes "head_scale" ∷ codes "body_scale" ∷ codes "limb_scale" ∷ [] in
    let required = codes "head_scale" ∷ codes "limb_scale" ∷ [] in
    Ensures-bind (require_object raw path) λ value _.
      Ensures-bind (reject_extra_fields value allowed path) λ _ _.
        Ensures-bind (require_fields value required path) λ _ _.
          Ensures-bind (item value (codes "head_scale")) λ head _.
            Ensures-bind (decimal_in head (below path "head_scale") (tenths 7) (tenths 16)) λ x hx.
              let body = get_default value (codes "body_scale") (Value.number (whole 1)) in
              Ensures-bind (decimal_in body (below path "body_scale") (tenths 7) (tenths 14))
                λ y hy. Ensures-bind (item value (codes "limb_scale")) λ limb _.
                  Ensures-bind (decimal_in limb (below path "limb_scale") (tenths 7) (tenths 13))
                    λ z hz. Ensures-accepted (record {
                      head_within = decimal_in-within head (below path "head_scale") _ _ x hx;
                      body_within = decimal_in-within body (below path "body_scale") _ _ y hy;
                      limb_within = decimal_in-within limb (below path "limb_scale") _ _ z hz;
                    })

pub record IsBase (b : BaseSpec) : Type 0 where
  pub preset_known : among b.preset base_presets ≡ true
  pub width_within : within (side_limits b.preset).0 (side_limits b.preset).1 b.width_mm ≡ true
  pub depth_within : within (side_limits b.preset).0 (side_limits b.preset).1 b.depth_mm ≡ true
  pub height_within :
      within (height_limits b.preset).0 (height_limits b.preset).1 b.height_mm ≡ true

pub IsBase-ensured : (raw : Value) (path : Text) → Ensures IsBase (base_from_mapping raw path)
unfolding base_from_mapping
IsBase-ensured raw path = Ensures-bind (require_object raw path) λ value _.
    Ensures-bind (reject_extra_fields value base_fields path) λ _ _.
      Ensures-bind (require_fields value base_fields path) λ _ _.
        Ensures-bind (item value (codes "preset")) λ chosen _.
          Ensures-bind (enum chosen (below path "preset") base_presets) λ preset known.
            let (low, high) = side_limits preset in
            Ensures-bind (item value (codes "width_mm")) λ width _.
              Ensures-bind (decimal_in width (below path "width_mm") low high) λ x hx.
                Ensures-bind (item value (codes "depth_mm")) λ depth _.
                  Ensures-bind (decimal_in depth (below path "depth_mm") low high) λ y hy.
                    let (least, most) = height_limits preset in
                    Ensures-bind (item value (codes "height_mm")) λ height _.
                      Ensures-bind (decimal_in height (below path "height_mm") least most) λ z hz.
                        Ensures-accepted (record {
                          preset_known =
                              enum-among chosen (below path "preset") base_presets preset known;
                          width_within = decimal_in-within width (below path "width_mm") _ _ x hx;
                          depth_within = decimal_in-within depth (below path "depth_mm") _ _ y hy;
                          height_within =
                              decimal_in-within height (below path "height_mm") _ _ z hz;
                        })

default_base_within : IsBase default_base
unfolding within side_limits height_limits among same_list passes validate_decimal_bounds
    decimal_below
default_base_within = record {
  preset_known = refl;
  width_within = refl;
  depth_within = refl;
  height_within = refl;
}

pub IsBase-chosen :
    (v : Option Value) (p : Text) (b : BaseSpec) → choose_base v p ≡ accepted b → IsBase b
unfolding choose_base
IsBase-chosen (some v) p b h = (IsBase-ensured v p).ensured b h
IsBase-chosen none p b h = subst IsBase (accepted-injective h) default_base_within
