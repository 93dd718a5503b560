-- ===== src/Shared/Character/Total.antt =====
-- The readers of shared/character_spec.py subscript no key that is missing.
use headless_blender_charact.Prelude.{
  List, Option, [], all, arith, between, false, length, ltb, nat_eq, none, not, refl, some,
  string_eq, true, ◌&&◌, ◌++◌, ◌||◌, ◌∷◌, ◌≡◌,
}
use headless_blender_charact.Shared.Rejection.{ContractCode, Text, is_blank, root}
use headless_blender_charact.Service.Patterns.{codes}
use headless_blender_charact.Service.Contract.{list_eq, same_list}
use headless_blender_charact.Service.Dict.{Dict, lookup}
use headless_blender_charact.Shared.Json.{Items, Value, among, elements}
use headless_blender_charact.Shared.Slug.{
  color_pattern, name_pattern, safe_slug_from_name, slug_pattern, slug_text,
}
use headless_blender_charact.Shared.Readers.{collect, get_default, is_text, item, tenths, whole}
use headless_blender_charact.Shared.Character.Parts.{
  base_fields, base_from_mapping, base_presets, below, default_base, height_limits,
  proportions_from_mapping, side_limits,
}
use headless_blender_charact.Shared.Character.Spec.{
  choose_base, choose_slug, component_presets, eye_presets, material_presets, poses, read_color,
  read_component, read_components, read_name, read_palette, read_slug, required_spec_fields,
  spec_fields, spec_from_mapping, spec_version_1, styles,
}
use headless_blender_charact.Shared.Character.Request.{
  request_constants, request_fields, request_from_mapping, require_constants,
}
use headless_blender_charact.Shared.Character.Handled.{
  Handled, Handled-accepted, Handled-bind, Handled-rejection, Handled-then, HasFields,
  collect-Handled, decimal_in-Handled, enum-Handled, is_key_error, item-Handled, object-Handled,
  raises_key_error,
}

proportions_from_mapping-Handled :
    (raw : Value) (p : Text) → Handled (proportions_from_mapping raw p)
unfolding proportions_from_mapping among same_list
proportions_from_mapping-Handled raw p =
    let required = codes "head_scale" ∷ codes "limb_scale" ∷ [] in
    object-Handled raw (codes "head_scale" ∷ codes "body_scale" ∷ codes "limb_scale" ∷ []) required
      p _
      λ d has. Handled-bind _ (item-Handled d required (codes "head_scale") has refl) λ head _.
        Handled-bind _ (decimal_in-Handled head (below p "head_scale") (tenths 7) (tenths 16))
          λ _ _.
            Handled-bind _
              (decimal_in-Handled (get_default d (codes "body_scale") (Value.number (whole 1)))
                (below p "body_scale") (tenths 7) (tenths 14))
              λ _ _.
                Handled-bind _ (item-Handled d required (codes "limb_scale") has refl) λ limb _.
                  Handled-bind _
                    (decimal_in-Handled limb (below p "limb_scale") (tenths 7) (tenths 13))
                    λ _ _. Handled-accepted _

base_from_mapping-Handled : (raw : Value) (p : Text) → Handled (base_from_mapping raw p)
unfolding base_from_mapping among same_list
base_from_mapping-Handled raw p = object-Handled raw base_fields base_fields p _ λ d has.
    Handled-bind _ (item-Handled d base_fields (codes "preset") has refl) λ chosen _.
      Handled-bind _ (enum-Handled chosen (below p "preset") base_presets) λ preset _.
        let (least_side, most_side) = side_limits preset in
        let (least_height, most_height) = height_limits preset in
        Handled-bind _ (item-Handled d base_fields (codes "width_mm") has refl) λ width _.
          Handled-bind _ (decimal_in-Handled width (below p "width_mm") least_side most_side) λ _ _.
            Handled-bind _ (item-Handled d base_fields (codes "depth_mm") has refl) λ depth _.
              Handled-bind _ (decimal_in-Handled depth (below p "depth_mm") least_side most_side)
                λ _ _.
                  Handled-bind _ (item-Handled d base_fields (codes "height_mm") has refl)
                    λ height _.
                      Handled-bind _
                        (decimal_in-Handled height (below p "height_mm") least_height most_height)
                        λ _ _. Handled-accepted _

read_name-Handled : (v : Value) (p : Text) → Handled (read_name v p)
unfolding read_name is_key_error
read_name-Handled (Value.text s) p =
    Handled-then (ltb 64 (length s) || not (name_pattern s)) ContractCode.invalid_name p refl
      (Handled-accepted s)
read_name-Handled Value.null p = Handled-rejection ContractCode.invalid_name p refl
read_name-Handled (Value.boolean b) p = Handled-rejection ContractCode.invalid_name p refl
read_name-Handled (Value.number d) p = Handled-rejection ContractCode.invalid_name p refl
read_name-Handled (Value.integer b n) p = Handled-rejection ContractCode.invalid_name p refl
read_name-Handled (Value.array vs) p = Handled-rejection ContractCode.invalid_name p refl
read_name-Handled (Value.object fs) p = Handled-rejection ContractCode.invalid_name p refl

read_slug-Handled : (v : Value) (p : Text) → Handled (read_slug v p)
unfolding read_slug is_key_error
read_slug-Handled (Value.text s) p =
    Handled-then (ltb 48 (length s) || not (slug_pattern s)) ContractCode.invalid_slug p refl
      (Handled-accepted s)
read_slug-Handled Value.null p = Handled-rejection ContractCode.invalid_slug p refl
read_slug-Handled (Value.boolean b) p = Handled-rejection ContractCode.invalid_slug p refl
read_slug-Handled (Value.number d) p = Handled-rejection ContractCode.invalid_slug p refl
read_slug-Handled (Value.integer b n) p = Handled-rejection ContractCode.invalid_slug p refl
read_slug-Handled (Value.array vs) p = Handled-rejection ContractCode.invalid_slug p refl
read_slug-Handled (Value.object fs) p = Handled-rejection ContractCode.invalid_slug p refl

choose_slug-Handled : (given : Option Value) (name : Text) → Handled (choose_slug given name)
unfolding choose_slug safe_slug_from_name is_key_error
choose_slug-Handled (some v) name = Handled-accepted v
choose_slug-Handled none name =
    Handled-bind (safe_slug_from_name name)
      (Handled-then (is_blank (slug_text name)) ContractCode.invalid_slug (codes "$.spec.name") refl
        (Handled-accepted (slug_text name)))
      λ slug _. Handled-accepted (Value.text slug)

read_color-Handled : (v : Value) (p : Text) → Handled (read_color v p)
unfolding read_color is_key_error
read_color-Handled (Value.text s) p =
    Handled-then (not (color_pattern s)) ContractCode.invalid_color p refl (Handled-accepted s)
read_color-Handled Value.null p = Handled-rejection ContractCode.invalid_color p refl
read_color-Handled (Value.boolean b) p = Handled-rejection ContractCode.invalid_color p refl
read_color-Handled (Value.number d) p = Handled-rejection ContractCode.invalid_color p refl
read_color-Handled (Value.integer b n) p = Handled-rejection ContractCode.invalid_color p refl
read_color-Handled (Value.array vs) p = Handled-rejection ContractCode.invalid_color p refl
read_color-Handled (Value.object fs) p = Handled-rejection ContractCode.invalid_color p refl

read_palette-Handled : (v : Value) (p : Text) → Handled (read_palette v p)
unfolding read_palette is_key_error
read_palette-Handled (Value.array vs) p =
    Handled-then (not (between 1 8 (length (elements vs)))) ContractCode.invalid_palette p refl
      (collect-Handled read_color read_color-Handled p 0 [] (elements vs))
read_palette-Handled Value.null p = Handled-rejection ContractCode.invalid_palette p refl
read_palette-Handled (Value.boolean b) p = Handled-rejection ContractCode.invalid_palette p refl
read_palette-Handled (Value.text s) p = Handled-rejection ContractCode.invalid_palette p refl
read_palette-Handled (Value.number d) p = Handled-rejection ContractCode.invalid_palette p refl
read_palette-Handled (Value.integer b n) p = Handled-rejection ContractCode.invalid_palette p refl
read_palette-Handled (Value.object fs) p = Handled-rejection ContractCode.invalid_palette p refl

read_components-Handled : (v : Value) (p : Text) → Handled (read_components v p)
unfolding read_components is_key_error
read_components-Handled (Value.array vs) p =
    Handled-then (ltb 16 (length (elements vs))) ContractCode.invalid_components p refl (
      Handled-bind (collect read_component p 0 [] (elements vs))
        (collect-Handled read_component (λ v q. enum-Handled v q component_presets) p 0 []
          (elements vs))
        λ components _.
          Handled-then
            (among (codes "stub-tail") components && among (codes "swept-tail") components)
            ContractCode.incompatible_components p refl (Handled-accepted components))
read_components-Handled Value.null p = Handled-rejection ContractCode.invalid_components p refl
read_components-Handled (Value.boolean b) p =
    Handled-rejection ContractCode.invalid_components p refl
read_components-Handled (Value.text s) p = Handled-rejection ContractCode.invalid_components p refl
read_components-Handled (Value.number d) p =
    Handled-rejection ContractCode.invalid_components p refl
read_components-Handled (Value.integer b n) p =
    Handled-rejection ContractCode.invalid_components p refl
read_components-Handled (Value.object fs) p =
    Handled-rejection ContractCode.invalid_components p refl

choose_base-Handled : (given : Option Value) (p : Text) → Handled (choose_base given p)
unfolding choose_base
choose_base-Handled (some v) p = base_from_mapping-Handled v p
choose_base-Handled none p = Handled-accepted default_base

spec_from_mapping-Handled : (raw : Value) (p : Text) → Handled (spec_from_mapping raw p)
unfolding spec_from_mapping among same_list is_key_error
spec_from_mapping-Handled raw p = object-Handled raw spec_fields required_spec_fields p _ λ d has.
    let there : (key : Text) → among key required_spec_fields ≡ true → Handled (item d key) =
      λ key. item-Handled d required_spec_fields key has in
    Handled-bind _ (there (codes "spec_version") refl) λ version _.
      Handled-then (not (is_text version spec_version_1)) ContractCode.unsupported_version
        (below p "spec_version") refl
        (Handled-bind _ (there (codes "name") refl) λ named _.
          Handled-bind _ (read_name-Handled named (below p "name")) λ name _.
            Handled-bind _ (choose_slug-Handled (lookup (codes "slug") d) name) λ slugged _.
              Handled-bind _ (read_slug-Handled slugged (below p "slug")) λ slug _.
                Handled-bind _ (there (codes "palette") refl) λ colors _.
                  Handled-bind _ (read_palette-Handled colors (below p "palette")) λ palette _.
                    Handled-bind _
                      (read_components-Handled
                        (get_default d (codes "components") (Value.array Items.nil))
                        (below p "components"))
                      λ components _.
                        Handled-bind _
                          (choose_base-Handled (lookup (codes "base") d) (below p "base"))
                          λ base _. Handled-bind _ (there (codes "style") refl) λ styled _.
                            Handled-bind _ (enum-Handled styled (below p "style") styles) λ style _.
                              Handled-bind _ (there (codes "height_mm") refl) λ height _.
                                Handled-bind _
                                  (decimal_in-Handled height (below p "height_mm") (whole 25)
                                    (whole 250))
                                  λ _ _. Handled-bind _ (there (codes "pose") refl) λ posed _.
                                    Handled-bind _ (enum-Handled posed (below p "pose") poses)
                                      λ pose _.
                                        Handled-bind _ (there (codes "proportions") refl)
                                          λ scales _.
                                            Handled-bind _
                                              (proportions_from_mapping-Handled scales
                                                (below p "proportions"))
                                              λ _ _.
                                                Handled-bind _
                                                  (enum-Handled
                                                    (get_default d (codes "material_preset")
                                                      (Value.text (codes "matte")))
                                                    (below p "material_preset") material_presets)
                                                  λ _ _.
                                                    Handled-bind _
                                                      (enum-Handled
                                                        (get_default d (codes "eye_preset")
                                                          (Value.text (codes "round")))
                                                        (below p "eye_preset") eye_presets)
                                                      λ _ _. Handled-accepted _)

require_constants-Handled :
    (d : Dict Text Value) (required : List Text) (constants : Dict Text Text)
    → HasFields d required
    → all (λ c. among c.0 required) constants ≡ true
    → Handled (require_constants d constants)
unfolding require_constants is_key_error
require_constants-Handled d required [] has h = Handled-accepted tt
require_constants-Handled d required ((key, expected) ∷ constants) has h =
    Handled-bind (item d key) (item-Handled d required key has (ground arith)) λ v _.
      Handled-then (not (is_text v expected)) ContractCode.unsupported_contract_value
        (codes "$." ++ key) refl (require_constants-Handled d required constants has (ground arith))

-- Reading a build request ends in a request or in a rejection of the contract; it never fails for a key
-- that is missing.
pub request_from_mapping_handled :
    (raw : Value) → raises_key_error (request_from_mapping raw) ≡ false
unfolding request_from_mapping among same_list
request_from_mapping_handled raw =
    (object-Handled raw request_fields request_fields root _ λ d has.
      Handled-bind _ (require_constants-Handled d request_fields request_constants has refl) λ _ _.
        Handled-bind _ (item-Handled d request_fields (codes "spec") has refl) λ given _.
          Handled-bind _ (spec_from_mapping-Handled given (codes "$.spec"))
            λ spec _. Handled-accepted _).handled
