-- ===== src/Shared/Character/Bounds.antt =====
-- What the readers of shared/character_spec.py let through: every part of an accepted specification
-- is within its limits.
use headless_blender_charact.Prelude.{
  false, length, ltb, nat_eq, not, refl, string_eq, sym, true, ◌||◌, ◌≡◌,
}
use headless_blender_charact.Shared.Rejection.{
  ContractCode, Ensures, Text, accepted, accepted-injective, Ensures-accepted, Ensures-bind,
  reject_if, reject_if_passed,
}
use headless_blender_charact.Service.Patterns.{codes}
use headless_blender_charact.Service.Contract.{list_eq}
use headless_blender_charact.Service.Dict.{lookup}
use headless_blender_charact.Shared.Json.{
  Items, Value, among, reject_extra_fields, require_fields, require_object,
}
use headless_blender_charact.Shared.Slug.{name_pattern, slug_pattern}
use headless_blender_charact.Shared.Readers.{decimal_in, enum, get_default, is_text, item, whole}
use headless_blender_charact.Shared.Readers.Accepted.{decimal_in-within, enum-among, within}
use headless_blender_charact.Shared.Character.Parts.{below, proportions_from_mapping}
use headless_blender_charact.Shared.Character.Spec.{
  CharacterSpec, choose_base, choose_slug, eye_presets, material_presets, poses, read_components,
  read_name, read_palette, read_slug, required_spec_fields, spec_fields, spec_from_mapping,
  spec_version_1, styles,
}
use headless_blender_charact.Shared.Character.Limits.{
  IsBase, IsProportions, IsBase-chosen, IsProportions-ensured,
}
use headless_blender_charact.Shared.Character.Choices.{
  IsComponents, IsPalette, IsComponents-read, IsPalette-read,
}

-- A specification within its limits, part by part.
pub record IsSpec (s : CharacterSpec) : Type 0 where
  pub version_known : s.spec_version ≡ spec_version_1
  pub name_valid : (ltb 64 (length s.name) || not (name_pattern s.name)) ≡ false
  pub slug_valid : (ltb 48 (length s.slug) || not (slug_pattern s.slug)) ≡ false
  pub style_known : among s.style styles ≡ true
  pub height_within : within (whole 25) (whole 250) s.height_mm ≡ true
  pub pose_known : among s.pose poses ≡ true
  pub palette_valid : IsPalette s.palette
  pub proportions_valid : IsProportions s.proportions
  pub material_known : among s.material_preset material_presets ≡ true
  pub eye_known : among s.eye_preset eye_presets ≡ true
  pub components_valid : IsComponents s.components
  pub base_valid : IsBase s.base

name_read :
    (v : Value) (p s : Text)
    → read_name v p ≡ accepted s
    → (ltb 64 (length s) || not (name_pattern s)) ≡ false
unfolding read_name
name_read (Value.text t) p s h =
    let (known, last) =
      reject_if_passed (ltb 64 (length t) || not (name_pattern t)) ContractCode.invalid_name p
        (accepted t) s h in
    rw (sym (accepted-injective last)) known
name_read Value.null p s h = cc
name_read (Value.boolean b) p s h = cc
name_read (Value.number d) p s h = cc
name_read (Value.integer b n) p s h = cc
name_read (Value.array vs) p s h = cc
name_read (Value.object fs) p s h = cc

slug_read :
    (v : Value) (p s : Text)
    → read_slug v p ≡ accepted s
    → (ltb 48 (length s) || not (slug_pattern s)) ≡ false
unfolding read_slug
slug_read (Value.text t) p s h =
    let (known, last) =
      reject_if_passed (ltb 48 (length t) || not (slug_pattern t)) ContractCode.invalid_slug p
        (accepted t) s h in
    rw (sym (accepted-injective last)) known
slug_read Value.null p s h = cc
slug_read (Value.boolean b) p s h = cc
slug_read (Value.number d) p s h = cc
slug_read (Value.integer b n) p s h = cc
slug_read (Value.array vs) p s h = cc
slug_read (Value.object fs) p s h = cc

IsSpec-ensured : (raw : Value) (path : Text) → Ensures IsSpec (spec_from_mapping raw path)
unfolding spec_from_mapping
IsSpec-ensured raw path = Ensures-bind (require_object raw path) λ value _.
    Ensures-bind (reject_extra_fields value spec_fields path) λ _ _.
      Ensures-bind (require_fields value required_spec_fields path) λ _ _.
        Ensures-bind (item value (codes "spec_version")) λ version _.
          let version_path = below path "spec_version" in
          Ensures-bind
            (reject_if (not (is_text version spec_version_1)) ContractCode.unsupported_version
              version_path)
            λ _ _. Ensures-bind (item value (codes "name")) λ named _.
              Ensures-bind (read_name named (below path "name")) λ name hname.
                Ensures-bind (choose_slug (lookup (codes "slug") value) name) λ slugged _.
                  Ensures-bind (read_slug slugged (below path "slug")) λ slug hslug.
                    Ensures-bind (item value (codes "palette")) λ colors _.
                      Ensures-bind (read_palette colors (below path "palette")) λ palette hpalette.
                        let listed =
                          get_default value (codes "components") (Value.array Items.nil) in
                        Ensures-bind (read_components listed (below path "components"))
                          λ components hcomponents.
                            Ensures-bind
                              (choose_base (lookup (codes "base") value) (below path "base"))
                              λ base hbase. Ensures-bind (item value (codes "style")) λ styled _.
                                Ensures-bind (enum styled (below path "style") styles)
                                  λ style hstyle.
                                    Ensures-bind (item value (codes "height_mm")) λ height _.
                                      Ensures-bind
                                        (decimal_in height (below path "height_mm") (whole 25)
                                          (whole 250))
                                        λ height_mm hheight.
                                          Ensures-bind (item value (codes "pose")) λ posed _.
                                            Ensures-bind (enum posed (below path "pose") poses)
                                              λ pose hpose.
                                                Ensures-bind (item value (codes "proportions"))
                                                  λ scales _.
                                                    Ensures-bind
                                                      (proportions_from_mapping scales
                                                        (below path "proportions"))
                                                      λ proportions hproportions.
                                                        let matte =
                                                          get_default value
                                                            (codes "material_preset")
                                                            (Value.text (codes "matte")) in
                                                        Ensures-bind
                                                          (enum matte (below path "material_preset")
                                                            material_presets)
                                                          λ material hmaterial.
                                                            let round =
                                                            get_default value (codes "eye_preset")
                                                            (Value.text (codes "round")) in
                                                            Ensures-bind
                                                            (enum round (below path "eye_preset")
                                                            eye_presets)
                                                            λ eye heye. Ensures-accepted (record {
                                                            version_known = refl;
                                                            name_valid =
                                                            name_read named (below path "name") name
                                                            hname;
                                                            slug_valid =
                                                            slug_read slugged (below path "slug")
                                                            slug hslug;
                                                            style_known =
                                                            enum-among styled (below path "style")
                                                            styles style hstyle;
                                                            height_within =
                                                            decimal_in-within height
                                                            (below path "height_mm") _ _ height_mm
                                                            hheight;
                                                            pose_known =
                                                            enum-among posed (below path "pose")
                                                            poses pose hpose;
                                                            palette_valid =
                                                            IsPalette-read colors
                                                            (below path "palette") palette hpalette;
                                                            proportions_valid =
                                                            (IsProportions-ensured scales
                                                            (below path "proportions")).ensured
                                                            proportions hproportions;
                                                            material_known =
                                                            enum-among matte
                                                            (below path "material_preset")
                                                            material_presets material hmaterial;
                                                            eye_known =
                                                            enum-among round
                                                            (below path "eye_preset") eye_presets
                                                            eye heye;
                                                            components_valid =
                                                            IsComponents-read listed
                                                            (below path "components") components
                                                            hcomponents;
                                                            base_valid =
                                                            IsBase-chosen
                                                            (lookup (codes "base") value)
                                                            (below path "base") base hbase;
                                                            })

-- Whatever `CharacterSpec.from_mapping` accepts is within all limits: name, slug, presets, heights,
-- scales, palette, components and base, where numbers are compared as decimals.
pub spec_from_mapping-IsSpec :
    (raw : Value) (path : Text) (s : CharacterSpec)
    → spec_from_mapping raw path ≡ accepted s
    → IsSpec s
spec_from_mapping-IsSpec raw path s h = (IsSpec-ensured raw path).ensured s h
