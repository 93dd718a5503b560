-- ===== src/Shared/Character/Again.antt =====
-- What is accepted is accepted again, in the form `to_dict` gives it, shared/character_spec.py.
use headless_blender_charact.Prelude.{
  List, [], ap, ap₂, length, map, nat_eq, refl, string_eq, subst, suc, sym, true, ◌∷◌, ◌≡◌,
}
use headless_blender_charact.Shared.Rejection.{
  Ensures, Ensures-accepted, Ensures-bind, Text, accepted, root,
}
use headless_blender_charact.Service.Patterns.{codes}
use headless_blender_charact.Service.Contract.{list_eq, same_list, same_list_self}
use headless_blender_charact.Service.Dict.{lookup}
use headless_blender_charact.Shared.Json.{
  Value, among, elements, entries, fields, items, keys_of, reject_extra_fields, require_fields,
  require_object,
}
use headless_blender_charact.Shared.Slug.{color_pattern}
use headless_blender_charact.Shared.Readers.{get_default, is_text, item}
use headless_blender_charact.Shared.Readers.Accepted.{among-enum, fresh-collect, within-decimal_in}
use headless_blender_charact.Shared.Character.Parts.{
  BaseSpec, Proportions, base_from_mapping, base_presets, base_to_dict, below,
  proportions_from_mapping, proportions_to_dict,
}
use headless_blender_charact.Shared.Character.Spec.{
  CharacterSpec, choose_base, choose_slug, component_presets, eye_presets, material_presets, poses,
  read_color, read_component, read_components, read_name, read_palette, read_slug,
  spec_from_mapping, spec_to_dict, spec_version_1, styles,
}
use headless_blender_charact.Shared.Character.Request.{
  BuildRequest, request_constants, request_fields, request_from_mapping, request_to_dict,
  require_constants,
}
use headless_blender_charact.Shared.Character.Bounds.{IsSpec, spec_from_mapping-IsSpec}
use headless_blender_charact.Shared.Character.Limits.{IsBase, IsProportions}
use headless_blender_charact.Shared.Character.Choices.{IsComponents, IsPalette}

proportions_again :
    (p : Proportions) (path : Text)
    → IsProportions p
    → proportions_from_mapping (proportions_to_dict p) path ≡ accepted p
unfolding proportions_from_mapping proportions_to_dict require_object entries reject_extra_fields
    keys_of among require_fields lookup item get_default same_list
proportions_again p path h =
    rw (within-decimal_in (below path "head_scale") _ _ p.head_scale h.head_within) (
      rw (within-decimal_in (below path "body_scale") _ _ p.body_scale h.body_within)
        (rw (within-decimal_in (below path "limb_scale") _ _ p.limb_scale h.limb_within) refl))

base_again :
    (b : BaseSpec) (path : Text) → IsBase b → base_from_mapping (base_to_dict b) path ≡ accepted b
unfolding base_from_mapping base_to_dict require_object entries reject_extra_fields keys_of among
    require_fields lookup item get_default same_list
base_again b path h = rw (among-enum (below path "preset") base_presets b.preset h.preset_known) (
    rw (within-decimal_in (below path "width_mm") _ _ b.width_mm h.width_within) (
      rw (within-decimal_in (below path "depth_mm") _ _ b.depth_mm h.depth_within)
        (rw (within-decimal_in (below path "height_mm") _ _ b.height_mm h.height_within) refl)))

elements-items : (l : List Value) → elements (items l) ≡ l
unfolding elements items
elements-items [] = refl
elements-items (v ∷ l) = ap (◌∷◌ v) (elements-items l)

length-map : (l : List Text) → length (map Value.text l) ≡ length l
length-map [] = refl
length-map (x ∷ l) = ap suc (length-map l)

color_again : (p s : Text) → color_pattern s ≡ true → read_color (Value.text s) p ≡ accepted s
unfolding read_color
color_again p s h = rw h refl

palette_again :
    (l : List Text) (path : Text)
    → IsPalette l
    → read_palette (Value.array (items (map Value.text l))) path ≡ accepted l
unfolding read_palette
palette_again l path h = rw (elements-items (map Value.text l)) (
    rw (length-map l) (
      rw h.size_known (
        fresh-collect read_color color_pattern color_again path 0 [] l h.colors_valid
          h.colors_fresh)))

components_again :
    (l : List Text) (path : Text)
    → IsComponents l
    → read_components (Value.array (items (map Value.text l))) path ≡ accepted l
unfolding read_components
components_again l path h =
    let collected =
      fresh-collect read_component (λ s. among s component_presets)
        (λ p s e. among-enum p component_presets s e) path 0 [] l h.presets_known h.presets_fresh in
    rw (elements-items (map Value.text l))
      (rw (length-map l) (rw h.size_known (rw collected (rw h.tails_apart refl))))

equal_itself : (a b : Text) → b ≡ a → same_list b a ≡ true
equal_itself a b e = rw e (same_list_self a)

spec_again :
    (s : CharacterSpec) (path : Text)
    → IsSpec s
    → spec_from_mapping (spec_to_dict s) path ≡ accepted s
unfolding spec_from_mapping spec_to_dict require_object entries fields reject_extra_fields keys_of
    among require_fields lookup item get_default same_list is_text choose_slug choose_base read_name
    read_slug
spec_again s path h = rw (equal_itself spec_version_1 s.spec_version h.version_known) (
    rw h.name_valid (
      rw h.slug_valid (
        rw (palette_again s.palette (below path "palette") h.palette_valid) (
          rw (components_again s.components (below path "components") h.components_valid) (
            rw (base_again s.base (below path "base") h.base_valid) (
              rw (among-enum (below path "style") styles s.style h.style_known) (
                rw (within-decimal_in (below path "height_mm") _ _ s.height_mm h.height_within) (
                  rw (among-enum (below path "pose") poses s.pose h.pose_known) (
                    rw
                      (proportions_again s.proportions (below path "proportions")
                        h.proportions_valid)
                      (rw
                        (among-enum (below path "material_preset") material_presets
                          s.material_preset h.material_known)
                        (rw
                          (among-enum (below path "eye_preset") eye_presets s.eye_preset
                            h.eye_known)
                          (ap₂ (λ v c. accepted (record s { spec_version = v; components = c }))
                            (sym h.version_known) h.components_valid.presets_sorted))))))))))))

-- A request within its limits.
pub record IsRequest (r : BuildRequest) : Type 0 where
  pub request_version_known : r.request_version ≡ codes "build/v1"
  pub generator_known : r.generator ≡ codes "geometric-character@1.0.0"
  pub output_known : r.output_profile ≡ codes "complete-v1"
  pub render_known : r.render_profile ≡ codes "diagnostic-v1"
  pub quality_known : r.quality_profile ≡ codes "geometry-v1"
  pub spec_valid : IsSpec r.spec

pub IsRequest-ensured : (raw : Value) → Ensures IsRequest (request_from_mapping raw)
unfolding request_from_mapping
IsRequest-ensured raw = Ensures-bind (require_object raw root) λ value _.
    Ensures-bind (reject_extra_fields value request_fields root) λ _ _.
      Ensures-bind (require_fields value request_fields root) λ _ _.
        Ensures-bind (require_constants value request_constants) λ _ _.
          Ensures-bind (item value (codes "spec")) λ given _.
            Ensures-bind (spec_from_mapping given (codes "$.spec")) λ spec hspec.
              Ensures-accepted (record {
                request_version_known = refl;
                generator_known = refl;
                output_known = refl;
                render_known = refl;
                quality_known = refl;
                spec_valid = spec_from_mapping-IsSpec given (codes "$.spec") spec hspec;
              })

-- the only request with a given specification
abbrev constant_request : CharacterSpec → BuildRequest
constant_request spec = record {
  request_version = codes "build/v1";
  generator = codes "geometric-character@1.0.0";
  spec = spec;
  output_profile = codes "complete-v1";
  render_profile = codes "diagnostic-v1";
  quality_profile = codes "geometry-v1";
}

pub request_again :
    (r : BuildRequest) → IsRequest r → request_from_mapping (request_to_dict r) ≡ accepted r
unfolding request_from_mapping request_to_dict require_object entries fields reject_extra_fields
    keys_of among require_fields require_constants lookup item same_list is_text
request_again r h =
    subst (λ q. request_from_mapping (request_to_dict q) ≡ accepted q) (sym same)
      (rw (spec_again r.spec (codes "$.spec") h.spec_valid) refl)
  where
    same : r ≡ constant_request r.spec
    same = λ i. record {
      request_version = h.request_version_known i;
      generator = h.generator_known i;
      spec = r.spec;
      output_profile = h.output_known i;
      render_profile = h.render_known i;
      quality_profile = h.quality_known i;
    }

-- Validation is idempotent: a request that `BuildRequest.from_mapping` accepted, written out by
-- `to_dict`, is accepted again and gives the same request.
pub request_from_mapping-request_to_dict :
    (raw : Value) (r : BuildRequest)
    → request_from_mapping raw ≡ accepted r
    → request_from_mapping (request_to_dict r) ≡ accepted r
request_from_mapping-request_to_dict raw r h = request_again r ((IsRequest-ensured raw).ensured r h)
