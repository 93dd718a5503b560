-- ===== src/Shared/Tests.antt =====
-- Concrete runs of the shared contracts.
use headless_blender_charact.Prelude.{
  String, [], arith, false, length, nat_eq, refl, string_eq, true, ◌↔◌, ◌∷◌, ◌≡◌, ◌≤◌,
}
use headless_blender_charact.Shared.Character.Handled.{raises_key_error}
use headless_blender_charact.Shared.Character.Total.{request_from_mapping_handled}
use headless_blender_charact.Shared.Rejection.{Text, accepted, is_blank, passes}
use headless_blender_charact.Shared.Decimal.{
  Decimal, adjusted_magnitude, bounded_decimal, canonical_finite, canonical_number, decimal_below,
  digits, digits_within, down, plain_digits, rstrip, strip_fraction, up, validate_decimal_bounds, ℤ,
}
use headless_blender_charact.Shared.Decimal.Forms.{canonical_number-same}
use headless_blender_charact.Service.Patterns.{
  codes, ends, headed, is_alnum, is_digit, is_lower, is_lower_alnum,
}
use headless_blender_charact.Service.Contract.{list_eq, same_list}
use headless_blender_charact.Service.Dict.{lookup}
use headless_blender_charact.Shared.Json.{
  Fields, Value, among, check_nesting, elements, entries, fields, items, keys_of,
  reject_extra_fields, require_fields, require_object,
}
use headless_blender_charact.Shared.Json.Nesting.{check_nesting-height, height}
use headless_blender_charact.Shared.Json.Canonical.{
  canonical_fragment, canonical_json_bytes, comma_join, dumps_text, encode_utf8, escape_character,
  escape_text, join_members, join_object, text_leb, utf8_character,
}
use headless_blender_charact.Shared.Json.Canonical.Order.{
  SameDocument, SameFields, canonical_json_bytes-SameDocument,
}
use headless_blender_charact.Shared.Slug.{
  color_pattern, dash_runs, lower_ascii, lstrip, name_pattern, safe_slug_from_name, slug_from,
  slug_pattern, slug_text,
}
use headless_blender_charact.Shared.Slug.Valid.{safe_slug_from_name-IsSlug}
use headless_blender_charact.Shared.Readers.{
  bounded_decimal_value, collect, decimal_in, enum, get_default, indexed_path, is_text, item,
  tenths, whole,
}
use headless_blender_charact.Shared.Character.Parts.{default_base, proportions_from_mapping}
use headless_blender_charact.Shared.Character.Spec.{
  CharacterSpec, choose_base, choose_slug, read_color, read_components, read_name, read_palette,
  read_slug, spec_from_mapping, spec_version_1,
}
use headless_blender_charact.Shared.Character.Request.{
  BuildRequest, request_from_mapping, request_to_dict, require_constants,
}
use headless_blender_charact.Shared.Character.Bounds.{IsSpec, spec_from_mapping-IsSpec}
use headless_blender_charact.Shared.Character.Again.{request_from_mapping-request_to_dict}

abbrev one_point_zero : Decimal
one_point_zero = Decimal.finite false 10 (ℤ.negsuc 0)

one_text : canonical_number (whole 1) ≡ accepted (codes "1")
unfolding canonical_number bounded_decimal validate_decimal_bounds digits digits_within up down
    adjusted_magnitude canonical_finite strip_fraction plain_digits rstrip
one_text = refl

one_point_zero_text : canonical_number one_point_zero ≡ accepted (codes "1")
unfolding canonical_number bounded_decimal validate_decimal_bounds digits digits_within up down
    adjusted_magnitude canonical_finite strip_fraction plain_digits rstrip
one_point_zero_text = refl

small_text : canonical_number (Decimal.finite true 1250 (ℤ.negsuc 5)) ≡ accepted (codes "-0.00125")
unfolding canonical_number bounded_decimal validate_decimal_bounds digits digits_within up down
    adjusted_magnitude canonical_finite strip_fraction plain_digits rstrip
small_text = refl

one_not_below : decimal_below (whole 1) one_point_zero ≡ false
unfolding decimal_below up down
one_not_below = refl

one_not_above : decimal_below one_point_zero (whole 1) ≡ false
unfolding decimal_below up down
one_not_above = refl

canonical_number-same_example : codes "1" ≡ codes "1"
canonical_number-same_example =
    canonical_number-same (whole 1) one_point_zero (codes "1") (codes "1") one_text
      one_point_zero_text one_not_below one_not_above

-- {"b": 1, "a": null} and {"a": null, "b": 1.0}
abbrev first_form : Value
first_form = Value.object (
    Fields.field (codes "b") (Value.number (whole 1))
      (Fields.field (codes "a") Value.null Fields.end))

abbrev second_form : Value
second_form = Value.object (
    Fields.field (codes "a") Value.null
      (Fields.field (codes "b") (Value.number one_point_zero) Fields.end))

same_forms : SameDocument first_form second_form
same_forms = SameDocument.objects (
    SameFields.then_fields
      (SameFields.exchange (codes "b") (codes "a") (Value.number (whole 1)) Value.null Fields.end
        (λ e. ground (arith, e)))
      (SameFields.fields_too (codes "a") (SameDocument.same Value.null) (
        SameFields.fields_too (codes "b")
          (SameDocument.numbers (whole 1) one_point_zero (codes "1") (codes "1") one_text
            one_point_zero_text one_not_below one_not_above)
          SameFields.no_fields)))

canonical_json_bytes-SameDocument_example :
    canonical_json_bytes first_form ≡ canonical_json_bytes second_form
canonical_json_bytes-SameDocument_example = canonical_json_bytes-SameDocument same_forms

first_form_bytes : canonical_json_bytes first_form ≡ accepted (codes "{\"a\":null,\"b\":1}")
unfolding canonical_json_bytes canonical_fragment join_object join_members dumps_text escape_text
    escape_character comma_join text_leb encode_utf8 utf8_character canonical_number bounded_decimal
    validate_decimal_bounds digits digits_within up down adjusted_magnitude canonical_finite
    strip_fraction plain_digits rstrip
first_form_bytes = refl

check_nesting-height_example :
    (passes (check_nesting 0 first_form) ≡ true) ↔ (height first_form ≤ 32)
check_nesting-height_example = check_nesting-height first_form

cat_name : name_pattern (codes "Robo  Cat's") ≡ true
unfolding name_pattern headed ends is_alnum is_lower_alnum is_lower is_digit
cat_name = refl

cat_slug : safe_slug_from_name (codes "Robo  Cat's") ≡ accepted (codes "robo-cat-s")
unfolding safe_slug_from_name slug_text is_blank dash_runs lower_ascii lstrip rstrip is_lower_alnum
    is_lower is_digit
cat_slug = refl

safe_slug_from_name-IsSlug_example :
    (slug : Text) × (safe_slug_from_name (codes "Robo  Cat's") ≡ accepted slug)
    × (slug_pattern slug ≡ true)
    × (length slug ≤ 48)
safe_slug_from_name-IsSlug_example = safe_slug_from_name-IsSlug (codes "Robo  Cat's") cat_name

abbrev text_of : String → Value
text_of s = Value.text (codes s)

abbrev raw_spec : Value
raw_spec = Value.object (
    fields (
      (codes "spec_version", text_of "character/v1")
      ∷ (codes "name", text_of "Robo Cat")
      ∷ (codes "style", text_of "chibi")
      ∷ (codes "height_mm", Value.number (Decimal.finite false 12 (ℤ.pos 1)))
      ∷ (codes "pose", text_of "wave")
      ∷ (codes "palette", Value.array (items (text_of "#00FF7A" ∷ text_of "#101010" ∷ [])))
      ∷ (
        codes "proportions",
        Value.object (
            fields (
              (codes "limb_scale", Value.number (whole 1))
              ∷ (codes "head_scale", Value.number (tenths 15))
              ∷ [])),
      )
      ∷ (codes "components", Value.array (items (text_of "stub-tail" ∷ text_of "backpack" ∷ [])))
      ∷ []))

abbrev read_spec : CharacterSpec
read_spec = record {
  spec_version = spec_version_1;
  name = codes "Robo Cat";
  slug = codes "robo-cat";
  style = codes "chibi";
  height_mm = Decimal.finite false 12 (ℤ.pos 1);
  pose = codes "wave";
  palette = codes "#00FF7A" ∷ codes "#101010" ∷ [];
  proportions = record { head_scale = tenths 15; body_scale = whole 1; limb_scale = whole 1 };
  material_preset = codes "matte";
  eye_preset = codes "round";
  components = codes "backpack" ∷ codes "stub-tail" ∷ [];
  base = default_base;
}

spec_read : spec_from_mapping raw_spec (codes "$.spec") ≡ accepted read_spec
unfolding spec_from_mapping require_object entries fields reject_extra_fields keys_of among
    require_fields lookup item get_default same_list is_text read_name read_slug choose_slug
    read_palette read_components choose_base enum decimal_in proportions_from_mapping text_leb
    elements items collect read_color color_pattern indexed_path name_pattern slug_pattern slug_from
    headed ends is_alnum is_lower_alnum is_lower is_digit safe_slug_from_name slug_text is_blank
    dash_runs lower_ascii lstrip rstrip bounded_decimal_value bounded_decimal
    validate_decimal_bounds decimal_below digits digits_within up down adjusted_magnitude
spec_read = refl

spec_from_mapping-IsSpec_example : IsSpec read_spec
spec_from_mapping-IsSpec_example =
    spec_from_mapping-IsSpec raw_spec (codes "$.spec") read_spec spec_read

abbrev raw_request : Value
raw_request = Value.object (
    fields (
      (codes "request_version", text_of "build/v1")
      ∷ (codes "generator", text_of "geometric-character@1.0.0")
      ∷ (codes "spec", raw_spec)
      ∷ (codes "output_profile", text_of "complete-v1")
      ∷ (codes "render_profile", text_of "diagnostic-v1")
      ∷ (codes "quality_profile", text_of "geometry-v1")
      ∷ []))

abbrev read_request : BuildRequest
read_request = record {
  request_version = codes "build/v1";
  generator = codes "geometric-character@1.0.0";
  spec = read_spec;
  output_profile = codes "complete-v1";
  render_profile = codes "diagnostic-v1";
  quality_profile = codes "geometry-v1";
}

request_read : request_from_mapping raw_request ≡ accepted read_request
unfolding request_from_mapping require_object entries fields reject_extra_fields keys_of among
    require_fields require_constants lookup item same_list is_text
request_read = rw spec_read refl

request_from_mapping-request_to_dict_example :
    request_from_mapping (request_to_dict read_request) ≡ accepted read_request
request_from_mapping-request_to_dict_example =
    request_from_mapping-request_to_dict raw_request read_request request_read

request_from_mapping_handled_example : raises_key_error (request_from_mapping first_form) ≡ false
request_from_mapping_handled_example = request_from_mapping_handled first_form
