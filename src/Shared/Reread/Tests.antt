-- ===== src/Shared/Reread/Tests.antt =====
-- Concrete runs of decoding, shared/json_contract.py.
use headless_blender_charact.Shared.Reread.Validated.{validate_build_request_bytes_again}
use headless_blender_charact.Shared.Reread.Requests.{
  normal_request, request_from_json-request_canonical_bytes,
}
use headless_blender_charact.Shared.Character.Request.{
  BuildRequest, accepted_or_none, request_canonical_bytes, request_from_json, request_from_mapping,
  request_sha256_of, request_to_dict, require_constants, spec_sha256_of,
  validate_build_request_bytes, validated,
}
use headless_blender_charact.Shared.Character.Spec.{
  CharacterSpec, choose_base, choose_slug, read_color, read_components, read_name, read_palette,
  read_slug, spec_from_mapping, spec_to_dict, spec_version_1,
}
use headless_blender_charact.Shared.Character.Parts.{
  base_to_dict, default_base, proportions_from_mapping, proportions_to_dict,
}
use headless_blender_charact.Shared.Slug.{
  color_pattern, dash_runs, lower_ascii, lstrip, name_pattern, safe_slug_from_name, slug_from,
  slug_pattern, slug_text,
}
use headless_blender_charact.Shared.Readers.{
  bounded_decimal_value, collect, decimal_in, enum, get_default, indexed_path, is_text, item,
  tenths, whole,
}
use headless_blender_charact.Prelude.{
  [], arith, false, nat_eq, none, refl, some, string_eq, true, ◌++◌, ◌∷◌, ◌≡◌, ◌≤◌,
}
use headless_blender_charact.Shared.Rejection.{
  ContractCode, accepted, is_blank, passes, rejection, root,
}
use headless_blender_charact.Shared.Decimal.{
  Decimal, adjusted_magnitude, bounded_decimal, canonical_finite, canonical_number, decimal_below,
  digits, digits_within, down, plain_digits, rstrip, strip_fraction, up, validate_decimal_bounds, ℤ,
}
use headless_blender_charact.Service.Patterns.{
  codes, ends, headed, is_alnum, is_digit, is_lower, is_lower_alnum,
}
use headless_blender_charact.Service.Contract.{Bytes, Environment, Validated, list_eq, same_list}
use headless_blender_charact.Service.Dict.{insert, lookup}
use headless_blender_charact.Shared.Json.{
  Fields, Value, among, check_nesting, duplicates_from, elements, entries, fields, items, keys_of,
  object_without_duplicates, reject_extra_fields, require_fields, require_object,
}
use headless_blender_charact.Shared.Json.Canonical.{
  canonical_fragment, canonical_json_bytes, canonical_sha256, comma_join, dumps_text, encode_utf8,
  escape_character, escape_text, join_members, join_object, text_leb, utf8_character,
}
use headless_blender_charact.Shared.Json.Numbers.{
  bounded_token, decimal_of, finish_number, minus, scan_exponent, scan_fraction, scan_number,
  scan_sign, scan_unsigned, scan_whole, span_figures, value_of,
}
use headless_blender_charact.Shared.Json.Strings.{
  decode_inside, decode_utf8, hex_of, is_no_scalar, join_halves, join_hex, lead_byte,
  scan_character, scan_escape, scan_hex, scan_string, scan_unicode, second_half,
}
use headless_blender_charact.Shared.Json.Decode.{
  behind, decode_json_document, first_of, loads, opening, scan_colon, scan_scalar, scan_value,
  scan_word, skip_space, word_or_number,
}
use headless_blender_charact.Shared.Reread.Normal.{normal, trim}
use headless_blender_charact.Shared.Reread.Numbers.{rereads}
use headless_blender_charact.Shared.Reread.Members.{ascending_keys}
use headless_blender_charact.Shared.Reread.Openings.{normal_value, readable}
use headless_blender_charact.Shared.Json.Nesting.{height}
use headless_blender_charact.Shared.Reread.Whole.{decode_json_document-canonical_json_bytes}

decoded :
    decode_json_document
      (some 65536)
      (codes " {\"a\": [1.50, -2e1, \"x\\u0041\\n\"], \"b\" : null}\n")
    ≡ accepted (
        Value.object (
          fields (
            (
              codes "a",
              Value.array (
                  items (
                    Value.number (Decimal.finite false 150 (ℤ.negsuc 1))
                    ∷ Value.number (Decimal.finite true 2 (ℤ.pos 1))
                    ∷ Value.text (codes "xA" ++ 10 ∷ [])
                    ∷ [])),
            )
            ∷ (codes "b", Value.null)
            ∷ [])))
unfolding decode_json_document loads decode_utf8 decode_inside lead_byte is_no_scalar skip_space
    scan_value scan_scalar opening scan_string scan_colon scan_word behind scan_number scan_unsigned
    finish_number scan_whole scan_fraction scan_exponent scan_sign span_figures bounded_token
    decimal_of value_of minus validate_decimal_bounds digits digits_within up down
    adjusted_magnitude scan_character scan_escape scan_unicode second_half join_halves scan_hex
    join_hex hex_of is_digit object_without_duplicates duplicates_from fields items lookup insert
    same_list check_nesting is_blank
decoded = refl

duplicate_refused :
    decode_json_document none (codes "{\"a\":1,\"a\":2}")
    ≡ rejection ContractCode.duplicate_key root
unfolding decode_json_document loads decode_utf8 decode_inside lead_byte is_no_scalar skip_space
    scan_value scan_scalar opening scan_string scan_colon scan_word behind scan_number scan_unsigned
    finish_number scan_whole scan_fraction scan_exponent scan_sign span_figures bounded_token
    decimal_of value_of minus validate_decimal_bounds digits digits_within up down
    adjusted_magnitude scan_character scan_escape scan_unicode second_half join_halves scan_hex
    join_hex hex_of is_digit object_without_duplicates duplicates_from fields items lookup insert
    same_list check_nesting is_blank
duplicate_refused = refl

-- {"a": null, "b": [1.0, "x"]} with its keys in order
abbrev kept_form : Value
kept_form = Value.object (
    Fields.field (codes "a") Value.null (
      Fields.field (codes "b")
        (Value.array (
          items
            (Value.number (Decimal.finite false 10 (ℤ.negsuc 0)) ∷ Value.text (codes "x") ∷ [])))
        Fields.end))

kept_form_bytes : canonical_json_bytes kept_form ≡ accepted (codes "{\"a\":null,\"b\":[1,\"x\"]}")
unfolding canonical_json_bytes canonical_fragment join_object join_members dumps_text escape_text
    escape_character comma_join text_leb encode_utf8 utf8_character canonical_number bounded_decimal
    validate_decimal_bounds digits digits_within up down adjusted_magnitude canonical_finite
    strip_fraction plain_digits rstrip items
kept_form_bytes = refl

kept_form-readable : readable kept_form ≡ true
unfolding readable rereads ascending_keys entries items normal trim passes text_leb canonical_finite
    strip_fraction plain_digits rstrip validate_decimal_bounds digits digits_within up down
    adjusted_magnitude same_list
kept_form-readable = refl

kept_form-height : height kept_form ≤ 32
unfolding height items
kept_form-height = omega arith

decode_json_document-canonical_json_bytes_example :
    (decode_json_document (some 64) (codes "{\"a\":null,\"b\":[1,\"x\"]}")
      ≡ accepted (normal_value kept_form))
    × (canonical_json_bytes (normal_value kept_form)
        ≡ accepted (codes "{\"a\":null,\"b\":[1,\"x\"]}"))
decode_json_document-canonical_json_bytes_example =
    decode_json_document-canonical_json_bytes kept_form (codes "{\"a\":null,\"b\":[1,\"x\"]}") 64
      kept_form-readable kept_form-height kept_form_bytes (omega arith)

-- a request with its keys in another order, a height in another form, and nothing optional
abbrev short_payload : Bytes
short_payload =
    codes
      "{\"spec\": {\"spec_version\": \"character/v1\", \"name\": \"Robo\", \"style\": \"chibi\","
    ++ codes "\"height_mm\": 1.2e2, \"pose\": \"wave\", \"palette\": [\"#00FF7A\"],"
    ++ codes "\"proportions\": {\"limb_scale\": 1.0, \"head_scale\": 1.5}},"
    ++ codes "\"request_version\": \"build/v1\", \"generator\": \"geometric-character@1.0.0\","
    ++ codes "\"output_profile\": \"complete-v1\", \"render_profile\": \"diagnostic-v1\","
    ++ codes "\"quality_profile\": \"geometry-v1\"}"

abbrev short_spec : CharacterSpec
short_spec = record {
  spec_version = spec_version_1;
  name = codes "Robo";
  slug = codes "robo";
  style = codes "chibi";
  height_mm = Decimal.finite false 12 (ℤ.pos 1);
  pose = codes "wave";
  palette = codes "#00FF7A" ∷ [];
  proportions = record { head_scale = tenths 15; body_scale = whole 1; limb_scale = tenths 10 };
  material_preset = codes "matte";
  eye_preset = codes "round";
  components = [];
  base = default_base;
}

abbrev short_request : BuildRequest
short_request = record {
  request_version = codes "build/v1";
  generator = codes "geometric-character@1.0.0";
  spec = short_spec;
  output_profile = codes "complete-v1";
  render_profile = codes "diagnostic-v1";
  quality_profile = codes "geometry-v1";
}

short_payload_read : request_from_json short_payload ≡ accepted short_request
unfolding request_from_json request_from_mapping require_constants spec_from_mapping require_object
    entries fields reject_extra_fields keys_of among require_fields lookup item get_default
    same_list is_text read_name read_slug choose_slug read_palette read_components choose_base enum
    decimal_in proportions_from_mapping text_leb elements items collect read_color color_pattern
    indexed_path name_pattern slug_pattern slug_from headed ends is_alnum is_lower_alnum is_lower
    is_digit safe_slug_from_name slug_text is_blank dash_runs lower_ascii lstrip rstrip
    bounded_decimal_value bounded_decimal validate_decimal_bounds decimal_below digits digits_within
    up down adjusted_magnitude decode_json_document loads decode_utf8 decode_inside lead_byte
    is_no_scalar skip_space scan_value scan_scalar opening scan_string scan_colon scan_word behind
    scan_number scan_unsigned finish_number scan_whole scan_fraction scan_exponent scan_sign
    span_figures bounded_token decimal_of value_of minus scan_character scan_escape
    object_without_duplicates duplicates_from insert check_nesting first_of word_or_number
short_payload_read = refl

abbrev short_bytes : Bytes
short_bytes =
    codes "{\"generator\":\"geometric-character@1.0.0\",\"output_profile\":\"complete-v1\","
    ++ codes "\"quality_profile\":\"geometry-v1\",\"render_profile\":\"diagnostic-v1\","
    ++ codes "\"request_version\":\"build/v1\",\"spec\":{\"base\":{\"depth_mm\":48,\"height_mm\":5,"
    ++ codes "\"preset\":\"round\",\"width_mm\":48},\"components\":[],\"eye_preset\":\"round\","
    ++ codes "\"height_mm\":120,\"material_preset\":\"matte\",\"name\":\"Robo\","
    ++ codes "\"palette\":[\"#00FF7A\"],\"pose\":\"wave\",\"proportions\":{\"body_scale\":1,"
    ++ codes "\"head_scale\":1.5,\"limb_scale\":1},\"slug\":\"robo\","
    ++ codes "\"spec_version\":\"character/v1\",\"style\":\"chibi\"}}"

short_bytes_written : request_canonical_bytes short_request ≡ accepted short_bytes
unfolding request_canonical_bytes request_to_dict spec_to_dict base_to_dict proportions_to_dict
    canonical_json_bytes canonical_fragment join_object join_members dumps_text escape_text
    escape_character comma_join text_leb encode_utf8 utf8_character canonical_number bounded_decimal
    validate_decimal_bounds digits digits_within up down adjusted_magnitude canonical_finite
    strip_fraction plain_digits rstrip items fields
short_bytes_written = refl

request_from_json-request_canonical_bytes_example :
    (request_from_json short_bytes ≡ accepted (normal_request short_request))
    × (request_canonical_bytes (normal_request short_request) ≡ accepted short_bytes)
request_from_json-request_canonical_bytes_example =
    request_from_json-request_canonical_bytes short_payload short_bytes short_request
      short_payload_read short_bytes_written

abbrev plain_environment : Environment
plain_environment = record {
  validate_build_request = λ _. none;
  sha256_hex = λ payload. "00";
  hmac_sha256_hex = λ secret payload. "11";
}

abbrev short_validated : Validated
short_validated = record {
  request_sha256 = "00";
  spec_sha256 = "00";
  canonical_bytes = short_bytes;
}

short_validated_first :
    validate_build_request_bytes plain_environment short_payload ≡ some short_validated
unfolding validate_build_request_bytes accepted_or_none validated request_sha256_of spec_sha256_of
    canonical_sha256 request_canonical_bytes request_to_dict spec_to_dict base_to_dict
    proportions_to_dict canonical_json_bytes canonical_fragment join_object join_members dumps_text
    escape_text escape_character comma_join text_leb encode_utf8 utf8_character canonical_number
    bounded_decimal validate_decimal_bounds digits digits_within up down adjusted_magnitude
    canonical_finite strip_fraction plain_digits rstrip items fields
short_validated_first = rw short_payload_read refl

validate_build_request_bytes_again_example :
    validate_build_request_bytes plain_environment short_bytes ≡ some short_validated
validate_build_request_bytes_again_example =
    validate_build_request_bytes_again plain_environment short_payload short_validated
      short_validated_first
