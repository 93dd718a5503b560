-- ===== src/Shared/Reread/Requests.antt =====
-- A build request is read back from its canonical bytes, shared/character_spec.py.
use headless_blender_charact.Prelude.{
  Bool, List, [], ap, arith, false, if◌then◌else◌, map, nat_eq, refl, some, string_eq, sym, true, ℕ,
  ◌<◌, ◌==◌, ◌∙◌, ◌∷◌, ◌≡◌, ◌≤◌,
}
use headless_blender_charact.Shared.Rejection.{Text, accepted, bind_passed}
use headless_blender_charact.Shared.Decimal.{Decimal}
use headless_blender_charact.Service.Patterns.{codes}
use headless_blender_charact.Service.Contract.{Bytes, list_eq, same_list}
use headless_blender_charact.Shared.Json.{Items, Value, entries, fields, items}
use headless_blender_charact.Shared.Json.Canonical.{canonical_json_bytes, text_leb}
use headless_blender_charact.Shared.Json.Decode.{decode_json_document}
use headless_blender_charact.Shared.Reread.Normal.{normal}
use headless_blender_charact.Shared.Reread.Members.{ascending_keys}
use headless_blender_charact.Shared.Reread.Openings.{
  normal_items, normal_value, readable, readable_items,
}
use headless_blender_charact.Shared.Json.Nesting.{height, height_items}
use headless_blender_charact.Shared.Readers.{whole}
use headless_blender_charact.Shared.Readers.Accepted.{within}
use headless_blender_charact.Shared.Reread.Whole.{decode_json_document-canonical_json_bytes}
use headless_blender_charact.Shared.Reread.Settled.{
  IsSettled, nothing-IsSettled, tenths-IsSettled, whole-IsSettled,
}
use headless_blender_charact.Shared.Character.Again.{IsRequest, IsRequest-ensured, request_again}
use headless_blender_charact.Shared.Character.Parts.{
  BaseSpec, Proportions, base_to_dict, height_limits, proportions_to_dict, side_limits,
}
use headless_blender_charact.Shared.Character.Spec.{CharacterSpec, spec_to_dict}
use headless_blender_charact.Shared.Character.Request.{
  BuildRequest, max_build_request_bytes, request_canonical_bytes, request_from_json,
  request_from_mapping, request_to_dict,
}
use headless_blender_charact.Shared.Character.Bounds.{IsSpec}
use headless_blender_charact.Shared.Character.Limits.{IsBase, IsProportions}
use headless_blender_charact.Shared.Reread.Widths.{canonical_json_bytes-width}
use headless_blender_charact.Shared.Reread.Limits.{request_width}

-- A request with its numbers in normal form, part by part.
unfoldable pub normal_proportions : Proportions → Proportions
unfolding normal
normal_proportions p = record {
  head_scale = normal p.head_scale;
  body_scale = normal p.body_scale;
  limb_scale = normal p.limb_scale;
}

unfoldable pub normal_base : BaseSpec → BaseSpec
unfolding normal
normal_base b = record b {
  width_mm = normal b.width_mm;
  depth_mm = normal b.depth_mm;
  height_mm = normal b.height_mm;
}

unfoldable pub normal_spec : CharacterSpec → CharacterSpec
unfolding normal normal_proportions normal_base
normal_spec s = record s {
  height_mm = normal s.height_mm;
  proportions = normal_proportions s.proportions;
  base = normal_base s.base;
}

unfoldable pub normal_request : BuildRequest → BuildRequest
unfolding normal_spec
normal_request r = record r { spec = normal_spec r.spec }

-- Texts in an array are read back as they are.
readable_texts : (l : List Text) → readable_items (items (map Value.text l)) ≡ true
unfolding readable items
readable_texts [] = refl
readable_texts (s ∷ l) = readable_texts l

normal_texts : (l : List Text) → normal_items (items (map Value.text l)) ≡ items (map Value.text l)
unfolding normal_value items
normal_texts [] = refl
normal_texts (s ∷ l) = ap (Items.cons (Value.text s)) (normal_texts l)

height_texts : (l : List Text) → height_items (items (map Value.text l)) ≤ 1
unfolding height items
height_texts [] = omega arith
height_texts (s ∷ l) = omega (arith, height_texts l)

proportions_settled :
    (p : Proportions)
    → IsProportions p
    → IsProportions (normal_proportions p) × (readable (proportions_to_dict p) ≡ true)
unfolding normal_proportions proportions_to_dict readable ascending_keys entries text_leb same_list
proportions_settled p h =
    let head = tenths-IsSettled 7 16 p.head_scale (omega arith) (omega arith) h.head_within in
    let body = tenths-IsSettled 7 14 p.body_scale (omega arith) (omega arith) h.body_within in
    let limb = tenths-IsSettled 7 13 p.limb_scale (omega arith) (omega arith) h.limb_within in
    (
      record {
        head_within = head.normal_within;
        body_within = body.normal_within;
        limb_within = limb.normal_within;
      },
      rw head.back (rw body.back (rw limb.back refl)),
    )

-- the limits of a base: none, or some
abbrev limits_of : Bool → ℕ → ℕ → Decimal × Decimal
limits_of none_there l h = if none_there then (whole 0, whole 0) else (whole l, whole h)

limits_settled :
    (none_there : Bool) (l h : ℕ) (d : Decimal)
    → 0 < l
    → h ≤ 1000
    → within (limits_of none_there l h).0 (limits_of none_there l h).1 d ≡ true
    → IsSettled (limits_of none_there l h).0 (limits_of none_there l h).1 d
limits_settled true l h d some_least few inside = nothing-IsSettled d inside
limits_settled false l h d some_least few inside = whole-IsSettled l h d some_least few inside

IsBase-settled :
    (b : BaseSpec) → IsBase b → IsBase (normal_base b) × (readable (base_to_dict b) ≡ true)
unfolding normal_base base_to_dict readable ascending_keys entries text_leb same_list side_limits
    height_limits
IsBase-settled b h =
    let none_there = b.preset == codes "none" in
    let width =
      limits_settled none_there 20 160 b.width_mm (omega arith) (omega arith) h.width_within in
    let depth =
      limits_settled none_there 20 160 b.depth_mm (omega arith) (omega arith) h.depth_within in
    let tall =
      limits_settled none_there 2 25 b.height_mm (omega arith) (omega arith) h.height_within in
    (
      record {
        preset_known = h.preset_known;
        width_within = width.normal_within;
        depth_within = depth.normal_within;
        height_within = tall.normal_within;
      },
      rw depth.back (rw tall.back (rw width.back refl)),
    )

pub IsSpec-settled :
    (s : CharacterSpec) → IsSpec s → IsSpec (normal_spec s) × (readable (spec_to_dict s) ≡ true)
unfolding normal_spec spec_to_dict readable ascending_keys entries fields text_leb same_list
IsSpec-settled s h =
    let tall = whole-IsSettled 25 250 s.height_mm (omega arith) (omega arith) h.height_within in
    let (proportions, proportions_read) = proportions_settled s.proportions h.proportions_valid in
    let (base, base_read) = IsBase-settled s.base h.base_valid in
    (
      record {
        version_known = h.version_known;
        name_valid = h.name_valid;
        slug_valid = h.slug_valid;
        style_known = h.style_known;
        height_within = tall.normal_within;
        pose_known = h.pose_known;
        palette_valid = h.palette_valid;
        proportions_valid = proportions;
        material_known = h.material_known;
        eye_known = h.eye_known;
        components_valid = h.components_valid;
        base_valid = base;
      },
      rw base_read (
          rw (readable_texts s.components)
            (rw tall.back (rw (readable_texts s.palette) (rw proportions_read refl)))),
    )

pub spec_normal : (s : CharacterSpec) → normal_value (spec_to_dict s) ≡ spec_to_dict (normal_spec s)
unfolding normal_value spec_to_dict normal_spec fields base_to_dict proportions_to_dict normal_base
    normal_proportions
spec_normal s = rw (normal_texts s.components) (rw (normal_texts s.palette) refl)

spec_height : (s : CharacterSpec) → height (spec_to_dict s) ≤ 2
unfolding height spec_to_dict fields base_to_dict proportions_to_dict
spec_height s = omega (arith, height_texts s.components, height_texts s.palette)

request_readable : (r : BuildRequest) → IsRequest r → readable (request_to_dict r) ≡ true
unfolding request_to_dict readable ascending_keys entries fields text_leb same_list
request_readable r h = rw (IsSpec-settled r.spec h.spec_valid).1 refl

normal_request-IsRequest : (r : BuildRequest) → IsRequest r → IsRequest (normal_request r)
unfolding normal_request
normal_request-IsRequest r h = record {
  request_version_known = h.request_version_known;
  generator_known = h.generator_known;
  output_known = h.output_known;
  render_known = h.render_known;
  quality_known = h.quality_known;
  spec_valid = (IsSpec-settled r.spec h.spec_valid).0;
}

request_normal :
    (r : BuildRequest) → normal_value (request_to_dict r) ≡ request_to_dict (normal_request r)
unfolding normal_value request_to_dict normal_request fields
request_normal r = rw (spec_normal r.spec) refl

request_height : (r : BuildRequest) → height (request_to_dict r) ≤ 3
unfolding height request_to_dict fields
request_height r = omega (arith, spec_height r.spec)

-- The canonical bytes of a validated request validate again: they are within the limit of 64 KiB, and
-- they are read as a request with the same canonical bytes. It differs from the first one in the form of
-- its numbers alone.
pub request_from_json-request_canonical_bytes :
    (payload bytes : Bytes) (r : BuildRequest)
    → request_from_json payload ≡ accepted r
    → request_canonical_bytes r ≡ accepted bytes
    → (request_from_json bytes ≡ accepted (normal_request r))
      × (request_canonical_bytes (normal_request r) ≡ accepted bytes)
unfolding request_from_json request_canonical_bytes
request_from_json-request_canonical_bytes payload bytes r h encoded =
    let (raw, decoded, read) =
      bind_passed (decode_json_document (some max_build_request_bytes) payload) request_from_mapping
        r h in
    let valid = (IsRequest-ensured raw).ensured r read in
    let readable_form = request_readable r valid in
    let size = canonical_json_bytes-width (request_to_dict r) bytes readable_form encoded in
    let (back, same) =
      decode_json_document-canonical_json_bytes (request_to_dict r) bytes max_build_request_bytes
        readable_form (omega (arith, request_height r)) encoded
        (omega (arith, size, request_width r valid)) in
    let normal_form = request_normal r in
    (
      rw back (
          ap request_from_mapping normal_form
          ∙ request_again (normal_request r) (normal_request-IsRequest r valid)),
      ap canonical_json_bytes (sym normal_form) ∙ same,
    )
