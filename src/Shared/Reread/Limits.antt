-- ===== src/Shared/Reread/Limits.antt =====
-- The canonical bytes of a validated request are within the limit on requests,
-- shared/character_spec.py.
use native.Mathlib.Nat.{mul-le-mul_right}
use headless_blender_charact.Prelude.{
  Bool, Bool-cases, List, [], all, ap, arith, false, inl, inr, leb, leb→le, length, ltb, map,
  nat_eq, not, refl, string_eq, suc, true, ℕ, ◌*◌, ◌+◌, ◌==◌, ◌||◌, ◌∷◌, ◌≡◌, ◌≤◌,
}
use headless_blender_charact.Shared.Rejection.{Text}
use headless_blender_charact.Service.Contract.{list_eq}
use headless_blender_charact.Shared.Json.{Value, among, fields, items}
use headless_blender_charact.Shared.Reread.Steps.{and_both}
use headless_blender_charact.Shared.Character.Again.{IsRequest}
use headless_blender_charact.Shared.Slug.{color_pattern, name_pattern, slug_pattern}
use headless_blender_charact.Shared.Character.Parts.{
  BaseSpec, Proportions, base_presets, base_to_dict, proportions_to_dict,
}
use headless_blender_charact.Shared.Character.Spec.{
  CharacterSpec, component_presets, eye_presets, material_presets, poses, spec_to_dict, styles,
}
use headless_blender_charact.Shared.Character.Request.{BuildRequest, request_to_dict}
use headless_blender_charact.Shared.Character.Bounds.{IsSpec}
use headless_blender_charact.Shared.Character.Limits.{IsBase}
use headless_blender_charact.Shared.Character.Choices.{IsComponents, IsPalette}
use headless_blender_charact.Shared.Reread.Widths.{width, width_items}

-- a choice is no longer than the longest one
among_short :
    (m : ℕ) (s : Text) (choices : List Text)
    → all (λ c. leb (length c) m) choices ≡ true
    → among s choices ≡ true
    → length s ≤ m
unfolding among
among_short m s [] h k = cc
among_short m s (c ∷ choices) h k = elim (Bool-cases (s == c)) [
  | inl same ↦
      let equal : s ≡ c = (list_eq.beq_iff s c).0 same in
      let short : leb (length c) m ≡ true = ground arith in
      omega (arith, ap length equal, leb→le (length c) m short)
  | inr other ↦ among_short m s choices (ground arith) (ground arith)
]

next_times : (n k : ℕ) → suc n * k ≡ n * k + k
next_times n k = ground arith

-- texts of which none is too long
width_texts :
    (m : ℕ) (l : List Text)
    → all (λ s. leb (length s) m) l ≡ true
    → width_items (items (map Value.text l)) ≤ length l * (6 * m + 3)
unfolding width items
width_texts m [] h = omega arith
width_texts m (s ∷ l) h =
    let (short, others) = and_both (leb (length s) m) (all (λ s. leb (length s) m) l) h in
    let more : suc (length l) * (6 * m + 3) ≡ length l * (6 * m + 3) + (6 * m + 3) =
      next_times (length l) (6 * m + 3) in
    omega (arith, leb→le (length s) m short, width_texts m l others, more)

all_short :
    (m : ℕ) (good : Text → Bool) (l : List Text)
    → ((s : Text) → good s ≡ true → length s ≤ m)
    → all good l ≡ true
    → all (λ s. leb (length s) m) l ≡ true
all_short m good [] each h = refl
all_short m good (s ∷ l) each h = ground (arith, each s, all_short m good l each)

color_short : (s : Text) → color_pattern s ≡ true → length s ≤ 7
unfolding color_pattern
color_short [] h = omega arith
color_short (c ∷ s) h = ground arith

component_short : (s : Text) → among s component_presets ≡ true → length s ≤ 12
component_short s h = among_short 12 s component_presets refl h

few_texts : (m n k : ℕ) (w : ℕ) → w ≤ n * m → n ≤ k → w ≤ k * m
few_texts m n k w h few =
    let more : n * m ≤ k * m = mul-le-mul_right m few in omega (arith, h, more)

palette_width : (l : List Text) → IsPalette l → width_items (items (map Value.text l)) ≤ 360
palette_width l h =
    few_texts 45 (length l) 8 _
      (width_texts 7 l (all_short 7 color_pattern l color_short h.colors_valid))
      (ground (arith, h.size_known))

components_width : (l : List Text) → IsComponents l → width_items (items (map Value.text l)) ≤ 1200
components_width l h =
    few_texts 75 (length l) 16 _
      (width_texts 12 l
        (all_short 12 (λ s. among s component_presets) l component_short h.presets_known))
      (ground (arith, h.size_known))

base_width : (b : BaseSpec) → IsBase b → width (base_to_dict b) ≤ 1200
unfolding width base_to_dict
base_width b h = omega (arith, among_short 9 b.preset base_presets refl h.preset_known)

proportions_width : (p : Proportions) → width (proportions_to_dict p) ≤ 1100
unfolding width proportions_to_dict
proportions_width p = omega arith

within_length : (m n : ℕ) (b : Bool) → (ltb m n || b) ≡ false → n ≤ m
within_length m n b h = ground arith

spec_width : (s : CharacterSpec) → IsSpec s → width (spec_to_dict s) ≤ 8000
unfolding width spec_to_dict fields
spec_width s h = omega (
  arith,
  base_width s.base h.base_valid,
  components_width s.components h.components_valid,
  among_short 6 s.eye_preset eye_presets refl h.eye_known,
  among_short 6 s.material_preset material_presets refl h.material_known,
  within_length 64 (length s.name) (not (name_pattern s.name)) h.name_valid,
  palette_width s.palette h.palette_valid,
  among_short 8 s.pose poses refl h.pose_known,
  proportions_width s.proportions,
  within_length 48 (length s.slug) (not (slug_pattern s.slug)) h.slug_valid,
  ap length h.version_known,
  among_short 9 s.style styles refl h.style_known,
)

pub request_width : (r : BuildRequest) → IsRequest r → width (request_to_dict r) ≤ 16000
unfolding width request_to_dict fields
request_width r h = omega (
  arith,
  ap length h.generator_known,
  ap length h.output_known,
  ap length h.quality_known,
  ap length h.render_known,
  ap length h.request_version_known,
  spec_width r.spec h.spec_valid,
)
