-- ===== src/Shared/Character/Choices.antt =====
-- The limits of palettes and components, shared/character_spec.py, and that the readers keep to them.
use headless_blender_charact.Prelude.{
  Bool, List, [], all, ap₂, arith, between, false, length, ltb, not, sort_by, sym, true, ◌&&◌, ◌∙◌,
  ◌≡◌,
}
use headless_blender_charact.Shared.Rejection.{
  ContractCode, Text, accepted, accepted-injective, bind_passed, reject_if_passed,
}
use headless_blender_charact.Service.Patterns.{codes}
use headless_blender_charact.Shared.Json.{Value, among, elements}
use headless_blender_charact.Shared.Json.Canonical.{text_leb}
use headless_blender_charact.Shared.Slug.{color_pattern}
use headless_blender_charact.Shared.Readers.{collect}
use headless_blender_charact.Shared.Readers.Accepted.{collect-fresh, enum-among, fresh}
use headless_blender_charact.Shared.Character.Spec.{
  component_presets, read_color, read_component, read_components, read_palette,
}
use headless_blender_charact.Shared.Character.Sorted.{
  all-sorted, among-sorted, fresh-sorted, length-sorted, sorted-sorted,
}

-- A palette: 1 to 8 colors `#RRGGBB`, all different.
pub record IsPalette (l : List Text) : Type 0 where
  pub size_known : between 1 8 (length l) ≡ true
  pub colors_valid : all color_pattern l ≡ true
  pub colors_fresh : fresh [] l ≡ true

color_read : (v : Value) (p s : Text) → read_color v p ≡ accepted s → color_pattern s ≡ true
unfolding read_color
color_read (Value.text t) p s h =
    let (known, last) =
      reject_if_passed (not (color_pattern t)) ContractCode.invalid_color p (accepted t) s h in
    rw (sym (accepted-injective last)) (ground (arith, known))
color_read Value.null p s h = cc
color_read (Value.boolean b) p s h = cc
color_read (Value.number d) p s h = cc
color_read (Value.integer b n) p s h = cc
color_read (Value.array vs) p s h = cc
color_read (Value.object fs) p s h = cc

pub IsPalette-read :
    (v : Value) (p : Text) (l : List Text) → read_palette v p ≡ accepted l → IsPalette l
unfolding read_palette
IsPalette-read (Value.array vs) p l h =
    let (size, rest) =
      reject_if_passed (not (between 1 8 (length (elements vs)))) ContractCode.invalid_palette p _ l
        h in
    let (m, shape, colors, news, same) =
      collect-fresh read_color color_pattern color_read p 0 [] (elements vs) l rest in
    rw shape (record {
      size_known = rw same (ground (arith, size));
      colors_valid = colors;
      colors_fresh = news;
    })
IsPalette-read Value.null p l h = cc
IsPalette-read (Value.boolean b) p l h = cc
IsPalette-read (Value.number d) p l h = cc
IsPalette-read (Value.integer b n) p l h = cc
IsPalette-read (Value.text s) p l h = cc
IsPalette-read (Value.object fs) p l h = cc

abbrev pub both_tails : List Text → Bool
both_tails l = among (codes "stub-tail") l && among (codes "swept-tail") l

-- Components: at most 16 known presets, all different, in order, and not both tails.
pub record IsComponents (l : List Text) : Type 0 where
  pub size_known : ltb 16 (length l) ≡ false
  pub presets_known : all (λ s. among s component_presets) l ≡ true
  pub presets_fresh : fresh [] l ≡ true
  pub presets_sorted : sort_by text_leb l ≡ l
  pub tails_apart : both_tails l ≡ false

pub IsComponents-read :
    (v : Value) (p : Text) (l : List Text)
    → read_components v p ≡ accepted l
    → IsComponents (sort_by text_leb l)
unfolding read_components
IsComponents-read (Value.array vs) p l h =
    let (size, h1) =
      reject_if_passed (ltb 16 (length (elements vs))) ContractCode.invalid_components p _ l h in
    let (m, collected, h2) = bind_passed (collect read_component p 0 [] (elements vs)) _ l h1 in
    let (apart, h3) =
      reject_if_passed (both_tails m) ContractCode.incompatible_components p (accepted m) l h2 in
    let (n, shape, known, news, same) =
      collect-fresh read_component (λ s. among s component_presets)
        (λ w q s e. enum-among w q component_presets s e) p 0 [] (elements vs) m collected in
    rw (sym (accepted-injective h3)) (record {
      size_known = rw (length-sorted m) (rw shape (rw same size));
      presets_known = all-sorted (λ s. among s component_presets) m ∙ rw shape known;
      presets_fresh = fresh-sorted m (rw shape news);
      presets_sorted = sorted-sorted m;
      tails_apart =
          ap₂ ◌&&◌ (among-sorted (codes "stub-tail") m) (among-sorted (codes "swept-tail") m)
          ∙ apart;
    })
IsComponents-read Value.null p l h = cc
IsComponents-read (Value.boolean b) p l h = cc
IsComponents-read (Value.number d) p l h = cc
IsComponents-read (Value.integer b n) p l h = cc
IsComponents-read (Value.text s) p l h = cc
IsComponents-read (Value.object fs) p l h = cc
