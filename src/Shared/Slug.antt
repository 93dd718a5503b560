-- ===== src/Shared/Slug.antt =====
-- shared/character_spec.py: the patterns of names, slugs and colors, and the slug that a name gives.
pub mod Valid
use headless_blender_charact.Prelude.{
  Bool, [], all, between, false, if◌then◌else◌, length, map, nat_eq, not, string_eq, take, ℕ, ◌&&◌,
  ◌+◌, ◌==◌, ◌||◌, ◌∷◌,
}
use headless_blender_charact.Shared.Rejection.{
  Checked, ContractCode, Text, accepted, is_blank, reject_if, ◌>>◌,
}
use headless_blender_charact.Shared.Decimal.{rstrip}
use headless_blender_charact.Service.Patterns.{
  codes, ends, headed, is_alnum, is_digit, is_lower_alnum,
}

-- ^[A-Za-z0-9](?:[A-Za-z0-9 '-]{0,62}[A-Za-z0-9])?$
unfoldable pub name_pattern : Text → Bool
unfolding is_alnum headed ends
name_pattern s =
    headed is_alnum (λ c. is_alnum c || c == b' ' || c == b'\'' || c == b'-') 63 s
    && ends is_alnum s

-- What follows in a slug; the flag says that a letter or a digit stands just before.
unfoldable pub slug_from : Bool → Text → Bool
unfolding is_lower_alnum
slug_from after [] = after
slug_from after (c ∷ s) =
    let rest = slug_from (is_lower_alnum c) s in (is_lower_alnum c || (after && c == b'-')) && rest

-- ^[a-z0-9]+(?:-[a-z0-9]+)*$
unfoldable pub slug_pattern : Text → Bool
unfolding slug_from
slug_pattern = slug_from false

-- ^#[0-9A-F]{6}$
unfoldable pub color_pattern : Text → Bool
unfolding is_digit
color_pattern [] = false
color_pattern (c ∷ s) = c == b'#' && length s == 6 && all (λ x. is_digit x || between b'A' b'F' x) s

-- `name.lower()` of a name, which is ASCII
unfoldable pub lower_ascii : ℕ → ℕ
lower_ascii c = if between b'A' b'Z' c then c + 32 else c

-- `re.sub(r"[^a-z0-9]+", "-", text)`; the flag says that a run of other characters was begun.
unfoldable pub dash_runs : Bool → Text → Text
unfolding is_lower_alnum
dash_runs begun [] = []
dash_runs begun (c ∷ s) =
    let rest = dash_runs (not (is_lower_alnum c)) s in
    if is_lower_alnum c then c ∷ rest else if begun then rest else b'-' ∷ rest

unfoldable pub lstrip : ℕ → Text → Text
lstrip c [] = []
lstrip c (x ∷ s) = let rest = lstrip c s in if x == c then rest else x ∷ s

-- the part of `_safe_slug_from_name` before its test
unfoldable pub slug_text : Text → Text
unfolding dash_runs lower_ascii lstrip rstrip
slug_text name =
    rstrip b'-' (take 48 (rstrip b'-' (lstrip b'-' (dash_runs false (map lower_ascii name)))))

-- `_safe_slug_from_name`
unfoldable pub safe_slug_from_name : Text → Checked Text
unfolding slug_text is_blank
safe_slug_from_name name =
    reject_if (is_blank (slug_text name)) ContractCode.invalid_slug (codes "$.spec.name")
    >> accepted (slug_text name)
