-- ===== src/Shared/Reread/Steps.antt =====
-- How the parts of a canonical document are read back one by one, shared/json_contract.py.
use headless_blender_charact.Prelude.{
  Bool, List, [], ap, append_assoc, false, refl, suc, sym, true, ℕ, ◌&&◌, ◌++◌, ◌∙◌, ◌∷◌, ◌≡◌,
}
use headless_blender_charact.Shared.Rejection.{Text, accepted, ◌>>=◌}
use headless_blender_charact.Service.Patterns.{is_digit}
use headless_blender_charact.Shared.Json.{
  Fields, Items, Value, entries, fields, object_without_duplicates,
}
use headless_blender_charact.Shared.Json.Canonical.{comma_join, dumps_text, escape_text}
use headless_blender_charact.Shared.Json.Decode.{
  opening, scan_items, scan_members, scan_value, skip_space,
}
use headless_blender_charact.Shared.Reread.Figures.{ends_number}
use headless_blender_charact.Shared.Reread.Members.{
  ascending_keys, object_without_duplicates-ascending,
}
use headless_blender_charact.Shared.Reread.Openings.{
  array_step, items_last, items_more, key_shape, member_step, normal_fields, normal_items,
  normal_value, object_step, starts_value,
}
use headless_blender_charact.Shared.Reread.Starts.{ascending_normal, fields-entries}
use headless_blender_charact.Shared.Reread.Single.{IsRead, join_more}
use headless_blender_charact.Shared.Json.Behind.{after_member}

-- How the elements of an array, and the members of an object, are read back up to its end.
unfoldable pub AreRead : Items → List Text → ℕ → Type 0
AreRead vs parts fuel =
    (rest : Text)
    → scan_items fuel (comma_join parts ++ b']' ∷ rest) ≡ accepted (normal_items vs, rest)

unfoldable pub AreMembers : Fields → List Text → ℕ → Type 0
AreMembers fs parts fuel =
    (rest : Text)
    → scan_members fuel (comma_join parts ++ b'}' ∷ rest)
      ≡ accepted (entries (normal_fields fs), rest)

-- one element and nothing behind it
pub last_item :
    (v : Value) (s : Text) (fuel : ℕ)
    → IsRead v s fuel
    → AreRead (Items.cons v Items.nil) (s ∷ []) (suc fuel)
unfolding AreRead IsRead comma_join normal_value ends_number is_digit
last_item v s fuel reads rest =
    items_last fuel (s ++ b']' ∷ rest) rest (normal_value v) (reads (b']' ∷ rest) refl)

-- one element and others behind it
pub next_item :
    (v : Value) (s t : Text) (parts : List Text) (vs : Items) (fuel : ℕ)
    → (c : ℕ) × (q : Text) × (comma_join (t ∷ parts) ≡ c ∷ q) × (starts_value c ≡ true)
    → IsRead v s fuel
    → AreRead vs (t ∷ parts) fuel
    → AreRead (Items.cons v vs) (s ∷ t ∷ parts) (suc fuel)
unfolding AreRead IsRead normal_value ends_number is_digit
next_item v s t parts vs fuel (c, q, shape, starts) reads others rest =
    let tail = ap (λ x. x ++ b']' ∷ rest) shape in
    ap (scan_items (suc fuel)) (join_more s t parts (b']' ∷ rest))
    ∙ items_more fuel c (s ++ (b',' ∷ comma_join (t ∷ parts) ++ b']' ∷ rest)) (q ++ b']' ∷ rest)
        (normal_value v) starts
        (reads (b',' ∷ comma_join (t ∷ parts) ++ b']' ∷ rest) refl
          ∙ ap (λ x. accepted (normal_value v, b',' ∷ x)) tail)
    ∙ ap (λ x. scan_items fuel x >>= λ r. accepted (Items.cons (normal_value v) r.0, r.1))
        (sym tail)
    ∙ rw (others rest) refl

member_shape :
    (k s x : Text)
    → (dumps_text k ++ b':' ∷ s) ++ x ≡ b'"' ∷ (escape_text k ++ b'"' ∷ b':' ∷ (s ++ x))
member_shape k s x = append_assoc (dumps_text k) (b':' ∷ s) x ∙ key_shape k (b':' ∷ (s ++ x))

-- a member whose value is read, up to what is behind it
member_read :
    (k s x : Text) (v : Value) (fuel : ℕ)
    → (c : ℕ) × (q : Text) × (s ≡ c ∷ q) × (starts_value c ≡ true)
    → IsRead v s fuel
    → ends_number x ≡ true
    → scan_members (suc fuel) ((dumps_text k ++ b':' ∷ s) ++ x)
      ≡ after_member fuel k (normal_value v, x)
unfolding IsRead
member_read k s x v fuel (c, q, shape, starts) reads stop =
    let here = ap (λ y. y ++ x) shape in
    ap (scan_members (suc fuel))
      (member_shape k s x ∙ ap (λ y. b'"' ∷ (escape_text k ++ b'"' ∷ b':' ∷ y)) here)
    ∙ member_step fuel c k (q ++ x) starts
    ∙ ap (λ y. scan_value fuel y >>= λ first. after_member fuel k first) (sym here)
    ∙ ap (λ m. m >>= λ first. after_member fuel k first) (reads x stop)

pub last_member :
    (k s : Text) (v : Value) (fuel : ℕ)
    → (c : ℕ) × (q : Text) × (s ≡ c ∷ q) × (starts_value c ≡ true)
    → IsRead v s fuel
    → AreMembers (Fields.field k v Fields.end) ((dumps_text k ++ b':' ∷ s) ∷ []) (suc fuel)
unfolding AreMembers comma_join normal_value entries ends_number is_digit after_member opening
    skip_space
last_member k s v fuel starts reads rest = member_read k s (b'}' ∷ rest) v fuel starts reads refl

pub next_member :
    (k s t : Text) (v : Value) (parts : List Text) (fs : Fields) (fuel : ℕ)
    → (c : ℕ) × (q : Text) × (s ≡ c ∷ q) × (starts_value c ≡ true)
    → (q : Text) × (comma_join (t ∷ parts) ≡ b'"' ∷ q)
    → IsRead v s fuel
    → AreMembers fs (t ∷ parts) fuel
    → AreMembers (Fields.field k v fs) ((dumps_text k ++ b':' ∷ s) ∷ t ∷ parts) (suc fuel)
unfolding AreMembers normal_value entries ends_number is_digit after_member opening skip_space
next_member k s t v parts fs fuel starts (q, shape) reads others rest =
    let behind_comma = comma_join (t ∷ parts) ++ b'}' ∷ rest in
    let tail = ap (λ x. x ++ b'}' ∷ rest) shape in
    ap (scan_members (suc fuel)) (join_more (dumps_text k ++ b':' ∷ s) t parts (b'}' ∷ rest))
    ∙ member_read k s (b',' ∷ behind_comma) v fuel starts reads refl
    ∙ ap (λ x. after_member fuel k (normal_value v, b',' ∷ x)) tail
    ∙ ap (λ x. scan_members fuel x >>= λ r. accepted ((k, normal_value v) ∷ r.0, r.1)) (sym tail)
    ∙ rw (others rest) refl

-- How the joined texts of some values begin.
pub joined_start :
    (s : Text) (parts : List Text)
    → (c : ℕ) × (q : Text) × (s ≡ c ∷ q) × (starts_value c ≡ true)
    → (c : ℕ) × (q : Text) × (comma_join (s ∷ parts) ≡ c ∷ q) × (starts_value c ≡ true)
unfolding comma_join
joined_start s [] start = start
joined_start s (t ∷ parts) (c, q, shape, starts) = (
  c,
  q ++ b',' ∷ comma_join (t ∷ parts),
  ap (λ x. x ++ b',' ∷ comma_join (t ∷ parts)) shape,
  starts,
)

pub joined_quote :
    (k s : Text) (parts : List Text)
    → (q : Text) × (comma_join ((dumps_text k ++ b':' ∷ s) ∷ parts) ≡ b'"' ∷ q)
unfolding comma_join
joined_quote k s [] = (escape_text k ++ b'"' ∷ b':' ∷ s, key_shape k (b':' ∷ s))
joined_quote k s (t ∷ parts) = (
  escape_text k ++ b'"' ∷ b':' ∷ (s ++ b',' ∷ comma_join (t ∷ parts)),
  member_shape k s (b',' ∷ comma_join (t ∷ parts)),
)

pub array_back :
    (vs : Items) (s : Text) (parts : List Text) (fuel : ℕ)
    → (c : ℕ) × (q : Text) × (comma_join (s ∷ parts) ≡ c ∷ q) × (starts_value c ≡ true)
    → AreRead vs (s ∷ parts) fuel
    → IsRead (Value.array vs) (b'[' ∷ comma_join (s ∷ parts) ++ b']' ∷ []) (suc fuel)
unfolding IsRead AreRead normal_value
array_back vs s parts fuel (c, q, shape, starts) reads rest stop =
    let joined = comma_join (s ∷ parts) in
    let here = ap (λ x. x ++ b']' ∷ rest) shape in
    ap (scan_value (suc fuel)) (ap (◌∷◌ b'[') (append_assoc joined (b']' ∷ []) rest ∙ here))
    ∙ array_step fuel c (q ++ b']' ∷ rest) starts
    ∙ ap (λ x. scan_items fuel x >>= λ r. accepted (Value.array r.0, r.1)) (sym here)
    ∙ rw (reads rest) refl

pub object_back :
    (fs : Fields) (s : Text) (parts : List Text) (fuel : ℕ)
    → (q : Text) × (comma_join (s ∷ parts) ≡ b'"' ∷ q)
    → ascending_keys (entries fs) ≡ true
    → AreMembers fs (s ∷ parts) fuel
    → IsRead (Value.object fs) (b'{' ∷ comma_join (s ∷ parts) ++ b'}' ∷ []) (suc fuel)
unfolding IsRead AreMembers normal_value
object_back fs s parts fuel (q, shape) ordered reads rest stop =
    let joined = comma_join (s ∷ parts) in
    let here = ap (λ x. x ++ b'}' ∷ rest) shape in
    ap (scan_value (suc fuel)) (ap (◌∷◌ b'{') (append_assoc joined (b'}' ∷ []) rest ∙ here))
    ∙ object_step fuel (q ++ b'}' ∷ rest)
    ∙ ap
        (λ x. scan_members fuel x >>= λ r.
          object_without_duplicates r.0 >>= λ d. accepted (Value.object (fields d), r.1))
        (sym here)
    ∙ rw (reads rest) (
        rw
          (object_without_duplicates-ascending (entries (normal_fields fs))
            (ascending_normal fs ∙ ordered))
          (ap (λ x. accepted (Value.object x, rest)) (fields-entries (normal_fields fs))))

pub and_both : (a b : Bool) → (a && b) ≡ true → (a ≡ true) × (b ≡ true)
and_both true true h = (refl, refl)
and_both true false h = cc
and_both false b h = cc
