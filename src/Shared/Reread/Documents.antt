-- ===== src/Shared/Reread/Documents.antt =====
-- A canonical document is read back, shared/json_contract.py.
use headless_blender_charact.Prelude.{
  List, ap, arith, false, refl, sort_by, sym, true, ℕ, ◌++◌, ◌<◌, ◌∙◌, ◌∷◌, ◌≡◌, ◌≤◌,
}
use headless_blender_charact.Shared.Rejection.{Text, accepted, accepted-injective, bind_passed}
use headless_blender_charact.Shared.Decimal.{ℤ}
use headless_blender_charact.Service.Patterns.{codes}
use headless_blender_charact.Shared.Json.{Fields, Items, Value, entries}
use headless_blender_charact.Shared.Json.Canonical.{
  canonical_fragment, comma_join, dumps_text, item_fragments, join_members, join_object, key_leb,
  member_fragments,
}
use headless_blender_charact.Shared.Reread.Members.{ascending_keys, sorted_keys}
use headless_blender_charact.Shared.Reread.Openings.{
  decimal_of_integer, empty_array_step, empty_object_step, normal_value, readable, readable_fields,
  readable_items,
}
use headless_blender_charact.Shared.Reread.Starts.{
  ascending_fragments, integer_text, number_text, value_starts,
}
use headless_blender_charact.Shared.Reread.Steps.{
  AreMembers, AreRead, and_both, array_back, joined_quote, joined_start, last_item, last_member,
  next_item, next_member, object_back,
}
use headless_blender_charact.Shared.Reread.Single.{
  IsRead, false_back, need, need_fields, need_items, null_back, scalar_back, text_back, true_back,
  with_fuel, word_back,
}

array_whole :
    (vs : Items) (t : Text) (fuel : ℕ)
    → canonical_fragment (Value.array vs) ≡ accepted t
    → need (Value.array vs) ≤ fuel
    → ((parts : List Text) (f : ℕ)
        → 0 < need_items vs
        → item_fragments vs ≡ accepted parts
        → need_items vs ≤ f
        → AreRead vs parts f)
    → IsRead (Value.array vs) t fuel
unfolding canonical_fragment need comma_join normal_value
array_whole Items.nil t fuel h n reads =
    word_back fuel _ (codes "[]") t n h (λ f rest. empty_array_step f rest)
array_whole (Items.cons v vs) t fuel h n reads =
    let (parts, made, last) = bind_passed (item_fragments (Items.cons v vs)) _ t h in
    let (s, hs, h1) = bind_passed (canonical_fragment v) _ parts made in
    let (others, _, h2) = bind_passed (item_fragments vs) _ parts h1 in
    let shape = accepted-injective h2 in
    with_fuel fuel (IsRead (Value.array (Items.cons v vs)) t) (omega (arith, n)) λ f e.
      rw (sym (accepted-injective last)) (
        rw (sym shape) (
          array_back (Items.cons v vs) s others f (joined_start s others (value_starts v s hs)) (
            reads (s ∷ others) f (omega arith) (made ∙ ap accepted (sym shape))
              (omega (arith, n, e)))))

object_whole :
    (fs : Fields) (t : Text) (fuel : ℕ)
    → ascending_keys (entries fs) ≡ true
    → canonical_fragment (Value.object fs) ≡ accepted t
    → need (Value.object fs) ≤ fuel
    → ((parts : List Text) (f : ℕ)
        → 0 < need_fields fs
        → join_members (member_fragments fs) ≡ accepted parts
        → need_fields fs ≤ f
        → AreMembers fs parts f)
    → IsRead (Value.object fs) t fuel
unfolding canonical_fragment need comma_join normal_value join_object
object_whole Fields.end t fuel ordered h n reads =
    word_back fuel _ (codes "{}") t n h (λ f rest. empty_object_step f rest)
object_whole (Fields.field k v fs) t fuel ordered h n reads =
    let whole = Fields.field k v fs in
    let sorted = sorted_keys (member_fragments whole) (ascending_fragments whole ∙ ordered) in
    let (parts, made, last) =
      bind_passed (join_members (sort_by key_leb (member_fragments whole))) _ t h in
    let joined = ap join_members (sym sorted) ∙ made in
    let (s, hs, h1) = bind_passed (canonical_fragment v) _ parts joined in
    let (others, _, h2) = bind_passed (join_members (member_fragments fs)) _ parts h1 in
    let shape = accepted-injective h2 in
    with_fuel fuel (IsRead (Value.object whole) t) (omega (arith, n)) λ f e.
      rw (sym (accepted-injective last)) (
        rw (sym shape) (
          object_back whole (dumps_text k ++ b':' ∷ s) others f (joined_quote k s others) ordered (
            reads ((dumps_text k ++ b':' ∷ s) ∷ others) f (omega arith)
              (joined ∙ ap accepted (sym shape)) (omega (arith, n, e)))))

mutual
  unfolding canonical_fragment readable need normal_value join_object comma_join

  pub value_back :
      (v : Value) (t : Text) (fuel : ℕ)
      → readable v ≡ true
      → canonical_fragment v ≡ accepted t
      → need v ≤ fuel
      → IsRead v t fuel
  value_back Value.null t fuel r h n = word_back fuel Value.null (codes "null") t n h null_back
  value_back (Value.boolean true) t fuel r h n = word_back fuel _ (codes "true") t n h true_back
  value_back (Value.boolean false) t fuel r h n = word_back fuel _ (codes "false") t n h false_back
  value_back (Value.text s) t fuel r h n = word_back fuel _ (dumps_text s) t n h (text_back s)
  value_back (Value.number d) t fuel r h n = scalar_back fuel _ d t n (number_text d t h) r refl
  value_back (Value.integer b m) t fuel r h n =
      scalar_back fuel _ (decimal_of_integer b m) t n (b, m, ℤ.pos 0, refl, integer_text b m t h) r
        refl
  value_back (Value.array vs) t fuel r h n =
      array_whole vs t fuel h n
        (λ parts f some_there made m. items_back vs parts f some_there r made m)
  value_back (Value.object fs) t fuel r h n =
      let (ordered, inner) = and_both (ascending_keys (entries fs)) (readable_fields fs) r in
      object_whole fs t fuel ordered h n
        (λ parts f some_there made m. members_back fs parts f some_there inner made m)

  -- the elements of an array up to its end
  items_back :
      (vs : Items) (parts : List Text) (fuel : ℕ)
      → 0 < need_items vs
      → readable_items vs ≡ true
      → item_fragments vs ≡ accepted parts
      → need_items vs ≤ fuel
      → AreRead vs parts fuel
  items_back Items.nil parts fuel some_there r h n = absurd (omega (arith, some_there))
  items_back (Items.cons v Items.nil) parts fuel some_there r h n =
      let (s, hs, h1) = bind_passed (canonical_fragment v) _ parts h in
      let (first, _) = and_both (readable v) true r in
      with_fuel fuel (AreRead (Items.cons v Items.nil) parts) (omega (arith, n)) λ f e.
        rw (sym (accepted-injective h1))
          (last_item v s f (value_back v s f first hs (omega (arith, n, e))))
  items_back (Items.cons v (Items.cons w ws)) parts fuel some_there r h n =
      let (s, hs, h1) = bind_passed (canonical_fragment v) _ parts h in
      let (others, ho, h2) = bind_passed (item_fragments (Items.cons w ws)) _ parts h1 in
      let (t, ht, g1) = bind_passed (canonical_fragment w) _ others ho in
      let (more, _, g2) = bind_passed (item_fragments ws) _ others g1 in
      let shape = accepted-injective g2 in
      let (first, later) = and_both (readable v) (readable_items (Items.cons w ws)) r in
      with_fuel fuel (AreRead (Items.cons v (Items.cons w ws)) parts) (omega (arith, n)) λ f e.
        rw (sym (accepted-injective h2)) (
          rw (sym shape) (
            next_item v s t more (Items.cons w ws) f (joined_start t more (value_starts w t ht))
              (value_back v s f first hs (omega (arith, n, e)))
              (items_back (Items.cons w ws) (t ∷ more) f (omega arith) later
                (ho ∙ ap accepted (sym shape)) (omega (arith, n, e)))))

  -- the members of an object up to its end
  members_back :
      (fs : Fields) (parts : List Text) (fuel : ℕ)
      → 0 < need_fields fs
      → readable_fields fs ≡ true
      → join_members (member_fragments fs) ≡ accepted parts
      → need_fields fs ≤ fuel
      → AreMembers fs parts fuel
  members_back Fields.end parts fuel some_there r h n = absurd (omega (arith, some_there))
  members_back (Fields.field k v Fields.end) parts fuel some_there r h n =
      let (s, hs, h1) = bind_passed (canonical_fragment v) _ parts h in
      let (first, _) = and_both (readable v) true r in
      with_fuel fuel (AreMembers (Fields.field k v Fields.end) parts) (omega (arith, n)) λ f e.
        rw (sym (accepted-injective h1)) (
          last_member k s v f (value_starts v s hs)
            (value_back v s f first hs (omega (arith, n, e))))
  members_back (Fields.field k v (Fields.field j w fs)) parts fuel some_there r h n =
      let (s, hs, h1) = bind_passed (canonical_fragment v) _ parts h in
      let (others, ho, h2) =
        bind_passed (join_members (member_fragments (Fields.field j w fs))) _ parts h1 in
      let (t, _, g1) = bind_passed (canonical_fragment w) _ others ho in
      let (more, _, g2) = bind_passed (join_members (member_fragments fs)) _ others g1 in
      let shape = accepted-injective g2 in
      let (first, later) = and_both (readable v) (readable_fields (Fields.field j w fs)) r in
      with_fuel fuel (AreMembers (Fields.field k v (Fields.field j w fs)) parts) (omega (arith, n))
        λ f e. rw (sym (accepted-injective h2)) (
          rw (sym shape) (
            next_member k s (dumps_text j ++ b':' ∷ t) v more (Fields.field j w fs) f
              (value_starts v s hs) (joined_quote j t more)
              (value_back v s f first hs (omega (arith, n, e)))
              (members_back (Fields.field j w fs) ((dumps_text j ++ b':' ∷ t) ∷ more) f
                (omega arith) later (ho ∙ ap accepted (sym shape)) (omega (arith, n, e)))))
