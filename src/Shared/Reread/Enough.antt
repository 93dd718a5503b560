-- ===== src/Shared/Reread/Enough.antt =====
-- Twice the length of a document is fuel enough to read it, shared/json_contract.py.
use headless_blender_charact.Prelude.{
  List, [], ap, arith, length, length-append, max, refl, sort_by, suc, sym, true, ℕ, ◌*◌, ◌++◌, ◌+◌,
  ◌∙◌, ◌∷◌, ◌≡◌, ◌≢◌, ◌≤◌,
}
use headless_blender_charact.Shared.Rejection.{Text, accepted, accepted-injective, bind_passed}
use headless_blender_charact.Shared.Json.{Fields, Items, Value, entries}
use headless_blender_charact.Shared.Json.Canonical.{
  canonical_fragment, comma_join, dumps_text, item_fragments, join_members, join_object, key_leb,
  member_fragments,
}
use headless_blender_charact.Shared.Reread.Members.{ascending_keys, sorted_keys}
use headless_blender_charact.Shared.Reread.Openings.{readable, readable_fields, readable_items}
use headless_blender_charact.Shared.Reread.Starts.{ascending_fragments, value_starts}
use headless_blender_charact.Shared.Reread.Steps.{and_both}
use headless_blender_charact.Shared.Reread.Single.{need, need_fields, need_items}

text_length : (v : Value) (t : Text) → canonical_fragment v ≡ accepted t → 1 ≤ length t
text_length v t h = let (c, s, shape, _) = value_starts v t h in omega (arith, ap length shape)

join_length :
    (s : Text) (parts : List Text)
    → parts ≢ []
    → length (comma_join (s ∷ parts)) ≡ length s + 1 + length (comma_join parts)
unfolding comma_join
join_length s [] h = absurd (h refl)
join_length s (t ∷ parts) h = omega (arith, length-append s (b',' ∷ comma_join (t ∷ parts)))

-- a list in brackets
pub bracketed_length :
    (left right : ℕ) (s t : Text) → left ∷ s ++ right ∷ [] ≡ t → length t ≡ length s + 2
bracketed_length left right s t e = omega (arith, ap length (sym e), length-append s (right ∷ []))

-- One element more: the fuel it takes and the length it adds.
list_need :
    (a b : ℕ) (s : Text) (others parts : List Text)
    → s ∷ others ≡ parts
    → a ≤ 2 * length s
    → b ≤ 2 * length (comma_join others) + 1
    → (others ≡ [] → b ≡ 0)
    → suc (max a b) ≤ 2 * length (comma_join parts) + 1
unfolding comma_join
list_need a b s [] parts e h k last =
    rw (sym e) (let none_left = last refl in omega (arith, h, none_left))
list_need a b s (t ∷ others) parts e h k last =
    rw (sym e) (omega (arith, h, k, join_length s (t ∷ others) (λ x. cc)))

none_needed :
    (vs : Items) (parts : List Text)
    → item_fragments vs ≡ accepted parts
    → parts ≡ []
    → need_items vs ≡ 0
unfolding canonical_fragment need
none_needed Items.nil parts h e = refl
none_needed (Items.cons v vs) parts h e =
    let (s, _, h1) = bind_passed (canonical_fragment v) _ parts h in
    let (others, _, h2) = bind_passed (item_fragments vs) _ parts h1 in
    let shape = accepted-injective h2 in cc

no_members_needed :
    (fs : Fields) (parts : List Text)
    → join_members (member_fragments fs) ≡ accepted parts
    → parts ≡ []
    → need_fields fs ≡ 0
unfolding canonical_fragment need join_members
no_members_needed Fields.end parts h e = refl
no_members_needed (Fields.field k v fs) parts h e =
    let (s, _, h1) = bind_passed (canonical_fragment v) _ parts h in
    let (others, _, h2) = bind_passed (join_members (member_fragments fs)) _ parts h1 in
    let shape = accepted-injective h2 in cc

mutual
  unfolding canonical_fragment readable need join_object

  pub need_value :
      (v : Value) (t : Text)
      → readable v ≡ true
      → canonical_fragment v ≡ accepted t
      → need v ≤ 2 * length t
  need_value Value.null t r h = omega (arith, text_length Value.null t h)
  need_value (Value.boolean b) t r h = omega (arith, text_length (Value.boolean b) t h)
  need_value (Value.text s) t r h = omega (arith, text_length (Value.text s) t h)
  need_value (Value.number d) t r h = omega (arith, text_length (Value.number d) t h)
  need_value (Value.integer b n) t r h = omega (arith, text_length (Value.integer b n) t h)
  need_value (Value.array vs) t r h =
      let (parts, made, last) = bind_passed (item_fragments vs) _ t h in
      omega (
        arith,
        need_of_items vs parts r made,
        bracketed_length _ _ (comma_join parts) t (accepted-injective last),
      )
  need_value (Value.object fs) t r h =
      let (ordered, inner) = and_both (ascending_keys (entries fs)) (readable_fields fs) r in
      let sorted = sorted_keys (member_fragments fs) (ascending_fragments fs ∙ ordered) in
      let (parts, made, last) =
        bind_passed (join_members (sort_by key_leb (member_fragments fs))) _ t h in
      omega (
        arith,
        need_of_members fs parts inner (ap join_members (sym sorted) ∙ made),
        bracketed_length _ _ (comma_join parts) t (accepted-injective last),
      )

  need_of_items :
      (vs : Items) (parts : List Text)
      → readable_items vs ≡ true
      → item_fragments vs ≡ accepted parts
      → need_items vs ≤ 2 * length (comma_join parts) + 1
  need_of_items Items.nil parts r h = omega arith
  need_of_items (Items.cons v vs) parts r h =
      let (s, hs, h1) = bind_passed (canonical_fragment v) _ parts h in
      let (others, ho, h2) = bind_passed (item_fragments vs) _ parts h1 in
      let (first, later) = and_both (readable v) (readable_items vs) r in
      list_need (need v) (need_items vs) s others parts (accepted-injective h2)
        (need_value v s first hs) (need_of_items vs others later ho) (none_needed vs others ho)

  need_of_members :
      (fs : Fields) (parts : List Text)
      → readable_fields fs ≡ true
      → join_members (member_fragments fs) ≡ accepted parts
      → need_fields fs ≤ 2 * length (comma_join parts) + 1
  need_of_members Fields.end parts r h = omega arith
  need_of_members (Fields.field k v fs) parts r h =
      let (s, hs, h1) = bind_passed (canonical_fragment v) _ parts h in
      let (others, ho, h2) = bind_passed (join_members (member_fragments fs)) _ parts h1 in
      let (first, later) = and_both (readable v) (readable_fields fs) r in
      list_need (need v) (need_fields fs) (dumps_text k ++ b':' ∷ s) others parts
        (accepted-injective h2)
        (omega (arith, need_value v s first hs, length-append (dumps_text k) (b':' ∷ s)))
        (need_of_members fs others later ho) (no_members_needed fs others ho)
