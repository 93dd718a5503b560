-- ===== src/Shared/Json/Canonical/Order.antt =====
-- The canonical text of an object does not depend on the order of its pairs,
-- shared/json_contract.py.
use headless_blender_charact.Prelude.{
  [], ap, ap₂, arith, false, insert_by, refl, sort_by, sym, true, ◌++◌, ◌||◌, ◌∙◌, ◌∷◌, ◌≡◌, ◌≢◌,
}
use headless_blender_charact.Shared.Rejection.{Text, accepted, ◌>>=◌}
use headless_blender_charact.Shared.Decimal.{Decimal, canonical_number, decimal_below}
use headless_blender_charact.Service.Dict.{Dict}
use headless_blender_charact.Shared.Json.{Fields, Items, Value}
use headless_blender_charact.Shared.Json.Canonical.{
  canonical_fragment, canonical_json_bytes, comma_join, encode_utf8, item_fragments, join_members,
  join_object, key_leb, member_fragments, text_leb,
}
use headless_blender_charact.Shared.Decimal.Forms.{canonical_number-same}

pub text_leb_total : (s t : Text) → (text_leb s t || text_leb t s) ≡ true
unfolding text_leb
text_leb_total [] t = refl
text_leb_total (a ∷ s) [] = refl
text_leb_total (a ∷ s) (b ∷ t) = ground (arith, text_leb_total s t)

pub text_leb_trans :
    (s t u : Text) → text_leb s t ≡ true → text_leb t u ≡ true → text_leb s u ≡ true
unfolding text_leb
text_leb_trans [] t u h k = refl
text_leb_trans (a ∷ s) [] u h k = cc
text_leb_trans (a ∷ s) (b ∷ t) [] h k = cc
text_leb_trans (a ∷ s) (b ∷ t) (c ∷ u) h k = ground (arith, text_leb_trans s t u)

pub text_leb_antisym : (s t : Text) → text_leb s t ≡ true → text_leb t s ≡ true → s ≡ t
unfolding text_leb
text_leb_antisym [] [] h k = refl
text_leb_antisym [] (b ∷ t) h k = cc
text_leb_antisym (a ∷ s) [] h k = cc
text_leb_antisym (a ∷ s) (b ∷ t) h k = ground (arith, text_leb_antisym s t)

module _ {ℓ} {A : Type ℓ} where
  -- Two members with different keys may be inserted in either order.
  insert_comm :
      (x y : Text × A) (l : Dict Text A)
      → x.0 ≢ y.0
      → insert_by key_leb x (insert_by key_leb y l) ≡ insert_by key_leb y (insert_by key_leb x l)
  insert_comm x y [] h = ground (arith, text_leb_total x.0 y.0, text_leb_antisym x.0 y.0)
  insert_comm x y (z ∷ l) h = ground (
    arith,
    insert_comm x y l h,
    text_leb_total x.0 y.0,
    text_leb_antisym x.0 y.0,
    text_leb_trans x.0 y.0 z.0,
    text_leb_trans y.0 x.0 z.0,
    text_leb_total x.0 z.0,
    text_leb_total y.0 z.0,
    text_leb_trans x.0 z.0 y.0,
    text_leb_trans y.0 z.0 x.0,
  )

  sorted_swap :
      (x y : Text × A) (l : Dict Text A)
      → x.0 ≢ y.0
      → sort_by key_leb (x ∷ y ∷ l) ≡ sort_by key_leb (y ∷ x ∷ l)
  sorted_swap x y l h = insert_comm x y (sort_by key_leb l) h

-- One document written in two ways: neighbouring members of an object change places, which have
-- different keys, and numbers of one size take different forms, at any depth.
mutual
  pub data SameDocument : Value → Value → Type 0 where
    same : (v : Value) → SameDocument v v
    numbers :
        (x y : Decimal) (s t : Text)
        → canonical_number x ≡ accepted s
        → canonical_number y ≡ accepted t
        → decimal_below x y ≡ false
        → decimal_below y x ≡ false
        → SameDocument (Value.number x) (Value.number y)
    arrays : {vs ws : Items} → SameItems vs ws → SameDocument (Value.array vs) (Value.array ws)
    objects : {fs gs : Fields} → SameFields fs gs → SameDocument (Value.object fs) (Value.object gs)

  pub data SameItems : Items → Items → Type 0 where
    no_items : SameItems Items.nil Items.nil
    items_too :
        {v w : Value} {vs ws : Items}
        → SameDocument v w
        → SameItems vs ws
        → SameItems (Items.cons v vs) (Items.cons w ws)

  pub data SameFields : Fields → Fields → Type 0 where
    no_fields : SameFields Fields.end Fields.end
    fields_too :
        (k : Text) {v w : Value} {fs gs : Fields}
        → SameDocument v w
        → SameFields fs gs
        → SameFields (Fields.field k v fs) (Fields.field k w gs)
    exchange :
        (j k : Text) (v w : Value) (fs : Fields)
        → j ≢ k
        → SameFields
            (Fields.field j v (Fields.field k w fs))
            (Fields.field k w (Fields.field j v fs))
    then_fields : {fs gs hs : Fields} → SameFields fs gs → SameFields gs hs → SameFields fs hs

mutual
  unfolding canonical_fragment join_object

  fragment_same : {v w : Value} → SameDocument v w → canonical_fragment v ≡ canonical_fragment w
  fragment_same (SameDocument.same v) = refl
  fragment_same (SameDocument.numbers x y s t p q h k) =
      p ∙ ap accepted (canonical_number-same x y s t p q h k) ∙ sym q
  fragment_same (SameDocument.arrays r) = rw (items_same r) refl
  fragment_same (SameDocument.objects r) =
      ap (λ l. join_members l >>= λ parts. accepted (b'{' ∷ comma_join parts ++ b'}' ∷ []))
        (members_same r)

  items_same : {vs ws : Items} → SameItems vs ws → item_fragments vs ≡ item_fragments ws
  items_same SameItems.no_items = refl
  items_same (SameItems.items_too r rs) = rw (fragment_same r) (rw (items_same rs) refl)

  -- the members sorted by key
  members_same :
      {fs gs : Fields}
      → SameFields fs gs
      → sort_by key_leb (member_fragments fs) ≡ sort_by key_leb (member_fragments gs)
  members_same SameFields.no_fields = refl
  members_same (SameFields.fields_too k r rs) =
      ap₂ (λ s l. insert_by key_leb (k, s) l) (fragment_same r) (members_same rs)
  members_same (SameFields.exchange j k v w fs h) =
      sorted_swap (j, canonical_fragment v) (k, canonical_fragment w) (member_fragments fs) h
  members_same (SameFields.then_fields r s) = members_same r ∙ members_same s

-- Two ways to write one document give the same canonical bytes, or the same rejection: the order of
-- the members of an object does not show, nor the form of an admitted number, at any depth.
pub canonical_json_bytes-SameDocument :
    {v w : Value} → SameDocument v w → canonical_json_bytes v ≡ canonical_json_bytes w
unfolding canonical_json_bytes
canonical_json_bytes-SameDocument r = ap (λ m. m >>= encode_utf8) (fragment_same r)
