-- ===== src/Shared/Json/Fuel.antt =====
-- The fuel of the reader of Python's json.loads, shared/json_contract.py: with enough of it, more of it
-- changes nothing.
use headless_blender_charact.Prelude.{
  ap, arith, inl, inr, length, not, refl, subst, suc, sym, zero, ℕ, ◌*◌, ◌+◌, ◌∙◌, ◌≡◌, ◌≤◌,
}
use headless_blender_charact.Shared.Rejection.{
  Checked, ContractCode, Text, accepted, is_blank, reject_if, rejected, root, ◌>>=◌, ◌>>◌,
}
use headless_blender_charact.Shared.Json.Decode.{
  loads, scan_items, scan_members, scan_value, skip_space,
}
use headless_blender_charact.Shared.Json.Shrinking.{
  Leaves, Leaves-bind, Leaves-more, refuses, skip_space_shorter,
}
use headless_blender_charact.Shared.Json.Branches.{
  items_step, members_step, scan_key, scan_key-Leaves, value_step,
}
use headless_blender_charact.Shared.Json.Behind.{
  Step, after_element, after_element_step, after_member, after_member_step,
}

step-Leaves {ℓ κ} :
    {V : Type ℓ} {U : Type κ} (n f : ℕ) (next_reader : ℕ → Text → Checked (U × Text))
    (reader : ℕ → Checked (V × Text))
    → ((t : Text) → Leaves (length t) (next_reader f t))
    → Step n next_reader reader
    → Leaves n (reader f)
step-Leaves n f next_reader reader each (Step.ends m same leaves) =
    subst (Leaves n) (sym (same f)) leaves
step-Leaves n f next_reader reader each (Step.goes_on t next short same kept) =
    subst (Leaves n) (sym (same f)) (
      Leaves-bind (length t) n (next_reader f t) (each t)
        λ u h. Leaves-more (length u.1) n (next u) (omega (arith, short, h)) (kept u))

mutual
  unfolding scan_value

  value-Leaves : (f : ℕ) (s : Text) → Leaves (length s) (scan_value f s)
  value-Leaves zero s = refuses _
  value-Leaves (suc f) s = elim (value_step s) [
    | inl st ↦ step-Leaves (length s) f scan_items _ (items-Leaves f) st
    | inr st ↦ step-Leaves (length s) f scan_members _ (members-Leaves f) st
  ]

  items-Leaves : (f : ℕ) (s : Text) → Leaves (length s) (scan_items f s)
  items-Leaves zero s = refuses _
  items-Leaves (suc f) s = subst (Leaves (length s)) (sym (items_step f s)) (
      Leaves-bind (length s) (length s) (scan_value f s) (value-Leaves f s) λ first h.
        Leaves-more (length first.1) (length s) (after_element f first) h
          (step-Leaves (length first.1) f scan_items _ (items-Leaves f) (after_element_step first)))

  members-Leaves : (f : ℕ) (s : Text) → Leaves (length s) (scan_members f s)
  members-Leaves zero s = refuses _
  members-Leaves (suc f) s = elim (members_step s) [
    | inl same ↦ subst (Leaves (length s)) (sym (same f)) (refuses _)
    | inr same ↦ subst (Leaves (length s)) (sym (same f)) (
        Leaves-bind (length s) (length s) (scan_key s) (scan_key-Leaves s) λ key short.
          Leaves-bind (length key.1) (length s) (scan_value f key.1) (value-Leaves f key.1)
            λ first h.
              Leaves-more (length first.1) (length s) (after_member f key.0 first)
                (omega (arith, short, h))
                (step-Leaves (length first.1) f scan_members _ (members-Leaves f)
                  (after_member_step key.0 first)))
  ]

-- Two sequences agree when their first statements do, and their rest on whatever those accept.
bind_agrees {ℓ κ} :
    {U : Type ℓ} {V : Type κ} (m n : Checked U) (next other : U → Checked V)
    → m ≡ n
    → ((u : U) → n ≡ accepted u → next u ≡ other u)
    → (m >>= next) ≡ (n >>= other)
bind_agrees m (rejected e) next other same each = ap (λ x. x >>= next) same
bind_agrees m (accepted u) next other same each = ap (λ x. x >>= next) same ∙ each u refl

step_agrees {ℓ κ} :
    {V : Type ℓ} {U : Type κ} (n f g : ℕ) (next_reader : ℕ → Text → Checked (U × Text))
    (reader : ℕ → Checked (V × Text))
    → ((t : Text) → length t + 1 ≤ n → next_reader f t ≡ next_reader g t)
    → Step n next_reader reader
    → reader f ≡ reader g
step_agrees n f g next_reader reader each (Step.ends m same leaves) = same f ∙ sym (same g)
step_agrees n f g next_reader reader each (Step.goes_on t next short same kept) =
    same f ∙ ap (λ x. x >>= next) (each t short) ∙ sym (same g)

mutual
  value_agrees :
      (f g : ℕ) (s : Text)
      → 2 * length s + 1 ≤ f
      → 2 * length s + 1 ≤ g
      → scan_value f s ≡ scan_value g s
  value_agrees zero g s h k = absurd (omega arith)
  value_agrees (suc f) zero s h k = absurd (omega arith)
  value_agrees (suc f) (suc g) s h k = elim (value_step s) [
    | inl st ↦
        step_agrees (length s) f g scan_items _
          (λ t short. items_agree f g t (omega (arith, h, short)) (omega (arith, k, short))) st
    | inr st ↦
        step_agrees (length s) f g scan_members _
          (λ t short. members_agree f g t (omega (arith, h, short)) (omega (arith, k, short))) st
  ]

  items_agree :
      (f g : ℕ) (s : Text)
      → 2 * length s + 2 ≤ f
      → 2 * length s + 2 ≤ g
      → scan_items f s ≡ scan_items g s
  items_agree zero g s h k = absurd (omega arith)
  items_agree (suc f) zero s h k = absurd (omega arith)
  items_agree (suc f) (suc g) s h k =
      items_step f s
      ∙ bind_agrees (scan_value f s) (scan_value g s) (after_element f) (after_element g)
          (value_agrees f g s (omega (arith, h)) (omega (arith, k)))
          (λ first e.
            let left = (value-Leaves g s).ensured first e in
            step_agrees (length first.1) f g scan_items (λ x. after_element x first)
              (λ t short.
                items_agree f g t (omega (arith, h, short, left)) (omega (arith, k, short, left)))
              (after_element_step first))
      ∙ sym (items_step g s)

  members_agree :
      (f g : ℕ) (s : Text)
      → 2 * length s + 2 ≤ f
      → 2 * length s + 2 ≤ g
      → scan_members f s ≡ scan_members g s
  members_agree zero g s h k = absurd (omega arith)
  members_agree (suc f) zero s h k = absurd (omega arith)
  members_agree (suc f) (suc g) s h k = elim (members_step s) [
    | inl same ↦ same f ∙ sym (same g)
    | inr same ↦
        same f
        ∙ bind_agrees (scan_key s) (scan_key s) _ _ refl (λ key e.
          let shorter = (scan_key-Leaves s).ensured key e in
          bind_agrees (scan_value f key.1) (scan_value g key.1) (after_member f key.0)
            (after_member g key.0)
            (value_agrees f g key.1 (omega (arith, h, shorter)) (omega (arith, k, shorter)))
            (λ first e2.
              let left = (value-Leaves g key.1).ensured first e2 in
              step_agrees (length first.1) f g scan_members (λ x. after_member x key.0 first)
                (λ t short.
                  members_agree f g t (omega (arith, h, short, left, shorter))
                    (omega (arith, k, short, left, shorter)))
                (after_member_step key.0 first)))
        ∙ sym (same g)
  ]

-- The fuel that `loads` takes is enough: reading a text with any more of it gives the same value, or the
-- same rejection.
loads_enough_fuel :
    (s : Text) (fuel : ℕ)
    → 2 * length s + 2 ≤ fuel
    → (scan_value fuel (skip_space s) >>= λ r.
        reject_if (not (is_blank (skip_space r.1))) ContractCode.invalid_json root >> accepted r.0)
      ≡ loads s
unfolding loads
loads_enough_fuel s fuel h =
    ap
      (λ m. m >>= λ r.
        reject_if (not (is_blank (skip_space r.1))) ContractCode.invalid_json root >> accepted r.0)
      (value_agrees fuel (2 * length s + 2) (skip_space s) (omega (arith, h, skip_space_shorter s))
        (omega (arith, skip_space_shorter s)))
