-- ===== src/Shared/Reread/Whole.antt =====
-- Canonical JSON is read back as a whole, shared/json_contract.py.
use headless_blender_charact.Prelude.{
  [], ap, append-nil, arith, false, length, ltb, refl, some, sym, true, ℕ, ◌*◌, ◌+◌, ◌∙◌, ◌≡◌, ◌≤◌,
}
use headless_blender_charact.Shared.Rejection.{Text, accepted, bind_passed, is_blank}
use headless_blender_charact.Service.Contract.{Bytes}
use headless_blender_charact.Shared.Json.{Value, check_nesting}
use headless_blender_charact.Shared.Json.Canonical.{
  canonical_fragment, canonical_json_bytes, encode_utf8,
}
use headless_blender_charact.Shared.Json.Decode.{
  decode_json_document, loads, scan_value, skip_space,
}
use headless_blender_charact.Shared.Reread.Figures.{ends_number}
use headless_blender_charact.Shared.Reread.Utf8.{decode_utf8-encode_utf8}
use headless_blender_charact.Shared.Reread.Openings.{normal_value, readable, skip_start}
use headless_blender_charact.Shared.Reread.Starts.{value_starts}
use headless_blender_charact.Shared.Reread.Documents.{value_back}
use headless_blender_charact.Shared.Reread.Enough.{need_value}
use headless_blender_charact.Shared.Reread.Kept.{fragment_kept, height_kept}
use headless_blender_charact.Shared.Json.Nesting.{check_nesting-height, height}
use headless_blender_charact.Shared.Readers.Accepted.{passes_unit}
use headless_blender_charact.Shared.Reread.Single.{IsRead}

loads_back :
    (v : Value) (t : Text)
    → readable v ≡ true
    → canonical_fragment v ≡ accepted t
    → loads t ≡ accepted (normal_value v)
unfolding loads IsRead skip_space ends_number is_blank
loads_back v t r h =
    let (c, s, shape, starts) = value_starts v t h in
    let started = ap skip_space shape ∙ skip_start c s starts ∙ sym shape in
    let enough = need_value v t r h in
    let read = value_back v t (2 * length t + 2) r h (omega (arith, enough)) [] refl in
    rw started (rw (ap (scan_value (2 * length t + 2)) (sym (append-nil t)) ∙ read) refl)

nesting_passes : (v : Value) → height v ≤ 32 → check_nesting 0 v ≡ accepted tt
nesting_passes v h = passes_unit (check_nesting 0 v) ((check_nesting-height v).1 h)

not_longer : (a b : ℕ) → a ≤ b → ltb b a ≡ false
not_longer a b h = ground arith

-- Canonical JSON is read back: the canonical bytes of a document with its keys in order, no more than
-- 32 levels deep, whose numbers have at most 288 characters and are admitted in their normal form,
-- decode to the document itself with its numbers in normal form, if they are no more than the limit.
-- That document has the same canonical bytes.
pub decode_json_document-canonical_json_bytes :
    (v : Value) (bytes : Bytes) (most : ℕ)
    → readable v ≡ true
    → height v ≤ 32
    → canonical_json_bytes v ≡ accepted bytes
    → length bytes ≤ most
    → (decode_json_document (some most) bytes ≡ accepted (normal_value v))
      × (canonical_json_bytes (normal_value v) ≡ accepted bytes)
unfolding decode_json_document canonical_json_bytes
decode_json_document-canonical_json_bytes v bytes most r small h few =
    let (t, made, encoded) = bind_passed (canonical_fragment v) encode_utf8 bytes h in
    let decoded = decode_utf8-encode_utf8 t bytes encoded in
    let nested = nesting_passes (normal_value v) (omega (arith, height_kept v, small)) in
    let fits : ltb most (length bytes) ≡ false = not_longer (length bytes) most few in
    (
      rw fits (rw decoded (rw (loads_back v t r made) (rw nested refl))),
      rw (fragment_kept v t r made) encoded,
    )
