-- ===== src/Shared/Reread/Utf8.antt =====
-- Text encoded as UTF-8 is decoded to itself, shared/json_contract.py.
use headless_blender_charact.Prelude.{
  Bool-cases, [], ap, arith, between, false, inl, inr, ltb, refl, suc, sym, true, ℕ, ◌%◌, ◌*◌, ◌++◌,
  ◌+◌, ◌-◌, ◌/◌, ◌<◌, ◌||◌, ◌∙◌, ◌∷◌, ◌≡◌, ◌≤◌, ◌⊎◌,
}
use headless_blender_charact.Shared.Rejection.{Text, accepted, accepted-injective, bind_passed}
use headless_blender_charact.Service.Contract.{Bytes}
use headless_blender_charact.Shared.Json.Canonical.{encode_utf8, utf8_character}
use headless_blender_charact.Shared.Json.Strings.{
  LeadByte, decode_inside, decode_utf8, is_no_scalar, lead_byte, then_text,
}

lead_two : (n : ℕ) → n < 32 → lead_byte (192 + n) ≡ LeadByte.begins 0 n 128
unfolding lead_byte
lead_two n h = let same : 192 + n - 192 ≡ n = omega arith in ground (arith, same)

lead_three : (n : ℕ) → n < 16 → lead_byte (224 + n) ≡ LeadByte.begins 1 n 2048
unfolding lead_byte
lead_three n h = let same : 224 + n - 224 ≡ n = omega arith in ground (arith, same)

lead_four : (n : ℕ) → n < 8 → lead_byte (240 + n) ≡ LeadByte.begins 2 n 65536
unfolding lead_byte
lead_four n h = let same : 240 + n - 240 ≡ n = omega arith in ground (arith, same)

lead_one : (n : ℕ) → n < 128 → lead_byte n ≡ LeadByte.ascii n
unfolding lead_byte
lead_one n h = ground arith

last_byte :
    (c least n : ℕ) (rest : Bytes)
    → n < 64
    → is_no_scalar least (c * 64 + n) ≡ false
    → decode_inside 0 c least ((128 + n) ∷ rest) ≡ then_text (c * 64 + n) (decode_utf8 rest)
unfolding decode_utf8
last_byte c least n rest h k =
    let same : 128 + n - 128 ≡ n = omega arith in
    let marked : between 128 191 (128 + n) ≡ true = ground arith in rw same (rw marked (rw k refl))

next_byte :
    (more c least n : ℕ) (rest : Bytes)
    → n < 64
    → decode_inside (suc more) c least ((128 + n) ∷ rest)
      ≡ decode_inside more (c * 64 + n) least rest
unfolding decode_utf8
next_byte more c least n rest h =
    let same : 128 + n - 128 ≡ n = omega arith in
    let marked : between 128 191 (128 + n) ≡ true = ground arith in rw same (rw marked refl)

scalar_in :
    (least c : ℕ)
    → least ≤ c
    → c ≤ 1114111
    → between 55296 57343 c ≡ false
    → is_no_scalar least c ≡ false
unfolding is_no_scalar
scalar_in least c h k s = ground arith

begun :
    (b more c least : ℕ) (rest : Bytes)
    → lead_byte b ≡ LeadByte.begins more c least
    → decode_utf8 (b ∷ rest) ≡ decode_inside more c least rest
unfolding decode_utf8
begun b more c least rest h = rw (h, decode_utf8) refl

single_byte :
    (b : ℕ) (rest : Bytes) → b < 128 → decode_utf8 (b ∷ rest) ≡ then_text b (decode_utf8 rest)
unfolding decode_utf8
single_byte b rest h = rw (lead_one b h, decode_utf8) refl

two_bytes :
    (c : ℕ) (rest : Bytes)
    → 128 ≤ c
    → c < 2048
    → decode_utf8 ((192 + c / 64) ∷ (128 + c % 64) ∷ rest) ≡ then_text c (decode_utf8 rest)
two_bytes c rest h k =
    let whole : c / 64 * 64 + c % 64 ≡ c = omega arith in
    begun (192 + c / 64) 0 (c / 64) 128 ((128 + c % 64) ∷ rest) (lead_two (c / 64) (omega arith))
    ∙ last_byte (c / 64) 128 (c % 64) rest (omega arith)
        (rw whole (scalar_in 128 c h (omega arith) (ground arith)))
    ∙ ap (λ x. then_text x (decode_utf8 rest)) whole

three_bytes :
    (c : ℕ) (rest : Bytes)
    → 2048 ≤ c
    → c < 65536
    → between 55296 57343 c ≡ false
    → decode_utf8 ((224 + c / 4096) ∷ (128 + c / 64 % 64) ∷ (128 + c % 64) ∷ rest)
      ≡ then_text c (decode_utf8 rest)
three_bytes c rest h k s =
    let upper = c / 4096 * 64 + c / 64 % 64 in
    let whole : upper * 64 + c % 64 ≡ c = omega arith in
    begun (224 + c / 4096) 1 (c / 4096) 2048 _ (lead_three (c / 4096) (omega arith))
    ∙ next_byte 0 (c / 4096) 2048 (c / 64 % 64) ((128 + c % 64) ∷ rest) (omega arith)
    ∙ last_byte upper 2048 (c % 64) rest (omega arith)
        (rw whole (scalar_in 2048 c h (omega arith) s))
    ∙ ap (λ x. then_text x (decode_utf8 rest)) whole

four_bytes :
    (c : ℕ) (rest : Bytes)
    → 65536 ≤ c
    → c ≤ 1114111
    → decode_utf8
        ((240 + c / 262144) ∷ (128 + c / 4096 % 64) ∷ (128 + c / 64 % 64) ∷ (128 + c % 64) ∷ rest)
      ≡ then_text c (decode_utf8 rest)
four_bytes c rest h k =
    let upper = c / 262144 * 64 + c / 4096 % 64 in
    let middle = upper * 64 + c / 64 % 64 in
    let whole : middle * 64 + c % 64 ≡ c = omega arith in
    begun (240 + c / 262144) 2 (c / 262144) 65536 _ (lead_four (c / 262144) (omega arith))
    ∙ next_byte 1 (c / 262144) 65536 (c / 4096 % 64) _ (omega arith)
    ∙ next_byte 0 upper 65536 (c / 64 % 64) ((128 + c % 64) ∷ rest) (omega arith)
    ∙ last_byte middle 65536 (c % 64) rest (omega arith)
        (rw whole (scalar_in 65536 c h k (ground arith)))
    ∙ ap (λ x. then_text x (decode_utf8 rest)) whole

utf8_cases :
    (c : ℕ) (bytes : Bytes)
    → utf8_character c ≡ accepted bytes
    → ((c < 128) × (bytes ≡ c ∷ []))
      ⊎ ((128 ≤ c) × (c < 2048) × (bytes ≡ (192 + c / 64) ∷ (128 + c % 64) ∷ []))
      ⊎ ((2048 ≤ c)
          × (c < 65536)
          × (between 55296 57343 c ≡ false)
          × (bytes ≡ (224 + c / 4096) ∷ (128 + c / 64 % 64) ∷ (128 + c % 64) ∷ []))
      ⊎ ((65536 ≤ c)
          × (c ≤ 1114111)
          × (bytes
              ≡ (240 + c / 262144)
                ∷ (128 + c / 4096 % 64)
                ∷ (128 + c / 64 % 64)
                ∷ (128 + c % 64)
                ∷ []))
unfolding utf8_character
utf8_cases c bytes h = elim (Bool-cases (ltb c 128)) [
  | inl one ↦ inl (ground arith, ground arith)
  | inr more ↦ elim (Bool-cases (ltb c 2048)) [
    | inl two ↦ inr (inl (ground arith, ground arith, ground arith))
    | inr most ↦ elim (Bool-cases (between 55296 57343 c || ltb 1114111 c)) [
      | inl half ↦ ground arith
      | inr scalar ↦ elim (Bool-cases (ltb c 65536)) [
        | inl three ↦ inr (inr (inl (ground arith, ground arith, ground arith, ground arith)))
        | inr four ↦ inr (inr (inr (ground arith, ground arith, ground arith)))
      ]
    ]
  ]
]

-- The bytes of one character, before any others.
character_read :
    (c : ℕ) (bytes rest : Bytes)
    → utf8_character c ≡ accepted bytes
    → decode_utf8 (bytes ++ rest) ≡ then_text c (decode_utf8 rest)
character_read c bytes rest h = elim (utf8_cases c bytes h) [
  | inl (small, e) ↦ rw e (single_byte c rest small)
  | inr (inl (low, high, e)) ↦ rw e (two_bytes c rest low high)
  | inr (inr (inl (low, high, s, e))) ↦ rw e (three_bytes c rest low high s)
  | inr (inr (inr (low, top, e))) ↦ rw e (four_bytes c rest low top)
]

-- What was encoded as UTF-8 is decoded to the same text.
pub decode_utf8-encode_utf8 :
    (s : Text) (bytes : Bytes) → encode_utf8 s ≡ accepted bytes → decode_utf8 bytes ≡ accepted s
unfolding encode_utf8 decode_utf8
decode_utf8-encode_utf8 [] bytes k = rw (sym (accepted-injective k)) refl
decode_utf8-encode_utf8 (c ∷ s) bytes k =
    let (first, here, k1) = bind_passed (utf8_character c) _ bytes k in
    let (others, there, k2) = bind_passed (encode_utf8 s) _ bytes k1 in
    rw (sym (accepted-injective k2)) (
      character_read c first others here
      ∙ ap (then_text c) (decode_utf8-encode_utf8 s others there))
