-- ===== src/Shared/Reread/Validated.antt =====
-- What the service relies on when it validates canonical bytes again, shared/character_spec.py and
-- service/src/hbcb_service/idempotency.py.
use headless_blender_charact.Prelude.{String, ap, refl, some, subst, sym, ◌∙◌, ◌≡◌}
use headless_blender_charact.Shared.Rejection.{
  Checked, accepted, accepted-injective, bind_passed, rejected, ◌>>=◌,
}
use headless_blender_charact.Service.Contract.{Bytes, Environment, Validated}
use headless_blender_charact.Shared.Json.{Value}
use headless_blender_charact.Shared.Json.Canonical.{
  canonical_fragment, canonical_json_bytes, canonical_sha256, encode_utf8,
}
use headless_blender_charact.Shared.Json.Decode.{decode_json_document}
use headless_blender_charact.Shared.Reread.Kept.{fragment_kept}
use headless_blender_charact.Shared.Character.Again.{IsRequest, IsRequest-ensured}
use headless_blender_charact.Shared.Character.Spec.{CharacterSpec, spec_to_dict}
use headless_blender_charact.Shared.Character.Request.{
  BuildRequest, accepted_or_none, max_build_request_bytes, request_canonical_bytes,
  request_from_json, request_from_mapping, request_sha256_of, request_to_dict, spec_sha256_of,
  validate_build_request_bytes, validated,
}
use headless_blender_charact.Shared.Character.Bounds.{IsSpec}
use headless_blender_charact.Shared.Reread.Requests.{
  IsSpec-settled, normal_request, normal_spec, request_from_json-request_canonical_bytes,
  spec_normal,
}

was_accepted {ℓ} :
    {V : Type ℓ} (m : Checked V) (v : V) → accepted_or_none m ≡ some v → m ≡ accepted v
unfolding accepted_or_none
was_accepted (rejected e) v h = cc
was_accepted (accepted w) v h = cc

request_from_json-IsRequest :
    (payload : Bytes) (r : BuildRequest) → request_from_json payload ≡ accepted r → IsRequest r
unfolding request_from_json
request_from_json-IsRequest payload r h =
    let (raw, _, read) =
      bind_passed (decode_json_document (some max_build_request_bytes) payload) request_from_mapping
        r h in
    (IsRequest-ensured raw).ensured r read

same_sha :
    (env : Environment) (v w : Value)
    → canonical_json_bytes v ≡ canonical_json_bytes w
    → canonical_sha256 env v ≡ canonical_sha256 env w
unfolding canonical_sha256
same_sha env v w h = ap (λ m. m >>= λ b. accepted (env.sha256_hex b)) h

-- A specification keeps its canonical bytes in normal form.
spec_bytes_kept :
    (env : Environment) (s : CharacterSpec) (digest : String)
    → IsSpec s
    → canonical_sha256 env (spec_to_dict s) ≡ accepted digest
    → canonical_sha256 env (spec_to_dict (normal_spec s)) ≡ accepted digest
unfolding canonical_sha256 canonical_json_bytes
spec_bytes_kept env s digest valid h =
    let (bytes, made, hashed) = bind_passed (canonical_json_bytes (spec_to_dict s)) _ digest h in
    let (t, written, encoded) =
      bind_passed (canonical_fragment (spec_to_dict s)) encode_utf8 bytes made in
    let kept = fragment_kept (spec_to_dict s) t (IsSpec-settled s valid).1 written in
    rw (sym (spec_normal s)) (rw kept (rw encoded hashed))

digest_kept :
    (env : Environment) (r q : BuildRequest) (bytes : Bytes) (digest : String)
    → request_canonical_bytes r ≡ accepted bytes
    → request_canonical_bytes q ≡ accepted bytes
    → request_sha256_of env r ≡ accepted digest
    → request_sha256_of env q ≡ accepted digest
unfolding request_sha256_of request_canonical_bytes
digest_kept env r q bytes digest h k e =
    same_sha env (request_to_dict q) (request_to_dict r) (k ∙ sym h) ∙ e

spec_digest_kept :
    (env : Environment) (r : BuildRequest) (digest : String)
    → IsRequest r
    → spec_sha256_of env r ≡ accepted digest
    → spec_sha256_of env (normal_request r) ≡ accepted digest
unfolding spec_sha256_of normal_request
spec_digest_kept env r digest valid h = spec_bytes_kept env r.spec digest valid.spec_valid h

validated_from :
    (env : Environment) (q : BuildRequest) (request_digest spec_digest : String) (bytes : Bytes)
    → request_sha256_of env q ≡ accepted request_digest
    → spec_sha256_of env q ≡ accepted spec_digest
    → request_canonical_bytes q ≡ accepted bytes
    → validated env q
      ≡ accepted (record {
        request_sha256 = request_digest;
        spec_sha256 = spec_digest;
        canonical_bytes = bytes;
      })
unfolding validated
validated_from env q request_digest spec_digest bytes h k l = rw h (rw k (rw l refl))

-- Validation of bytes is idempotent, as the service needs it: when `validate_build_request` accepts a
-- payload, it accepts the canonical bytes of what it read, with the same two digests and the same
-- canonical bytes.
pub validate_build_request_bytes_again :
    (env : Environment) (payload : Bytes) (v : Validated)
    → validate_build_request_bytes env payload ≡ some v
    → validate_build_request_bytes env v.canonical_bytes ≡ some v
unfolding validate_build_request_bytes validated accepted_or_none
validate_build_request_bytes_again env payload v h =
    let (r, read, made) =
      bind_passed (request_from_json payload) (validated env) v
        (was_accepted (request_from_json payload >>= validated env) v h) in
    let (request_digest, h1, made1) = bind_passed (request_sha256_of env r) _ v made in
    let (spec_digest, h2, made2) = bind_passed (spec_sha256_of env r) _ v made1 in
    let (bytes, h3, made3) = bind_passed (request_canonical_bytes r) _ v made2 in
    let (back, again) = request_from_json-request_canonical_bytes payload bytes r read h3 in
    let q = normal_request r in
    subst (λ w. validate_build_request_bytes env w.canonical_bytes ≡ some w)
      (accepted-injective made3)
      (ap accepted_or_none (
        ap (λ m. m >>= validated env) back
        ∙ validated_from env q request_digest spec_digest bytes
            (digest_kept env r q bytes request_digest h3 again h1)
            (spec_digest_kept env r spec_digest (request_from_json-IsRequest payload r read) h2)
            again))
