-- ===== src/Service/Storage.antt =====
-- service/src/hbcb_service/storage.py: object keys and the order of publication. The object store
-- itself is not modelled.
pub mod Order
use Prim.Native.String.{◌++◌ as join}
use headless_blender_charact.Prelude.{
  Bool, List, Option, String, [], all, any, foldl, keep, length, map, nat_eq, none, not, some,
  string_eq, suc, zero, ℕ, ◌%◌, ◌&&◌, ◌++◌, ◌/◌, ◌==◌, ◌^◌, ◌||◌, ◌∷◌,
}
use headless_blender_charact.Service.Errors.{
  Code, Error, ErrorClass, Result, err, key_error, ok, raise_if, raised, ◌>>◌,
}
use headless_blender_charact.Service.Patterns.{namespace_pattern}
use headless_blender_charact.Service.Contract.{Uuid, list_eq}
use headless_blender_charact.Service.Dict.{Dict, insert, lookup, member}
use headless_blender_charact.Service.Models.Artifact.{
  ArtifactRecord, artifact_content_types, required_published_artifacts,
}

-- Lowercase hexadecimal digits, as many as asked for, of a number.
abbrev hex_digits : List (ℕ × String)
hex_digits =
    (0, "0")
    ∷ (1, "1")
    ∷ (2, "2")
    ∷ (3, "3")
    ∷ (4, "4")
    ∷ (5, "5")
    ∷ (6, "6")
    ∷ (7, "7")
    ∷ (8, "8")
    ∷ (9, "9")
    ∷ (10, "a")
    ∷ (11, "b")
    ∷ (12, "c")
    ∷ (13, "d")
    ∷ (14, "e")
    ∷ (15, "f")
    ∷ []

abbrev text_or_empty : Option String → String
text_or_empty none = ""
text_or_empty (some s) = s

hex_text : ℕ → ℕ → String
hex_text zero n = ""
hex_text (suc k) n = join (hex_text k (n / 16)) (text_or_empty (lookup (n % 16) hex_digits))

-- `str(uuid)`: 8-4-4-4-12 digits
unfoldable pub uuid_text : Uuid → String
unfolding hex_text
uuid_text u = join (hex_text 8 (u / 2 ^ 96)) (
    join "-" (
      join (hex_text 4 (u / 2 ^ 80)) (
        join "-" (
          join (hex_text 4 (u / 2 ^ 64))
            (join "-" (join (hex_text 4 (u / 2 ^ 48)) (join "-" (hex_text 12 u))))))))

abbrev storage_failure : Code → Error
storage_failure c = raised ErrorClass.storage_error c

unfoldable pub artifact_object_key : String → Uuid → Uuid → String → Result String
unfolding uuid_text
artifact_object_key namespace build_id attempt_id relative_path = do
  raise_if (not (namespace_pattern namespace)) (storage_failure Code.invalid_namespace)
  raise_if (not (member relative_path artifact_content_types))
      (storage_failure Code.invalid_artifact_path)
  ok (
      join namespace (
        join "/v1/builds/" (
          join (uuid_text build_id) (
            join "/attempts/" (join (uuid_text attempt_id) (join "/complete-v1/" relative_path))))))

-- `{record.relative_path: record for record in records}`
unfoldable pub by_name : List ArtifactRecord → Dict String ArtifactRecord
by_name records = foldl (λ d r. insert r.relative_path r d) [] records

-- `set(xs)`, in the order of first occurrence
unfoldable pub distinct : List ℕ → List ℕ
distinct [] = []
distinct (x ∷ xs) = x ∷ keep (λ y. not (y == x)) (distinct xs)

-- `len(records) == len(by_name) and set(by_name) == set(REQUIRED_PUBLISHED_ARTIFACTS)`
unfoldable pub is_exact_set : List ArtifactRecord → Bool
unfolding by_name required_published_artifacts
is_exact_set records =
    length records == length (by_name records)
    && all (λ r. any (λ n. n == r.relative_path) required_published_artifacts) records
    && all (λ n. member n (by_name records)) required_published_artifacts

abbrev is_manifest : String → Bool
is_manifest n = n == "manifest.json"

-- `tuple(by_name[name] for name in names)`
unfoldable pub pick : Dict String ArtifactRecord → List String → Result (List ArtifactRecord)
pick d [] = ok []
pick d (n ∷ names) =
    let rest = pick d names in
    elim (lookup n d) [
      | none ↦ err key_error
      | some r ↦ elim rest [ err e ↦ err e | ok rs ↦ ok (r ∷ rs) ]
    ]

-- `publication_order`: one coherent exact set, its manifest last
unfoldable pub publication_order : List ArtifactRecord → Result (List ArtifactRecord)
unfolding is_exact_set distinct pick
publication_order records = do
  raise_if (not (is_exact_set records)) (storage_failure Code.artifact_set_mismatch)
  raise_if
      (not (length (distinct (map (λ r. r.build_id) records)) == 1)
        || not (length (distinct (map (λ r. r.attempt_id) records)) == 1)
        || any (λ r. any (λ q. not (q.bucket == r.bucket)) records) records)
      (storage_failure Code.artifact_owner_mismatch)
  pick (by_name records)
      (keep (λ n. not (is_manifest n)) required_published_artifacts ++ "manifest.json" ∷ [])
