-- ===== src/Service/Storage/Order.antt =====
-- What `publication_order` of storage.py returns.
use headless_blender_charact.Prelude.{
  List, Option, String, [], arith, foldl, keep, map, nat_eq, none, not, refl, some, string_eq, ◌++◌,
  ◌==◌, ◌∷◌, ◌≡◌,
}
use headless_blender_charact.Service.Errors.{Result, err, key_error, ok}
use headless_blender_charact.Service.Contract.{list_eq}
use headless_blender_charact.Service.Dict.{Dict, insert, lookup, lookup-insert}
use headless_blender_charact.Service.Models.Artifact.{ArtifactRecord, required_published_artifacts}
use headless_blender_charact.Service.Storage.{by_name, pick, publication_order}

-- A table of artifacts in which every record stands under its own path.
record IsKeyed (d : Dict String ArtifactRecord) : Type 0 where
  keyed : (n : String) (r : ArtifactRecord) → lookup n d ≡ some r → r.relative_path ≡ n

insert-IsKeyed :
    (r : ArtifactRecord) (d : Dict String ArtifactRecord)
    → IsKeyed d
    → IsKeyed (insert r.relative_path r d)
insert-IsKeyed r d k = record {
  keyed = λ n x h. ground (
    arith,
    lookup-insert r.relative_path n r d,
    string_eq.beq_iff r.relative_path n,
    k.keyed n x,
  );
}

foldl-IsKeyed :
    (records : List ArtifactRecord) (d : Dict String ArtifactRecord)
    → IsKeyed d
    → IsKeyed (foldl (λ t r. insert r.relative_path r t) d records)
foldl-IsKeyed [] d k = k
foldl-IsKeyed (r ∷ rest) d k = foldl-IsKeyed rest _ (insert-IsKeyed r d k)

by_name-IsKeyed : (records : List ArtifactRecord) → IsKeyed (by_name records)
unfolding by_name lookup
by_name-IsKeyed records = foldl-IsKeyed records [] (record { keyed = λ n r h. ground arith })

pick_paths :
    (d : Dict String ArtifactRecord) (names : List String) (l : List ArtifactRecord)
    → IsKeyed d
    → pick d names ≡ ok l
    → map (λ r. r.relative_path) l ≡ names
unfolding pick
pick_paths d [] l k h = ground arith
pick_paths d (n ∷ names) l k h =
    go (lookup n d) (pick d names) refl (λ xs q. pick_paths d names xs k q) h
  where
    go :
        (o : Option ArtifactRecord) (r : Result (List ArtifactRecord))
        → lookup n d ≡ o
        → ((xs : List ArtifactRecord) → r ≡ ok xs → map (λ x. x.relative_path) xs ≡ names)
        → (elim o [
          | none ↦ err key_error
          | some x ↦ elim r [ err e ↦ err e | ok xs ↦ ok (x ∷ xs) ]
        ])
          ≡ ok l
        → map (λ x. x.relative_path) l ≡ n ∷ names
    go none r p q h = ground arith
    go (some x) (err e) p q h = ground arith
    go (some x) (ok xs) p q h = ground (arith, k.keyed n x p, q xs refl)

abbrev pub upload_order : List String
upload_order =
    "model.blend" ∷ "model.glb" ∷ "model.stl" ∷ "preview.png" ∷ "diagnostics/front.png"
    ∷ "diagnostics/side.png" ∷ "diagnostics/back.png" ∷ "qa.json" ∷ "manifest.json" ∷ []

pub publication_order_paths :
    (records ordered : List ArtifactRecord)
    → publication_order records ≡ ok ordered
    → map (λ r. r.relative_path) ordered ≡ upload_order
unfolding publication_order required_published_artifacts
publication_order_paths records ordered h = ground (
  arith,
  pick_paths (by_name records)
      (keep (λ n. not (n == "manifest.json")) required_published_artifacts ++ "manifest.json" ∷ [])
      ordered (by_name-IsKeyed records),
)
