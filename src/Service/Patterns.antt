-- ===== src/Service/Patterns.antt =====
-- The regular expressions of the service, as tests on the whole text (`fullmatch`):
-- config.py, idempotency.py, models.py, queue.py and state.py under service/src/hbcb_service.
use Prim.Native.Char.{code}
use headless_blender_charact.Prelude.{
  Bool, List, String, [], all, between, false, if◌then◌else◌, leb, length, nat_eq, string_eq, true,
  ℕ, ◌&&◌, ◌==◌, ◌||◌, ◌∷◌,
}

-- The code points of a text.
abbrev pub codes : String → List ℕ
codes String.[] = []
codes (String.◌∷◌ c s) = code c ∷ codes s

unfoldable pub is_lower : ℕ → Bool
is_lower c = between b'a' b'z' c

unfoldable pub is_digit : ℕ → Bool
is_digit c = between b'0' b'9' c

-- [a-z0-9]
unfoldable pub is_lower_alnum : ℕ → Bool
unfolding is_lower is_digit
is_lower_alnum c = is_lower c || is_digit c

-- [A-Za-z0-9]
unfoldable pub is_alnum : ℕ → Bool
unfolding is_lower_alnum
is_alnum c = is_lower_alnum c || between b'A' b'Z' c

-- First a character of one class, then at most `most` of another.
unfoldable pub headed : (ℕ → Bool) → (ℕ → Bool) → ℕ → List ℕ → Bool
headed first rest most [] = false
headed first rest most (c ∷ s) = first c && all rest s && leb (length s) most

-- ^[0-9a-f]{64}$
unfoldable pub sha256_pattern : String → Bool
unfolding is_digit
sha256_pattern s = length (codes s) == 64 && all (λ c. is_digit c || between b'a' b'f' c) (codes s)

-- ^[a-z][a-z0-9_]{0,63}$
unfoldable pub safe_code_pattern : String → Bool
unfolding is_lower is_lower_alnum headed
safe_code_pattern s = headed is_lower (λ c. is_lower_alnum c || c == b'_') 63 (codes s)

-- ^[A-Za-z0-9][A-Za-z0-9._:-]{0,127}$, of worker names and of queue consumers
unfoldable pub worker_id_pattern : String → Bool
unfolding is_alnum headed
worker_id_pattern s =
    headed is_alnum (λ c. is_alnum c || c == b'.' || c == b'_' || c == b':' || c == b'-') 127
      (codes s)

-- ^[A-Za-z0-9][A-Za-z0-9._/-]{0,1023}$
unfoldable pub object_key_pattern : String → Bool
unfolding is_alnum headed
object_key_pattern s =
    headed is_alnum (λ c. is_alnum c || c == b'.' || c == b'_' || c == b'/' || c == b'-') 1023
      (codes s)

-- ^[A-Za-z0-9_-]{43,256}$
unfoldable pub lease_token_pattern : String → Bool
unfolding is_alnum
lease_token_pattern s =
    between 43 256 (length (codes s)) && all (λ c. is_alnum c || c == b'_' || c == b'-') (codes s)

-- ^[A-Za-z0-9][A-Za-z0-9._~-]*$
unfoldable pub idempotency_key_pattern : String → Bool
unfolding is_alnum headed
idempotency_key_pattern s =
    headed is_alnum (λ c. is_alnum c || c == b'.' || c == b'_' || c == b'~' || c == b'-')
      (length (codes s)) (codes s)

-- The last character passes a test.
unfoldable pub ends : (ℕ → Bool) → List ℕ → Bool
ends p [] = false
ends p (c ∷ []) = p c
ends p (c ∷ d ∷ s) = ends p (d ∷ s)

-- ^[a-z0-9](?:[a-z0-9-]{0,30}[a-z0-9])?$
unfoldable pub namespace_pattern : String → Bool
unfolding is_lower_alnum headed ends
namespace_pattern s =
    headed is_lower_alnum (λ c. is_lower_alnum c || c == b'-') 31 (codes s)
    && ends is_lower_alnum (codes s)

-- ^[a-z0-9](?:[a-z0-9.-]{1,61}[a-z0-9])$
unfoldable pub bucket_pattern : String → Bool
unfolding is_lower_alnum headed ends
bucket_pattern s =
    headed is_lower_alnum (λ c. is_lower_alnum c || c == b'.' || c == b'-') 62 (codes s)
    && ends is_lower_alnum (codes s)
    && leb 3 (length (codes s))

-- `".." in s`
unfoldable pub has_dot_dot : List ℕ → Bool
has_dot_dot [] = false
has_dot_dot (c ∷ []) = false
has_dot_dot (c ∷ d ∷ s) = (c == b'.' && d == b'.') || has_dot_dot (d ∷ s)

-- `s.split("/")`: the part being read, then the parts after it.
unfoldable pub split_slash : List ℕ → List ℕ × List (List ℕ)
split_slash [] = ([], [])
split_slash (c ∷ s) =
    let (part, parts) = split_slash s in if c == b'/' then ([], part ∷ parts) else (c ∷ part, parts)

unfoldable pub parts_of : String → List (List ℕ)
unfolding split_slash
parts_of s = let (part, parts) = split_slash (codes s) in part ∷ parts

-- `part in ("", ".", "..")`
unfoldable pub is_dots : List ℕ → Bool
is_dots [] = true
is_dots (c ∷ []) = c == b'.'
is_dots (c ∷ d ∷ []) = c == b'.' && d == b'.'
is_dots _ = false

-- `part == ".."`
unfoldable pub is_parent : List ℕ → Bool
is_parent (c ∷ d ∷ []) = c == b'.' && d == b'.'
is_parent _ = false
