-- ===== src/Cover/Path.antt =====
-- internal/cover/cover.go: `encodePath` and `decodePath`, the paths of a profile's text.
pub mod RoundTrip
use tya.Prelude.{ℕ, ◌&&◌, ◌||◌, List, [], ◌∷◌, ◌++◌, ◌≡◌, refl, ◌==◌, if◌then◌else◌, Bytes, codes}

unfoldable pub encode_byte : ℕ → Bytes
encode_byte c = if c == b' ' then codes "%20" else if c == b'%' then codes "%25" else c ∷ []

unfoldable pub encode_path : Bytes → Bytes
unfolding encode_byte
encode_path [] = []
encode_path (c ∷ p) = encode_byte c ++ encode_path p

unfoldable pub decode_path : Bytes → Bytes
decode_path [] = []
decode_path (c ∷ []) = c ∷ []
decode_path (c ∷ d ∷ []) = c ∷ d ∷ []
decode_path (c ∷ d ∷ e ∷ s) =
    let byte = c ∷ decode_path (d ∷ e ∷ s) in
    let behind = decode_path s in
    if c == b'%' && ((d == b'2' && e == b'0') || (d == b'2' && e == b'5'))
    then (if e == b'0' then b' ' else b'%') ∷ behind
    else byte

path_tests :
    (encode_path (codes "a b%c") ≡ codes "a%20b%25c")
    × (decode_path (codes "a%20b%25c%2") ≡ codes "a b%c%2")
unfolding encode_path decode_path
path_tests = (refl, refl)
