-- ===== src/Text.antt =====
-- Text as the validators of state.go, artifact.go and shell.go read it: by characters, or by the
-- bytes of its UTF-8 encoding. A text of the model is always valid Unicode, so
-- `utf8.ValidString` holds of it and is left out.
use Prim.Native.Char.{code}
use Prim.Native.String.{String}
use connectorhost.Common.{
  ℕ, Bool, true, false, ◌&&◌, ◌||◌, List, [], ◌∷◌, leb, ◌==◌, nat_eq, length,
}

-- The code points of a text. `String` has its own `[]` and `∷`.
unfoldable pub codes : String → List ℕ
codes String.[] = []
codes (String.◌∷◌ c s) = code c ∷ codes s

unfoldable pub every : (ℕ → Bool) → List ℕ → Bool
every p [] = true
every p (c ∷ cs) = p c && every p cs

unfoldable pub contains : ℕ → List ℕ → Bool
contains x [] = false
contains x (c ∷ cs) = x == c || contains x cs

unfoldable pub is_alphanumeric : ℕ → Bool
is_alphanumeric c =
    (leb b'0' c && leb c b'9') || (leb b'A' c && leb c b'Z') || (leb b'a' c && leb c b'z')

-- `[A-Za-z0-9._-]`
unfoldable pub is_id_character : ℕ → Bool
unfolding is_alphanumeric
is_id_character c = is_alphanumeric c || c == b'.' || c == b'_' || c == b'-'

-- `^[A-Za-z0-9][A-Za-z0-9._-]{0,127}$`
unfoldable pub matches_id_pattern : List ℕ → Bool
unfolding is_id_character every
matches_id_pattern [] = false
matches_id_pattern (c ∷ cs) = is_alphanumeric c && leb (length cs) 127 && every is_id_character cs

-- `unicode.IsControl`: the class Cc.
unfoldable pub is_control : ℕ → Bool
is_control c = leb c 0x1f || (leb 0x7f c && leb c 0x9f)

-- `unicode.IsSpace`
unfoldable pub is_space : ℕ → Bool
is_space c =
    (leb 9 c && leb c 13)
    || c == 0x20
    || c == 0x85
    || c == 0xa0
    || c == 0x1680
    || (leb 0x2000 c && leb c 0x200a)
    || c == 0x2028
    || c == 0x2029
    || c == 0x202f
    || c == 0x205f
    || c == 0x3000

-- `strings.TrimSpace(s) == ""`
unfoldable pub is_blank : String → Bool
unfolding codes every is_space
is_blank s = every is_space (codes s)
