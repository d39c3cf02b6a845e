-- ===== src/Sanitise.antt =====
-- internal/sanitise/string.go. `regexp`'s ReplaceAllString removes each longest run of characters
-- outside the class, which is to remove each such character.
pub mod Laws
use Prim.Native.Char.{code}
use Prim.Native.String
use go_api_demo.Prelude.{ℕ, String, Bool, ◌&&◌, ◌||◌, Option, none, leb, nat_eq, if◌then◌else◌}
use go_api_demo.Error.{Error}

-- [a-zA-Z-]
unfoldable pub is_alpha_or_hyphen : ℕ → Bool
is_alpha_or_hyphen c = leb b'a' c && leb c b'z' || leb b'A' c && leb c b'Z' || nat_eq c b'-'

unfoldable pub remove_others : String → String
remove_others String.[] = ""
remove_others (String.◌∷◌ c s) =
    let rest = remove_others s in if is_alpha_or_hyphen (code c) then String.◌∷◌ c rest else rest

unfoldable pub alpha_with_hyphen : String → String × Option Error
unfolding remove_others is_alpha_or_hyphen
alpha_with_hyphen s = (remove_others s, none)
