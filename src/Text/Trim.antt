-- ===== src/Text/Trim.antt =====
-- `strings.TrimLeft`, `strings.TrimRight` and `strings.Trim` with a cutset of one character, and
-- `strings.HasSuffix`.
use Prim.Native.Char.{Char, code}
use Prim.Native.String.{[], ◌∷◌}
use gateway_runtime.Prelude.{String, Bool, ◌||◌, ◌==◌, str_eq, if◌then◌else◌}

unfoldable pub trim_left_of : Char → String → String
trim_left_of cut [] = []
trim_left_of cut (c ∷ s) = if code c == code cut then trim_left_of cut s else c ∷ s

-- `c` in front of a text that was trimmed on the right
abbrev keep_unless : Char → Char → String → String
keep_unless cut c [] = if code c == code cut then [] else c ∷ []
keep_unless cut c (d ∷ s) = c ∷ d ∷ s

unfoldable pub trim_right_of : Char → String → String
trim_right_of cut [] = []
trim_right_of cut (c ∷ s) = keep_unless cut c (trim_right_of cut s)

unfoldable pub trim_of : Char → String → String
unfolding trim_left_of trim_right_of
trim_of cut s = trim_right_of cut (trim_left_of cut s)

unfoldable pub has_suffix : String → String → Bool
has_suffix [] suffix = str_eq [] suffix
has_suffix (c ∷ s) suffix = str_eq (c ∷ s) suffix || has_suffix s suffix
