-- ===== src/Text/Clean.antt =====
-- `path.Clean`: the shortest path with the same meaning, by its segments.
use Prim.Native.String.{◌++◌}
use mathlib.Core.List.{reverse}
use gateway_runtime.Prelude.{String, Bool, ◌||◌, List, [], ◌∷◌, ◌≡◌, refl, str_eq, if◌then◌else◌}
use gateway_runtime.Text.{split, has_prefix}

-- the segments joined by slashes
unfoldable pub join : List String → String
join [] = ""
join (x ∷ []) = x
join (x ∷ y ∷ rest) = x ++ ("/" ++ join (y ∷ rest))

-- a segment ".." after the segments so far, of which the last comes first
abbrev pub up : Bool → List String → List String
up rooted [] = if rooted then [] else ".." ∷ []
up rooted (x ∷ out) = if str_eq x ".." then ".." ∷ x ∷ out else out

unfoldable pub walk : Bool → List String → List String → List String
walk rooted out [] = out
walk rooted out (x ∷ rest) =
    walk rooted
      (if str_eq x "" || str_eq x "."
        then out
        else if str_eq x ".."
        then up rooted out
        else x ∷ out)
      rest

abbrev finished : Bool → String → String
finished rooted text = if rooted then "/" ++ text else if str_eq text "" then "." else text

unfoldable pub clean : String → String
unfolding walk join split has_prefix
clean path =
    if str_eq path ""
    then "."
    else finished (has_prefix path "/")
        (join (reverse (walk (has_prefix path "/") [] (split path "/"))))

cleans :
    (clean "a//b/../c/." ≡ "a/c")
    × (clean "/../a/" ≡ "/a")
    × (clean "../../x" ≡ "../../x")
    × (clean "" ≡ ".")
    × (clean "/" ≡ "/")
    × (clean "a/.." ≡ ".")
unfolding clean
cleans = (refl, refl, refl, refl, refl, refl)
