-- ===== src/StorageTarget.antt =====
-- internal/storagetarget/registry.go: the logical targets that clients name, with their provider and
-- bucket.
use gateway_runtime.Prelude.{
  String, Bool, ◌||◌, List, [], ◌∷◌, map, Option, none, some, Result, ok, err, ◌>>=◌, ◌>>◌, require,
  not, str_eq, if◌then◌else◌,
}
use gateway_runtime.Prelude.Dict.{Dict, lookup, insert}
use gateway_runtime.Text.{trim_space}

pub record Target : Type 0 where
  pub provider : String
  pub bucket : String
  pub read_only : Bool

abbrev pub Registry : Type 0
Registry = Dict Target

unfoldable pub resolve : Registry → String → Option Target
unfolding lookup
resolve r name = lookup (trim_space name) r

-- the target that the loop body stores
unfoldable pub normal : Target → Target
normal t =
    let provider = trim_space t.provider in
    record t {
      provider = if str_eq provider "" then "default" else provider;
      bucket = trim_space t.bucket;
    }

unfoldable pub entry_error : String
entry_error = "storage target name and bucket are required"

-- one round of the loop, at a name whose entry is `target`
unfoldable pub parse_entry : String → Target → Registry → Result String Registry
unfolding normal entry_error
parse_entry name target out = do
  require (not (str_eq (trim_space name) "" || str_eq (normal target).bucket "")) entry_error
  ok (insert (trim_space name) (normal target) out)

abbrev parse_found : String → Option Target → Registry → Result String Registry
parse_found name none out = ok out
parse_found name (some target) out = parse_entry name target out

-- The loop `for name, target := range out`, which writes to the map that it ranges over: a name's
-- entry is read when the name is visited.
unfoldable pub parse_entries : List String → Registry → Result String Registry
parse_entries [] out = ok out
parse_entries (name ∷ names) out =
    parse_found name (lookup name out) out >>= λ out'. parse_entries names out'

abbrev names_of : Registry → List String
names_of = map (λ e. e.0)

-- `Parse`, from the entries that encoding/json decodes (`none` where it fails). A blank text gives
-- no registry.
unfoldable pub parse : String → Option Registry → Result String Registry
unfolding parse_entries parse_entry
parse raw decoded = if str_eq (trim_space raw) "" then ok [] else elim decoded [
  | none ↦ err "parse storage targets"
  | some entries ↦ parse_entries (names_of entries) entries
]
