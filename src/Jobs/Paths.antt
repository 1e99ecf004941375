-- ===== src/Jobs/Paths.antt =====
-- What internal/extractsource uses of Go's packages for texts and paths: strings.Contains and
-- filepath.Dir.
use Prim.Native.Char.{code}
use churro.Common.{
  ℕ, String, List, [], ◌∷◌, ◌<>◌, Bool, true, false, ◌==◌, ◌&&◌, ◌||◌, if◌then◌else◌, leb,
}

abbrev pub same_code : ℕ → ℕ → Bool
same_code a b = leb a b && leb b a

-- The first text begins the second.
abbrev pub begins : String → String → Bool
begins String.[] s = true
begins (String.◌∷◌ c n) String.[] = false
begins (String.◌∷◌ c n) (String.◌∷◌ d s) =
    let rest = begins n s in same_code (code c) (code d) && rest

-- strings.Contains of the second text
abbrev pub occurs : String → String → Bool
occurs n String.[] = begins n String.[]
occurs n (String.◌∷◌ c s) = let rest = occurs n s in begins n (String.◌∷◌ c s) || rest

-- The segments between the slashes.
abbrev pub split_path : String → List String
split_path String.[] = "" ∷ []
split_path (String.◌∷◌ c s) =
    let rest = split_path s in
    if same_code (code c) 47
    then "" ∷ rest
    else elim rest [ [] ↦ String.◌∷◌ c "" ∷ [] | ◌∷◌ w l ↦ String.◌∷◌ c w ∷ l ]

-- The segments up to the last slash.
abbrev pub drop_last : List String → List String
drop_last [] = []
drop_last (w ∷ []) = []
drop_last (w ∷ v ∷ l) = w ∷ drop_last (v ∷ l)

-- Going up from the segments, in reverse: not above the root.
abbrev pub go_up : Bool → List String → List String
go_up rooted [] = if rooted then [] else ".." ∷ []
go_up rooted (w ∷ l) = if w == ".." then ".." ∷ w ∷ l else l

-- The segments that filepath.Clean keeps, in reverse.
abbrev pub clean : Bool → List String → List String → List String
clean rooted kept [] = kept
clean rooted kept (w ∷ l) =
    let same = clean rooted kept l in
    let up = clean rooted (go_up rooted kept) l in
    let down = clean rooted (w ∷ kept) l in
    if w == "" || w == "." then same else if w == ".." then up else down

abbrev pub join_path : List String → String
join_path [] = ""
join_path (w ∷ []) = w
join_path (w ∷ v ∷ l) = join_path (v ∷ l) <> "/" <> w

-- filepath.Dir
abbrev pub base_dir : String → String
base_dir path =
    let rooted = begins "/" path in
    let dir = join_path (clean rooted [] (drop_last (split_path path))) in
    if rooted then "/" <> dir else if dir == "" then "." else dir
