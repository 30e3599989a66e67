-- ===== src/Sessions/Orphans.antt =====
-- sigiledd/src/sessions.rs, `find_orphan`: from the text that git answers, none where the command
-- fails, to the branch. Texts are compared by their code points, which is the order of their
-- bytes; the sort is an insertion sort. `is_space` is Unicode's white space, which `trim` drops.
pub mod Order
pub mod Listed
pub mod Least
use Prim.Native.Char.{code}
use sigiled.Base.{
  ℕ, zero, suc, String, Bool, true, false, not, ◌&&◌, ◌||◌, Option, none, some, List, [], ◌∷◌, ltb,
  leb, ◌==◌, if◌then◌else◌, str_eq, codes, strip_prefix, is_some, any, length, retain, map, values,
  find as find_first,
}
use sigiled.Git.{split_lines}
use sigiled.Sessions.Records.{Records, Debts, debts_for}

is_space : ℕ → Bool
is_space c =
    (leb 9 c && leb c 13)
    || c == 32
    || c == 133
    || c == 160
    || c == 5760
    || (leb 8192 c && leb c 8202)
    || c == 8232
    || c == 8233
    || c == 8239
    || c == 8287
    || c == 12288

trim_start : String → String
unfolding is_space
trim_start String.[] = ""
trim_start (String.◌∷◌ c s) =
    let rest = trim_start s in if is_space (code c) then rest else String.◌∷◌ c s

trim_end : String → String
unfolding is_space
trim_end String.[] = ""
trim_end (String.◌∷◌ c s) =
    let rest = trim_end s in if is_space (code c) && str_eq rest "" then "" else String.◌∷◌ c rest

-- `str::trim`.
unfoldable pub trim : String → String
unfolding trim_start trim_end
trim s = trim_end (trim_start s)

abbrev pub origin : String
origin = "origin/"

abbrev pub strip_or : String → Option String → (String → String) → String
strip_or s none f = s
strip_or s (some rest) f = f rest

-- `trim_start_matches("origin/")`, on fuel: each round drops code points of the text.
unfoldable pub strip_origins : ℕ → String → String
strip_origins zero s = s
strip_origins (suc n) s = strip_or s (strip_prefix origin s) (strip_origins n)

-- The name of the branch that a line stands for.
unfoldable pub branch_name : String → String
branch_name line = let l = trim line in strip_origins (length (codes l)) l

abbrev pub is_session : String → Bool
is_session b = is_some (strip_prefix "session/" b)

-- The order of texts.
unfoldable pub codes_leb : List ℕ → List ℕ → Bool
codes_leb [] ys = true
codes_leb (x ∷ xs) [] = false
codes_leb (x ∷ xs) (y ∷ ys) = let rest = codes_leb xs ys in if x == y then rest else ltb x y

abbrev pub text_leb : String → String → Bool
text_leb a b = codes_leb (codes a) (codes b)

unfoldable pub insert_name : String → List String → List String
insert_name b [] = b ∷ []
insert_name b (c ∷ cs) =
    let rest = insert_name b cs in if text_leb b c then b ∷ (c ∷ cs) else c ∷ rest

unfoldable pub sort : List String → List String
unfolding insert_name
sort [] = []
sort (b ∷ bs) = insert_name b (sort bs)

-- `dedup`: of equal neighbours one stays.
unfoldable pub dedup : List String → List String
dedup [] = []
dedup (b ∷ []) = b ∷ []
dedup (b ∷ (c ∷ cs)) = let rest = dedup (c ∷ cs) in if str_eq b c then rest else b ∷ rest

unfoldable pub session_names : String → List String
unfolding sort dedup branch_name
session_names refs = dedup (sort (retain is_session (map branch_name (split_lines refs))))

unfoldable pub find_orphan : Option String → String → Debts → Records → Option String
unfolding session_names
find_orphan none project debts records = none
find_orphan (some refs) project debts records = find_first (session_names refs) λ b.
    not (any (debts_for debts project) (λ d. str_eq d.branch b))
    && not (any (values records) (λ r. str_eq r.project project && str_eq r.branch b))
