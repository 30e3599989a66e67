-- ===== src/Git.antt =====
-- Runs of the git command, for sigiledd/src/merge.rs (`git`, `lines`) and
-- ide-agent/src/durable.rs (`Repository::git`): a repository is a state, and a command has an
-- answer and leaves another state.
use Prim.Native.Char.{Char, code}
use sigiled.Routine.{or_err, Run, Gives, Leads}
use sigiled.Base.{
  ◌≡◌, refl, String, Bool, true, false, not, Option, none, some, List, [], ◌∷◌, ◌==◌, if◌then◌else◌,
  str_eq, retain, ◌&&◌,
}

-- None where the command cannot be started; else whether it succeeded, and its trimmed output.
abbrev pub Answer : Type 0
Answer = Option (Bool × String)

abbrev pub output_of : Answer → Option String
output_of none = none
output_of (some (true, text)) = some text
output_of (some (false, text)) = none

abbrev pub success_of : Answer → Option Bool
success_of none = none
success_of (some (done, text)) = some done

module _ {S : Type 0} (answer : List String → S → Answer) (step : List String → S → S) where
  -- `git`.
  unfoldable pub git : List String → Run S (Unit {0}) String
  git args s = (or_err tt (output_of (answer args s)), step args s)

  -- A command whose failure is told from its success.
  unfoldable pub outcome : List String → Run S (Unit {0}) Bool
  outcome args s = (or_err tt (success_of (answer args s)), step args s)

  pub git-Leads :
      {P R : S → Type 0} {Q : String → S → Type 0} (args : List String)
      → ((s : S) → P s → (x : String) → output_of (answer args s) ≡ some x → Q x (step args s))
      → ((s : S) → P s → output_of (answer args s) ≡ none → R (step args s))
      → Leads P R Q (git args)
  unfolding git
  git-Leads {P = P} {R = R} {Q = Q} args f g = record {
    at = λ s p. ended s p (output_of (answer args s)) refl;
  }
    where
      ended :
          (s : S)
          → P s
          → (o : Option String) → output_of (answer args s) ≡ o
          → Gives Q R (or_err tt o, step args s)
      ended s p none e = g s p e
      ended s p (some x) e = f s p x e

  pub outcome-Leads :
      {P R : S → Type 0} {Q : Bool → S → Type 0} (args : List String)
      → ((s : S) → P s → (b : Bool) → success_of (answer args s) ≡ some b → Q b (step args s))
      → ((s : S) → P s → success_of (answer args s) ≡ none → R (step args s))
      → Leads P R Q (outcome args)
  unfolding outcome
  outcome-Leads {P = P} {R = R} {Q = Q} args f g = record {
    at = λ s p. ended s p (success_of (answer args s)) refl;
  }
    where
      ended :
          (s : S)
          → P s
          → (o : Option Bool) → success_of (answer args s) ≡ o
          → Gives Q R (or_err tt o, step args s)
      ended s p none e = g s p e
      ended s p (some x) e = f s p x e

-- `str::lines`: a line ends with a line feed, or with a carriage return and a line feed.
abbrev on_first : Char → List String → List String
on_first c [] = String.◌∷◌ c "" ∷ []
on_first c (l ∷ ls) = String.◌∷◌ c l ∷ ls

unfoldable pub split_lines : String → List String
split_lines String.[] = []
split_lines (String.◌∷◌ c String.[]) = if code c == 10 then "" ∷ [] else String.◌∷◌ c "" ∷ []
split_lines (String.◌∷◌ c (String.◌∷◌ d s)) =
    let rest = split_lines (String.◌∷◌ d s) in
    if code c == 10
    then "" ∷ rest
    else if code c == 13 && code d == 10
    then rest
    else on_first c rest

-- `lines`: the lines that are not empty.
unfoldable pub lines : String → List String
lines s = retain (λ l. not (str_eq l "")) (split_lines s)
