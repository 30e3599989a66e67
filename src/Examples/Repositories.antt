-- ===== src/Examples/Repositories.antt =====
-- Runs and instances for sigiledd/src/merge.rs: a repository with one line of commits, each
-- written as a text that is longer than its parents, where a merge takes the longer branch.
use sigiled.Base.{
  ℕ, ap, subst, inl, inr, Bool-cases, ◌≡◌, refl, String, Bool, true, false, some, none, List, [],
  ◌∷◌, arith, if◌then◌else◌, str_eq, eq_iff, leb, length, codes,
}
use sigiled.Routine.{Gives}
use sigiled.Git.{Answer, output_of, success_of, lines}
use sigiled.Merge.{close_merge}
use sigiled.Merge.Rules.{Rules, is_reading}
use sigiled.Merge.Outcomes.{close_merge-Promise, Promise, Kept}

record Line : Type 0 where
  master : String
  session : String
  on_master : Bool

abbrev size : String → ℕ
size s = length (codes s)

abbrev longer : String → String → String
longer a b = if leb (size a) (size b) then b else a

abbrev shorter : String → String → String
shorter a b = if leb (size a) (size b) then a else b

abbrev last_of : String → List String → String
last_of x [] = x
last_of x (y ∷ ys) = last_of y ys

abbrev is_abort : List String → Bool
is_abort [] = false
is_abort (x ∷ xs) = str_eq x "--abort"

abbrev step : List String → Line → Line
step [] s = s
step (verb ∷ args) s =
    if str_eq verb "update-ref"
    then record s { master = last_of "" args }
    else if str_eq verb "checkout"
    then record s { on_master = true }
    else if str_eq verb "merge"
    then (if is_abort args
        then s
        else if s.on_master
        then record s { master = longer s.master s.session }
        else s)
    else s

abbrev named : String → Line → String
named name s = if str_eq name "session/a" then s.session else s.master

abbrev answer : List String → Line → Answer
answer [] s = none
answer (verb ∷ args) s =
    if str_eq verb "rev-parse"
    then some (true, named (last_of "" args) s)
    else if str_eq verb "merge-base"
    then some (true, shorter s.master s.session)
    else if str_eq verb "merge"
    then some (s.on_master, "")
    else some (true, "")

-- A word that no reading command starts with.
not_reading :
    (word verb : String) (args : List String)
    → is_reading (word ∷ []) ≡ false
    → is_reading (verb ∷ args) ≡ true
    → str_eq verb word ≡ false
not_reading word verb args writes reads = elim (Bool-cases (str_eq verb word)) [
  | inl e ↦ absurd (
      ground
        (arith, writes, subst (λ v. is_reading (v ∷ args) ≡ true) ((eq_iff verb word).0 e) reads))
  | inr e ↦ e
]

unread : (args : List String) (s : Line) → is_reading args ≡ true → step args s ≡ s
unread [] s e = refl
unread (verb ∷ args) s e =
    rw
      (
        not_reading "update-ref" verb args refl e,
        not_reading "checkout" verb args refl e,
        not_reading "merge" verb args refl e,
      )
      refl

unmoved :
    (args : List String) (s : Line)
    → is_reading args ≡ true
    → ((step args s).master ≡ s.master)
      × ((step args s).session ≡ s.session)
      × ((step args s).on_master ≡ s.on_master)
unmoved args s e = rw (unread args s e) (refl, refl, refl)

some_injective : (x y : String) → some x ≡ some y → y ≡ x
some_injective x y e = ground (arith, e)

based :
    (s : Line) (x : String)
    → some (shorter s.master s.session) ≡ some x
    → (leb (size x) (size s.master) ≡ true) × (leb (size x) (size s.session) ≡ true)
based s x e = rw (some_injective (shorter s.master s.session) x e) (ground arith, ground arith)

fused :
    (a b : String)
    → (leb (size a) (size (longer a b)) ≡ true) × (leb (size b) (size (longer a b)) ≡ true)
fused a b = (ground arith, ground arith)

abbrev merge : Line → Line
merge = step ("merge" ∷ "--no-ff" ∷ "--no-edit" ∷ "session/a" ∷ [])

merged_on :
    (s : Line)
    → s.on_master ≡ true
    → (leb (size s.master) (size (merge s).master) ≡ true)
      × (leb (size s.session) (size (merge s).master) ≡ true)
      × ((merge s).session ≡ s.session)
      × ((merge s).on_master ≡ true)
merged_on s on = rw on (let (a, b) = fused s.master s.session in (a, b, refl, refl))

merged_off :
    (s : Line)
    → (some s.on_master ≡ some true → ⊥)
    → ((merge s).master ≡ s.master) × ((merge s).session ≡ s.session)
merged_off s n = elim (Bool-cases s.on_master) [
  | inl on ↦ absurd (n (ap some on))
  | inr off ↦ rw off (refl, refl)
]

same_true : (a : String) → leb (size a) (size a) ≡ true
same_true a = ground arith

refused : (x : String) → some x ≡ none → ⊥
refused x e = ground (arith, e)

abbrev linear : Rules answer step "session/a"
linear = record {
  master = λ s. s.master;
  session = λ s. s.session;
  on_master = λ s. s.on_master;
  Before = λ a b. leb (size a) (size b) ≡ true;
  itself = λ a. same_true a;
  reading = λ args s e. unmoved args s e;
  rev_parse_master = λ s x e. some_injective s.master x e;
  rev_parse_session = λ s x e. some_injective s.session x e;
  rev_parse_head = λ s x on e. some_injective s.master x e;
  merge_base = λ s x e. based s x e;
  update_ref = λ s new x e. (refl, refl);
  update_ref_refused = λ s new e. absurd (refused "" e);
  checkout = λ s. (refl, refl);
  checked_out = λ s x e. refl;
  merging = λ s on e. merged_on s on;
  merging_refused = λ s n. merged_off s n;
  aborting = λ s. (refl, refl);
}

abbrev diverged : Line
diverged = record { master = "aaa"; session = "bb"; on_master = false }

close_merge-Promise_example :
    Gives
      (Promise answer step "session/a" linear "aaa" "bb")
      (Kept answer step "session/a" linear "aaa" "bb")
      (close_merge answer step "session/a" diverged)
close_merge-Promise_example =
    close_merge-Promise answer step "session/a" linear "aaa" "bb" diverged refl refl

lines_test : lines "a\r\n\nbc\nd\r" ≡ "a" ∷ "bc" ∷ "d\r" ∷ []
unfolding lines sigiled.Git.split_lines
lines_test = refl
