-- ===== src/Manifest/Texts.antt =====
-- The pins and the jobs of a manifest, sigiledd/src/manifest.rs.
use Prim.Native.String.append.{nil, cons}
use sigiled.Base.{
  ℕ, ◌≡◌, refl, ap, subst, ◌≤◌, String, Bool, true, false, not, some, List, [], ◌∷◌, arith, ◌==◌,
  if◌then◌else◌, str_append, codes, all,
}
use sigiled.Routine.{Result, ok, err}
use sigiled.Browser.Requests.{split_once}
use sigiled.Jobs.Engine.{JobManifest}
use sigiled.Manifest.{
  TemplateRef, ManifestError, bad_job, has_five_fields, is_timely, or_thirty, made, parse, print,
  is_name, is_version, is_name_char, RawJob, validate_job,
}

free_of_at : (cs : List ℕ) → all cs is_name_char ≡ true → all cs (λ c. not (c == 64)) ≡ true
free_of_at [] e = refl
free_of_at (c ∷ cs) e = ground (arith, e, free_of_at cs)

split_once-first :
    (s b : String) → codes s ≡ 64 ∷ [] → split_once 64 (str_append s b) ≡ some ("", b)
unfolding split_once
split_once-first String.[] b e = absurd (ground (arith, e))
split_once-first (String.◌∷◌ c String.[]) b e = rw (cons c "" b, nil b) (ground (arith, e))
split_once-first (String.◌∷◌ c (String.◌∷◌ d s)) b e = absurd (ground (arith, e))

split_once-append :
    (a b : String)
    → all (codes a) (λ c. not (c == 64)) ≡ true
    → split_once 64 (str_append a (str_append "@" b)) ≡ some (a, b)
unfolding split_once
split_once-append String.[] b e = rw (nil (str_append "@" b)) (split_once-first "@" b refl)
split_once-append (String.◌∷◌ c a) b e =
    rw (cons c a (str_append "@" b), split_once-append a b (ground (arith, e))) (ground (arith, e))

-- A pin with a proper name and version is read back from its text.
pub parse-print :
    (r : TemplateRef) → is_name r.name ≡ true → is_version r.version ≡ true → parse (print r) ≡ ok r
unfolding parse is_name
parse-print r name version =
    rw
      (
        split_once-append r.name r.version (free_of_at (codes r.name) (ground (arith, name))),
        name,
        version,
      )
      refl

-- A test that does not end with an error.
passed :
    {A : Type 0} (b : Bool) (x : ManifestError) (m : Result ManifestError A) (a : A)
    → (if b then err x else m) ≡ ok a
    → (b ≡ false) × (m ≡ ok a)
passed true x m a e = absurd (ground (arith, e))
passed false x m a e = (refl, e)

abbrev after_plan : String → RawJob → Result ManifestError JobManifest
after_plan name raw =
    if not (is_timely (or_thirty raw.timeout_minutes))
    then err (bad_job name)
    else ok (made name raw)

abbrev after_fields : (String → Bool) → String → RawJob → Result ManifestError JobManifest
after_fields is_schedule name raw =
    if not (is_schedule (str_append "0 " raw.cron)) then err (bad_job name) else after_plan name raw

abbrev after_name : (String → Bool) → String → RawJob → Result ManifestError JobManifest
after_name is_schedule name raw =
    if not (has_five_fields raw.cron) then err (bad_job name) else after_fields is_schedule name raw

abbrev job_or : JobManifest → Result ManifestError JobManifest → JobManifest
job_or d (ok j) = j
job_or d (err e) = d

-- A job that passes has a proper name, and a wall clock between one minute and sixty.
pub validate_job-bounds :
    (is_schedule : String → Bool) (name : String) (raw : RawJob) (j : JobManifest)
    → validate_job is_schedule name raw ≡ ok j
    → (1 ≤ j.timeout_minutes)
      × (j.timeout_minutes ≤ 60)
      × (is_name j.name ≡ true)
      × (is_schedule (str_append "0 " j.cron) ≡ true)
unfolding validate_job
validate_job-bounds is_schedule name raw j e =
    let (named, f) =
      passed (not (is_name name)) (bad_job name) (after_name is_schedule name raw) j e in
    let (five, g) =
      passed (not (has_five_fields raw.cron)) (bad_job name) (after_fields is_schedule name raw) j
        f in
    let (planned, h) =
      passed (not (is_schedule (str_append "0 " raw.cron))) (bad_job name) (after_plan name raw) j
        g in
    let (timed, k) =
      passed (not (is_timely (or_thirty raw.timeout_minutes))) (bad_job name) (ok (made name raw)) j
        h in
    subst
      (λ x.
        (1 ≤ x.timeout_minutes)
        × (x.timeout_minutes ≤ 60)
        × (is_name x.name ≡ true)
        × (is_schedule (str_append "0 " x.cron) ≡ true))
      (ap (job_or (made name raw)) k)
      (ground (arith, timed), ground (arith, timed), ground (arith, named), ground (arith, planned))
