-- ===== src/Manifest.antt =====
-- sigiledd/src/manifest.rs: the checks of a manifest's template, session image and jobs, behind the
-- toml crate. White space is ASCII's. The cron crate's verdict on an expression is a parameter.
pub mod Texts
use sigiled.Base.{
  ℕ, ◌+◌, String, Bool, true, false, not, ◌&&◌, ◌||◌, Option, none, some, List, [], ◌∷◌, ◌==◌, ltb,
  leb, if◌then◌else◌, is_some, str_eq, str_append, codes, any, all, length, Assoc,
}
use sigiled.Routine.{Result, ok, err}
use sigiled.Jobs.Engine.{JobManifest}
use sigiled.Browser.Requests.{split, split_once}

pub record TemplateRef : Type 0 where
  pub name : String
  pub version : String

pub data ManifestError : Type 0 where
  bad_template_ref bad_app bad_job bad_workspace : String → ManifestError

abbrev is_lowercase : ℕ → Bool
is_lowercase c = leb b'a' c && leb c b'z'

abbrev is_digit : ℕ → Bool
is_digit c = leb b'0' c && leb c b'9'

abbrev pub is_name_char : ℕ → Bool
is_name_char c = is_lowercase c || is_digit c || c == b'-'

abbrev starts : (ℕ → Bool) → List ℕ → Bool
starts p [] = false
starts p (c ∷ cs) = p c

-- A name of a template, an app or a job.
unfoldable pub is_name : String → Bool
is_name s = not (str_eq s "") && starts is_lowercase (codes s) && all (codes s) is_name_char

unfoldable pub is_version : String → Bool
is_version s =
    length (split b'.' s) == 3
    && all (split b'.' s) (λ p. not (str_eq p "") && all (codes p) is_digit)

abbrev template_at : String → Option (String × String) → Result ManifestError TemplateRef
template_at s none = err (bad_template_ref s)
template_at s (some (name, version)) =
    if is_name name && is_version version
    then ok (record { name = name; version = version })
    else err (bad_template_ref s)

-- `TemplateRef::parse`.
unfoldable pub parse : String → Result ManifestError TemplateRef
parse s = template_at s (split_once b'@' s)

-- The text of a pin.
abbrev pub print : TemplateRef → String
print r = str_append r.name (str_append "@" r.version)

-- `validate_workspace_dockerfile`.
unfoldable pub validate_workspace_dockerfile : String → Result ManifestError String
validate_workspace_dockerfile p =
    if str_eq p ""
    then err (bad_workspace p)
    else if starts (λ c. c == b'/') (codes p)
        || any (codes p) (λ c. c == 92)
        || any (split b'/' p) (λ s. str_eq s "..")
    then err (bad_workspace p)
    else ok p

pub record RawJob : Type 0 where
  pub cron : String
  pub command : String
  pub timeout_minutes : Option ℕ
  pub hc_ping : Option String
  pub secrets : Assoc String

abbrev is_space : ℕ → Bool
is_space c = c == b' ' || (leb 9 c && leb c 13)

-- The number of words between white space.
fields_from : Bool → List ℕ → ℕ
fields_from inside [] = 0
fields_from inside (c ∷ cs) =
    let behind_space = fields_from false cs in
    let behind_word = fields_from true cs in
    if is_space c then behind_space else if inside then behind_word else 1 + behind_word

abbrev pub or_thirty : Option ℕ → ℕ
or_thirty none = 30
or_thirty (some n) = n

unfoldable pub has_five_fields : String → Bool
unfolding fields_from
has_five_fields cron = fields_from false (codes cron) == 5

abbrev pub is_timely : ℕ → Bool
is_timely minutes = leb 1 minutes && leb minutes 60

abbrev pub made : String → RawJob → JobManifest
made name raw = record {
  name = name;
  cron = raw.cron;
  command = raw.command;
  timeout_minutes = or_thirty raw.timeout_minutes;
  hc_ping = raw.hc_ping;
  secrets = raw.secrets;
}

-- `JobManifest::validate`.
unfoldable pub validate_job : (String → Bool) → String → RawJob → Result ManifestError JobManifest
validate_job is_schedule name raw =
    if not (is_name name)
    then err (bad_job name)
    else if not (has_five_fields raw.cron)
    then err (bad_job name)
    else if not (is_schedule (str_append "0 " raw.cron))
    then err (bad_job name)
    else if not (is_timely (or_thirty raw.timeout_minutes))
    then err (bad_job name)
    else ok (made name raw)
