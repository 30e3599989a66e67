-- ===== src/Examples/Manifests.antt =====
-- Runs and instances for sigiledd/src/manifest.rs.
use sigiled.Base.{◌≡◌, refl, String, Bool, true, none, []}
use sigiled.Routine.{ok, err}
use sigiled.Manifest.{
  TemplateRef, RawJob, bad_workspace, parse, print, is_name, is_version, validate_job,
  validate_workspace_dockerfile,
}
use sigiled.Manifest.Texts.{parse-print}

abbrev pin : TemplateRef
pin = record { name = "vm-tmpl"; version = "0.1.0" }

pin_name : is_name pin.name ≡ true
unfolding is_name
pin_name = refl

pin_version : is_version pin.version ≡ true
unfolding is_version sigiled.Browser.Requests.split
pin_version = refl

parse-print_example : parse (print pin) ≡ ok pin
parse-print_example = parse-print pin pin_name pin_version

abbrev raw : RawJob
raw = record {
  cron = "*/5 * * * *";
  command = "make";
  timeout_minutes = none;
  hc_ping = none;
  secrets = [];
}

abbrev any_schedule : String → Bool
any_schedule text = true

job_test :
    validate_job any_schedule "nightly" raw
    ≡ ok (record {
      name = "nightly";
      cron = "*/5 * * * *";
      command = "make";
      timeout_minutes = 30;
      hc_ping = none;
      secrets = [];
    })
unfolding validate_job is_name sigiled.Manifest.has_five_fields
job_test = refl

dockerfile_test :
    validate_workspace_dockerfile "images/../../x" ≡ err (bad_workspace "images/../../x")
unfolding validate_workspace_dockerfile sigiled.Browser.Requests.split
dockerfile_test = refl
