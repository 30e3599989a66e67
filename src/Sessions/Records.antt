-- ===== src/Sessions/Records.antt =====
-- sigiledd/src/sessions.rs, `SessionRecord` and the operations of `SessionState` on its two maps,
-- and sigiledd/src/runtime.rs, the names of containers. A hand-off is kept as its phase.
use sigiled.Base.{
  ℕ, String, Bool, true, false, not, ◌&&◌, ◌||◌, Option, none, some, List, [], ◌∷◌, ◌++◌,
  if◌then◌else◌, str_eq, str_append, decimal, is_some, is_none, ltb, any, retain, length, Assoc,
  get, insert, adjust, values,
}
use sigiled.Auth.Policy.{Actor, Action, is_admin, authorize, ok, denied}
use sigiled.Auth.Approvals.{ApprovalStore}

abbrev pub u64_max : ℕ
u64_max = 18446744073709551615

pub data Lifecycle : Type 0 where
  creating active recycling closing failed : Lifecycle

pub data Failure : Type 0 where
  legacy_ownership_ambiguous interrupted persist_failed mirror_failed create_failed : Failure
  boot_failed flush_failed fetch_failed merge_failed push_failed cleanup_failed : Failure
  runtime_not_owned runtime_unavailable generation_exhausted : Failure

pub record WorkspaceBinding : Type 0 where
  pub container : String
  pub endpoint : String
  pub generation : ℕ
  pub ide_started : Bool

pub record SessionRecord : Type 0 where
  pub handoff : Option (Option String)
  pub session_id : String
  pub project : String
  pub branch : String
  pub head : String
  pub stale : Bool
  pub actor : Actor
  pub token : Option String
  pub binding : Option WorkspaceBinding
  pub lifecycle : Lifecycle
  pub generation : ℕ
  pub error : Option Failure
  pub image : Option String
  pub runtime_owned : Bool

pub record DebtSide : Type 0 where
  pub sha : String
  pub commit_messages : List String

pub record MergeDebt : Type 0 where
  pub branch : String
  pub conflicted_files : List String
  pub ours : DebtSide
  pub theirs : DebtSide
  pub since : String

abbrev phase_settled : Option String → Bool
phase_settled none = false
phase_settled (some p) = str_eq p "complete" || str_eq p "failed"

unfoldable pub handoff_pending : SessionRecord → Bool
handoff_pending r = elim r.handoff [ none ↦ false | some phase ↦ not (phase_settled phase) ]

unfoldable pub session_container : String → ℕ → String
session_container id generation =
    str_append "vm-s-" (str_append id (str_append "-g" (decimal generation)))

unfoldable pub vm_name : String → String
vm_name project = str_append "vm-" project

unfoldable pub container : SessionRecord → String
container r = elim r.binding [ none ↦ vm_name r.project | some b ↦ b.container ]

abbrev pub Records : Type 0
Records = Assoc SessionRecord

abbrev pub Debts : Type 0
Debts = Assoc (List MergeDebt)

abbrev pub or_no_debts : Option (List MergeDebt) → List MergeDebt
or_no_debts none = []
or_no_debts (some ds) = ds

unfoldable pub debts_for : Debts → String → List MergeDebt
debts_for debts project = or_no_debts (get project debts)

abbrev pub without_branch : String → List MergeDebt → List MergeDebt
without_branch branch = retain (λ d. not (str_eq d.branch branch))

unfoldable pub push_debt : String → MergeDebt → Debts → Debts
push_debt project debt debts =
    insert project (without_branch debt.branch (or_no_debts (get project debts)) ++ debt ∷ []) debts

unfoldable pub clear_debt : String → String → Debts → Debts
clear_debt project branch debts = adjust project (without_branch branch) debts

abbrev pub is_active : Lifecycle → Bool
is_active active = true
is_active _ = false

unfoldable pub live_records : Records → List SessionRecord
live_records records = retain (λ r. is_some r.token && is_active r.lifecycle) (values records)

unfoldable pub put : SessionRecord → Records → Records
put r records = insert r.session_id r records

unfoldable pub mark : String → Lifecycle → Option Failure → Records → Records
mark id lifecycle error records =
    adjust id (λ r. record r { lifecycle = lifecycle; error = error }) records

abbrev is_ambiguous : Option Failure → Bool
is_ambiguous (some legacy_ownership_ambiguous) = true
is_ambiguous _ = false

-- No other record with a token answers to the record's container.
unfoldable pub binding_safe : SessionRecord → Records → Bool
binding_safe own records =
    not (is_ambiguous own.error)
    && not (
        any (values records) (λ r.
          not (str_eq r.session_id own.session_id)
          && is_some r.token
          && str_eq (container r) (container own)))

abbrev pub is_legacy : SessionRecord → Bool
is_legacy r = is_none r.binding && is_some r.token

unfoldable pub legacy_count : Records → String → ℕ
legacy_count records project =
    length (retain (λ r. is_legacy r && str_eq r.project project) (values records))

abbrev pub is_transient : Lifecycle → Bool
is_transient creating = true
is_transient closing = true
is_transient recycling = true
is_transient _ = false

unfoldable pub recover_record : ℕ → SessionRecord → SessionRecord
recover_record legacy r =
    if is_legacy r && ltb 1 legacy
    then record r { lifecycle = failed; error = some legacy_ownership_ambiguous }
    else if is_transient r.lifecycle
    then record r { lifecycle = failed; error = some interrupted }
    else r

unfoldable pub recover_all : Records → Records → Records
recover_all snapshot [] = []
recover_all snapshot ((id, r) ∷ rs) =
    (id, recover_record (legacy_count snapshot r.project) r) ∷ recover_all snapshot rs

-- The boot-time `hydrate` of the records; the debts are taken over as they are.
unfoldable pub hydrate_records : Records → Records
hydrate_records snapshot = recover_all snapshot snapshot

unfoldable pub authorized : Actor → SessionRecord → Action → ApprovalStore → ℕ → Bool
authorized actor r action approvals now =
    elim (authorize actor action (some r.project) approvals now) [
      | denied d ↦ false
      | ok u ↦ is_admin actor.role || str_eq actor.driver r.actor.driver
    ]
