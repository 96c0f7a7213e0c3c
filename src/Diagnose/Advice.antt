-- ===== src/Diagnose/Advice.antt =====
-- The records of cli/diagnose.rs, and the remedies for a decline.
use roxo_mcp.Base.{ℕ, zero, suc, Bool, true, List, [], ◌∷◌, ◌++◌, Option, none, some, leb, ite}
use roxo_mcp.Base.Sort.{sort_by}
use roxo_mcp.Base.Text.{Text, codes}
use roxo_mcp.Base.Names.{Text_discrete}
use roxo_mcp.SessionRegistry.{dedup}

abbrev pub plugin_default_port_ranges : List (ℕ × ℕ)
plugin_default_port_ranges = (34370, 34379) ∷ (34872, 34881) ∷ []

abbrev pub stale_verdict_secs : ℕ
stale_verdict_secs = 60

pub data DiagnosisState : Type 0 where
  connected_state : DiagnosisState
  declined_state : DiagnosisState
  ambiguous_state : DiagnosisState
  probed_state : DiagnosisState
  not_probed_state : DiagnosisState

-- The keys that an edit sets.
pub record Settings : Type 0 where
  pub auto_connect : Option Text
  pub serve_place_ids : Option (List ℕ)

pub record ProjectFileChange : Type 0 where
  pub file : Text
  pub set : Settings
  pub requires_restart : Bool

pub record Diagnosis : Type 0 where
  pub state : DiagnosisState
  pub summary : Text
  pub fix : Option Text
  pub project_file_change : Option ProjectFileChange
  pub caution : Option Text
  pub place_id : Option ℕ
  pub reason_code : Option Text
  pub last_probe_seconds_ago : Option ℕ

unfoldable pub serve_place_ids_caution : Text
serve_place_ids_caution =
    codes "Only list this place if it really belongs to this project. A listed place connects "
    ++ codes "without confirmation, and the project's source then overwrites what is in it."

abbrev pub new_diagnosis : DiagnosisState → Text → Diagnosis
new_diagnosis state summary = record {
  state = state;
  summary = summary;
  fix = none;
  project_file_change = none;
  caution = none;
  place_id = none;
  reason_code = none;
  last_probe_seconds_ago = none;
}

unfoldable pub not_probed_summary : Text
not_probed_summary =
    codes "No Roxo plugin has probed this server in the last few minutes, so no Studio place has "
    ++ codes "even looked at it."

unfoldable pub probed_fix : Text
probed_fix =
    codes "If it keeps probing without connecting, its plugin may predate verdict reports: "
    ++ codes "update it with `roxo plugin install` and restart Studio. If it just started "
    ++ codes "connecting, wait a few seconds and check again."

abbrev pub all_ids : Option (List ℕ) → List ℕ
all_ids none = []
all_ids (some ids) = ids

abbrev pub published_place : Option ℕ → Option ℕ
published_place none = none
published_place (some zero) = none
published_place (some (suc n)) = some (suc n)

abbrev pub with_place : Option (List ℕ) → Option ℕ → Settings → Settings
with_place served none set = set
with_place served (some place) set = record set {
  serve_place_ids = some (dedup (sort_by leb (all_ids served ++ place ∷ [])));
}

unfoldable pub list_place : Text → Option (List ℕ) → Option ℕ → Settings → Diagnosis → Diagnosis
unfolding sort_by serve_place_ids_caution
list_place project served place_id set diagnosis = record diagnosis {
  project_file_change = some (record {
    file = project;
    set = with_place served (published_place place_id) set;
    requires_restart = true;
  });
  caution = some serve_place_ids_caution;
}

abbrev pub no_settings : Settings
no_settings = record { auto_connect = none; serve_place_ids = none }

abbrev pub auto_settings : Text → Settings
auto_settings policy = record { auto_connect = some policy; serve_place_ids = none }

-- The reject codes of the plugin that have a remedy of their own.
pub data RejectCode : Type 0 where
  unlisted : RejectCode
  auto_connect_off : RejectCode
  unpublished_place : RejectCode
  blocked_place : RejectCode
  protocol_mismatch : RejectCode
  other : RejectCode

abbrev pub is_code : Text → Text → RejectCode → RejectCode → RejectCode
is_code code name this rest = ite (Text_discrete code name) this rest

unfoldable pub reject_code : Option Text → RejectCode
unfolding Text_discrete
reject_code none = other
reject_code (some code) = is_code code (codes "not-in-serve-place-ids") unlisted (
    is_code code (codes "no-identity-match") unlisted (
      is_code code (codes "always-on-published-place") unlisted (
        is_code code (codes "auto-connect-off") auto_connect_off (
          is_code code (codes "unpublished-place") unpublished_place (
            is_code code (codes "blocked-place") blocked_place
              (is_code code (codes "protocol-mismatch") protocol_mismatch other))))))

abbrev pub fix_text : Text → RejectCode → Text
fix_text project unlisted =
    codes "Add this place to servePlaceIds in "
    ++ project
    ++ codes " and restart the serve session, or connect once by hand in Studio to pair them."
fix_text project auto_connect_off =
    codes "The project turns auto-connect off. Set \"autoConnect\": \"matching\" in "
    ++ project
    ++ codes " (or drop --auto-connect off), make sure servePlaceIds lists this place, "
    ++ codes "and restart the serve session."
fix_text project unpublished_place =
    codes "An unpublished place has no ID to match. If this is a scratch project, set "
    ++ codes "\"autoConnect\": \"always\" in "
    ++ project
    ++ codes " and restart the serve session; it only ever applies to unpublished places. "
    ++ codes "Otherwise publish the place, or connect once by hand."
fix_text project blocked_place =
    codes "The project lists this place in blockedPlaceIds. That is deliberate in "
    ++ project
    ++ codes "; remove it from that list only if you do mean to sync into it."
fix_text project protocol_mismatch =
    codes "The plugin and server speak different protocol versions. Update the plugin with "
    ++ codes "`roxo plugin install` and restart Studio, or update the server."
fix_text project other =
    codes "See the reason above. Update the plugin with `roxo plugin install` for more "
    ++ codes "specific diagnoses."

abbrev pub change_for : Text → Option (List ℕ) → Option ℕ → RejectCode → Diagnosis → Diagnosis
change_for project served place_id unlisted d = list_place project served place_id no_settings d
change_for project served place_id auto_connect_off d =
    list_place project served place_id (auto_settings (codes "matching")) d
change_for project served place_id unpublished_place d = record d {
  project_file_change =
      some
        (record { file = project; set = auto_settings (codes "always"); requires_restart = true });
}
change_for project served place_id blocked_place d = d
change_for project served place_id protocol_mismatch d = d
change_for project served place_id other d = d

unfoldable pub apply_fix : Text → Option (List ℕ) → Option ℕ → Option Text → Diagnosis → Diagnosis
unfolding list_place reject_code
apply_fix project served place_id code diagnosis =
    let kind = reject_code code in
    change_for project served place_id kind
      (record diagnosis { fix = some (fix_text project kind) })
