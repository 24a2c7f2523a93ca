-- ===== src/UpdateFinish.antt =====
-- The records of src/updatefinish.rs that an update reports: what a finished update rests on, and
-- the account of a failed one.
use asterism.Prelude.{Option, List}
use asterism.Text.{Text}
use asterism.Convergence.{Converged, NotConverged}

pub record UpdateEvidence : Type 0 where
  pub target_release : Text
  pub node_release : Text
  pub runtime_release : Text
  pub runtime_revision : Text
  pub services : List Converged

pub data FailedCheck : Type 0 where
  install node_binary runtime_release health services : FailedCheck

pub data RollbackOutcome : Type 0 where
  restored incomplete not_attempted : RollbackOutcome

pub record FailureDetail : Type 0 where
  pub check : FailedCheck
  pub failed_services : List NotConverged
  pub found_runtime_release : Option Text
  pub rollback : RollbackOutcome
  pub rollback_services : List NotConverged
