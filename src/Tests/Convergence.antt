-- ===== src/Tests/Convergence.antt =====
-- Waiting for restarted services on a scripted host, and the theorems at it.
use asterism.Prelude.{ℕ, zero, suc, ◌+◌, ◌*◌, ◌≡◌, refl, none, some, List, [], ◌∷◌}
use asterism.Prelude.Results.{ok}
use asterism.Text.{codes, text_eq}
use asterism.FilePaths.{FilePath, path_eq, path_starts_with, shown_ends_with, with_extension}
use asterism.Convergence.{
  Host, Policy, Converged, converge, converge_from, watch_all, watch_target, look, look_good,
  not_converged, from_last,
}
use asterism.Convergence.Observed.{
  Sight, Target, node, file, Disk, good, key, observe, classify, classify_image, active, activating,
}
use asterism.Convergence.Settled.{Settled}
use asterism.Convergence.Proved.{converge-Settled}

abbrev node_path : FilePath
node_path = codes "/" ∷ codes "usr" ∷ codes "bin" ∷ codes "asterism" ∷ []

abbrev node_disk : Disk
node_disk path = some (1, 40)

-- The service is activating at the first look, and runs the expected file from the second on.
abbrev sight_at : ℕ → Sight
sight_at zero = record {
  status = some (record { active_state = activating; main_pid = some 7 });
  image = none;
  disk = node_disk;
}
sight_at (suc round) = record {
  status = some (record { active_state = active; main_pid = some 7 });
  image = some (record { image_path = node_path; image_file = (1, 40) });
  disk = node_disk;
}

abbrev host : Host
host = record {
  started = 100;
  now = λ round. 100 + round * 500;
  sight = λ round unit. sight_at round;
}

abbrev node_target : Target
node_target = record { unit = codes "asterism.service"; role = node; expect = file node_path }

abbrev policy : Policy
policy = record { deadline = 3000; interval = 500; settle = 1000 }

abbrev done : List Converged
done = record { converged_role = node; converged_pid = 7 } ∷ []

node_settles : converge 7 policy host (node_target ∷ []) ≡ some (ok done)
unfolding converge converge_from watch_all watch_target look look_good good key observe classify
    classify_image path_eq path_starts_with shown_ends_with with_extension text_eq not_converged
    from_last
node_settles = refl

converge-Settled_example : Settled policy.settle host (node_target ∷ []) done
converge-Settled_example = converge-Settled 7 policy host (node_target ∷ []) done node_settles
