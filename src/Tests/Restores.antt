-- ===== src/Tests/Restores.antt =====
-- The theorems on the restore, at concrete inputs.
use redline_os.Prelude.{true, false, ◌≡◌, refl, ◌⊎◌, none, [], ◌∷◌, string_eq, nat_eq, any}
use redline_os.Prelude.Dict.{get, put, pop}
use redline_os.Restore.Disk.{Stat, Disk, not_found, found, lstat, stat_device, rename}
use redline_os.Restore.Disposition.{DispositionResult, dispose_target}
use redline_os.Restore.Disposition.Safe.{IsMoved, named, dispose_keeps_or_moves, dispose-IsMoved}
use redline_os.Restore.Planning.{Observed, build_recovery_plan, would_proceed}
use redline_os.Restore.Planning.Exact.{would_proceed_exact}
use redline_os.Tests.Data.{platform}

abbrev file : Stat
file = record {
  is_symlink = false;
  is_reparse_point = false;
  is_regular = true;
  is_directory = false;
  device = 1;
}

abbrev pub folder : Stat
folder = record file { is_regular = false; is_directory = true }

-- A database file, and the folder that `platform` has for the parent of every path.
abbrev disk : Disk
disk = record { objects = ("/e/7/redline.db", file) ∷ ("/e/7/master", folder) ∷ []; refusals = [] }

dispose_keeps_or_moves_example :
    let (r, d') = dispose_target platform "/e/7/redline.db" "database" true "r-1" disk in
    (d'.objects ≡ disk.objects) ⊎ IsMoved platform "/e/7/redline.db" "database" true "r-1" disk d'
dispose_keeps_or_moves_example =
    dispose_keeps_or_moves platform "/e/7/redline.db" "database" true "r-1" disk

abbrev result : DispositionResult
result = record {
  target_kind = "database";
  source_path = "/e/7/redline.db";
  superseded_path = "/e/7/master//e/7/redline.db__superseded-r-1";
}

dispose-IsMoved_example :
    let (r, d') = dispose_target platform "/e/7/redline.db" "database" true "r-1" disk in
    IsMoved platform "/e/7/redline.db" "database" true "r-1" disk d'
    × (result ≡ named platform "/e/7/redline.db" "database" true "r-1" disk)
    × (get "/e/7/redline.db" d'.objects ≡ none)
unfolding dispose_target lstat stat_device rename get put pop string_eq nat_eq
dispose-IsMoved_example =
    dispose-IsMoved platform "/e/7/redline.db" "database" true "r-1" disk result refl

-- The database is lost, and the rest is sound.
abbrev pub observed : Observed
observed = record {
  backup_verifies = true;
  schemas_agree = true;
  database_seen = not_found;
  database_parent = true;
  integrity_check = none;
  config_seen = found folder;
  config_parent = true;
  config_files = [];
  sidecars_seen = λ suffix. not_found;
}

would_proceed_exact_example : would_proceed (build_recovery_plan observed) ≡ true
unfolding any
would_proceed_exact_example = would_proceed_exact observed
