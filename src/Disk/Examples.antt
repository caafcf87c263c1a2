-- ===== src/Disk/Examples.antt =====
-- A host whose commands all succeed, and a volume with one file.
use greenference_node.Base.{ℕ, ◌+◌, ◌≡◌, refl, arith, true, some, List, [], ◌∷◌}
use greenference_node.Base.{ℕ, ◌+◌, ◌≡◌, refl, arith, true, some, List, [], ◌∷◌}
use greenference_node.Text.{codes, same}
use greenference_node.Agent.Exec.{returned}
use greenference_node.Disk.Archives.{
  Component, Tree, added, files_at, backup_volume, restore_volume, IsPlain, AllPlain,
  backup-restore, sibling-passes,
}
use greenference_node.Pods.Docker.{completed}
use greenference_node.Pods.Command.{loop_mount_sudo}
use greenference_node.Disk.{Files, mount_command, create_loop_volume}
use greenference_node.Disk.Volumes.{After, JustDone, IsUndone, create_loop_volume-settles}

abbrev files : Files ℕ
files = record {
  shell = record { run = λ args w. (returned (completed true "" ""), w + 1) };
  make_parent = λ path w. (returned tt, w);
  make_dirs = λ path w. (returned tt, w);
  unlink = λ path w. (returned tt, w);
}

create_loop_volume-settles_example :
    After
      (λ u v. JustDone files (mount_command loop_mount_sudo "/v.img" "/v") v)
      (IsUndone files loop_mount_sudo "/v" "/v.img")
      (create_loop_volume files "/v" "/v.img" 20 loop_mount_sudo 0)
create_loop_volume-settles_example =
    create_loop_volume-settles files "/v" "/v.img" 20 loop_mount_sudo 0 (omega arith)

-- The volume `/pods/ab`, with one file.
abbrev vol_path : List Component
vol_path = codes "ab" ∷ codes "pods" ∷ []

abbrev tree : Tree
tree = (codes "data" ∷ codes "x" ∷ [], 7 ∷ []) ∷ []

backs_up : backup_volume (some tree) ≡ returned (added tree)
unfolding backup_volume
backs_up = refl

tree-AllPlain : AllPlain tree
unfolding same
tree-AllPlain = ((refl, refl, (refl, refl, tt)), tt)

backup-restore_example :
    restore_volume vol_path (some (added tree)) []
    ≡ (returned tt, files_at (codes "volume" ∷ vol_path) tree)
backup-restore_example = backup-restore vol_path tree [] (added tree) tree-AllPlain backs_up

sibling-IsPlain : IsPlain (codes "abc" ∷ [])
unfolding same
sibling-IsPlain = (refl, refl, tt)

sibling-passes_example :
    restore_volume vol_path (some ((codes ".." ∷ codes "abc" ∷ [], 9 ∷ []) ∷ [])) []
    ≡ (returned tt, (codes "abc" ∷ codes "pods" ∷ [], 9 ∷ []) ∷ [])
sibling-passes_example =
    sibling-passes (codes "ab") (codes "c") (codes "pods" ∷ []) (9 ∷ []) [] sibling-IsPlain
