-- ===== src/Disk.antt =====
-- services/node-agent/src/greencompute_node_agent/domain/disk.py: the choice of a disk quota, and
-- the loop volumes. `subprocess.run` is the interface of the pod backends; the file system's calls
-- are parameters. `volume_error` stands for DiskError.
pub mod Volumes
pub mod Archives
pub mod Manager
mod Examples
use greenference_node.Base.{
  ℕ, ◌≡◌, ◌⊎◌, inl, inr, refl, arith, String, Bool, true, false, ◌&&◌, Option, none, some, List, [],
  ◌∷◌, ◌++◌, ltb, if◌then◌else◌, str_eq,
}
use greenference_node.Text.{show, codes, lower, same}
use greenference_node.Text.Words.{concat, is_empty}
use greenference_node.Agent.Exec.{Outcome, returned, raised, Raised, volume_error}
use greenference_node.Pods.Docker.{
  Completion, completed, missing, timed_out, Docker, Call, ◌>>=◌, pure, raise, continue,
}
use greenference_node.Pods.Command.{
  DiskMode, loop_mount, loop_mount_sudo, storage_opt, no_enforcement,
}

-- `DiskMode(override.lower())`, with its ValueError
mode_of : String → Option DiskMode
unfolding lower same
mode_of s =
    let c = lower (codes s) in
    if same c (codes "loop_mount")
    then some loop_mount
    else if same c (codes "loop_mount_sudo")
    then some loop_mount_sudo
    else if same c (codes "storage_opt")
    then some storage_opt
    else if same c (codes "none")
    then some no_enforcement
    else none

-- What the host supports: the mount tools, root, sudo without a password, and docker's option.
pub record Support : Type 0 where
  pub has_mount_tools : Bool
  pub is_root : Bool
  pub can_sudo_nopasswd : Bool
  pub docker_storage_opt_supported : Bool

unfoldable pub strongest : Support → DiskMode
strongest s =
    if s.has_mount_tools && s.is_root
    then loop_mount
    else if s.has_mount_tools && s.can_sudo_nopasswd
    then loop_mount_sudo
    else if s.docker_storage_opt_supported
    then storage_opt
    else no_enforcement

unfoldable pub detect_disk_mode : Option String → Support → DiskMode
unfolding mode_of strongest is_empty
detect_disk_mode none s = strongest s
detect_disk_mode (some override) s =
    if is_empty override
    then strongest s
    else elim (mode_of override) [ none ↦ strongest s | some mode ↦ mode ]

-- The commands, and the file system's calls, each of which may raise.
pub record Files (W : Type 0) : Type 0 where
  pub shell : Docker W
  pub make_parent : String → Call W (Unit {0})
  pub make_dirs : String → Call W (Unit {0})
  pub unlink : String → Call W (Unit {0})

unfoldable pub sudo_prefix : DiskMode → List String
sudo_prefix loop_mount_sudo = "sudo" ∷ "-n" ∷ []
sudo_prefix loop_mount = []
sudo_prefix storage_opt = []
sudo_prefix no_enforcement = []

abbrev pub truncate_command : String → ℕ → List String
truncate_command image size_gb = "truncate" ∷ "-s" ∷ concat (show size_gb ∷ "G" ∷ []) ∷ image ∷ []

abbrev pub format_command : String → List String
format_command image = "mkfs.ext4" ∷ "-F" ∷ "-q" ∷ image ∷ []

unfoldable pub mount_command : DiskMode → String → String → List String
unfolding sudo_prefix
mount_command mode image mount = sudo_prefix mode ++ ("mount" ∷ "-o" ∷ "loop" ∷ image ∷ mount ∷ [])

unfoldable pub umount_command : DiskMode → String → List String
unfolding sudo_prefix
umount_command mode mount = sudo_prefix mode ++ ("umount" ∷ mount ∷ [])

module _ {W : Type 0} (files : Files W) where
  -- `subprocess.run(..., check=True)`: whether it succeeded; the handler names the other ends.
  unfoldable pub succeeded : Completion → Bool
  succeeded (completed ok out err) = ok
  succeeded missing = false
  succeeded timed_out = false

  unfoldable pub run_checked : List String → Call W Bool
  unfolding succeeded ◌>>=◌ pure
  run_checked args = files.shell.run args >>= λ r. pure (succeeded r)

  unfoldable pub run_all : List (List String) → Call W Bool
  unfolding run_checked ◌>>=◌ pure
  run_all [] = pure true
  run_all (args ∷ rest) =
      run_checked args >>= λ ok w. if ok then run_all rest w else (returned false, w)

  unfoldable pub rollback : DiskMode → String → String → Call W (Unit {0})
  unfolding ◌>>=◌ raise umount_command
  rollback mode mount image = files.shell.run (umount_command mode mount) >>= λ r.
      files.unlink image >>= λ u. raise volume_error

  -- the commands, with the handler of their errors
  unfoldable pub set_up : String → String → ℕ → DiskMode → Call W (Unit {0})
  unfolding run_all rollback mount_command ◌>>=◌
  set_up mount image size_gb mode =
      run_all (
        truncate_command image size_gb ∷ format_command image ∷ mount_command mode image mount ∷ [])
      >>= λ ok v. if ok then (returned tt, v) else rollback mode mount image v

  unfoldable pub create_loop_volume : String → String → ℕ → DiskMode → Call W (Unit {0})
  unfolding set_up ◌>>=◌ raise
  create_loop_volume mount image size_gb mode =
      if ltb size_gb 1
      then raise volume_error
      else (files.make_parent image >>= λ p.
          files.make_dirs mount >>= λ d. set_up mount image size_gb mode)

  -- `except OSError: pass`; a call of the file system raises no other error.
  swallowed : Outcome (Unit {0}) × W → Outcome (Unit {0}) × W
  swallowed (returned u, w) = (returned tt, w)
  swallowed (raised e, w) = (returned tt, w)

  -- The errors of the two calls that the handlers name are swallowed.
  unfoldable pub destroy_loop_volume : String → String → DiskMode → Call W (Unit {0})
  unfolding ◌>>=◌ umount_command swallowed
  destroy_loop_volume mount image mode =
      files.shell.run (umount_command mode mount) >>= λ r w. swallowed (files.unlink image w)
