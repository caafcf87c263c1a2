-- ===== src/Disk/Manager.antt =====
-- services/node-agent/src/greencompute_node_agent/domain/volume.py: create_volume and
-- delete_volume. `volume_error` stands for DiskError and for the VolumeError that it becomes.
use greenference_node.Base.{String, Bool, true, false, ℕ, [], ◌∷◌, if◌then◌else◌}
use greenference_node.Text.Words.{concat}
use greenference_node.Protocol.{Volume}
use greenference_node.Agent.Exec.{returned}
use greenference_node.Pods.Docker.{Call, ◌>>=◌, pure}
use greenference_node.Pods.Command.{
  DiskMode, loop_mount, loop_mount_sudo, storage_opt, no_enforcement,
}
use greenference_node.Disk.{Files, create_loop_volume, destroy_loop_volume}

-- `self.disk_mode in (DiskMode.LOOP_MOUNT, DiskMode.LOOP_MOUNT_SUDO)`
unfoldable pub is_loop : DiskMode → Bool
is_loop loop_mount = true
is_loop loop_mount_sudo = true
is_loop storage_opt = false
is_loop no_enforcement = false

abbrev pub volume_path : String → String → String
volume_path base_dir deployment_id = concat (base_dir ∷ "/" ∷ deployment_id ∷ [])

abbrev pub image_path : String → String → String
image_path base_dir deployment_id = concat (base_dir ∷ "/" ∷ deployment_id ∷ ".ext4" ∷ [])

module _ {W : Type 0} (files : Files W) (remove_dir remove_tree : String → W → W) where
  unfoldable pub create_volume : String → DiskMode → String → ℕ → Call W Volume
  unfolding is_loop create_loop_volume ◌>>=◌ pure
  create_volume base_dir disk_mode deployment_id size_gb =
      let path = volume_path base_dir deployment_id in
      let image = image_path base_dir deployment_id in
      let volume : Volume = record { deployment_id = deployment_id; path = path } in
      if is_loop disk_mode
      then (create_loop_volume files path image size_gb disk_mode >>= λ u. pure volume)
      else (files.make_dirs path >>= λ u. pure volume)

  -- Removing what is not there, or not empty, changes nothing.
  unfoldable pub delete_volume : String → DiskMode → Volume → Call W (Unit {0})
  unfolding is_loop destroy_loop_volume ◌>>=◌
  delete_volume base_dir disk_mode volume =
      if is_loop disk_mode
      then (destroy_loop_volume files volume.path (image_path base_dir volume.deployment_id)
            disk_mode
          >>= λ u w. (returned tt, remove_dir volume.path w))
      else λ w. (returned tt, remove_tree volume.path w)
