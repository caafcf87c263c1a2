-- ===== src/Disk/Volumes.antt =====
-- What a loop volume's creation leaves behind.
use greenference_node.Base.{
  ℕ, ◌≡◌, ◌≤◌, ◌⊎◌, inl, inr, refl, arith, String, Bool, true, false, List, [], ◌∷◌, ltb,
  if◌then◌else◌,
}
use greenference_node.Agent.Exec.{Outcome, returned, raised, Raised, volume_error}
use greenference_node.Pods.Docker.{
  Completion, completed, missing, timed_out, Call, ◌>>=◌, pure, raise, continue,
}
use greenference_node.Pods.Command.{DiskMode}
use greenference_node.Disk.{
  Files, truncate_command, format_command, mount_command, umount_command, succeeded, run_checked,
  set_up, run_all, rollback, create_loop_volume,
}

module _ {W : Type 0} where
  -- What holds of a value and the world, or of an error and the world.
  abbrev pub After :
      {A : Type 0} → (A → W → Type 0) → (Raised → W → Type 0) → Outcome A × W → Type 0
  After Q E (returned x, w) = Q x w
  After Q E (raised e, w) = E e w

  After-bind :
      {A B : Type 0} (R : A → W → Type 0) (Q : B → W → Type 0) (E : Raised → W → Type 0)
      (f : A → Call W B) (r : Outcome A × W)
      → After R E r
      → ((x : A) (v : W) → R x v → After Q E (f x v))
      → After Q E (continue f r)
  unfolding continue
  After-bind R Q E f (returned x, v) h next = next x v h
  After-bind R Q E f (raised e, v) h next = h

  After-raise :
      {A : Type 0} (Q : A → W → Type 0) (E F : Raised → W → Type 0) (r : Outcome A × W)
      → ((e : Raised) (v : W) → E e v → F e v)
      → After Q E r
      → After Q F r
  After-raise Q E F (returned x, v) up h = h
  After-raise Q E F (raised e, v) up h = up e v h

last : List String → List (List String) → List String
last args [] = args
last args (next ∷ rest) = last next rest

module _ {W : Type 0} (files : Files W) where
  -- An error that no handler names, at the end of a command or of a call of the file system.
  pub data Escapes (mount image : String) (e : Raised) (w : W) : Type 0 where
    of_command :
        (args : List String) (v : W)
        → files.shell.run args v ≡ (raised e, w)
        → Escapes mount image e w
    of_parent : (v : W) → files.make_parent image v ≡ (raised e, w) → Escapes mount image e w
    of_dirs : (v : W) → files.make_dirs mount v ≡ (raised e, w) → Escapes mount image e w
    of_unlink : (v : W) → files.unlink image v ≡ (raised e, w) → Escapes mount image e w

  -- A command was run and succeeded, and nothing has happened since.
  abbrev pub JustDone : List String → W → Type 0
  JustDone args w =
      (v : W) × (out : String) × (err : String) × (files.shell.run args v
        ≡ (returned (completed true out err), w))

  run_checked-After :
      (mount image : String) (args : List String) (w : W)
      → After (λ ok v. ok ≡ true → JustDone args v) (Escapes mount image) (run_checked files args w)
  unfolding run_checked ◌>>=◌ pure continue succeeded
  run_checked-After mount image args w = go (files.shell.run args w) refl
    where
      go :
          (r : Outcome Completion × W)
          → files.shell.run args w ≡ r
          → After
              (λ ok v. ok ≡ true → JustDone args v)
              (Escapes mount image)
              (continue (λ x. pure (succeeded files x)) r)
      go (returned (completed true out err), v) e = λ ok. (w, out, err, e)
      go (returned (completed false out err), v) e = λ ok. ground arith
      go (returned missing, v) e = λ ok. ground arith
      go (returned timed_out, v) e = λ ok. ground arith
      go (raised x, v) e = of_command args w e

  run_all-After :
      (mount image : String) (args : List String) (rest : List (List String)) (w : W)
      → After
          (λ ok v. ok ≡ true → JustDone (last args rest) v)
          (Escapes mount image)
          (run_all files (args ∷ rest) w)
  unfolding run_all ◌>>=◌ last
  run_all-After mount image args [] w =
      After-bind (λ ok v. ok ≡ true → JustDone args v) _ (Escapes mount image) _
        (run_checked files args w) (run_checked-After mount image args w) (λ ok v h. if_done ok v h)
    where
      if_done :
          (ok : Bool) (v : W)
          → (ok ≡ true → JustDone args v)
          → After
              (λ ok v. ok ≡ true → JustDone args v)
              (Escapes mount image)
              (if ok then pure true v else (returned false, v))
      if_done true v h = h
      if_done false v h = λ e. ground arith
  run_all-After mount image args (next ∷ rest) w =
      After-bind (λ ok v. ok ≡ true → JustDone args v) _ (Escapes mount image) _
        (run_checked files args w) (run_checked-After mount image args w)
        (λ ok v h. go_on ok v (run_all-After mount image next rest v))
    where
      go_on :
          (ok : Bool) (v : W)
          → After
              (λ ok v. ok ≡ true → JustDone (last next rest) v)
              (Escapes mount image)
              (run_all files (next ∷ rest) v)
          → After
              (λ ok v. ok ≡ true → JustDone (last next rest) v)
              (Escapes mount image)
              (if ok then run_all files (next ∷ rest) v else (returned false, v))
      go_on true v h = h
      go_on false v h = λ e. ground arith

  -- A failed creation: the error is DiskError's, and the last two things that happened are that
  -- the mount path was unmounted, whatever came of it, and that the image was unlinked; or the error
  -- is one that no handler names.
  abbrev pub IsUndone : DiskMode → String → String → Raised → W → Type 0
  IsUndone mode mount image e w =
      ((e ≡ volume_error)
        × ((v : W) × (u : W) × (r : Completion) × (files.shell.run (umount_command mode mount) v
              ≡ (returned r, u))
            × (files.unlink image u ≡ (returned tt, w))))
      ⊎ Escapes mount image e w

  rollback-After :
      (mount image : String) (mode : DiskMode) (w : W)
      → After
          (λ u v. JustDone (mount_command mode image mount) v)
          (IsUndone mode mount image)
          (rollback files mode mount image w)
  unfolding rollback ◌>>=◌ continue raise
  rollback-After mount image mode w = go (files.shell.run (umount_command mode mount) w) refl
    where
      unlinked :
          (r : Completion) (v : W)
          → files.shell.run (umount_command mode mount) w ≡ (returned r, v)
          → (x : Outcome (Unit {0}) × W) → files.unlink image v ≡ x
          → After {A = Unit {0}}
              (λ u v. JustDone (mount_command mode image mount) v)
              (IsUndone mode mount image)
              (continue (λ u. raise volume_error) x)
      unlinked r v e (returned u, z) k = inl (refl, (w, v, r, e, k))
      unlinked r v e (raised x, z) k = inr (of_unlink v k)

      go :
          (r : Outcome Completion × W)
          → files.shell.run (umount_command mode mount) w ≡ r
          → After {A = Unit {0}}
              (λ u v. JustDone (mount_command mode image mount) v)
              (IsUndone mode mount image)
              (continue (λ r. files.unlink image >>= λ u. raise volume_error) r)
      go (returned r, v) e = unlinked r v e (files.unlink image v) refl
      go (raised x, v) e = inr (of_command (umount_command mode mount) w e)

  set_up-After :
      (mount image : String) (size_gb : ℕ) (mode : DiskMode) (w : W)
      → After
          (λ u v. JustDone (mount_command mode image mount) v)
          (IsUndone mode mount image)
          (set_up files mount image size_gb mode w)
  unfolding set_up ◌>>=◌ last
  set_up-After mount image size_gb mode w =
      let commands =
        truncate_command image size_gb
        ∷ format_command image
        ∷ mount_command mode image mount
        ∷ [] in
      After-bind (λ ok v. ok ≡ true → JustDone (mount_command mode image mount) v) _
        (IsUndone mode mount image) _ (run_all files commands w)
        (After-raise _ (Escapes mount image) (IsUndone mode mount image) (run_all files commands w)
          (λ e v h. inr h)
          (run_all-After mount image (truncate_command image size_gb)
            (format_command image ∷ mount_command mode image mount ∷ []) w))
        (λ ok v h. created ok v h)
    where
      created :
          (ok : Bool) (v : W)
          → (ok ≡ true → JustDone (mount_command mode image mount) v)
          → After
              (λ u v. JustDone (mount_command mode image mount) v)
              (IsUndone mode mount image)
              (if ok then (returned tt, v) else rollback files mode mount image v)
      created true v h = h refl
      created false v h = rollback-After mount image mode v

  -- A call of the file system, and what it may raise.
  call-After :
      (mount image : String) (m : Call W (Unit {0})) (w : W)
      → ((e : Raised) (v : W) → m w ≡ (raised e, v) → Escapes mount image e v)
      → After (λ u v. Unit {0}) (Escapes mount image) (m w)
  call-After mount image m w escapes = go (m w) refl
    where
      go : (r : Outcome (Unit {0}) × W) → m w ≡ r → After (λ u v. Unit {0}) (Escapes mount image) r
      go (returned u, v) e = tt
      go (raised x, v) e = escapes x v e

  -- The creation of a volume of at least one gigabyte either mounts the image, as the last thing
  -- that it does, or fails by DiskError, having as its last two things unmounted the path and
  -- unlinked the image; only an error that no handler names, of a command or of a call of the file
  -- system, can leave it half done. The directories that it made stay in any case.
  pub create_loop_volume-settles :
      (mount image : String) (size_gb : ℕ) (mode : DiskMode) (w : W)
      → 1 ≤ size_gb
      → After
          (λ u v. JustDone (mount_command mode image mount) v)
          (IsUndone mode mount image)
          (create_loop_volume files mount image size_gb mode w)
  unfolding create_loop_volume ◌>>=◌
  create_loop_volume-settles mount image size_gb mode w big =
      let small : ltb size_gb 1 ≡ false = ground arith in
      rw small (
        After-bind (λ u v. Unit {0}) _ (IsUndone mode mount image) _ (files.make_parent image w)
          (After-raise (λ u v. Unit {0}) (Escapes mount image) (IsUndone mode mount image)
            (files.make_parent image w) (λ e v h. inr h)
            (call-After mount image (files.make_parent image) w (λ e v h. of_parent w h)))
          (λ p v _.
            After-bind (λ u z. Unit {0}) _ (IsUndone mode mount image) _ (files.make_dirs mount v)
              (After-raise (λ u z. Unit {0}) (Escapes mount image) (IsUndone mode mount image)
                (files.make_dirs mount v) (λ e z h. inr h)
                (call-After mount image (files.make_dirs mount) v (λ e z h. of_dirs v h)))
              (λ d z _. set_up-After mount image size_gb mode z)))
