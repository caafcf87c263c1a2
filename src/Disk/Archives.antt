-- ===== src/Disk/Archives.antt =====
-- services/node-agent/src/greencompute_node_agent/domain/volume.py: backup_volume and
-- restore_volume. A path is the list of its components from the last to the first, a name in an
-- archive the list from the first to the last; links are left out, and so are empty directories.
use greenference_node.Base.{
  ℕ, ◌≡◌, refl, sym, ap, ◌∙◌, arith, Bool, true, false, ◌&&◌, Option, none, some, List, [], ◌∷◌,
  ◌++◌, if◌then◌else◌,
}
use mathlib.Core.List.{append_assoc}
use greenference_node.Text.{codes, same, starts_with}
use greenference_node.Agent.Exec.{Outcome, returned, raised, volume_error}

abbrev pub Component : Type 0
Component = List ℕ

-- The files under a directory, with their contents.
abbrev pub Tree : Type 0
Tree = List (List Component × List ℕ)

drop_last : List Component → List Component
drop_last [] = []
drop_last (c ∷ path) = path

-- One component of a name, taken from a directory.
unfoldable pub step : Component → List Component → List Component
unfolding same drop_last
step c path =
    if same c (codes "..") then drop_last path else if same c (codes ".") then path else c ∷ path

-- `(path / name).resolve()`
unfoldable pub resolve : List Component → List Component → List Component
unfolding step
resolve path [] = path
resolve path (c ∷ name) = resolve (step c path) name

-- `str(path)`
unfoldable pub render : List Component → List ℕ
render [] = []
render (c ∷ path) = render path ++ (b'/' ∷ c)

unfoldable pub is_safe : List Component → List Component → Bool
unfolding resolve render starts_with
is_safe vol_path name = starts_with (render (resolve vol_path name)) (render vol_path)

unfoldable pub all_safe : List Component → Tree → Bool
unfolding is_safe
all_safe vol_path [] = true
all_safe vol_path ((name, content) ∷ members) = is_safe vol_path name && all_safe vol_path members

-- Where the files of a tree lie that stands at a path.
unfoldable pub files_at : List Component → Tree → List (List Component × List ℕ)
unfolding resolve
files_at path [] = []
files_at path ((name, content) ∷ tree) = (resolve path name, content) ∷ files_at path tree

-- `tar.add(vol_path, arcname="volume")`
unfoldable pub added : Tree → Tree
added [] = []
added ((name, content) ∷ tree) = (codes "volume" ∷ name, content) ∷ added tree

-- The archive of a volume, if its path exists.
unfoldable pub backup_volume : Option Tree → Outcome Tree
unfolding added
backup_volume none = raised volume_error
backup_volume (some tree) = returned (added tree)

-- What the call gives, and the files that are there afterwards in the place of the volume's.
unfoldable pub restore_volume :
    List Component
    → Option Tree
    → List (List Component × List ℕ)
    → Outcome (Unit {0}) × List (List Component × List ℕ)
unfolding all_safe files_at
restore_volume vol_path none files = (raised volume_error, files)
restore_volume vol_path (some archive) files =
    if all_safe vol_path archive
    then (returned tt, files_at vol_path archive)
    else (raised volume_error, [])

-- A component that is a file's or a directory's own name.
abbrev pub IsPlain : List Component → Type 0
IsPlain [] = Unit
IsPlain (c ∷ name) = (same c (codes "..") ≡ false) × (same c (codes ".") ≡ false) × IsPlain name

abbrev pub AllPlain : Tree → Type 0
AllPlain [] = Unit
AllPlain ((name, content) ∷ tree) = IsPlain name × AllPlain tree

starts_with-append : (s t u : List ℕ) → starts_with s t ≡ true → starts_with (s ++ u) t ≡ true
unfolding starts_with
starts_with-append s [] u e = refl
starts_with-append [] (d ∷ t) u e = ground arith
starts_with-append (c ∷ s) (d ∷ t) u e = ground (arith, starts_with-append s t u)

starts_with_self : (s : List ℕ) → starts_with s s ≡ true
unfolding starts_with
starts_with_self [] = refl
starts_with_self (c ∷ s) = ground (arith, starts_with_self s)

plain-is_below :
    (name path : List Component) (base : List ℕ)
    → IsPlain name
    → starts_with (render path) base ≡ true
    → starts_with (render (resolve path name)) base ≡ true
unfolding resolve step render
plain-is_below [] path base h e = e
plain-is_below (c ∷ name) path base h e =
    rw (h.0, h.1)
      (plain-is_below name (c ∷ path) base h.2 (starts_with-append (render path) base (b'/' ∷ c) e))

added-all_safe :
    (vol_path : List Component) (tree : Tree)
    → AllPlain tree
    → all_safe vol_path (added tree) ≡ true
unfolding all_safe is_safe added
added-all_safe vol_path [] h = refl
added-all_safe vol_path ((name, content) ∷ tree) h =
    rw
      (plain-is_below (codes "volume" ∷ name) vol_path (render vol_path) (refl, refl, h.0)
        (starts_with_self (render vol_path)))
      (added-all_safe vol_path tree h.1)

added-files_at :
    (vol_path : List Component) (tree : Tree)
    → files_at vol_path (added tree) ≡ files_at (codes "volume" ∷ vol_path) tree
unfolding files_at added resolve step
added-files_at vol_path [] = refl
added-files_at vol_path ((name, content) ∷ tree) =
    ap (λ r. (resolve (codes "volume" ∷ vol_path) name, content) ∷ r) (added-files_at vol_path tree)

-- A volume whose names are plain can be backed up and restored, and the restored files are the
-- volume's, but each lies in a directory `volume` of the volume and not where it was.
pub backup-restore :
    (vol_path : List Component) (tree : Tree) (files : List (List Component × List ℕ))
    (archive : Tree)
    → AllPlain tree
    → backup_volume (some tree) ≡ returned archive
    → restore_volume vol_path (some archive) files
      ≡ (returned tt, files_at (codes "volume" ∷ vol_path) tree)
unfolding backup_volume restore_volume
backup-restore vol_path tree files archive plain e =
    let same_tree : added tree ≡ archive = ap (tree_or archive) e in
    ap (λ a. restore_volume vol_path (some a) files) (sym same_tree)
    ∙ rw (added-all_safe vol_path tree plain)
        (ap (λ r. (returned tt, r)) (added-files_at vol_path tree))
  where
    tree_or : Tree → Outcome Tree → Tree
    tree_or d (returned a) = a
    tree_or d (raised x) = d

stepped : (c : Component) (path : List Component) → IsPlain (c ∷ []) → step c path ≡ c ∷ path
unfolding step
stepped c path h = rw (h.0, h.1) refl

sibling-is_safe :
    (name suffix : Component) (parent : List Component)
    → IsPlain ((name ++ suffix) ∷ [])
    → is_safe (name ∷ parent) (codes ".." ∷ (name ++ suffix) ∷ []) ≡ true
unfolding is_safe resolve step render
sibling-is_safe name suffix parent h =
    let base = render parent ++ (b'/' ∷ name) in
    ap (λ p. starts_with (render p) base) (stepped (name ++ suffix) parent h)
    ∙ (ap (λ s. starts_with s base) (sym (append_assoc (render parent) (b'/' ∷ name) suffix))
        ∙ starts_with-append base base suffix (starts_with_self base))

-- A member that leads out of the volume, to a sibling whose name begins with the volume's own,
-- passes the check, and its file is written there.
pub sibling-passes :
    (name suffix : Component) (parent : List Component) (content : List ℕ)
    (files : List (List Component × List ℕ))
    → IsPlain ((name ++ suffix) ∷ [])
    → restore_volume
        (name ∷ parent)
        (some ((codes ".." ∷ (name ++ suffix) ∷ [], content) ∷ []))
        files
      ≡ (returned tt, ((name ++ suffix) ∷ parent, content) ∷ [])
unfolding restore_volume all_safe files_at
sibling-passes name suffix parent content files h =
    rw (sibling-is_safe name suffix parent h, stepped (name ++ suffix) parent h) refl
