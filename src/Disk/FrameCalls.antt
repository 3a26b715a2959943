-- ===== src/Disk/FrameCalls.antt =====
-- The frames of the calls of the system.
use baggageclaim.Prelude.{String, ◌≡◌, refl, Option, none, some, eq_iff, arith, List, subst}
use baggageclaim.Prelude.Table.{get-put, get-delete}
use baggageclaim.Disk.World.{
  Node, regular, directory, Dir, Stage, init, live, dead, BaseVolume, World, node, set_node,
  delete_node,
}
use baggageclaim.Disk.Action.{change}
use baggageclaim.Disk.Calls.{
  get_dir, put_dir, make_dir, mkdir, stat, read_dir, remove_all, rename, link, symlink,
  eval_symlinks, make_files, mkdir_files, clear_files, remove_files, move,
}
use baggageclaim.Disk.Frame.{Places, Unchanged, Keeps, Unchanged-refl, Unchanged-trans, frame_rules}

pub node-set_node_ne :
    (s t : Stage) (h k : String) (n : Node) (w : World)
    → ¬ ((s ≡ t) × (h ≡ k))
    → node s h (set_node t k n w) ≡ node s h w
node-set_node_ne init init h k n w ne = ground (arith, get-put h k n (w.tables init), eq_iff k h)
node-set_node_ne live live h k n w ne = ground (arith, get-put h k n (w.tables live), eq_iff k h)
node-set_node_ne dead dead h k n w ne = ground (arith, get-put h k n (w.tables dead), eq_iff k h)
node-set_node_ne init _ h k n w ne = refl
node-set_node_ne live _ h k n w ne = refl
node-set_node_ne dead _ h k n w ne = refl

pub node-set_node_self :
    (s : Stage) (h : String) (n : Node) (w : World) → node s h (set_node s h n w) ≡ some n
node-set_node_self init h n w = ground (arith, get-put h h n (w.tables init), eq_iff h h)
node-set_node_self live h n w = ground (arith, get-put h h n (w.tables live), eq_iff h h)
node-set_node_self dead h n w = ground (arith, get-put h h n (w.tables dead), eq_iff h h)

pub node-delete_node_self :
    (s : Stage) (h : String) (w : World) → node s h (delete_node s h w) ≡ none
node-delete_node_self init h w = ground (arith, get-delete h h (w.tables init), eq_iff h h)
node-delete_node_self live h w = ground (arith, get-delete h h (w.tables live), eq_iff h h)
node-delete_node_self dead h w = ground (arith, get-delete h h (w.tables dead), eq_iff h h)

pub node-delete_node_ne :
    (s t : Stage) (h k : String) (w : World)
    → ¬ ((s ≡ t) × (h ≡ k))
    → node s h (delete_node t k w) ≡ node s h w
node-delete_node_ne init init h k w ne = ground (arith, get-delete h k (w.tables init), eq_iff k h)
node-delete_node_ne live live h k w ne = ground (arith, get-delete h k (w.tables live), eq_iff k h)
node-delete_node_ne dead dead h k w ne = ground (arith, get-delete h k (w.tables dead), eq_iff k h)
node-delete_node_ne init _ h k w ne = refl
node-delete_node_ne live _ h k w ne = refl
node-delete_node_ne dead _ h k w ne = refl

away : (P : Places) {s t : Stage} {h k : String} → P s h → ¬ P t k → ¬ ((s ≡ t) × (h ≡ k))
away P {t} {h} p out (e, f) = out (subst (λ k. P t k) f (subst (λ s. P s h) e p))

module _ {P : Places} where
  pub set_node-Unchanged :
      (v : BaseVolume) (n : Node) (w : World)
      → ¬ P v.stage v.handle
      → Unchanged P w (set_node v.stage v.handle n w)
  set_node-Unchanged v n w out = record {
    nodes = λ s h p. node-set_node_ne s v.stage h v.handle n w (away P p out);
    faults = refl;
    held = refl;
  }

  pub delete_node-Unchanged :
      (v : BaseVolume) (w : World)
      → ¬ P v.stage v.handle
      → Unchanged P w (delete_node v.stage v.handle w)
  delete_node-Unchanged v w out = record {
    nodes = λ s h p. node-delete_node_ne s v.stage h v.handle w (away P p out);
    faults = refl;
    held = refl;
  }

  set_node-Keeps :
      (v : BaseVolume) (n : Node)
      → ¬ P v.stage v.handle
      → Keeps P (change (set_node v.stage v.handle n))
  set_node-Keeps v n out = record { at = λ w. set_node-Unchanged v n w out }

  delete_node-Keeps :
      (v : BaseVolume) → ¬ P v.stage v.handle → Keeps P (change (delete_node v.stage v.handle))
  delete_node-Keeps v out = record { at = λ w. delete_node-Unchanged v w out }

  pub put_dir-Keeps : (v : BaseVolume) (d : Dir) → ¬ P v.stage v.handle → Keeps P (put_dir v d)
  unfolding put_dir
  put_dir-Keeps v d out = record { at = λ w. set_node-Unchanged v (directory d) w out }

  pub get_dir-Keeps : (v : BaseVolume) → Keeps P (get_dir v)
  unfolding get_dir
  get_dir-Keeps v = record { at = λ w. Unchanged-refl w }

  make_dir-Keeps :
      (v : BaseVolume) (o : Option Node) → ¬ P v.stage v.handle → Keeps P (make_dir v o)
  make_dir-Keeps v none out = set_node-Keeps v (directory _) out
  make_dir-Keeps v (some n) out = search frame_rules

  pub mkdir-Keeps : (v : BaseVolume) → ¬ P v.stage v.handle → Keeps P (mkdir v)
  unfolding mkdir
  mkdir-Keeps v out = search (frame_rules, make_dir-Keeps)

  pub stat-Keeps : (v : BaseVolume) → Keeps P (stat v)
  unfolding stat
  stat-Keeps v = search frame_rules

  pub read_dir-Keeps : (s : Stage) → Keeps P (read_dir s)
  unfolding read_dir
  read_dir-Keeps s = search frame_rules

  pub remove_all-Keeps : (v : BaseVolume) → ¬ P v.stage v.handle → Keeps P (remove_all v)
  unfolding remove_all
  remove_all-Keeps v out = search (frame_rules, delete_node-Keeps)

  move-Keeps :
      (v u : BaseVolume) (d : Dir)
      → ¬ P v.stage v.handle
      → ¬ P u.stage u.handle
      → Keeps P (move v u d)
  unfolding move
  move-Keeps v u d out_v out_u = record {
    at = λ w.
        Unchanged-trans (delete_node-Unchanged v w out_v)
          (set_node-Unchanged u (directory d) (delete_node v.stage v.handle w) out_u);
  }

  pub rename-Keeps :
      (v u : BaseVolume) → ¬ P v.stage v.handle → ¬ P u.stage u.handle → Keeps P (rename v u)
  unfolding rename
  rename-Keeps v u out_v out_u = search (frame_rules, get_dir-Keeps, move-Keeps) depth 9

  link-Keeps :
      (v : BaseVolume) (target : String) (d : Dir) (o : Option String)
      → ¬ P v.stage v.handle
      → Keeps P (link v target d o)
  link-Keeps v target d none out = put_dir-Keeps v _ out
  link-Keeps v target d (some _) out = search frame_rules

  pub symlink-Keeps :
      (target : String) (v : BaseVolume) → ¬ P v.stage v.handle → Keeps P (symlink target v)
  unfolding symlink
  symlink-Keeps target v out = search (frame_rules, get_dir-Keeps, link-Keeps) depth 9

  pub eval_symlinks-Keeps : (v : BaseVolume) → Keeps P (eval_symlinks v)
  unfolding eval_symlinks
  eval_symlinks-Keeps v = search (frame_rules, get_dir-Keeps) depth 9

  make_files-Keeps :
      (v : BaseVolume) (d : Dir) (o : Option (List _))
      → ¬ P v.stage v.handle
      → Keeps P (make_files v d o)
  make_files-Keeps v d none out = put_dir-Keeps v _ out
  make_files-Keeps v d (some _) out = search frame_rules

  pub mkdir_files-Keeps : (v : BaseVolume) → ¬ P v.stage v.handle → Keeps P (mkdir_files v)
  unfolding mkdir_files
  mkdir_files-Keeps v out = search (frame_rules, get_dir-Keeps, make_files-Keeps) depth 9

  clear_files-Keeps :
      (v : BaseVolume) (o : Option Node) → ¬ P v.stage v.handle → Keeps P (clear_files v o)
  clear_files-Keeps v none out = search frame_rules
  clear_files-Keeps v (some regular) out = search frame_rules
  clear_files-Keeps v (some (directory d)) out = put_dir-Keeps v _ out

  pub remove_files-Keeps : (v : BaseVolume) → ¬ P v.stage v.handle → Keeps P (remove_files v)
  unfolding remove_files
  remove_files-Keeps v out = search (frame_rules, clear_files-Keeps) depth 9
