-- ===== src/Volume/Driver/Overlay/Parents.antt =====
-- What `Parent` of a volume says of the links.
use baggageclaim.Prelude.{
  String, ◌≡◌, ◌≢◌, refl, sym, ◌∙◌, ap, Option, none, some, Option-cases, inl, inr,
}
use baggageclaim.Disk.World.{World, Node, regular, directory, live, BaseVolume, node}
use baggageclaim.Disk.Action.{Error, stack_overflow, call, tick, Result, ok, err}
use baggageclaim.Volume.Filesystem.{volume_at, as_parent, parent}
use baggageclaim.Disk.Calls.{follow, eval_symlinks, get_dir}
use baggageclaim.Volume.Filesystem.Frame.{parent-Keeps}
use baggageclaim.Volume.Repository.Descendants.Pruned.{HasParent, Pruned-Keeps, HasParent-Pruned}

pub HasParent-parent :
    (v : BaseVolume) (w : World) (c p : String) → HasParent (parent v w).1 c p → HasParent w c p
HasParent-parent v w c p =
    HasParent-Pruned c p (Pruned-Keeps {R = λ k. ⊥} (parent v) w (parent-Keeps v))

-- the volume in a result, or another one
abbrev volume_or : BaseVolume → Result (Option BaseVolume) → BaseVolume
volume_or v (ok (some u)) = u
volume_or v _ = v

as_parent_live :
    (r : Result String) (w : World) {u : BaseVolume}
    → (as_parent r w).0 ≡ ok (some u)
    → u ≡ volume_at live u.handle
as_parent_live (ok h) w {u = u} e =
    let same : volume_at live h ≡ u = ap (volume_or u) e in
    sym same ∙ ap (λ (v : BaseVolume). volume_at live v.handle) same
as_parent_live (err Error.not_exist) w e = absurd (cc e)
as_parent_live (err _) w e = absurd (cc e)

pub parent_live :
    (v : BaseVolume) (w : World) {u : BaseVolume}
    → (parent v w).0 ≡ ok (some u)
    → u ≡ volume_at live u.handle
unfolding parent
parent_live v w e = as_parent_live (eval_symlinks v w).0 (eval_symlinks v w).1 e

link_gone :
    (p : String) (o : Option Node) (w : World)
    → (as_parent (elim o [ none ↦ err Error.not_exist | some _ ↦ ok p ]) w).0 ≡ ok none
    → o ≡ none
link_gone p none w e = refl
link_gone p (some n) w e = absurd (cc e)

-- A volume of which no parent is found has no link, or one to a volume that is gone.
pub parent_none :
    (h p : String) (w : World)
    → (parent (volume_at live h) w).0 ≡ ok none
    → HasParent w h p
    → node live p w ≡ none
unfolding parent eval_symlinks get_dir call
parent_none h p w e (d, at, up) = elim (Option-cases (w.faults w.clock)) [
  | inr (f, fault) ↦ absurd (cc (rw fault at (e)))
  | inl fine ↦ link_gone p (node live p w) (tick w) (rw (fine, at, up) at (e))
]

node_found :
    (k : String) (o : Option Node) (w : World)
    → (as_parent (elim o [ none ↦ err Error.not_exist | some _ ↦ ok k ]) w).0 ≢ err stack_overflow
node_found k none w e = cc e
node_found k (some n) w e = cc e

link_found : (o : Option String) (w u : World) → (as_parent (follow o w) u).0 ≢ err stack_overflow
link_found none w u e = cc e
link_found (some k) w u e = node_found k (node live k w) u e

-- The errors of reading a link are those of the calls.
pub parent_errors : (v : BaseVolume) (w : World) → (parent v w).0 ≢ err stack_overflow
unfolding parent eval_symlinks get_dir call
parent_errors v w e = elim (Option-cases (w.faults w.clock)) [
  | inr (f, fault) ↦ cc (rw fault at (e))
  | inl fine ↦ elim (Option-cases (node v.stage v.handle w)) [
    | inl gone ↦ cc (rw (fine, gone) at (e))
    | inr (regular, there) ↦ cc (rw (fine, there) at (e))
    | inr (directory d, there) ↦ link_found d.parent (tick w) (tick w) (rw (fine, there) at (e))
  ]
]
