-- ===== src/Volume/Repository/Descendants/Pruned.antt =====
-- Which volumes go.
use baggageclaim.Prelude.{
  ℕ, zero, suc, String, ◌≡◌, refl, subst, sym, ◌∙◌, ap, Bool, true, false, Option, none, some, List,
  [], ◌∷◌, ◌==◌, eq_iff, ◌⊎◌, inl, inr, All, map, Bool-cases, arith,
}
use baggageclaim.Disk.World.{World, Dir, Node, regular, directory, live, BaseVolume, node}
use baggageclaim.Disk.Action.{
  not_exist, Result, ok, err, Action, bind-ok, call, ◌>>=◌, tick, continue,
}
use baggageclaim.Disk.Calls.{as_dir, follow, eval_symlinks, get_dir}
use baggageclaim.Disk.Frame.{Places, Keeps, Ensures, value_rules}
use baggageclaim.Volume.Filesystem
use baggageclaim.Volume.Filesystem.{volume_at, parent, as_parent}
use baggageclaim.Volume.Filesystem.Frame.{IsConfined, parent-Keeps, list_volumes-Keeps}
use baggageclaim.Volume.Repository.Defs.{Repository, destroy_volume}
use baggageclaim.Volume.Repository.Destroy.{destroy_volume_visible, destroy_volume-GoneOrSame}
use baggageclaim.Volume.Repository.Descendants.Defs.{
  has_handle, if_child, destroy_children, if_listed, destroy_volume_and_descendants,
}

-- the entries of live/
abbrev pub InLive : Places
InLive s k = s ≡ live

-- `c` is the directory of a volume whose link `parent` leads to `p`.
abbrev pub HasParent : World → String → String → Type 0
HasParent w c p = (d : Dir) × (node live c w ≡ some (directory d)) × (d.parent ≡ some p)

-- `k` is `h` or a descendant of it.
pub data Below (w : World) (h : String) : String → Type 0 where
  self : Below w h h
  child : {p c : String} → Below w h p → HasParent w c p → Below w h c

-- From the first world to the second, entries of live/ have at most gone, and only those at `R`.
pub record Pruned (R : String → Type 0) (w w' : World) : Type 0 where
  pub shrunk : (k : String) → (node live k w' ≡ none) ⊎ (node live k w' ≡ node live k w)
  pub outside : (k : String) → ¬ R k → node live k w' ≡ node live k w

as_dir_ok : (o : Option Node) {d : Dir} → as_dir o ≡ ok d → o ≡ some (directory d)
as_dir_ok none e = absurd (cc e)
as_dir_ok (some regular) e = absurd (cc e)
as_dir_ok (some (directory c)) e = ap (λ (c : Dir). some (directory c)) (cc e)

follow_present :
    (k : String) (o : Option Node) {t : String}
    → (elim o [ none ↦ err not_exist | some _ ↦ ok k ]) ≡ ok t
    → k ≡ t
follow_present k none e = absurd (cc e)
follow_present k (some n) e = cc e

follow_ok : (o : Option String) (w : World) {t : String} → follow o w ≡ ok t → o ≡ some t
follow_ok none w e = absurd (cc e)
follow_ok (some k) w e = ap some (follow_present k (node live k w) e)

eval_symlinks_ok :
    (h : String) (w : World) {t : String}
    → (eval_symlinks (volume_at live h) w).0 ≡ ok t
    → HasParent w h t
unfolding eval_symlinks get_dir call
eval_symlinks_ok h w e =
    let (x1, ok1, e1, _) = bind-ok call _ w e in
    let (d, ok2, e2, _) = bind-ok (get_dir (volume_at live h)) _ (call w).1 e1 in
    (d, as_dir_ok (node live h w) ok2, follow_ok d.parent (tick w) e2)

as_parent_ok :
    (r : Result String) (w : World) {u : BaseVolume}
    → (as_parent r w).0 ≡ ok (some u)
    → r ≡ ok u.handle
as_parent_ok (ok h) w e = ap ok (ground arith)
as_parent_ok (err not_exist) w h = absurd (cc h)
as_parent_ok (err _) w h = absurd (cc h)

-- `parent` reads the link of the volume.
pub parent_ok :
    (h : String) (w : World) {u : BaseVolume}
    → (parent (volume_at live h) w).0 ≡ ok (some u)
    → HasParent w h u.handle
unfolding parent
parent_ok h w e = eval_symlinks_ok h w (as_parent_ok (eval_symlinks (volume_at live h) w).0 _ e)

module _ {R : String → Type 0} where
  pub Pruned-refl : (w : World) → Pruned R w w
  Pruned-refl w = record { shrunk = λ k. inr refl; outside = λ k out. refl }

  pub Pruned-trans :
      {S : String → Type 0} {u v w : World}
      → Pruned R u v
      → Pruned S v w
      → ((k : String) → S k → R k)
      → Pruned R u w
  Pruned-trans a b sub = record {
    shrunk = λ k. elim (b.shrunk k) [
      | inl gone ↦ inl gone
      | inr same ↦ elim (a.shrunk k) [
        | inl gone' ↦ inl (same ∙ gone')
        | inr same' ↦ inr (same ∙ same')
      ]
    ];
    outside = λ k out. b.outside k (λ s. out (sub k s)) ∙ a.outside k out;
  }

  pub Pruned-Keeps : {A : Type 0} (m : Action A) (w : World) → Keeps InLive m → Pruned R w (m w).1
  Pruned-Keeps m w k = record {
    shrunk = λ h. inr ((k.at w).nodes live h refl);
    outside = λ h out. (k.at w).nodes live h refl;
  }

pub HasParent-Pruned :
    {R : String → Type 0} {u v : World} (c p : String)
    → Pruned R u v
    → HasParent v c p
    → HasParent u c p
HasParent-Pruned c p a (d, at, link) = elim (a.shrunk c) [
  | inl gone ↦ absurd (cc (gone, at))
  | inr same ↦ (d, sym same ∙ at, link)
]

Below-Pruned :
    {R : String → Type 0} {u v : World} {h c k : String}
    → Pruned R u v
    → HasParent u c h
    → Below v c k
    → Below u h k
Below-Pruned a up self = child self up
Below-Pruned a up (child b up') = child (Below-Pruned a up b) (HasParent-Pruned _ _ a up')

pub Below-mono :
    {R : String → Type 0} {u v : World} {h k : String} → Pruned R u v → Below v h k → Below u h k
Below-mono a self = self
Below-mono a (child b up) = child (Below-mono a b) (HasParent-Pruned _ _ a up)

-- What holds after `m` in every world that `w` has been pruned to.
abbrev pub Prunes : (String → Type 0) → World → {A : Type 0} → Action A → Type 0
Prunes R w m = (w' : World) → Pruned R w w' → Pruned R w (m w').1

module _ {R : String → Type 0} {w : World} where
  pub Prunes-Keeps : {A : Type 0} (m : Action A) → Keeps InLive m → Prunes R w m
  Prunes-Keeps m k w' a = Pruned-trans a (Pruned-Keeps m w' k) (λ k s. s)

  Prunes-continue :
      {A B : Type 0} (f : A → Action B) (r : Result A) (w' : World)
      → Pruned R w w'
      → ((a : A) → r ≡ ok a → Pruned R w (f a w').1)
      → Pruned R w (continue f r w').1
  Prunes-continue f (ok a) w' p each = each a refl
  Prunes-continue f (err e) w' p each = p

  Prunes-bind :
      {A B : Type 0} (m : Action A) (f : A → Action B)
      → Prunes R w m
      → ((w' : World) → Pruned R w w' → (a : A) → (m w').0 ≡ ok a → Pruned R w (f a (m w').1).1)
      → Prunes R w (m >>= f)
  Prunes-bind m f pm each w' p = Prunes-continue f (m w').0 (m w').1 (pm w' p) (each w' p)

-- the candidates are volumes of live/
abbrev pub Live : List BaseVolume → Type 0
Live = All (λ v. v.stage ≡ live)

Live-map : (hs : List String) → Live (map (volume_at live) hs)
Live-map [] = tt
Live-map (h ∷ hs) = (refl, Live-map hs)

pub list_volumes-Ensures : Ensures Live Filesystem.list_volumes
unfolding Filesystem.list_volumes
list_volumes-Ensures = search (value_rules, Live-map) depth 9

pub parent_ok_at :
    (v : BaseVolume) (w : World) {u : BaseVolume}
    → v.stage ≡ live
    → (parent v w).0 ≡ ok (some u)
    → HasParent w v.handle u.handle
parent_ok_at v w at = rw at (parent_ok v.handle w)

module _ (repo : Repository) (confined : IsConfined repo.driver) where
  destroy_volume-Pruned :
      (h : String) (w : World) → Pruned (Below w h) w (destroy_volume repo h w).1
  destroy_volume-Pruned h w =
      let others = (destroy_volume_visible repo confined h w).1 in
      record {
        shrunk = λ k. elim (Bool-cases (h == k)) [
          | inl same ↦
              subst
                (λ k.
                  (node live k (destroy_volume repo h w).1 ≡ none)
                  ⊎ (node live k (destroy_volume repo h w).1 ≡ node live k w))
                ((eq_iff h k).0 same) (destroy_volume-GoneOrSame repo confined h w)
          | inr other ↦ inr (others k (λ e. cc ((eq_iff h k).1 (sym e), other)))
        ];
        outside = λ k out. others k (λ e. out (subst (Below w h) (sym e) self));
      }

  module _ (destroy_it : String → Action Unit)
      (it-Pruned : (c : String) (w : World) → Pruned (Below w c) w (destroy_it c w).1) (h : String)
      (w : World) where
    pub if_child-Pruned :
        (v : BaseVolume) (w' : World)
        → Pruned (Below w h) w w'
        → v.stage ≡ live
        → (r : Result (Option BaseVolume)) → (parent v w').0 ≡ r
        → Pruned (Below w h) w (if_child destroy_it h v r (parent v w').1).1
    if_child-Pruned v w' p at (ok (some u)) e =
        let q = Prunes-Keeps (parent v) (parent-Keeps v) w' p in
        elim (Bool-cases (u.handle == h)) [
          | inl same ↦ rw same (
              Pruned-trans q (it-Pruned v.handle (parent v w').1) (λ k. Below-Pruned q (
                HasParent-Pruned v.handle h p (
                  subst (HasParent w' v.handle) ((eq_iff u.handle h).0 same)
                    (parent_ok_at v w' at e)))))
          | inr other ↦ rw other q
        ]
    if_child-Pruned v w' p at (ok none) e = Prunes-Keeps (parent v) (parent-Keeps v) w' p
    if_child-Pruned v w' p at (err x) e = Prunes-Keeps (parent v) (parent-Keeps v) w' p

    pub destroy_children-Prunes :
        (vs : List BaseVolume) → Live vs → Prunes (Below w h) w (destroy_children destroy_it h vs)
    unfolding destroy_children
    destroy_children-Prunes [] all_live w' p = p
    destroy_children-Prunes (v ∷ vs) (at, all_live) w' p =
        Prunes-continue _ (if_child destroy_it h v (parent v w').0 (parent v w').1).0 _
          (if_child-Pruned v w' p at (parent v w').0 refl)
          (λ a e.
            destroy_children-Prunes vs all_live _ (if_child-Pruned v w' p at (parent v w').0 refl))

    if_listed-Pruned :
        (vs : List BaseVolume) (b : Bool)
        → Live vs
        → Prunes (Below w h) w (if_listed repo destroy_it h vs b)
    if_listed-Pruned vs false all_live = λ w' p. p
    if_listed-Pruned vs true all_live =
        Prunes-bind (destroy_children destroy_it h vs) _ (destroy_children-Prunes vs all_live)
          (λ w' p a e.
            let q = destroy_children-Prunes vs all_live w' p in
            Pruned-trans q (destroy_volume-Pruned h _) (λ k. Below-mono q))

  pub descend-Pruned :
      (n : ℕ) (h : String) (w : World)
      → Pruned (Below w h) w (destroy_volume_and_descendants repo n h w).1
  unfolding destroy_volume_and_descendants
  descend-Pruned zero h w = Pruned-refl w
  descend-Pruned (suc n) h w =
      Prunes-bind Filesystem.list_volumes _
        (Prunes-Keeps Filesystem.list_volumes list_volumes-Keeps)
        (λ w' p vs e.
          if_listed-Pruned (destroy_volume_and_descendants repo n) (descend-Pruned n) h w vs
            (has_handle h vs) (list_volumes-Ensures.of w' vs e) (Filesystem.list_volumes w').1
            (Prunes-Keeps Filesystem.list_volumes list_volumes-Keeps w' p))
        w (Pruned-refl w)
