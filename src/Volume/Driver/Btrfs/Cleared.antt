-- ===== src/Volume/Driver/Btrfs/Cleared.antt =====
-- `DestroyVolume` of `BtrFSDriver` where the program btrfs does what its manual says.
use baggageclaim.Prelude.{
  ◌≡◌, refl, ◌∙◌, true, false, List, [], ◌∷◌, ◌++◌, append_assoc, append-nil,
}
use baggageclaim.Volume.Driver.Btrfs.Defs.{Trail, Btrfs, delete_backwards, destroy_volume}
use baggageclaim.Volume.Driver.Btrfs.Subvolumes.{subvolumes, IsReadable, walk_tree-subvolumes}
use baggageclaim.Volume.Driver.Btrfs.Order.{
  below, NotBelow, NothingBelow, TopDown, IsNamed, subvolumes-TopDown,
}

-- `btrfs subvolume delete` deletes a subvolume that has no other below it, and no other subvolume.
pub record IsBtrfs {S V : Type 0} (btrfs : Btrfs S V) : Type 0 where
  pub delete :
      (vol : V) (s : S) (above after : List Trail) (p : Trail)
      → subvolumes (btrfs.tree vol s) ≡ above ++ (p ∷ after)
      → NothingBelow p (above ++ after)
      → ((btrfs.delete vol p s).0 ≡ true)
        × (subvolumes (btrfs.tree vol (btrfs.delete vol p s).1) ≡ above ++ after)

NotBelow-split :
    (x p : Trail) (above after : List Trail) → NotBelow x (above ++ (p ∷ after)) → below p x ≡ false
NotBelow-split x p [] after n = n.0
NotBelow-split x p (y ∷ above) after n = NotBelow-split x p above after n.1

-- Nothing that was found before a path is below it.
TopDown-NothingBelow :
    (p : Trail) (above after : List Trail) → TopDown (above ++ (p ∷ after)) → NothingBelow p above
TopDown-NothingBelow p [] after t = tt
TopDown-NothingBelow p (x ∷ above) after (first, t) =
    (NotBelow-split x p above after first, TopDown-NothingBelow p above after t)

module _ {S V : Type 0} (btrfs : Btrfs S V) (law : IsBtrfs btrfs) (vol : V) where
  delete_backwards_clears :
      (ps above : List Trail) (s : S)
      → subvolumes (btrfs.tree vol s) ≡ above ++ ps
      → TopDown (above ++ ps)
      → ((delete_backwards btrfs vol ps s).0 ≡ true)
        × (subvolumes (btrfs.tree vol (delete_backwards btrfs vol ps s).1) ≡ above)
  unfolding delete_backwards
  delete_backwards_clears [] above s e t = (refl, e ∙ append-nil above)
  delete_backwards_clears (p ∷ ps) above s e t =
      let there = append_assoc above (p ∷ []) ps in
      let (done, left) =
        delete_backwards_clears ps (above ++ (p ∷ [])) s (rw there e) (rw there t) in
      let free = TopDown-NothingBelow p above ps t in
      let (deleted, rest) =
        law.delete vol (delete_backwards btrfs vol ps s).1 above [] p left
          (rw (append-nil above) free) in
      rw done (deleted, rest ∙ append-nil above)

  -- Destroying a volume of the btrfs driver succeeds and leaves no subvolume of it, however deep they
  -- stand in one another, where every entry of its data directory can be looked at and the names in
  -- a directory differ. The program btrfs is taken to delete a subvolume that has no other one below
  -- it, and to delete no other with it.
  pub destroy_volume_clears :
      (s : S)
      → IsReadable (btrfs.tree vol s)
      → IsNamed (btrfs.tree vol s)
      → ((destroy_volume btrfs vol s).0 ≡ true)
        × (subvolumes (btrfs.tree vol (destroy_volume btrfs vol s).1) ≡ [])
  unfolding destroy_volume
  destroy_volume_clears s readable named =
      let t = btrfs.tree vol s in
      rw (walk_tree-subvolumes t readable)
        (delete_backwards_clears (subvolumes t) [] s refl (subvolumes-TopDown t named))
