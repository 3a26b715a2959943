-- ===== src/Volume/Repository/Streams.antt =====
-- What streaming into and out of a volume changes on the disk.
use baggageclaim.Prelude.{String, ◌≡◌, Bool, Option, none, some, Bool-cases, inl, inr}
use baggageclaim.Disk.World.{Bytes, BaseVolume, Stage, World, node}
use baggageclaim.Disk.Action.{Error, Result, ok, err, Action}
use baggageclaim.Disk.Frame.{Places, Keeps, frame_rules}
use baggageclaim.Volume.Filesystem.Frame.{load_privileged-Keeps}
use baggageclaim.Volume.Strategy.Host.{Encoding, TarExit, exit_ok, exit_error, not_started, Host}
use baggageclaim.Volume.Strategy.Frame.{open_path-Keeps, new_reader-Keeps}
use baggageclaim.Volume.Repository.Defs.{Repository}
use baggageclaim.Volume.Repository.Frame.{find-Keeps}
use baggageclaim.Volume.Repository.Streaming.{
  or_nothing, at_place, closed, pack_below, pack_elsewhere, pack, stream_from, stream_out_as,
  stream_out, send_packed, stream_p2p_out,
}

module _ {P : Places} (host : Host) where
  closed-Keeps : (e : Encoding) (p : TarExit × Bytes) → Keeps P (closed host e p)
  closed-Keeps e (exit_ok, bs) = search (frame_rules, new_reader-Keeps) depth 9
  closed-Keeps e (exit_error, bs) = search frame_rules
  closed-Keeps e (not_started, bs) = search frame_rules

  or_nothing-Keeps : (r : Result (Bytes × Option Error)) → Keeps P (or_nothing r)
  or_nothing-Keeps (ok p) = search frame_rules
  or_nothing-Keeps (err e) = search frame_rules

  at_place-Keeps :
      {A : Type 0} (v : BaseVolume) (path : String) (inside outside : Action A)
      → Keeps P inside
      → Keeps P outside
      → Keeps P (at_place host v path inside outside)
  at_place-Keeps v path inside outside kept_inside kept_outside = record {
    at = λ w. elim (Bool-cases (host.stays v path w)) [
      | inl stays ↦ rw stays (kept_inside.at w)
      | inr leaves ↦ rw leaves (kept_outside.at w)
    ];
  }

  pack_below-Keeps :
      (e : Encoding) (v : BaseVolume) (path : String) (b : Bool)
      → Keeps P (pack_below host e v path b)
  pack_below-Keeps e v path b =
      search (frame_rules, open_path-Keeps, new_reader-Keeps, closed-Keeps) depth 12

  pack_elsewhere-Keeps :
      (e : Encoding) (v : BaseVolume) (path : String) (b : Bool)
      → Keeps P (pack_elsewhere host e v path b)
  pack_elsewhere-Keeps e v path b = search (frame_rules, new_reader-Keeps, closed-Keeps) depth 12

  pack-Keeps :
      (e : Encoding) (v : BaseVolume) (path : String) (b : Bool) → Keeps P (pack host e v path b)
  unfolding pack
  pack-Keeps e v path b =
      search (frame_rules, at_place-Keeps, pack_below-Keeps, pack_elsewhere-Keeps) depth 9

  stream_from-Keeps :
      (e : Encoding) (v : BaseVolume) (path : String) (b : Bool)
      → Keeps P (stream_from host e v path b)
  unfolding stream_from
  stream_from-Keeps e v path b = search (frame_rules, pack-Keeps, or_nothing-Keeps) depth 12

module _ {P : Places} (repo : Repository) where
  stream_out_as-Keeps :
      (v : BaseVolume) (path : String) (b : Bool) (o : Option Encoding)
      → Keeps P (stream_out_as repo v path b o)
  stream_out_as-Keeps v path b none = search frame_rules
  stream_out_as-Keeps v path b (some e) = stream_from-Keeps repo.host e v path b

  stream_out-Keeps : (h path encoding : String) → Keeps P (stream_out repo h path encoding)
  unfolding stream_out
  stream_out-Keeps h path encoding =
      search (frame_rules, find-Keeps, load_privileged-Keeps, stream_out_as-Keeps) depth 12

  send_packed-Keeps :
      (answer : Bytes → Bool) (p : Bytes × Option Error) → Keeps P (send_packed repo answer p)
  send_packed-Keeps answer (bs, some e) = search frame_rules
  send_packed-Keeps answer (bs, none) = elim (Bool-cases (answer bs)) [
    | inl sent ↦ rw sent (search frame_rules depth 9)
    | inr refused ↦ rw refused (search frame_rules depth 9)
  ]

  stream_p2p_out-Keeps :
      (h path encoding : String) (answer : Bytes → Bool)
      → Keeps P (stream_p2p_out repo h path encoding answer)
  unfolding stream_p2p_out
  stream_p2p_out-Keeps h path encoding answer =
      search (frame_rules, stream_out-Keeps, send_packed-Keeps) depth 9

module _ (repo : Repository) (h path encoding : String) where
  -- Streaming out of a volume, to a writer or to a peer, changes no entry of the disk, however it ends.
  pub stream_out_reads :
      (answer : Bytes → Bool) (w : World) (s : Stage) (k : String)
      → (node s k (stream_out repo h path encoding w).1 ≡ node s k w)
        × (node s k (stream_p2p_out repo h path encoding answer w).1 ≡ node s k w)
  stream_out_reads answer w s k = (
    ((stream_out-Keeps {P = λ s k. Unit} repo h path encoding).at w).nodes s k tt,
    ((stream_p2p_out-Keeps {P = λ s k. Unit} repo h path encoding answer).at w).nodes s k tt,
  )
