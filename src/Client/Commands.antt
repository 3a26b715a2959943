-- ===== src/Client/Commands.antt =====
-- The calls on volumes through a client, and the operations of the repository that they come to.
use baggageclaim.Prelude.{◌≡◌, ◌==◌, String, Bool, if◌then◌else◌, Option, none, some, List, [], ◌∷◌}
use baggageclaim.Prelude.Table.{IsMap}
use baggageclaim.Disk.World.{Bytes, World}
use baggageclaim.Disk.Action.{Result, ok, err}
use baggageclaim.Volume.Properties.{Properties}
use baggageclaim.Volume.Repository
use baggageclaim.Volume.Repository.{Volume, Repository}
use baggageclaim.Api.{destroy_each}
use baggageclaim.Client.Wire.{Reply, message, gave_up, Client}
use baggageclaim.Client.Defs
use baggageclaim.Client.Defs.{
  ClientVolume, new_volume, map_reply, map_option, if_found, if_sent, of_deletion,
  get_volume_response, exchange, exchange_unchecked,
}
use baggageclaim.Client.Serve.{Server, is_missing}
use baggageclaim.Client.Replies.{
  seen, told, looked_up, listed, deleted, streamed_in, streamed_out, properties_of, p2p_streamed,
}

-- a call of a method of `Client`, or of a volume that it returned
pub data Command : Type 0 where
  list : Option Properties → Command
  look_up : String → Command
  delete : String → Command
  delete_all : List String → Command
  read_properties : String → Command
  write_property : (handle name value : String) → Command
  read_flag : String → Command
  write_flag : String → Bool → Command
  destroy : String → Command
  write_stream : (handle path encoding : String) → Bytes → Command
  read_stream : (handle encoding path : String) → Command
  send_stream : (handle encoding path url : String) → Command

pub data Outcome : Type 0 where
  volumes : Reply (List ClientVolume) → Outcome
  volume : Reply (Option ClientVolume) → Outcome
  properties : Reply Properties → Outcome
  flag : Reply Bool → Outcome
  change : Reply Unit → Outcome
  stream : Reply Bytes → Outcome

-- the outcome of a step, in the state after it
abbrev pub with_outcome : {A S B : Type 0} → (A → B) → A × S → B × S
with_outcome f (a, s) = (f a, s)

unfoldable pub remote : {S : Type 0} → Client S → Command → S → Outcome × S
remote client (list p) s = with_outcome volumes (Defs.list_volumes client p s)
remote client (look_up h) s = with_outcome volume (Defs.lookup_volume client h s)
remote client (delete h) s = with_outcome change (Defs.destroy_volume client h s)
remote client (delete_all hs) s = with_outcome change (Defs.destroy_volumes client hs s)
remote client (read_properties h) s = with_outcome properties (Defs.get_properties client h s)
remote client (write_property h name value) s =
    with_outcome change (Defs.set_property client h name value s)
remote client (read_flag h) s = with_outcome flag (Defs.get_privileged client h s)
remote client (write_flag h b) s = with_outcome change (Defs.set_privileged client h b s)
remote client (destroy h) s = with_outcome change (Defs.destroy client h s)
remote client (write_stream h path encoding bs) s =
    with_outcome change (Defs.stream_in client h path encoding bs s)
remote client (read_stream h encoding path) s =
    with_outcome stream (Defs.stream_out client h encoding path s)
remote client (send_stream h encoding path url) s =
    with_outcome change (Defs.stream_p2p_out client h encoding path url s)

abbrev pub is_error : {A : Type 0} → Result A → Bool
is_error (ok a) = Bool.false
is_error (err e) = Bool.true

abbrev pub no_failure : Result Bool → Bool
no_failure (ok b) = b
no_failure (err e) = Bool.true

abbrev pub or_none : Option Properties → Properties
or_none none = []
or_none (some p) = p

-- What a command does to the disk, and what it is told of it, with no client between.
module _ (server : Server) where
  abbrev pub repo : Repository
  repo = server.repo

  unfoldable pub direct : Command → World → Outcome × World
  direct (list p) w =
      with_outcome (λ r. volumes (listed r)) (Repository.list_volumes repo (or_none p) w)
  direct (look_up h) w =
      with_outcome (λ r. volume (looked_up seen r)) (Repository.get_volume repo h w)
  direct (delete h) w =
      with_outcome (λ r. change (deleted (is_error r))) (Repository.destroy_volume repo h w)
  direct (delete_all hs) w =
      with_outcome (λ r. change (deleted (no_failure r))) (destroy_each repo hs w)
  direct (read_properties h) w =
      with_outcome (λ r. properties (properties_of r)) (Repository.get_volume repo h w)
  direct (write_property h name value) w =
      with_outcome (λ r. change (told "failed to set property on volume" r))
        (Repository.set_property repo h name value w)
  direct (read_flag h) w =
      with_outcome (λ r. flag (told "failed to get privileged status of volume" r))
        (Repository.get_privileged repo h w)
  direct (write_flag h b) w =
      with_outcome (λ r. change (told "failed to change privileged status of volume" r))
        (Repository.set_privileged repo h b w)
  direct (destroy h) w =
      with_outcome (λ r. change (told "failed to destroy volume" r))
        (Repository.destroy_volume repo h w)
  direct (write_stream h path encoding bs) w =
      with_outcome (λ r. change (streamed_in r)) (Repository.stream_in repo h path encoding bs w)
  direct (read_stream h encoding path) w =
      with_outcome (λ r. stream (streamed_out server.wire r))
        (Repository.stream_out repo h path encoding w)
  direct (send_stream h encoding path url) w =
      if is_missing path url encoding
      then (change (gave_up (message "failed to stream p2p out from volume")), w)
      else with_outcome (λ r. change (p2p_streamed r))
          (Repository.stream_p2p_out repo h path encoding server.peer w)

-- the commands one after the other
unfoldable pub run_all : {C O S : Type 0} → (C → S → O × S) → List C → S → List O × S
run_all step [] s = ([], s)
run_all step (c ∷ cs) s =
    let (o, s') = step c s in let (os, s'') = run_all step cs s' in (o ∷ os, s'')

-- The properties to look for are a map, and the one volume to destroy is not `destroy`.
abbrev pub IsCommand : Command → Type 0
IsCommand (list (some p)) = IsMap p
IsCommand (delete h) = (h == "destroy") ≡ Bool.false
IsCommand (destroy h) = (h == "destroy") ≡ Bool.false
IsCommand _ = Unit
