-- ===== src/Configuration/Worker/Monitor.antt =====
-- The protocol of `device_worker` with a device, as a machine over what it does there, and the runs of it.
use orbit_flow_evo.Base.{
  ◌≡◌, Bool, true, false, Option, none, some, List, [], ◌∷◌, any, if◌then◌else◌,
}
use orbit_flow_evo.Configuration.Worker.{
  Event, backup, command, recovery, save, Device, Save, is_command,
}
use orbit_flow_evo.Configuration.Worker.Run.{no_save, incomplete_save, saving, Report}

-- Nothing was done; the backup is written; a command was sent; the configuration was saved.
pub data Phase : Type 0 where
  idle ready changed saved : Phase

unfoldable pub step : Phase → Event → Option Phase
step idle backup = some ready
step ready (recovery _) = some ready
step ready (command _ _ _) = some changed
step changed (recovery _) = some changed
step changed (command _ _ _) = some changed
step changed save = some saved
step _ _ = none

unfoldable pub follow : Phase → List Event → Option Phase
unfolding step
follow p [] = some p
follow p (x ∷ log) = elim (step p x) [ none ↦ none | some q ↦ follow q log ]

abbrev is_write : Event → Bool
is_write (command _ _ _) = true
is_write (recovery _) = true
is_write _ = false

abbrev IsWrite : Event → Type 0
IsWrite x = is_write x ≡ true

-- The phase of a device with a backup, by whether a command was sent.
abbrev after : Bool → Phase
after b = if b then changed else ready

-- What holds of the worker between two stages.
abbrev InPhase : List Event → Type 0
InPhase log = follow idle log ≡ some (after (any is_command log))

-- What the phase in which a run ends says of the save that is reported.
unfoldable pub Agrees : Device → Phase → Save → Type 0
Agrees d idle s = s ≡ no_save
Agrees d ready s = s ≡ no_save
Agrees d changed s = s ≡ incomplete_save
Agrees d saved s = s ≡ (saving d.save_configuration).result

-- The run of a worker is a run of the protocol, and its end agrees with the save that is reported.
pub record Follows (d : Device) (r : Report) : Type 0 where
  pub last : Phase
  pub run : follow idle r.log ≡ some last
  pub agrees : Agrees d last r.save
