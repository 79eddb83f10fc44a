-- ===== src/Tests/Privilege.antt =====
-- Tests of the model of src/orbitflow/vendors/privilege.py.
use orbit_flow_evo.Base.{◌≡◌, refl, ◌≤◌, false, none, some, List, [], ◌∷◌}
use orbit_flow_evo.Base.Equality.{list_eq, nat_eq, list_beq}
use orbit_flow_evo.Base.Texts.{codes}
use orbit_flow_evo.Privilege.Prompts.{
  Receive, chunk, Terminal, enable, secret, returns, exec_hostname, ends_in,
}
use orbit_flow_evo.Privilege.Rounds.{ensure_privileged}
use orbit_flow_evo.Privilege.Verdicts.{IsPrivileged}
use orbit_flow_evo.Privilege.Laws.{
  secrets, ensure_privileged-IsPrivileged, secrets-ensure_privileged,
}

abbrev terminal : Terminal
terminal = record {
  normalize = λ text. text;
  edge_hostname = λ prompt. none;
  enable_raises = false;
  secret_raises = false;
}

abbrev answers : List Receive
answers = chunk 7 (codes "enable\n") ∷ chunk 10 (codes "Password: ") ∷ chunk 4 (codes "\nsw1#") ∷ []

raised_to_exec :
    (ensure_privileged terminal (codes "sw1>") (some (codes "pw")) answers).outcome
    ≡ returns (codes "sw1#")
unfolding ensure_privileged list_beq
raised_to_exec = refl

other_host :
    (ensure_privileged terminal
      (codes "sw1>")
      (some (codes "pw"))
      (chunk 4 (codes "sw2#") ∷ [])).sent
    ≡ enable ∷ []
unfolding ensure_privileged list_beq
other_host = refl

ensure_privileged-IsPrivileged_example :
    ((ensure_privileged terminal (codes "sw1>") (some (codes "pw")) answers).sent
      ≡ enable ∷ secret ∷ [])
    × IsPrivileged terminal (codes "sw1") (codes "sw1#")
unfolding exec_hostname ends_in
ensure_privileged-IsPrivileged_example =
    ensure_privileged-IsPrivileged terminal (codes "sw1>") (codes "sw1") (some (codes "pw")) answers
      (codes "sw1#") refl refl raised_to_exec

secrets-ensure_privileged_example :
    secrets (ensure_privileged terminal (codes "sw1>") (some (codes "pw")) answers).sent ≤ 1
secrets-ensure_privileged_example =
    secrets-ensure_privileged terminal (codes "sw1>") (some (codes "pw")) answers
