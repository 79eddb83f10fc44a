-- ===== src/Privilege/Lines.antt =====
-- What one line of an answer does in `ensure_privileged` of src/orbitflow/vendors/privilege.py.
use orbit_flow_evo.Base.{Bool, true, false, not, ◌&&◌, ◌||◌, List, [], all, if◌then◌else◌}
use orbit_flow_evo.Base.Equality.{list_eq, list_beq, nat_eq, ◌==◌}
use orbit_flow_evo.Base.Texts.{Text, codes, strip, is_nil, starts_with}
use orbit_flow_evo.Privilege.Prompts.{
  Terminal, EnableState, Host, exec_hostname, ends_in, is_challenge, without_echo, wait_password,
  wait_privileged, host,
}

-- What one line does: the exchange fails, the prompt is returned, or the loop goes on with a state, with text kept
-- for the next round, and with the secret sent or not.
pub data Verdict : Type 0 where
  reject : Verdict
  accept : Text → Verdict
  go : EnableState → Text → Bool → Verdict

unfoldable pub challenge : Terminal → EnableState → Verdict
challenge t wait_privileged = reject
challenge t wait_password = if t.secret_raises then reject else go wait_privileged [] true

-- A prompt of privileged EXEC: `kept` is what stays for the next round.
unfoldable pub privileged_prompt : EnableState → Text → Text → Bool → Verdict
privileged_prompt wait_password candidate kept final = reject
privileged_prompt wait_privileged candidate kept final =
    if final then accept candidate else go wait_privileged kept false

-- A prompt of the right host: `final` says that the line is nothing but the prompt and only blank lines follow.
unfoldable pub own_prompt : EnableState → Text → Text → Bool → Bool → Verdict
unfolding ends_in privileged_prompt
own_prompt state candidate line complete final =
    let kept = if complete then [] else line in
    if ends_in b'#' candidate
    then privileged_prompt state candidate kept final
    else go state kept false

unfoldable pub no_prompt : EnableState → Text → Text → Bool → Verdict
unfolding ends_in starts_with
no_prompt state candidate line complete =
    if not complete
    then go state line false
    else if ends_in b'>' candidate || ends_in b'#' candidate || starts_with candidate (codes "(")
    then reject
    else go state [] false

unfoldable pub read_host : EnableState → Text → Host → Text → Text → Bool → Bool → Verdict
unfolding own_prompt no_prompt list_beq
read_host state hostname (host h) candidate line complete final =
    if h == hostname then own_prompt state candidate line complete final else reject
read_host state hostname _ candidate line complete final = no_prompt state candidate line complete

unfoldable pub read_line : Terminal → Text → Text → EnableState → Text → List Text → Verdict
unfolding challenge read_host exec_hostname is_challenge without_echo strip list_beq
read_line t secret_text hostname state line rest =
    let last = strip line in
    let candidate = without_echo last in
    if is_nil last || last == secret_text
    then go state [] false
    else if is_challenge last
    then challenge t state
    else read_host state hostname (exec_hostname t candidate) candidate line (not (is_nil rest))
        (candidate == last && all (λ part. is_nil (strip part)) rest)
