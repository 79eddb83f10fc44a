-- ===== src/Targets/Laws.antt =====
-- src/orbitflow/targets.py: whose credentials an address gets.
use mathlib.Core.Path.{ap, ap₂, sym, ◌∙◌}
use orbit_flow_evo.Base.{
  ℕ, ◌≡◌, refl, Bool, true, false, ◌&&◌, Option, none, some, List, [], ◌∷◌, ◌++◌, Result, ok, err,
  arith, all, not, ◌||◌, keep, if◌then◌else◌, Bool-cases, Option-cases, inl, inr, ◌⊎◌, ◌+◌,
}
use orbit_flow_evo.Base.Equality.{list_eq, nat_eq, list_beq_iff, ◌==◌, contains, from_keys}
use orbit_flow_evo.Base.Keys.{contains-from_keys}
use orbit_flow_evo.Base.Texts.{Text, is_nil}
use orbit_flow_evo.Targets.{
  Cells, Target, SheetError, load_targets, DeviceCredentials, Supplied, raises, nothing, supplies,
  Resolved, ask_provider, from_sheet, resolve_pending, load_device_credentials, is_complete,
  read_rows, Columns, find_columns, row_credentials, given_secret,
}

-- `resolved.get(ip)`
abbrev pub lookup : Text → Resolved → Option DeviceCredentials
lookup ip [] = none
lookup ip ((k, c) ∷ resolved) = if k == ip then some c else lookup ip resolved

abbrev pub or_else : Option DeviceCredentials → Option DeviceCredentials → Option DeviceCredentials
or_else none o = o
or_else (some c) o = some c

lookup-append :
    (ip : Text) (xs ys : Resolved) → lookup ip (xs ++ ys) ≡ or_else (lookup ip xs) (lookup ip ys)
lookup-append ip [] ys = refl
lookup-append ip ((k, c) ∷ xs) ys = ground (arith, lookup-append ip xs ys)

abbrev pub given : Supplied → Option DeviceCredentials
given (supplies c) = some c
given _ = none

abbrev pub is_nothing : Supplied → Bool
is_nothing nothing = true
is_nothing _ = false

lookup-ask_provider :
    (provider : Text → Supplied) (ips : List Text) (ip : Text)
    → lookup ip (ask_provider provider ips).0
      ≡ (if contains ips ip then given (provider ip) else none)
unfolding ask_provider
lookup-ask_provider provider [] ip = refl
lookup-ask_provider provider (k ∷ ips) ip = elim (Bool-cases (k == ip)) [
  | inl same ↦
      let e : provider k ≡ provider ip = ap provider ((list_beq_iff {A = ℕ} k ip).0 same) in
      ground (arith, same, e, lookup-ask_provider provider ips ip)
  | inr other ↦ ground (arith, other, lookup-ask_provider provider ips ip)
]

contains-pending :
    (provider : Text → Supplied) (ips : List Text) (ip : Text)
    → contains (ask_provider provider ips).1 ip ≡ (contains ips ip && is_nothing (provider ip))
unfolding ask_provider
contains-pending provider [] ip = refl
contains-pending provider (k ∷ ips) ip = elim (Bool-cases (k == ip)) [
  | inl same ↦
      let e : provider k ≡ provider ip = ap provider ((list_beq_iff {A = ℕ} k ip).0 same) in
      ground (arith, same, e, contains-pending provider ips ip)
  | inr other ↦ ground (arith, other, contains-pending provider ips ip)
]

lookup-resolve_pending :
    (rows : List Target) (pending : List Text) (ip : Text)
    → lookup ip (resolve_pending rows pending)
      ≡ (if contains pending ip then from_sheet rows ip else none)
unfolding resolve_pending
lookup-resolve_pending rows [] ip = refl
lookup-resolve_pending rows (k ∷ pending) ip = elim (Bool-cases (k == ip)) [
  | inl same ↦
      let e : from_sheet rows k ≡ from_sheet rows ip =
        ap (from_sheet rows) ((list_beq_iff {A = ℕ} k ip).0 same) in
      ground (arith, same, e, lookup-resolve_pending rows pending ip)
  | inr other ↦ ground (arith, other, lookup-resolve_pending rows pending ip)
]

abbrev no_rows : List Target → Bool
no_rows [] = true
no_rows (_ ∷ _) = false

-- Whether a row of the sheet is for an address.
abbrev pub mentioned : Text → List Target → Bool
mentioned ip [] = false
mentioned ip (t ∷ rows) = t.management_ip == ip || mentioned ip rows

-- The row for an address that no later row is for.
abbrev pub only_row : Text → List Target → Option Target
only_row ip [] = none
only_row ip (t ∷ rows) =
    if t.management_ip == ip then (if mentioned ip rows then none else some t) else only_row ip rows

-- The credentials in a row; none if its address, username or password is empty.
abbrev pub row_has : Option Target → Option DeviceCredentials
row_has none = none
row_has (some t) =
    if is_nil t.management_ip || is_nil t.username || is_nil t.password
    then none
    else some
        (record { username = t.username; password = t.password; secret = given_secret t.secret })

mentioned-keep :
    (ip : Text) (rows : List Target)
    → mentioned ip rows ≡ not (no_rows (keep (λ t. t.management_ip == ip) rows))
mentioned-keep ip [] = refl
mentioned-keep ip (t ∷ rows) = ground (arith, mentioned-keep ip rows)

row_credentials-single : (t : Target) → row_credentials (t ∷ []) ≡ row_has (some t)
unfolding row_credentials
row_credentials-single t = ground arith

row_credentials-first :
    (t : Target) (rows : List Target)
    → row_credentials (t ∷ rows) ≡ row_has (if not (no_rows rows) then none else some t)
row_credentials-first t [] = row_credentials-single t
row_credentials-first t (u ∷ rows) = unfold row_credentials in refl

from_sheet-only_row :
    (rows : List Target) (ip : Text) → from_sheet rows ip ≡ row_has (only_row ip rows)
unfolding from_sheet row_credentials
from_sheet-only_row [] ip = refl
from_sheet-only_row (t ∷ rows) ip = elim (Bool-cases (t.management_ip == ip)) [
  | inl same ↦
      rw (same, mentioned-keep ip rows)
        (row_credentials-first t (keep (λ t. t.management_ip == ip) rows))
  | inr other ↦ rw other (from_sheet-only_row rows ip)
]

-- What an address gets: what the provider supplied, nothing if it raised, and otherwise what the sheet has.
abbrev pub entitled : Supplied → Result SheetError (List Target) → Text → Option DeviceCredentials
entitled raises sheet ip = none
entitled (supplies c) sheet ip = some c
entitled nothing (ok rows) ip = row_has (only_row ip rows)
entitled nothing (err _) ip = none

or_else-none : (o : Option DeviceCredentials) → or_else o none ≡ o
or_else-none none = refl
or_else-none (some c) = refl

-- The sheet's part of the result.
abbrev from_result : Result SheetError (List Target) → Bool → Text → Option DeviceCredentials
from_result (ok rows) asked ip = if asked then from_sheet rows ip else none
from_result (err _) asked ip = none

from_result-none : (r : Result SheetError (List Target)) (ip : Text) → from_result r false ip ≡ none
from_result-none (ok rows) ip = refl
from_result-none (err _) ip = refl

lookup-parts :
    (resolved : Resolved) (pending : List Text) (r : Result SheetError (List Target)) (ip : Text)
    → lookup ip (
        if is_nil pending
        then resolved
        else elim r [ err e ↦ resolved | ok rows ↦ resolved ++ resolve_pending rows pending ])
      ≡ or_else (lookup ip resolved) (from_result r (contains pending ip) ip)
lookup-parts resolved [] r ip =
    sym (
      ap (or_else (lookup ip resolved)) (from_result-none r ip) ∙ or_else-none (lookup ip resolved))
lookup-parts resolved (k ∷ pending) (err e) ip = sym (or_else-none (lookup ip resolved))
lookup-parts resolved (k ∷ pending) (ok rows) ip =
    lookup-append ip resolved (resolve_pending rows (k ∷ pending))
    ∙ ap (or_else (lookup ip resolved)) (lookup-resolve_pending rows (k ∷ pending) ip)

entitled-parts :
    (requested : Bool) (s : Supplied) (r : Result SheetError (List Target)) (ip : Text)
    → or_else (if requested then given s else none) (from_result r (requested && is_nothing s) ip)
      ≡ (if requested then entitled s r ip else none)
entitled-parts true raises r ip = from_result-none r ip
entitled-parts true nothing (ok rows) ip = from_sheet-only_row rows ip
entitled-parts true nothing (err e) ip = refl
entitled-parts true (supplies c) r ip = refl
entitled-parts false s r ip = from_result-none r ip

-- An address has credentials only if it was requested: those that the provider supplied; none if the
-- provider raised; and where the provider had nothing and the sheet could be read, those of the sheet's row for it,
-- if there is exactly one and its address, username and password are not empty.
pub load_device_credentials-lookup :
    (sheet : List Cells) (management_ips : List Text) (provider : Text → Supplied) (ip : Text)
    → lookup ip (load_device_credentials sheet management_ips provider) ≡ (
        if contains management_ips ip
        then entitled (provider ip) (load_targets true sheet) ip
        else none)
unfolding load_device_credentials
load_device_credentials-lookup sheet management_ips provider ip =
    let ips = from_keys management_ips in
    let asked = ask_provider provider ips in
    lookup-parts asked.0 asked.1 (load_targets true sheet) ip
    ∙ ap₂ (λ o b. or_else o (from_result (load_targets true sheet) b ip))
        (lookup-ask_provider provider ips ip) (contains-pending provider ips ip)
    ∙ entitled-parts (contains ips ip) (provider ip) (load_targets true sheet) ip
    ∙ ap (λ b. if b then entitled (provider ip) (load_targets true sheet) ip else none)
        (contains-from_keys management_ips ip)

Result-cases :
    (r : Result SheetError (List Target))
    → ((ts : List Target) × (r ≡ ok ts)) ⊎ ((e : SheetError) × (r ≡ err e))
Result-cases (ok ts) = inl (ts, refl)
Result-cases (err e) = inr (e, refl)

read_rows-is_complete :
    (c : Columns) (number : ℕ) (rows : List Cells) (ts : List Target)
    → read_rows false c number rows ≡ ok ts
    → all is_complete ts ≡ true
unfolding read_rows
read_rows-is_complete c number [] ts h = ground (arith, h)
read_rows-is_complete c number (row ∷ rows) ts h =
    elim (Result-cases (read_rows false c (number + 1) rows)) [
      | inl (rest, e) ↦ ground (arith, h, e, read_rows-is_complete c (number + 1) rows rest e)
      | inr (e', e) ↦ ground (arith, h, e, read_rows-is_complete c (number + 1) rows ts)
    ]

-- Where rows are not isolated, every row that is loaded is complete.
pub load_targets-is_complete :
    (sheet : List Cells) (ts : List Target)
    → load_targets false sheet ≡ ok ts
    → all is_complete ts ≡ true
unfolding load_targets
load_targets-is_complete [] ts h = ground (arith, h)
load_targets-is_complete (header ∷ rows) ts h = elim (Option-cases (find_columns header)) [
  | inl none_found ↦ ground (arith, h, none_found)
  | inr (c, found) ↦ elim (Result-cases (read_rows false c 2 rows)) [
    | inl (rest, e) ↦ ground (arith, h, found, e, read_rows-is_complete c 2 rows rest e)
    | inr (e', e) ↦ ground (arith, h, found, e)
  ]
]
