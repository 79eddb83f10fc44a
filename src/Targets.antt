-- ===== src/Targets.antt =====
-- src/orbitflow/targets.py: the rows of the input sheet, and the credentials of the requested addresses. The
-- sheet is its rows of cells as `openpyxl` reads them, each the text of its value or empty.
pub mod Laws
use orbit_flow_evo.Base.{
  ℕ, zero, suc, ◌+◌, Bool, true, false, not, ◌&&◌, ◌||◌, Option, none, some, List, [], ◌∷◌, ◌++◌,
  map, keep, Result, ok, err, if◌then◌else◌,
}
use orbit_flow_evo.Base.Equality.{list_eq, nat_eq, list_beq, ◌==◌, from_keys}
use orbit_flow_evo.Base.Texts.{Text, codes, strip, casefold, is_nil}

abbrev pub Cells : Type 0
Cells = List (Option Text)

pub data SheetError : Type 0 where
  empty_input missing_columns no_device_rows : SheetError
  empty_field : ℕ → SheetError

-- `headers.get(name)`: of several columns of one name the last counts.
unfoldable pub column_from : ℕ → Cells → Text → Option ℕ
unfolding strip casefold list_beq
column_from i [] name = none
column_from i (cell ∷ cells) name =
    let later = column_from (i + 1) cells name in
    elim later [
      | some j ↦ some j
      | none ↦ elim cell [
        | none ↦ none
        | some s ↦ if casefold (strip s) == name then some i else none
      ]
    ]

-- The text of a cell, empty where the row is short or the cell is.
unfoldable pub cell_at : Cells → ℕ → Text
cell_at [] i = []
cell_at (none ∷ cells) zero = []
cell_at (some s ∷ cells) zero = s
cell_at (_ ∷ cells) (suc i) = cell_at cells i

-- The columns of the sheet; that of the secret may be absent.
pub record Columns : Type 0 where
  pub management_ip : ℕ
  pub username : ℕ
  pub password : ℕ
  pub secret : Option ℕ

pub record Target : Type 0 where
  pub management_ip : Text
  pub username : Text
  pub password : Text
  pub secret : Option Text

unfoldable pub find_columns : Cells → Option Columns
unfolding column_from
find_columns header = elim (column_from zero header (codes "management_ip")) [
  | none ↦ none
  | some i ↦ elim (column_from zero header (codes "username")) [
    | none ↦ none
    | some u ↦ elim (column_from zero header (codes "password")) [
      | none ↦ none
      | some p ↦ some (record {
        management_ip = i;
        username = u;
        password = p;
        secret = column_from zero header (codes "secret");
      })
    ]
  ]
]

abbrev pub at_column : Cells → Option ℕ → Option Text
at_column row none = none
at_column row (some i) = some (cell_at row i)

unfoldable pub read_target : Columns → Cells → Target
unfolding cell_at strip
read_target c row = record {
  management_ip = strip (cell_at row c.management_ip);
  username = strip (cell_at row c.username);
  password = strip (cell_at row c.password);
  secret = at_column row c.secret;
}

-- `row.get("secret") or None`
abbrev pub given_secret : Option Text → Option Text
given_secret none = none
given_secret (some s) = if is_nil s then none else some s

abbrev pub is_absent : Option Text → Bool
is_absent none = true
is_absent (some _) = false

abbrev pub is_complete : Target → Bool
is_complete t = not (is_nil t.management_ip) && not (is_nil t.username) && not (is_nil t.password)

abbrev pub is_blank : Target → Bool
is_blank t =
    is_nil t.management_ip
    && is_nil t.username
    && is_nil t.password
    && is_absent (given_secret t.secret)

-- The loop over the rows, of which the first has the number `number`.
unfoldable pub read_rows : Bool → Columns → ℕ → List Cells → Result SheetError (List Target)
unfolding read_target
read_rows isolate_invalid c number [] = ok []
read_rows isolate_invalid c number (row ∷ rows) =
    let t = read_target c row in
    let rest = read_rows isolate_invalid c (number + 1) rows in
    if is_blank t
    then rest
    else if not (is_complete t) && not isolate_invalid
    then err (empty_field number)
    else elim rest [ ok ts ↦ ok (t ∷ ts) | err e ↦ err e ]

abbrev pub nonempty : List Target → Result SheetError (List Target)
nonempty [] = err no_device_rows
nonempty (t ∷ ts) = ok (t ∷ ts)

unfoldable pub load_targets : Bool → List Cells → Result SheetError (List Target)
unfolding find_columns read_rows
load_targets isolate_invalid [] = err empty_input
load_targets isolate_invalid (header ∷ rows) = elim (find_columns header) [
  | none ↦ err missing_columns
  | some c ↦ elim (read_rows isolate_invalid c 2 rows) [ ok ts ↦ nonempty ts | err e ↦ err e ]
]

pub record DeviceCredentials : Type 0 where
  pub username : Text
  pub password : Text
  pub secret : Option Text

-- What the provider does for an address: it raises, it has nothing, or it supplies credentials.
pub data Supplied : Type 0 where
  raises nothing : Supplied
  supplies : DeviceCredentials → Supplied

abbrev pub Resolved : Type 0
Resolved = List (Text × DeviceCredentials)

-- The loop over the addresses: what the provider supplied, and what is pending.
unfoldable pub ask_provider : (Text → Supplied) → List Text → Resolved × List Text
ask_provider provider [] = ([], [])
ask_provider provider (ip ∷ ips) =
    let (resolved, pending) = ask_provider provider ips in
    elim (provider ip) [
      | raises ↦ (resolved, pending)
      | nothing ↦ (resolved, ip ∷ pending)
      | supplies c ↦ ((ip, c) ∷ resolved, pending)
    ]

-- The credentials of the one complete row of an address.
unfoldable pub row_credentials : List Target → Option DeviceCredentials
row_credentials (t ∷ []) =
    if is_complete t
    then some
        (record { username = t.username; password = t.password; secret = given_secret t.secret })
    else none
row_credentials _ = none

unfoldable pub from_sheet : List Target → Text → Option DeviceCredentials
unfolding row_credentials list_beq
from_sheet rows ip = row_credentials (keep (λ t. t.management_ip == ip) rows)

unfoldable pub resolve_pending : List Target → List Text → Resolved
unfolding from_sheet
resolve_pending rows [] = []
resolve_pending rows (ip ∷ pending) =
    let rest = resolve_pending rows pending in
    elim (from_sheet rows ip) [ none ↦ rest | some c ↦ (ip, c) ∷ rest ]

unfoldable pub load_device_credentials : List Cells → List Text → (Text → Supplied) → Resolved
unfolding ask_provider load_targets resolve_pending from_keys
load_device_credentials sheet management_ips provider =
    let (resolved, pending) = ask_provider provider (from_keys management_ips) in
    if is_nil pending then resolved else elim (load_targets true sheet) [
      | err e ↦ resolved
      | ok rows ↦ resolved ++ resolve_pending rows pending
    ]
