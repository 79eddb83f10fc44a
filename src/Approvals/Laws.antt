-- ===== src/Approvals/Laws.antt =====
-- src/orbitflow/configuration/approvals.py: the store against the list of the decisions that it has returned.
use mathlib.Core.Path.{subst}
use orbit_flow_evo.Base.{
  ℕ, ◌≡◌, refl, sym, ◌∙◌, ap, true, Option, none, some, List, [], ◌∷◌, ◌++◌, Result, ok, err, ◌>>=◌,
  ◌>>◌, guard, arith, map, length, nat_beq, ok_bind, ok_injective, ok_second, ok_first, inl, inr,
  Bool-cases,
}
use orbit_flow_evo.Base.Equality.{list_eq, nat_eq, ◌==◌}
use orbit_flow_evo.Base.Texts.{Text}
use orbit_flow_evo.Approvals.{
  PlanError, Platform, Decision, to_json, Row, Authority, read_key, read_records,
}
use orbit_flow_evo.Approvals.Store.{
  initialize, check_clock, Deciding, decision, signed_row, prepare_row, insert, transact,
  decide_checked, decide, last_match, verify,
}
use orbit_flow_evo.Approvals.Chain.{
  IsFaithful, rows_of, last_signature, IsChained, IsChained-snoc, read_rows-rows_of, rows_of-snoc,
  check_clock-last,
}
use orbit_flow_evo.Approvals.Verdicts.{latest, judge, map_json, digest-to_json, check_record-judge}

-- The store holds the decisions `ds`, signed with the key and chained.
pub record IsHistory (p : Platform) (key : Text) (a : Authority) (ds : List Decision) : Type 0 where
  pub keyed : a.key ≡ some key
  pub sized : nat_beq (length key) 32 ≡ true
  pub decisions : a.decisions ≡ some (rows_of p key 0 ds)
  pub chained : IsChained p key [] 0 ds

abbrev pub added : List Decision → Result PlanError Decision → List Decision
added ds (err e) = ds
added ds (ok d) = ds ++ d ∷ []

length-to_json : (ds : List Decision) → length (map to_json ds) ≡ length ds
length-to_json [] = refl
length-to_json (d ∷ ds) = omega (arith, length-to_json ds)

-- The calls of `decide` one after the other, with the decisions that they return.
unfoldable pub decide_all :
    Platform → List Deciding → Authority × List Decision → Authority × List Decision
decide_all p [] z = z
decide_all p (d ∷ calls) (a, ds) = let z = decide p d a in decide_all p calls (z.1, added ds z.0)

module _ (p : Platform) (key : Text) (f : IsFaithful p) where
  pub read_records-IsHistory :
      (ds : List Decision)
      → nat_beq (length key) 32 ≡ true
      → IsChained p key [] 0 ds
      → read_records p (some key) (rows_of p key 0 ds)
        ≡ ok (map to_json ds, last_signature p key [] ds)
  read_records-IsHistory ds s c = rw (s, read_rows-rows_of p key f 0 [] 0 ds c) refl

  -- The row that a transaction prepares continues the history.
  prepare_row-IsChained :
      (d : Deciding) (expiry : Option ℕ) (ds : List Decision) (made : Decision) (row : Row)
      → nat_beq (length key) 32 ≡ true
      → IsChained p key [] 0 ds
      → prepare_row p d expiry (some key) (rows_of p key 0 ds) ≡ ok (made, row)
      → (rows_of p key 0 ds ++ row ∷ [] ≡ rows_of p key 0 (ds ++ made ∷ []))
        × IsChained p key [] 0 (ds ++ made ∷ [])
  unfolding prepare_row
  prepare_row-IsChained d expiry ds made row s c h =
      let made' = decision d expiry (last_signature p key [] ds) in
      let body =
        (check_clock d.now (map to_json ds)
          >> (read_key (some key) >>= λ k.
              guard d.commits PlanError.storage
              >> (let r : Result PlanError (Decision × Row) =
                    ok (made', signed_row p k (length (map to_json ds)) made') in
                  r))) in
      let start : body ≡ ok (made, row) = rw (read_records-IsHistory ds s c) at h in
      let clock = ok_first (check_clock d.now (map to_json ds)) _ (made, row) start in
      let (k, e, rest) =
        ok_bind (read_key (some key)) _ (made, row)
          (ok_second (check_clock d.now (map to_json ds)) _ (made, row) start) in
      let same : key ≡ k =
        ok_injective (ok_second (guard (nat_beq (length key) 32) PlanError.invalid_key) _ k e) in
      let pair = ok_injective (ok_second (guard d.commits PlanError.storage) _ (made, row) rest) in
      let first : made' ≡ made = ap (λ x. x.0) pair in
      let second : signed_row p k (length (map to_json ds)) made' ≡ row = ap (λ x. x.1) pair in
      (
        ap (λ r. rows_of p key 0 ds ++ r ∷ []) (sym second)
            ∙ ap (λ k'. rows_of p key 0 ds ++ signed_row p k' (length (map to_json ds)) made' ∷ [])
                (sym same)
            ∙ ap (λ n. rows_of p key 0 ds ++ signed_row p key n made' ∷ [])
                (length-to_json ds ∙ omega arith)
            ∙ sym (rows_of-snoc p key 0 ds made')
            ∙ ap (λ m. rows_of p key 0 (ds ++ m ∷ [])) first,
        subst (λ m. IsChained p key [] 0 (ds ++ m ∷ [])) first
            (IsChained-snoc p key [] 0 ds made' c refl (check_clock-last p key d.now ds clock)),
      )

  insert-IsHistory :
      (a : Authority) (ds : List Decision) (r : Result PlanError (Decision × Row))
      → IsHistory p key a ds
      → ((made : Decision) (row : Row)
          → r ≡ ok (made, row)
          → (rows_of p key 0 ds ++ row ∷ [] ≡ rows_of p key 0 (ds ++ made ∷ []))
            × IsChained p key [] 0 (ds ++ made ∷ []))
      → (let z = insert a a.key (rows_of p key 0 ds) r in IsHistory p key z.1 (added ds z.0))
  insert-IsHistory a ds (err e) h k = record {
    keyed = h.keyed;
    sized = h.sized;
    decisions = refl;
    chained = h.chained;
  }
  insert-IsHistory a ds (ok (made, row)) h k =
      let (rows, chained) = k made row refl in
      record { keyed = h.keyed; sized = h.sized; decisions = ap some rows; chained = chained }

  initialize-same :
      (token : Text) (a : Authority) (rows : List Row)
      → a.key ≡ some key
      → a.decisions ≡ some rows
      → initialize token a ≡ ok (record { key = some key; decisions = some rows })
  unfolding initialize
  initialize-same token a rows k r = rw (k, r) refl

  decide_checked-IsHistory :
      (d : Deciding) (a : Authority) (ds : List Decision) (expiry : Result PlanError (Option ℕ))
      → IsHistory p key a ds
      → (let z = decide_checked p d a expiry in IsHistory p key z.1 (added ds z.0))
  decide_checked-IsHistory d a ds (err e) h = h
  decide_checked-IsHistory d a ds (ok expiry) h =
      let opened : Authority = record { key = some key; decisions = some (rows_of p key 0 ds) } in
      let history : IsHistory p key opened ds = record {
        keyed = refl;
        sized = h.sized;
        decisions = refl;
        chained = h.chained;
      } in
      subst (λ o. let z = transact p d expiry a o in IsHistory p key z.1 (added ds z.0))
        (sym (initialize-same d.token a (rows_of p key 0 ds) h.keyed h.decisions))
        (insert-IsHistory opened ds (prepare_row p d expiry (some key) (rows_of p key 0 ds)) history
          (λ made row. prepare_row-IsChained d expiry ds made row h.sized h.chained))

  decide-IsHistory :
      (d : Deciding) (a : Authority) (ds : List Decision)
      → IsHistory p key a ds
      → (let z = decide p d a in IsHistory p key z.1 (added ds z.0))
  unfolding decide
  decide-IsHistory d a ds h = decide_checked-IsHistory d a ds _ h

  decide_all-IsHistory :
      (calls : List Deciding) (a : Authority) (ds : List Decision)
      → IsHistory p key a ds
      → (let z = decide_all p calls (a, ds) in IsHistory p key z.0 z.1)
  unfolding decide_all
  decide_all-IsHistory [] a ds h = h
  decide_all-IsHistory (d ∷ calls) a ds h =
      decide_all-IsHistory calls _ _ (decide-IsHistory d a ds h)

  last_match-latest :
      (digest : Text) (found : Option Decision) (ds : List Decision)
      → last_match digest (map_json found) (map to_json ds) ≡ ok (map_json (latest digest found ds))
  unfolding last_match
  last_match-latest digest found [] = refl
  last_match-latest digest found (d ∷ ds) =
      rw (digest-to_json d) (elim (Bool-cases (d.digest == digest)) [
        | inl same ↦ rw same (last_match-latest digest (some d) ds)
        | inr other ↦ rw other (last_match-latest digest found ds)
      ])

  verify-IsHistory :
      (a : Authority) (ds : List Decision) (digest : Text) (now : ℕ)
      → IsHistory p key a ds
      → verify p digest now a ≡ judge now (latest digest none ds)
  unfolding verify
  verify-IsHistory a ds digest now h =
      rw
        (
          h.decisions,
          h.keyed,
          read_records-IsHistory ds h.sized h.chained,
          last_match-latest digest none ds,
        )
        (check_record-judge now (latest digest none ds))

  -- Where JSON reads back what it has written, from a store with a key of 32 bytes and no decision, after any calls of `decide`, whether they return or raise,
  -- `verify` gives a plan the verdict of the latest decision on it that was returned: the record of
  -- that decision if it approves the plan and the time is from its issue on and before its expiry, and an error
  -- otherwise.
  pub verify-decide_all :
      (calls : List Deciding) (digest : Text) (now : ℕ)
      → nat_beq (length key) 32 ≡ true
      → (let (a, ds) = decide_all p calls (record { key = some key; decisions = some [] }, []) in
          verify p digest now a ≡ judge now (latest digest none ds))
  verify-decide_all calls digest now s = verify-IsHistory _ _ digest now (
      decide_all-IsHistory calls (record { key = some key; decisions = some [] }) []
        (record { keyed = refl; sized = s; decisions = refl; chained = tt }))
