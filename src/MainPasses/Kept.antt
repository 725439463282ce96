-- ===== src/MainPasses/Kept.antt =====
-- What a run's passes leave in the record, for each criterion.
use qare.Prelude.{
  String, Bool, false, ◌&&◌, Option, none, some, List, [], ◌∷◌, map, filter, has, lookup,
  lookup-insert, is_some, if◌then◌else◌, ◌==◌, ◌≡◌, refl, sym, ap, ◌∙◌, arith, eq_iff, eq_refl,
  template, Bool-cases, Option-cases, inl, inr, subst,
}
use qare.Json.{Json}
use qare.Ledger.Types.{LedgerEntry, is_active}
use qare.Fallible.{ok, >>=-eq-ok, ok_inj}
use qare.MainPasses.Read.{
  MainPass, parse_main_passes, serialize_main_passes, record_json, read_record,
}
use qare.MainPasses.Read.Back.{record_read, in_order}
use qare.MainPasses.{
  MainRun, is_mine, new_pass, is_carried, record_found, record_one, record_all,
  entries_by_criterion, recorded_passes, record_main_passes,
}

-- A record has a criterion once.
abbrev pub AreOnce : List (String × MainPass) → Type 0
AreOnce [] = Unit {0}
AreOnce ((id, pass) ∷ passes) = (lookup id passes ≡ none) × AreOnce passes

has-keys :
    (k : String) (m : List (String × LedgerEntry)) → has (map (λ e. e.0) m) k ≡ is_some (lookup k m)
unfolding has lookup
has-keys k [] = refl
has-keys k ((id, e) ∷ m) = ground (arith, has-keys k m)

module _ (sha256 : String → String) (json_text : Json → String) (run : MainRun)
    (behind : String → Bool) where
  -- The pass of a criterion that is carried forward: dropped only where the ledger does not carry the
  -- criterion and the run's revision may speak for the pass.
  abbrev pub carried_pass : Option LedgerEntry → Option MainPass → Option MainPass
  carried_pass (some entry) old = old
  carried_pass none none = none
  carried_pass none (some old) = if is_mine run behind old then none else some old

  -- The pass of a criterion that the run proved: the run's own where the ledger carries the criterion
  -- as active and no pass that the run may not speak for stands there.
  abbrev pub proven_pass : Option LedgerEntry → Option MainPass → Option MainPass
  proven_pass none old = old
  proven_pass (some entry) none =
      if is_active entry.status then some (new_pass sha256 json_text run entry) else none
  proven_pass (some entry) (some old) =
      if is_active entry.status && is_mine run behind old
      then some (new_pass sha256 json_text run entry)
      else some old

  proven_pass_twice :
      (e : Option LedgerEntry) (o : Option MainPass)
      → proven_pass e (proven_pass e o) ≡ proven_pass e o
  proven_pass_twice none o = refl
  proven_pass_twice (some entry) none = ground (arith, eq_refl run.sha)
  proven_pass_twice (some entry) (some old) = ground (arith, eq_refl run.sha)

  module _ (entries : List (String × LedgerEntry)) where
    found_same :
        (id : String) (passes : List (String × MainPass)) (e : Option LedgerEntry)
        (o : Option MainPass)
        → lookup id passes ≡ o
        → lookup id (record_found sha256 json_text run behind passes id e o) ≡ proven_pass e o
    found_same id passes none o h = h
    found_same id passes (some entry) none h =
        ground (arith, lookup-insert id id (new_pass sha256 json_text run entry) passes, eq_refl id)
    found_same id passes (some entry) (some had) h =
        ground (arith, lookup-insert id id (new_pass sha256 json_text run entry) passes, eq_refl id)

    found_other :
        (k id : String) (passes : List (String × MainPass)) (e : Option LedgerEntry)
        (o : Option MainPass)
        → id == k ≡ false
        → lookup k (record_found sha256 json_text run behind passes id e o) ≡ lookup k passes
    found_other k id passes none o n = refl
    found_other k id passes (some entry) none n =
        ground (arith, lookup-insert id k (new_pass sha256 json_text run entry) passes)
    found_other k id passes (some entry) (some had) n =
        ground (arith, lookup-insert id k (new_pass sha256 json_text run entry) passes)

    lookup-record_one :
        (k id : String) (passes : List (String × MainPass))
        → lookup k (record_one sha256 json_text run behind entries passes id)
          ≡ (if id == k then proven_pass (lookup k entries) (lookup k passes) else lookup k passes)
    unfolding record_one
    lookup-record_one k id passes = elim (Bool-cases (id == k)) [
      | inl y ↦ rw y (
          subst
            (λ (k : String).
              lookup k (record_one sha256 json_text run behind entries passes id)
              ≡ proven_pass (lookup k entries) (lookup k passes))
            ((eq_iff id k).0 y) (found_same id passes (lookup id entries) (lookup id passes) refl))
      | inr n ↦ rw n (found_other k id passes (lookup id entries) (lookup id passes) n)
    ]

    lookup-record_all :
        (k : String) (ids : List String) (passes : List (String × MainPass))
        → lookup k (record_all sha256 json_text run behind entries ids passes) ≡ (
            if has ids k then proven_pass (lookup k entries) (lookup k passes) else lookup k passes)
    unfolding record_all has
    lookup-record_all k [] passes = refl
    lookup-record_all k (id ∷ ids) passes =
        let o = lookup k passes in
        let r = record_one sha256 json_text run behind entries passes id in
        rw (lookup-record_all k ids r) (
          rw (lookup-record_one k id passes)
            (ground (arith, proven_pass_twice (lookup k entries) (lookup k passes))))

    lookup-filter :
        (k : String) (store : List (String × MainPass))
        → AreOnce store
        → lookup k (filter (is_carried run behind entries) store)
          ≡ carried_pass (lookup k entries) (lookup k store)
    unfolding lookup is_carried
    lookup-filter k [] h = elim (Option-cases (lookup k entries)) [
      | inl e ↦ rw e refl
      | inr (entry, e) ↦ rw e refl
    ]
    lookup-filter k ((id, pass) ∷ store) h =
        ground (arith, lookup-filter k store h.1, has-keys id entries, eq_iff id k)

-- The pass of each criterion after a run is recorded in a record that has no criterion twice, from the
-- pass that it had: of a criterion that the ledger does not carry, the pass is dropped where the run's
-- revision may speak for it and stays where it may not; of an active criterion that the run proved, the
-- run's own pass stands, unless the record had one that the run's revision may not speak for; every
-- other pass stays as it was.
pub lookup-recorded_passes :
    (sha256 : String → String) (json_text : Json → String) (store : List (String × MainPass))
    (run : MainRun) (criteria : List String) (ledger : List LedgerEntry) (behind : String → Bool)
    (k : String)
    → AreOnce store
    → lookup k (recorded_passes sha256 json_text store run criteria ledger behind) ≡ (
        let entry = lookup k (entries_by_criterion ledger) in
        let carried = carried_pass sha256 json_text run behind entry (lookup k store) in
        if has criteria k then proven_pass sha256 json_text run behind entry carried else carried)
unfolding recorded_passes
lookup-recorded_passes sha256 json_text store run criteria ledger behind k h =
    let entries = entries_by_criterion ledger in
    lookup-record_all sha256 json_text run behind entries k criteria
      (filter (is_carried run behind entries) store)
    ∙ ap
        (λ o.
          if has criteria k
          then proven_pass sha256 json_text run behind (lookup k entries) o
          else o)
        (lookup-filter sha256 json_text run behind entries k store h)

-- Where the record that is written parses to what was printed, what `recordMainPasses` returns is the
-- recorded passes in the order of their criteria.
pub record_main_passes-in_order :
    (sha256 : String → String) (json_text json_pretty : Json → String)
    (json_parse : String → Option Json) (store : List (String × MainPass)) (run : MainRun)
    (criteria : List String) (ledger : List LedgerEntry) (behind : String → Bool)
    (result : List (String × MainPass))
    → (let passes = recorded_passes sha256 json_text store run criteria ledger behind in
        json_parse (template (json_pretty (record_json passes) ∷ "\n" ∷ []))
        ≡ some (record_json passes))
    → record_main_passes sha256 json_text json_pretty json_parse store run criteria ledger behind
      ≡ ok result
    → result ≡ in_order (recorded_passes sha256 json_text store run criteria ledger behind)
unfolding record_main_passes serialize_main_passes parse_main_passes
record_main_passes-in_order sha256 json_text json_pretty json_parse store run criteria ledger behind
      result p h =
    let passes = recorded_passes sha256 json_text store run criteria ledger behind in
    let text = template (json_pretty (record_json passes) ∷ "\n" ∷ []) in
    let a =
      >>=-eq-ok (serialize_main_passes json_pretty json_parse passes) (parse_main_passes json_parse)
        h in
    let b = >>=-eq-ok (parse_main_passes json_parse text) _ a.1 in
    let e : read_record (some (record_json passes)) ≡ ok result =
      ap read_record (sym p) ∙ ap (parse_main_passes json_parse) (ok_inj b.2) ∙ a.2 in
    record_read passes result e
