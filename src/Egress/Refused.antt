-- ===== src/Egress/Refused.antt =====
-- The attempts that no stub takes, in the summary (`summarizeEgress`).
use qare.Prelude.{
  ℕ, ◌+◌, String, Bool, false, not, ◌&&◌, template, Option, none, some, List, [], ◌∷◌, any, filter,
  length, total, insert, lookup, is_empty, ◌≡◌, refl, ap, arith, Bool-cases, inl, inr,
}
use qare.Egress.{
  EgressAttempt, EgressFinding, EgressStub, matches_stub, attempt_key, count_attempt,
  summarize_from, summarize_egress,
}

abbrev pub counted : List (String × EgressFinding) → ℕ
counted seen = total (λ (f : String × EgressFinding). f.1.count) seen

found_count : Option EgressFinding → ℕ
found_count none = 0
found_count (some f) = f.count

counted-insert :
    (key : String) (f : EgressFinding) (seen : List (String × EgressFinding))
    → counted (insert key f seen) + found_count (lookup key seen) ≡ counted seen + f.count
unfolding insert lookup found_count
counted-insert key f [] = omega arith
counted-insert key f ((name, old) ∷ seen) = ground (arith, counted-insert key f seen)

counted-attempt :
    (key : String) (o : Option EgressFinding) (seen : List (String × EgressFinding))
    → lookup key seen ≡ o
    → counted (count_attempt key o seen) ≡ counted seen + 1
unfolding count_attempt found_count
counted-attempt key none seen h =
    let f : EgressFinding = record {
      reason = template ("refused: missing stub: " ∷ key ∷ []);
      count = 1;
    } in
    omega (arith, counted-insert key f seen, ap found_count h)
counted-attempt key (some old) seen h =
    let f : EgressFinding = record { reason = old.reason; count = old.count + 1 } in
    omega (arith, counted-insert key f seen, ap found_count h)

is_empty-insert :
    (key : String) (f : EgressFinding) (seen : List (String × EgressFinding))
    → is_empty (insert key f seen) ≡ false
unfolding insert
is_empty-insert key f [] = refl
is_empty-insert key f ((name, old) ∷ seen) = ground arith

is_empty-attempt :
    (key : String) (o : Option EgressFinding) (seen : List (String × EgressFinding))
    → is_empty (count_attempt key o seen) ≡ false
unfolding count_attempt
is_empty-attempt key none seen = is_empty-insert key _ seen
is_empty-attempt key (some old) seen = is_empty-insert key _ seen

module _ (to_lower : String → String) (stubs : List EgressStub) where
  -- No stub takes the attempt.
  abbrev pub is_missing : EgressAttempt → Bool
  is_missing a = not (matches_stub to_lower a.host stubs)

  summarized :
      (attempts : List EgressAttempt) (seen : List (String × EgressFinding))
      → (counted (summarize_from to_lower stubs attempts seen)
          ≡ counted seen + length (filter is_missing attempts))
        × (is_empty (summarize_from to_lower stubs attempts seen)
            ≡ (is_empty seen && not (any is_missing attempts)))
  unfolding summarize_from
  summarized [] seen = (omega arith, ground arith)
  summarized (a ∷ attempts) seen =
      let key = attempt_key to_lower a in
      let next = count_attempt key (lookup key seen) seen in
      elim (Bool-cases (matches_stub to_lower a.host stubs)) [
        | inl y ↦ let r = summarized attempts seen in rw y r
        | inr n ↦
            let r = summarized attempts next in
            let c = counted-attempt key (lookup key seen) seen refl in
            let e = is_empty-attempt key (lookup key seen) seen in
            rw n (omega (arith, r.0, c), ground (arith, r.1, e))
      ]

-- A run's attempts are refused exactly where no stub takes some attempt, and the counts of the findings
-- add up to the attempts that no stub takes.
pub summarize_egress-missing :
    (to_lower : String → String) (attempts : List EgressAttempt) (stubs : List EgressStub)
    → ((summarize_egress to_lower attempts stubs).is_refused
        ≡ any (is_missing to_lower stubs) attempts)
      × (counted (summarize_egress to_lower attempts stubs).findings
          ≡ length (filter (is_missing to_lower stubs) attempts))
unfolding summarize_egress
summarize_egress-missing to_lower attempts stubs =
    let s = summarized to_lower stubs attempts [] in (ground (arith, s.1), omega (arith, s.0))
