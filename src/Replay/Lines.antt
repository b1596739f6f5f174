-- ===== src/Replay/Lines.antt =====
-- The lines that src/eo_event_platform/replay/generator.py writes pass the checks of
-- src/eo_event_platform/replay/verify.py.
use nasa_earth_observation_e.Prelude.{
  ℕ, zero, suc, ◌+◌, ◌-◌, ◌*◌, ◌/◌, ◌%◌, ◌<◌, ◌≤◌, some, List, [], ◌∷◌, ◌++◌, length, length-append,
  drop, get_elem?, map, All, Result, ok, Result-cases, >>=-eq-ok, >>-eq-ok, ◌≡◌, refl, ap, ◌∙◌,
  arith, inl, inr,
}
use mathlib.Core.Path.{subst}
use native.Mathlib.Nat.{mul-add-div_right, div-eq_of_lt, div-add-mod'}
use nasa_earth_observation_e.Text.{Text}
use nasa_earth_observation_e.Replay.Plan.{build_replay_event_id}
use nasa_earth_observation_e.Replay.Value.{Event}
use nasa_earth_observation_e.Replay.Update.{update}
use nasa_earth_observation_e.Replay.Generator.{
  Line, object, Original, ReplayError, replay_changes, build_replay_event, or_fault,
  replay_originals, replay_iterations,
}
use nasa_earth_observation_e.Replay.Verifier.{
  VerifyError, or_bad_id, verify_event, verify_line, verify_lines,
}
use nasa_earth_observation_e.Replay.Fields.{AreItems, replay-passes}

-- Originals that are JSON objects without a NaN.
abbrev pub AreObjects : List Original → Type 0
AreObjects originals = All (λ original. AreItems original.1 original.1) originals

-- The position of an original in an iteration.
position-div : (q count i : ℕ) → i < count → (q * count + i) / count ≡ q
position-div q count i h =
    mul-add-div_right (omega arith) q i ∙ ap (λ r. q + r) (div-eq_of_lt h) ∙ (omega arith)

position-mod : (q count i : ℕ) → i < count → (q * count + i) % count ≡ i
position-mod q count i h =
    let whole : (q * count + i) / count * count + (q * count + i) % count ≡ q * count + i =
      div-add-mod' (q * count + i) count in
    let same : (q * count + i) / count * count ≡ q * count =
      ap (λ r. r * count) (position-div q count i h) in
    omega (arith, whole, same)

round_sum :
    (iteration count : ℕ)
    → 1 ≤ iteration
    → (suc iteration - 1) * count ≡ (iteration - 1) * count + count
round_sum iteration count pos =
    let one : suc iteration - 1 ≡ suc (iteration - 1) = omega (arith, pos) in rw one (omega arith)

drop-next :
    {A : Type 0} (i : ℕ) (xs ys : List A) (y : A)
    → drop i xs ≡ y ∷ ys
    → (get_elem? xs i ≡ some y) × (drop (suc i) xs ≡ ys) × (i < length xs)
drop-next zero [] ys y h = cc
drop-next (suc i) [] ys y h = cc
drop-next zero (x ∷ xs) ys y h = (cc, cc, omega arith)
drop-next (suc i) (x ∷ xs) ys y h =
    let (found, rest, below) = drop-next i xs ys y h in (found, rest, omega (arith, below))

module _ (sha256 : Text → Text) (run_id version : Text) where
  verify_event-replay :
      (original : Original) (iteration sequence : ℕ) (scheduled : Text) (event : Event)
      → AreItems original.1 original.1
      → build_replay_event sha256 original run_id iteration sequence scheduled version ≡ ok event
      → verify_event sha256 run_id version original iteration sequence scheduled event ≡ ok tt
  unfolding build_replay_event verify_event or_fault or_bad_id
  verify_event-replay (parent, d) iteration sequence scheduled event items h =
      elim (Result-cases (build_replay_event_id sha256 run_id parent iteration)) [
        | inl (fault, no_id) ↦ absurd (ground (arith, no_id))
        | inr (id, found) ↦
            let (values, kept, fields) =
              replay-passes id parent run_id iteration sequence scheduled version d items in
            let same : update d
                  (replay_changes id parent run_id iteration sequence scheduled version)
                ≡ event =
              ground (arith, found) in
            subst
              (λ e.
                verify_event sha256 run_id version (parent, d) iteration sequence scheduled e
                ≡ ok tt)
              same (rw (found, values, kept, fields))
      ]

  module _ (scheduled_at : ℕ → Text) (count interval : ℕ) (originals : List Original) where
    abbrev verified : ℕ → List Line → Result VerifyError (Unit {0})
    verified = verify_lines sha256 run_id version scheduled_at count interval originals

    abbrev replayed : ℕ → ℕ → List Original → Result ReplayError (List Event)
    replayed = replay_originals sha256 run_id version scheduled_at count interval

    verified-append :
        (sequence : ℕ) (xs ys : List Event)
        → verified sequence (map object xs) ≡ ok tt
        → verified (sequence + length xs) (map object ys) ≡ ok tt
        → verified sequence (map object (xs ++ ys)) ≡ ok tt
    unfolding verify_lines
    verified-append sequence [] ys h k =
        subst (λ n. verified n (map object ys) ≡ ok tt) (omega arith) k
    verified-append sequence (x ∷ xs) ys h k =
        let (line, rest) =
          >>-eq-ok
            (verify_line sha256 run_id version scheduled_at count interval originals sequence
              (object x))
            (verified (suc sequence) (map object xs)) h in
        rw line (
          verified-append (suc sequence) xs ys rest
            (subst (λ n. verified n (map object ys) ≡ ok tt) (omega arith) k))

    -- The number of the replay of the original at an index.
    abbrev at : ℕ → ℕ → ℕ
    at iteration index = (iteration - 1) * count + index

    abbrev built : ℕ → ℕ → Original → Result ReplayError Event
    built iteration index original =
        build_replay_event sha256 original run_id iteration (at iteration index)
          (scheduled_at (at iteration index * interval)) version

    next_replay :
        (iteration index : ℕ) (original : Original) (rest : List Original) (events : List Event)
        → replayed iteration index (original ∷ rest) ≡ ok events
        → (event : Event) × (more : List Event) × (built iteration index original ≡ ok event)
          × (replayed iteration (suc index) rest ≡ ok more)
          × (event ∷ more ≡ events)
    unfolding replay_originals
    next_replay iteration index original rest events h =
        let (event, made, follows) = >>=-eq-ok (built iteration index original) _ h in
        let (more, rest_ok, all) = >>=-eq-ok (replayed iteration (suc index) rest) _ follows in
        (event, more, made, rest_ok, ground (arith, all))

    verify_line-replay :
        (iteration index : ℕ) (original : Original) (event : Event)
        → 1 ≤ iteration
        → index < count
        → get_elem? originals index ≡ some original
        → AreItems original.1 original.1
        → built iteration index original ≡ ok event
        → verify_line sha256 run_id version scheduled_at count interval originals
            (at iteration index)
            (object event)
          ≡ ok tt
    unfolding verify_line
    verify_line-replay iteration index original event pos below found items made =
        let round : at iteration index / count + 1 ≡ iteration =
          omega (arith, position-div (iteration - 1) count index below, pos) in
        rw (verify_line, position-mod (iteration - 1) count index below, found, round)
          (verify_event-replay original iteration (at iteration index)
            (scheduled_at (at iteration index * interval)) event items made)

    verify_lines-replay_originals :
        (iteration index : ℕ) (rest : List Original) (events : List Event)
        → 1 ≤ iteration
        → length originals ≡ count
        → drop index originals ≡ rest
        → AreObjects rest
        → replayed iteration index rest ≡ ok events
        → (verified (at iteration index) (map object events) ≡ ok tt)
          × (length events ≡ length rest)
    unfolding verify_lines
    verify_lines-replay_originals iteration index [] events pos size place objects h =
        let none_left : [] ≡ events = unfold replay_originals in ground (arith, h) in
        subst (λ es. (verified (at iteration index) (map object es) ≡ ok tt) × (length es ≡ 0))
          none_left (refl, refl)
    verify_lines-replay_originals iteration index (original ∷ rest) events pos size place
          (items, objects) h =
        let (event, more, made, follows, all) =
          next_replay iteration index original rest events h in
        let (found, place', below) = drop-next index originals rest original place in
        let (rest_ok, count_ok) =
          verify_lines-replay_originals iteration (suc index) rest more pos size place' objects
            follows in
        let line =
          verify_line-replay iteration index original event pos (omega (arith, below, size)) found
            items made in
        subst
          (λ es.
            (verified (at iteration index) (map object es) ≡ ok tt)
            × (length es ≡ suc (length rest)))
          all
          (
            rw line (subst (λ n. verified n (map object more) ≡ ok tt) (omega arith) rest_ok),
            omega (arith, count_ok),
          )

    next_iteration :
        (iteration left : ℕ) (events : List Event)
        → replay_iterations sha256 run_id version scheduled_at count interval iteration
            (suc left)
            originals
          ≡ ok events
        → (first : List Event) × (more : List Event) × (replayed iteration 0 originals ≡ ok first)
          × (replay_iterations sha256 run_id version scheduled_at count interval
                (suc iteration)
                left
                originals
              ≡ ok more)
          × (first ++ more ≡ events)
    unfolding replay_iterations
    next_iteration iteration left events h =
        let (first, first_ok, follows) = >>=-eq-ok (replayed iteration 0 originals) _ h in
        let (more, more_ok, all) =
          >>=-eq-ok
            (replay_iterations sha256 run_id version scheduled_at count interval (suc iteration)
              left originals)
            _ follows in
        (first, more, first_ok, more_ok, ground (arith, all))

    pub verify_lines-replay_iterations :
        (iteration left : ℕ) (events : List Event)
        → 1 ≤ iteration
        → length originals ≡ count
        → AreObjects originals
        → replay_iterations sha256 run_id version scheduled_at count interval iteration left
            originals
          ≡ ok events
        → (verified (at iteration 0) (map object events) ≡ ok tt) × (length events ≡ count * left)
    verify_lines-replay_iterations iteration zero events pos size objects h =
        let none_left : [] ≡ events = unfold replay_iterations in ground (arith, h) in
        subst (λ es. (verified (at iteration 0) (map object es) ≡ ok tt) × (length es ≡ count * 0))
          none_left (unfold verify_lines in refl, omega arith)
    verify_lines-replay_iterations iteration (suc left) events pos size objects h =
        let (first, more, first_ok, more_ok, all) = next_iteration iteration left events h in
        let (first_lines, first_count) =
          verify_lines-replay_originals iteration 0 originals first pos size refl objects
            first_ok in
        let (more_lines, more_count) =
          verify_lines-replay_iterations (suc iteration) left more (omega arith) size objects
            more_ok in
        let next : at (suc iteration) 0 ≡ at iteration 0 + length first =
          omega (arith, round_sum iteration count pos, first_count, size) in
        subst
          (λ es.
            (verified (at iteration 0) (map object es) ≡ ok tt) × (length es ≡ count * suc left))
          all
          (
            verified-append (at iteration 0) first more first_lines
                (subst (λ n. verified n (map object more) ≡ ok tt) next more_lines),
            length-append first more ∙ (omega (arith, first_count, size, more_count)),
          )
