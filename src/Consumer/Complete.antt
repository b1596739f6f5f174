-- ===== src/Consumer/Complete.antt =====
-- What a run of src/eo_event_platform/streaming/kafka/consumer.py that reconciles has established.
use mathlib.Core.Path.{subst}
use mathlib.Core.Option.{some-injective}
use mathlib.Core.List.{append-nil, append_assoc}
use nasa_earth_observation_e.Prelude.{
  ℕ, suc, ◌-◌, ◌≤◌, ◌<◌, Bool, true, false, not, Option, none, some, List, [], ◌∷◌, ◌++◌, length,
  all, All, get_elem?, ok, raise_if, ◌≡◌, ◌≢◌, refl, sym, ap, ◌∙◌, ◌⊎◌, inl, inr, arith, Bool-cases,
  ok-injective, >>=-eq-ok, >>-eq-ok, raise_if-not-eq-ok,
}
use nasa_earth_observation_e.Prelude.Int.{ℤ, pos, negsuc, leb_ℤ}
use nasa_earth_observation_e.Text.{Text}
use nasa_earth_observation_e.Text.Equality.{text_eq_iff}
use nasa_earth_observation_e.Replay.Generator.{is_member_of}
use nasa_earth_observation_e.Replay.Run.{distinct}
use nasa_earth_observation_e.Router.Routing.{Message}
use nasa_earth_observation_e.Router.Loop.{Poll, in_range}
use nasa_earth_observation_e.Router.Reconciled.{taken}
use nasa_earth_observation_e.Consumer.{
  Tally, empty_tally, Expectations, not_successful, not_reconciled, is_int_in, int_eq, add_int,
  count_item, observe, observe_all, quality_checks, consume_producer_run,
}
use nasa_earth_observation_e.Consumer.Pigeonhole.{HasNoRepeat, IsBelow, int_eq_lem, pigeonhole}
use nasa_earth_observation_e.Consumer.Observed.{
  observe_list, observe_all-observe_list, id_of, sequence_of, ids_of, IsClean, faults,
  observe_value-IsObserved,
}

-- One of the messages has the number in its replay's sequence.
pub record IsSequenced (messages : List Message) (n : ℤ) : Type 0 where
  pub position : ℕ
  pub message : Message
  pub there : get_elem? messages position ≡ some message
  pub number : sequence_of message ≡ some n

record AreObserved (messages : List Message) (t t' : Tally) : Type 0 where
  pub before : faults t ≡ 0
  pub clean : All IsClean messages
  pub ids : t'.event_ids ≡ t.event_ids ++ ids_of messages
  pub sequences :
      (n : ℤ)
      → is_int_in n t'.replay_sequences ≡ true
      → (is_int_in n t.replay_sequences ≡ true) ⊎ IsSequenced messages n
  pub once : HasNoRepeat t.replay_sequences → HasNoRepeat t'.replay_sequences

add_int-HasNoRepeat : (o : Option ℤ) (ns : List ℤ) → HasNoRepeat ns → HasNoRepeat (add_int o ns)
unfolding add_int
add_int-HasNoRepeat none ns h = h
add_int-HasNoRepeat (some n) ns h = elim (Bool-cases (is_int_in n ns)) [
  | inl present ↦ rw present h
  | inr absent ↦ rw absent (absent, h)
]

-- A number that was added, or was there.
add_int-member :
    (o : Option ℤ) (ns : List ℤ) (n : ℤ)
    → is_int_in n (add_int o ns) ≡ true
    → (is_int_in n ns ≡ true) ⊎ (o ≡ some n)
unfolding add_int
add_int-member none ns n h = inl h
add_int-member (some m) ns n h = elim (Bool-cases (is_int_in m ns)) [
  | inl present ↦ inl (ground (arith, present, h))
  | inr absent ↦ elim (Bool-cases (int_eq m n)) [
    | inl same ↦ inr (ap some (int_eq_lem m n same))
    | inr other ↦ inl (ground (arith, absent, other, h))
  ]
]

one_more :
    (message : Message) (messages : List Message) (n : ℤ)
    → IsSequenced messages n
    → IsSequenced (message ∷ messages) n
one_more message messages n s = record {
  position = suc s.position;
  message = s.message;
  there = s.there;
  number = s.number;
}

observe_list-AreObserved :
    (messages : List Message) (t t' : Tally)
    → observe_list messages t ≡ ok t'
    → faults t' ≡ 0
    → AreObserved messages t t'
observe_list-AreObserved [] t t' h none_left = subst (AreObserved [] t) (ok-injective h) (record {
  before = ap faults (ok-injective h) ∙ none_left;
  clean = tt;
  ids = sym (append-nil t.event_ids);
  sequences = λ n present. inl present;
  once = λ s. s;
})
observe_list-AreObserved (message ∷ messages) t t' h none_left =
    let (t1, seen, rest) = >>=-eq-ok (observe message t) _ h in
    let later = observe_list-AreObserved messages t1 t' rest none_left in
    let now = observe_value-IsObserved message message.value t t1 refl seen later.before in
    record {
      before = now.before;
      clean = (now.clean, later.clean);
      ids =
          later.ids
          ∙ ap (λ ids. ids ++ ids_of messages) now.ids
          ∙ append_assoc t.event_ids (count_item (id_of message) []) (ids_of messages);
      sequences = λ n present. elim (later.sequences n present) [
        | inr s ↦ inr (one_more message messages n s)
        | inl held ↦
            elim (add_int-member (sequence_of message) t.replay_sequences n
              (subst (λ ns. is_int_in n ns ≡ true) now.sequences held)) [
                | inl old ↦ inl old
                | inr new ↦
                    inr (record { position = 0; message = message; there = refl; number = new })
              ]
      ];
      once = λ s. later.once (
          subst HasNoRepeat (sym now.sequences)
            (add_int-HasNoRepeat (sequence_of message) t.replay_sequences s));
    }

-- No text stands twice in the list.
HaveNoRepeat : List Text → Type 0
HaveNoRepeat [] = Unit
HaveNoRepeat (t ∷ ts) = (is_member_of t ts ≡ false) × HaveNoRepeat ts

length-distinct : (ts : List Text) → length (distinct ts) ≤ length ts
length-distinct [] = omega arith
length-distinct (t ∷ ts) = ground (arith, length-distinct ts)

-- A list that is as long as the set of its texts.
distinct-full :
    (ts : List Text) → length (distinct ts) ≡ length ts → (distinct ts ≡ ts) × HaveNoRepeat ts
unfolding HaveNoRepeat
distinct-full [] h = (refl, tt)
distinct-full (t ∷ ts) h =
    let short = length-distinct ts in
    let new : is_member_of t (distinct ts) ≡ false = ground (arith, short, h) in
    let (same, others) = distinct-full ts (ground (arith, new, h)) in
    (rw (new, same) refl, (subst (λ l. is_member_of t l ≡ false) same new, others))

length-ids_of :
    (messages : List Message) → All IsClean messages → length (ids_of messages) ≡ length messages
length-ids_of [] h = refl
length-ids_of (message ∷ messages) (clean, h) =
    rw clean.identified (ap suc (length-ids_of messages h))

-- The identities of the messages' events are pairwise different.
abbrev pub HaveDistinctIds : List Message → Type 0
HaveDistinctIds [] = Unit
HaveDistinctIds (message ∷ messages) =
    All (λ other. id_of message ≢ id_of other) messages × HaveDistinctIds messages

differs :
    (message : Message) (id : Text) (messages : List Message)
    → id_of message ≡ some id
    → All IsClean messages
    → is_member_of id (ids_of messages) ≡ false
    → All (λ other. id_of message ≢ id_of other) messages
differs message id [] found h absent = tt
differs message id (other ∷ messages) found (clean, h) absent =
    let left =
      subst (λ o. is_member_of id (count_item o [] ++ ids_of messages) ≡ false) clean.identified
        absent in
    (
      λ same.
          let equal : id ≡ clean.id = some-injective _ _ (sym found ∙ same ∙ clean.identified) in
          ground (arith, left, equal, text_eq_iff clean.id id),
      differs message id messages found h (ground (arith, left)),
    )

ids-HaveDistinctIds :
    (messages : List Message)
    → All IsClean messages
    → HaveNoRepeat (ids_of messages)
    → HaveDistinctIds messages
unfolding HaveNoRepeat
ids-HaveDistinctIds [] h r = tt
ids-HaveDistinctIds (message ∷ messages) (clean, h) r =
    let (new, rest) =
      subst (λ o. HaveNoRepeat (count_item o [] ++ ids_of messages)) clean.identified r in
    (differs message clean.id messages clean.identified h new, ids-HaveDistinctIds messages h rest)

all-IsBelow :
    (count : ℕ) (ns : List ℤ)
    → 1 ≤ count
    → all (λ m. leb_ℤ (pos 0) m) ns ≡ true
    → all (λ m. leb_ℤ m (pos (count - 1))) ns ≡ true
    → All (IsBelow count) ns
all-IsBelow count [] positive low high = tt
all-IsBelow count (pos k ∷ ns) positive low high = (
  (k, refl, ground (arith, high, positive)),
  all-IsBelow count ns positive (ground (arith, low)) (ground (arith, high)),
)
all-IsBelow count (negsuc k ∷ ns) positive low high = cc

-- The messages of a run that reconciled.
pub record IsComplete (count : ℕ) (messages : List Message) : Type 0 where
  pub size : length messages ≡ count
  pub clean : All IsClean messages
  pub distinct_ids : HaveDistinctIds messages
  pub sequences : (k : ℕ) → k < count → IsSequenced messages (pos k)

-- What the quality checks say of the loop's variables.
record IsSound (count : ℕ) (t : Tally) : Type 0 where
  pub faultless : faults t ≡ 0
  pub unique : length (distinct t.event_ids) ≡ count
  pub numbers : length t.replay_sequences ≡ count
  pub low : all (λ m. leb_ℤ (pos 0) m) t.replay_sequences ≡ true
  pub high : all (λ m. leb_ℤ m (pos (count - 1))) t.replay_sequences ≡ true

checks-IsSound :
    (e : Expectations) (t : Tally)
    → all (λ check. check) (quality_checks e t) ≡ true
    → IsSound e.count t
checks-IsSound e t h = record {
  faultless = ground (arith, h);
  unique = ground (arith, h);
  numbers = ground (arith, h);
  low = ground (arith, h);
  high = ground (arith, h);
}

sound-IsComplete :
    (count : ℕ) (messages : List Message) (t : Tally)
    → length messages ≡ count
    → AreObserved messages empty_tally t
    → IsSound count t
    → IsComplete count messages
sound-IsComplete count messages t size seen sound = record {
  size = size;
  clean = seen.clean;
  distinct_ids = ids-HaveDistinctIds messages seen.clean (
      (distinct-full (ids_of messages) (
        ap (λ ids. length (distinct ids)) (sym seen.ids)
        ∙ sound.unique
        ∙ sym size
        ∙ sym (length-ids_of messages seen.clean))).1);
  sequences = λ k less.
      elim (seen.sequences (pos k) (
        pigeonhole count t.replay_sequences k (seen.once tt)
          (all-IsBelow count t.replay_sequences (omega (arith, less)) sound.low sound.high)
          sound.numbers less)) [ inl none_yet ↦ cc | inr s ↦ s ];
}

-- A run that returns has consumed as many messages as the producer delivered, the first ones in its
-- ranges of offsets. Each is a JSON object with an identity, under the key of its lineage; their
-- identities are pairwise different; and every number from 0 to one below their count is the number
-- of one of them in the sequence of the replay.
pub consume_producer_run-IsComplete :
    (is_successful : Bool) (starts ends : ℕ → ℕ) (e : Expectations) (polls : List Poll) (t : Tally)
    → consume_producer_run is_successful starts ends e polls ≡ ok t
    → IsComplete e.count (taken (in_range starts ends) e.count polls)
unfolding consume_producer_run
consume_producer_run-IsComplete is_successful starts ends e polls t h =
    let (started, h1) = >>-eq-ok (raise_if (not is_successful) not_successful) _ h in
    let (t1, looped, h2) = >>=-eq-ok (observe_all starts ends e.count polls empty_tally) _ h1 in
    let (checked, h3) =
      >>-eq-ok (raise_if (not (all (λ check. check) (quality_checks e t1))) not_reconciled) _ h2 in
    let sound =
      checks-IsSound e t1
        (raise_if-not-eq-ok (all (λ check. check) (quality_checks e t1)) not_reconciled checked) in
    let (listed, size) =
      observe_all-observe_list starts ends e.count e.count polls empty_tally t1 (omega arith)
        looped in
    sound-IsComplete e.count (taken (in_range starts ends) e.count polls) t1 size
      (observe_list-AreObserved (taken (in_range starts ends) e.count polls) empty_tally t1 listed
        sound.faultless)
      sound
