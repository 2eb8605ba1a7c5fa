-- ===== src/Bracha/System/Schedule.antt =====
-- Reachable states of the network of bracha.py by evaluation: a schedule of events, each of them a
-- step.
use distributed_algo.Prelude.{
  ℕ, zero, suc, String, List, [], ◌∷◌, Bool, true, false, ◌≡◌, refl, inl, inr, Option, none, some,
  eq_string, contains, Among, Result, ok, raises, Bool-cases,
}
use distributed_algo.Bracha.Message.{BrachaMessage, object, message_of}
use distributed_algo.Bracha.Node.{Task, Turn, dolev_deliver, resume}
use distributed_algo.Bracha.System.{System, IsCorrect, boot, receive, run, Reach, initial, next}

pub data Event : Type 0 where
  begin : String → String → Event
  hear : String → ℕ → Event
  fake : String → String → BrachaMessage → Event
  go_on : String → Event

clash : (b : Bool) → b ≡ true → b ≡ false → ⊥
clash true p q = cc
clash false p q = cc

module _ (faulty : List String) (sender : String → Bool) (f peers : ℕ) where
  pub record Run : Type 0 where
    pub last : System
    pub reach : Reach faulty sender f peers last

  nth :
      (n : ℕ) (xs : List (String × BrachaMessage))
      → Option ((e : String × BrachaMessage) × Among e xs)
  nth n [] = none
  nth zero (x ∷ xs) = some (x, inl refl)
  nth (suc n) (x ∷ xs) = elim (nth n xs) [ none ↦ none | some (e, m) ↦ some (e, inr m) ]

  hears :
      (r : Run) (i src : String) (msg : BrachaMessage)
      → IsCorrect faulty i
      → (IsCorrect faulty src → Among (src, msg) r.last.sent)
      → (res : Result Turn) → dolev_deliver 7 src (object msg) (r.last.nodes i) ≡ res
      → Run
  unfolding message_of
  hears r i src msg c a (raises x) e = r
  hears r i src msg c a (ok t) e = record {
    last = _;
    reach = next r.reach (receive 7 src i (object msg) msg c refl a e);
  }

  goes_on :
      (r : Run) (i : String) (tasks : List Task)
      → r.last.tasks i ≡ tasks
      → IsCorrect faulty i
      → (res : Task → Result Turn) → ((k : Task) → resume 7 k (r.last.nodes i) ≡ res k)
      → Run
  goes_on r i [] e c res q = r
  goes_on r i (k ∷ ks) e c res q = finish (res k) (q k)
    where
      finish : (out : Result Turn) → resume 7 k (r.last.nodes i) ≡ out → Run
      finish (raises x) p = r
      finish (ok t) p = record { last = _; reach = next r.reach (run 7 i [] ks k c e p) }

  event : Run → Event → Run
  unfolding hears goes_on nth
  event r (begin i uuid) = elim (Bool-cases (contains faulty i)) [
    | inl x ↦ r
    | inr c ↦ record { last = _; reach = next r.reach (boot 7 uuid "hello" i c) }
  ]
  event r (hear i n) = elim (Bool-cases (contains faulty i)) [
    | inl x ↦ r
    | inr c ↦ elim (nth n r.last.sent) [
      | none ↦ r
      | some ((src, msg), m) ↦ hears r i src msg c (λ h. m) _ refl
    ]
  ]
  event r (fake i src msg) = elim (Bool-cases (contains faulty i)) [
    | inl x ↦ r
    | inr c ↦ elim (Bool-cases (contains faulty src)) [
      | inl bad ↦ hears r i src msg c (λ h. absurd (clash _ bad h)) _ refl
      | inr good ↦ r
    ]
  ]
  event r (go_on i) = elim (Bool-cases (contains faulty i)) [
    | inl x ↦ r
    | inr c ↦ goes_on r i _ refl c _ (λ k. refl)
  ]

  unfoldable pub play : List Event → Run → Run
  unfolding event clash
  play [] r = r
  play (e ∷ es) r = play es (event r e)

  abbrev pub begun : Run
  begun = record { last = _; reach = initial }
