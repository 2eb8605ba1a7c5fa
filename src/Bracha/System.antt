-- ===== src/Bracha/System.antt =====
-- A network of nodes of bracha.py. Dolev, below, is assumed to be a reliable channel: what it
-- delivers from a correct source was handed to it by that source; a faulty source may send
-- anything. The event loop of each node interleaves its coroutines in any order.
pub mod Invariant
pub mod Safety
pub mod Schedule
use distributed_algo.Prelude.{
  ℕ, String, List, [], ◌∷◌, ◌++◌, Bool, false, ◌≡◌, none, some, map, Among, eq_string, ◌==◌,
  contains, if◌then◌else◌, ok, raises, Exception,
}
use distributed_algo.Bracha.Message.{BrachaMessage, Payload, message_of}
use distributed_algo.Bracha.Node.{
  Bracha, Task, Turn, init, quiet, count_received, dolev_deliver, on_start, resume,
}

pub record System : Type 0 where
  pub nodes : String → Bracha
  pub tasks : String → List Task
  pub sent : List (String × BrachaMessage)

abbrev pub update {ℓ} : {A : Type ℓ} → (String → A) → String → A → String → A
update f i a j = if i == j then a else f j

-- node `i` has taken the turn `t`, and `ts` is what it still had to do
unfoldable pub took : System → String → Turn → List Task → System
took s i t ts = record {
  nodes = update s.nodes i t.node;
  tasks = update s.tasks i (elim t.rest [ none ↦ ts | some k ↦ k ∷ ts ]);
  sent = map (λ o. (i, o)) t.out ++ s.sent;
}

abbrev pub IsCorrect : List String → String → Type 0
IsCorrect faulty i = contains faulty i ≡ false

-- A step of one correct node. Faulty nodes take none: what they send is any delivery.
pub data Step (faulty : List String) (s : System) : System → Type 0 where
  boot :
      (now : ℕ) (uuid greeting i : String)
      → IsCorrect faulty i
      → Step faulty s (took s i (on_start now uuid greeting (s.nodes i)) (s.tasks i))
  receive :
      (now : ℕ) (src i : String) (payload : Payload) (msg : BrachaMessage) {t : Turn}
      → IsCorrect faulty i
      → message_of payload ≡ ok msg
      → (IsCorrect faulty src → Among (src, msg) s.sent)
      → dolev_deliver now src payload (s.nodes i) ≡ ok t
      → Step faulty s (took s i t (s.tasks i))
  reject :
      (i : String) (payload : Payload) {x : Exception}
      → IsCorrect faulty i
      → message_of payload ≡ raises x
      → Step faulty s (took s i (quiet (count_received (s.nodes i))) (s.tasks i))
  run :
      (now : ℕ) (i : String) (before after : List Task) (k : Task) {t : Turn}
      → IsCorrect faulty i
      → s.tasks i ≡ before ++ k ∷ after
      → resume now k (s.nodes i) ≡ ok t
      → Step faulty s (took s i t (before ++ after))

abbrev pub start : (String → Bool) → ℕ → ℕ → System
start sender f peers = record { nodes = λ i. init i (sender i) f peers; tasks = λ i. []; sent = [] }

pub data Reach (faulty : List String) (sender : String → Bool) (f peers : ℕ) : System → Type 0 where
  initial : Reach faulty sender f peers (start sender f peers)
  next :
      {s s' : System}
      → Reach faulty sender f peers s
      → Step faulty s s'
      → Reach faulty sender f peers s'
