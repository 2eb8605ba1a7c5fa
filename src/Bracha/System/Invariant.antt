-- ===== src/Bracha/System/Invariant.antt =====
-- What holds in every reachable state of the network: every vote that a node has counted from a
-- correct source is backed, and the first READY rests on a quorum of echos.
use distributed_algo.Prelude.{
  ℕ, ◌≤◌, String, List, [], ◌∷◌, true, false, ◌≡◌, refl, sym, ◌∙◌, inl, inr, Option, none, some,
  map, arith, eq_string, ◌==◌, eq_iff, contains, length, IsDistinct, outside, Bool-cases, All,
  All-append, All-map,
}
use distributed_algo.Bracha.Ledger.{Ledger}
use distributed_algo.Bracha.Slot.{Slot, slot, IsAligned, Knows}
use distributed_algo.Bracha.Node.{Task, Turn}
use distributed_algo.Bracha.Effect.{rules}
use distributed_algo.Bracha.Progress.{Progress, Progress-refl}
use distributed_algo.Bracha.Turns.{Backed, Pending, PendingRest, Sound}
use distributed_algo.Bracha.System.{System, took, IsCorrect}

abbrev pub slot_at : System → String → String → Slot
slot_at s i m = slot (s.nodes i).ledger m

pub record Inv (faulty : List String) (f q d : ℕ) (s : System) : Type 0 where
  pub aligned : (i : String) → IsAligned (s.nodes i).ledger
  pub config :
      (i : String) → rules (s.nodes i) ≡ record { id = i; f = f; echo_quorum = q; ready_quorum = d }
  pub pending : (i : String) → All (Pending (s.nodes i).ledger) (s.tasks i)
  pub backed : All (λ e. Backed (slot_at s e.0 e.1.msg_id) e.1) s.sent
  pub distinct_echos : (i m : String) → IsDistinct (slot_at s i m).echos
  pub distinct_readys : (i m : String) → IsDistinct (slot_at s i m).readys
  pub echo_votes :
      (i m x : String)
      → contains (slot_at s i m).echos x ≡ true
      → IsCorrect faulty x
      → (slot_at s x m).sent_echo ≡ true
  pub ready_votes :
      (i m x : String)
      → contains (slot_at s i m).readys x ≡ true
      → IsCorrect faulty x
      → (slot_at s x m).sent_ready ≡ true
  pub delivery :
      (i m : String) → (slot_at s i m).delivered ≡ true → d ≤ length (slot_at s i m).readys
  pub quorum :
      (i m : String)
      → (slot_at s i m).sent_ready ≡ true
      → (j : String) × IsCorrect faulty j × (q ≤ length (slot_at s j m).echos)

Pending-keeps :
    (l l' : Ledger)
    → ((j : String) → Knows l j → Knows l' j)
    → (k : Task) → Pending l k
    → Pending l' k
Pending-keeps l l' h (Task.deliver_check msg) p = h msg.msg_id p
Pending-keeps l l' h (Task.start_echo msg) p = h msg.msg_id p
Pending-keeps l l' h Task.start_done p = tt

All-map_pair :
    {A B : Type 0} (P : A × B → Type 0) (a : A) (bs : List B)
    → All (λ b. P (a, b)) bs
    → All P (map (λ b. (a, b)) bs)
All-map_pair P a [] h = tt
All-map_pair P a (b ∷ bs) h = (h.0, All-map_pair P a bs h.1)

module _ {faulty : List String} {f q d : ℕ} {s : System} (few : length faulty ≤ f)
    (inv : Inv faulty f q d s) (i : String) (correct : IsCorrect faulty i)
    (Voted : String → String → String → Type 0) (t : Turn) (ts : List Task)
    (sound : Sound (s.nodes i).ledger (rules (s.nodes i)) Voted t)
    (votes : (j phase x : String)
      → Voted j phase x
      → IsCorrect faulty x
      → (phase ≡ "echo" → (slot_at s x j).sent_echo ≡ true)
        × (phase ≡ "ready" → (slot_at s x j).sent_ready ≡ true))
    (left : All (Pending (s.nodes i).ledger) ts) where
  abbrev s' : System
  s' = took s i t ts

  -- every node makes progress, the others by standing still
  grows :
      (k j : String)
      → Progress
          (record { id = k; f = f; echo_quorum = q; ready_quorum = d })
          (Voted j)
          (slot_at s k j)
          (slot_at s' k j)
  unfolding took
  grows k j = elim (Bool-cases (i == k)) [
    | inl e ↦ rw e rw (← (eq_iff i k).0 e, ← inv.config i) (sound.progress j)
    | inr e ↦ rw e (Progress-refl _)
  ]

  config' :
      (k : String)
      → rules (s'.nodes k) ≡ record { id = k; f = f; echo_quorum = q; ready_quorum = d }
  unfolding took
  config' k = elim (Bool-cases (i == k)) [
    | inl e ↦ rw e (sound.config ∙ inv.config i ∙ rw ((eq_iff i k).0 e))
    | inr e ↦ rw e (inv.config k)
  ]

  aligned' : (k : String) → IsAligned (s'.nodes k).ledger
  unfolding took
  aligned' k = elim (Bool-cases (i == k)) [
    | inl e ↦ rw e sound.aligned
    | inr e ↦ rw e (inv.aligned k)
  ]

  kept : All (Pending t.node.ledger) ts
  kept = All-map _ _ ts (Pending-keeps (s.nodes i).ledger t.node.ledger sound.keeps) left

  with_rest :
      (r : Option Task)
      → PendingRest t.node.ledger r
      → All (Pending t.node.ledger) (elim r [ none ↦ ts | some k ↦ k ∷ ts ])
  with_rest none h = kept
  with_rest (some k) h = (h, kept)

  pending' : (k : String) → All (Pending (s'.nodes k).ledger) (s'.tasks k)
  unfolding took
  pending' k = elim (Bool-cases (i == k)) [
    | inl e ↦ rw e (with_rest t.rest sound.pending)
    | inr e ↦ rw e (inv.pending k)
  ]

  backed' : All (λ e. Backed (slot_at s' e.0 e.1.msg_id) e.1) s'.sent
  unfolding took
  backed' =
      All-append _ (map (λ o. (i, o)) t.out) s.sent
        (All-map_pair _ i t.out (rw ((eq_iff i i).1 refl) sound.backed))
        (All-map _ _ s.sent
          (λ e b.
            let p = grows e.0 e.1.msg_id in (λ h. p.keeps_ready (b.0 h), λ h. p.keeps_echo (b.1 h)))
          inv.backed)

  echo_votes' :
      (k m x : String)
      → contains (slot_at s' k m).echos x ≡ true
      → IsCorrect faulty x
      → (slot_at s' x m).sent_echo ≡ true
  echo_votes' k m x h c = elim ((grows k m).echo_source x h) [
    | inl old ↦ (grows x m).keeps_echo (inv.echo_votes k m x old c)
    | inr (inl v) ↦ (grows x m).keeps_echo ((votes m "echo" x v c).0 refl)
    | inr (inr (e, own)) ↦ rw e own
  ]

  ready_votes_before :
      (k m x : String)
      → contains (slot_at s' k m).readys x ≡ true
      → IsCorrect faulty x
      → (slot_at s x m).sent_ready ≡ true
  ready_votes_before k m x h c = elim ((grows k m).ready_source x h) [
    | inl old ↦ inv.ready_votes k m x old c
    | inr v ↦ (votes m "ready" x v c).1 refl
  ]

  readys'-IsDistinct : (k m : String) → IsDistinct (slot_at s' k m).readys
  readys'-IsDistinct k m = (grows k m).distinct_readys (inv.distinct_readys k m)

  quorum_before :
      (k m : String)
      → (slot_at s k m).sent_ready ≡ true
      → (j : String) × IsCorrect faulty j × (q ≤ length (slot_at s' j m).echos)
  quorum_before k m h =
      let (j, c, full) = inv.quorum k m h in
      let p = grows j m in (j, c, omega (arith, p.more_echos))

  -- The first READY of a correct node is due to a quorum of echos; a later one to f + 1 READYs, of
  -- which one came from a correct node.
  quorum_here :
      (m : String)
      → (slot_at s' i m).sent_ready ≡ true
      → (j : String) × IsCorrect faulty j × (q ≤ length (slot_at s' j m).echos)
  quorum_here m h = elim ((grows i m).ready_reason h) [
    | inl old ↦ quorum_before i m old
    | inr (inl full) ↦ (i, correct, full)
    | inr (inr many) ↦
        let (x, voted, c) =
          outside (slot_at s' i m).readys faulty (readys'-IsDistinct i m) (omega arith) in
        quorum_before x m (ready_votes_before i m x voted c)
  ]

  stands : (k m : String) → (i == k) ≡ false → slot_at s' k m ≡ slot_at s k m
  unfolding took
  stands k m e = rw e

  quorum' :
      (k m : String)
      → (slot_at s' k m).sent_ready ≡ true
      → (j : String) × IsCorrect faulty j × (q ≤ length (slot_at s' j m).echos)
  quorum' k m h = elim (Bool-cases (i == k)) [
    | inl e ↦ quorum_here m (rw (sym ((eq_iff i k).0 e)) at h)
    | inr e ↦ quorum_before k m (rw (stands k m e) at h)
  ]

  delivery' :
      (k m : String) → (slot_at s' k m).delivered ≡ true → d ≤ length (slot_at s' k m).readys
  delivery' k m h = elim ((grows k m).delivery_reason h) [
    | inl old ↦ omega (arith, inv.delivery k m old, (grows k m).more_readys)
    | inr full ↦ full
  ]

  pub took-Inv : Inv faulty f q d s'
  took-Inv = record {
    aligned = aligned';
    config = config';
    pending = pending';
    backed = backed';
    distinct_echos = λ k m. (grows k m).distinct_echos (inv.distinct_echos k m);
    distinct_readys = readys'-IsDistinct;
    echo_votes = echo_votes';
    ready_votes = λ k m x h c. (grows x m).keeps_ready (ready_votes_before k m x h c);
    delivery = delivery';
    quorum = quorum';
  }
