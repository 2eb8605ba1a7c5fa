-- ===== src/Bracha/Slot/Writes.antt =====
-- The writes and reads of the handlers of bracha.py on a well-formed ledger: none raises, and each
-- changes one slot.
use distributed_algo.Prelude.{
  String, [], true, false, ◌≡◌, ◌∙◌, ap, arith, get_or, index, put, add, has-put, get_or-put,
  index-has, eq_string, eq_iff, ok,
}
use distributed_algo.Bracha.Ledger.{
  Ledger, add_echo, add_ready, mark_echo, mark_ready, mark_delivered,
}
use distributed_algo.Bracha.Slot.{Slot, slot, IsAligned, Knows, Updates, Updates-trans, Updates-to}

module _ (m : String) (l : Ledger) (a : IsAligned l) (k : Knows l m) where
  pub add_echo-Updates :
      (src : String)
      → (l' : Ledger) × (add_echo m src l ≡ ok l')
        × Updates l m (record (slot l m) { echos = add src (slot l m).echos }) l'
  unfolding add_echo slot
  add_echo-Updates src =
      let e = add src (get_or l.echos m []) in
      (
        record l { echos = put l.echos m e },
        ground (arith, index-has l.echos m []),
        record {
          aligned = record {
            readys = λ j. ground (arith, has-put l.echos m j e, a.readys j, eq_iff m j);
            sent_echo = λ j. ground (arith, has-put l.echos m j e, a.sent_echo j, eq_iff m j);
            sent_ready = λ j. ground (arith, has-put l.echos m j e, a.sent_ready j, eq_iff m j);
            delivered = λ j. ground (arith, has-put l.echos m j e, a.delivered j, eq_iff m j);
          };
          knows = ground (arith, has-put l.echos m m e);
          here = ground (arith, get_or-put l.echos m m e [], eq_iff m m);
          others = λ j h. ground (arith, get_or-put l.echos m j e []);
          keeps = λ j h. ground (arith, has-put l.echos m j e);
        },
      )

  pub add_ready-Updates :
      (src : String)
      → (l' : Ledger) × (add_ready m src l ≡ ok l')
        × Updates l m (record (slot l m) { readys = add src (slot l m).readys }) l'
  unfolding add_ready slot
  add_ready-Updates src =
      let r = add src (get_or l.readys m []) in
      (
        record l { readys = put l.readys m r },
        ground (arith, index-has l.readys m [], a.readys m),
        record {
          aligned = record {
            readys = λ j. ground (arith, has-put l.readys m j r, a.readys j, eq_iff m j);
            sent_echo = a.sent_echo;
            sent_ready = a.sent_ready;
            delivered = a.delivered;
          };
          knows = k;
          here = ground (arith, get_or-put l.readys m m r [], eq_iff m m);
          others = λ j h. ground (arith, get_or-put l.readys m j r []);
          keeps = λ j h. h;
        },
      )

  pub mark_echo-Updates : Updates l m (record (slot l m) { sent_echo = true }) (mark_echo m l)
  unfolding mark_echo slot
  mark_echo-Updates = record {
    aligned = record {
      readys = a.readys;
      sent_echo = λ j. ground (arith, has-put l.sent_echo m j true, a.sent_echo j, eq_iff m j);
      sent_ready = a.sent_ready;
      delivered = a.delivered;
    };
    knows = k;
    here = ground (arith, get_or-put l.sent_echo m m true false, eq_iff m m);
    others = λ j h. ground (arith, get_or-put l.sent_echo m j true false);
    keeps = λ j h. h;
  }

  pub mark_ready-Updates : Updates l m (record (slot l m) { sent_ready = true }) (mark_ready m l)
  unfolding mark_ready slot
  mark_ready-Updates = record {
    aligned = record {
      readys = a.readys;
      sent_echo = a.sent_echo;
      sent_ready = λ j. ground (arith, has-put l.sent_ready m j true, a.sent_ready j, eq_iff m j);
      delivered = a.delivered;
    };
    knows = k;
    here = ground (arith, get_or-put l.sent_ready m m true false, eq_iff m m);
    others = λ j h. ground (arith, get_or-put l.sent_ready m j true false);
    keeps = λ j h. h;
  }

  pub mark_delivered-Updates :
      Updates l m (record (slot l m) { delivered = true }) (mark_delivered m l)
  unfolding mark_delivered slot
  mark_delivered-Updates = record {
    aligned = record {
      readys = a.readys;
      sent_echo = a.sent_echo;
      sent_ready = a.sent_ready;
      delivered = λ j. ground (arith, has-put l.delivered m j true, a.delivered j, eq_iff m j);
    };
    knows = k;
    here = ground (arith, get_or-put l.delivered m m true false, eq_iff m m);
    others = λ j h. ground (arith, get_or-put l.delivered m j true false);
    keeps = λ j h. h;
  }

  -- the reads of the handlers
  pub index-slot :
      (index l.echos m ≡ ok (slot l m).echos)
      × (index l.readys m ≡ ok (slot l m).readys)
      × (index l.sent_echo m ≡ ok (slot l m).sent_echo)
      × (index l.sent_ready m ≡ ok (slot l m).sent_ready)
      × (index l.delivered m ≡ ok (slot l m).delivered)
  unfolding slot
  index-slot = (
    index-has l.echos m [] k,
    index-has l.readys m [] (a.readys m ∙ k),
    index-has l.sent_echo m false (a.sent_echo m ∙ k),
    index-has l.sent_ready m false (a.sent_ready m ∙ k),
    index-has l.delivered m false (a.delivered m ∙ k),
  )

-- The same, behind the writes that led from `l` to `l'`.
module _ {l l' : Ledger} {m : String} {σ : Slot} (u : Updates l m σ l') where
  pub add_echo_after :
      (src : String)
      → (l'' : Ledger) × (add_echo m src l' ≡ ok l'')
        × Updates l m (record σ { echos = add src σ.echos }) l''
  add_echo_after src =
      let (l'', e, v) = add_echo-Updates m l' u.aligned u.knows src in
      let step = ap (λ (τ : Slot). record τ { echos = add src τ.echos }) u.here in
      (l'', e, Updates-trans u (Updates-to step v))

  pub add_ready_after :
      (src : String)
      → (l'' : Ledger) × (add_ready m src l' ≡ ok l'')
        × Updates l m (record σ { readys = add src σ.readys }) l''
  add_ready_after src =
      let (l'', e, v) = add_ready-Updates m l' u.aligned u.knows src in
      let step = ap (λ (τ : Slot). record τ { readys = add src τ.readys }) u.here in
      (l'', e, Updates-trans u (Updates-to step v))

  pub mark_echo_after : Updates l m (record σ { sent_echo = true }) (mark_echo m l')
  mark_echo_after = Updates-trans u (
      Updates-to (ap (λ (τ : Slot). record τ { sent_echo = true }) u.here)
        (mark_echo-Updates m l' u.aligned u.knows))

  pub mark_ready_after : Updates l m (record σ { sent_ready = true }) (mark_ready m l')
  mark_ready_after = Updates-trans u (
      Updates-to (ap (λ (τ : Slot). record τ { sent_ready = true }) u.here)
        (mark_ready-Updates m l' u.aligned u.knows))

  pub mark_delivered_after : Updates l m (record σ { delivered = true }) (mark_delivered m l')
  mark_delivered_after = Updates-trans u (
      Updates-to (ap (λ (τ : Slot). record τ { delivered = true }) u.here)
        (mark_delivered-Updates m l' u.aligned u.knows))

  pub reads :
      (index l'.echos m ≡ ok σ.echos)
      × (index l'.readys m ≡ ok σ.readys)
      × (index l'.sent_echo m ≡ ok σ.sent_echo)
      × (index l'.sent_ready m ≡ ok σ.sent_ready)
      × (index l'.delivered m ≡ ok σ.delivered)
  reads = rw (← u.here) (index-slot m l' u.aligned u.knows)
