-- ===== src/Bracha/Progress.antt =====
-- How one slot may change in a turn of bracha.py: sets grow, flags are only raised, and each new
-- vote and each raised flag has a reason.
use distributed_algo.Prelude.{
  ◌+◌, ◌≤◌, String, List, true, ◌≡◌, refl, ◌⊎◌, inl, inr, arith, eq_string, eq_iff, add, contains,
  length, IsDistinct, contains-add, IsDistinct-add, length-add,
}
use distributed_algo.Bracha.Slot.{Slot}
use distributed_algo.Bracha.Effect.{Rules, echoed, after_echo, after_ready, after_deliver}

-- `Voted phase x`: the turn took in a vote of that phase from `x`.
pub record Progress (c : Rules) (Voted : String → String → Type 0) (σ τ : Slot) : Type 0 where
  pub more_echos : length σ.echos ≤ length τ.echos
  pub more_readys : length σ.readys ≤ length τ.readys
  pub keeps_echo : σ.sent_echo ≡ true → τ.sent_echo ≡ true
  pub keeps_ready : σ.sent_ready ≡ true → τ.sent_ready ≡ true
  pub keeps_delivered : σ.delivered ≡ true → τ.delivered ≡ true
  pub distinct_echos : IsDistinct σ.echos → IsDistinct τ.echos
  pub distinct_readys : IsDistinct σ.readys → IsDistinct τ.readys
  pub echo_source :
      (x : String)
      → contains τ.echos x ≡ true
      → (contains σ.echos x ≡ true) ⊎ Voted "echo" x ⊎ ((x ≡ c.id) × (τ.sent_echo ≡ true))
  pub ready_source :
      (x : String) → contains τ.readys x ≡ true → (contains σ.readys x ≡ true) ⊎ Voted "ready" x
  pub ready_reason :
      τ.sent_ready ≡ true
      → (σ.sent_ready ≡ true) ⊎ (c.echo_quorum ≤ length τ.echos) ⊎ (c.f + 1 ≤ length τ.readys)
  pub delivery_reason :
      τ.delivered ≡ true → (σ.delivered ≡ true) ⊎ (c.ready_quorum ≤ length τ.readys)

added-source :
    (a : String) (xs : List String) (x : String)
    → contains (add a xs) x ≡ true
    → (contains xs x ≡ true) ⊎ (x ≡ a)
added-source a xs x h = ground (arith, contains-add a x xs, eq_iff a x)

module _ {c : Rules} {Voted : String → String → Type 0} where
  pub Progress-refl : (σ : Slot) → Progress c Voted σ σ
  Progress-refl σ = record {
    more_echos = omega arith;
    more_readys = omega arith;
    keeps_echo = λ h. h;
    keeps_ready = λ h. h;
    keeps_delivered = λ h. h;
    distinct_echos = λ h. h;
    distinct_readys = λ h. h;
    echo_source = λ x h. inl h;
    ready_source = λ x h. inl h;
    ready_reason = λ h. inl h;
    delivery_reason = λ h. inl h;
  }

  pub Progress-trans :
      {σ τ υ : Slot} → Progress c Voted σ τ → Progress c Voted τ υ → Progress c Voted σ υ
  Progress-trans p q = record {
    more_echos = omega arith;
    more_readys = omega arith;
    keeps_echo = λ h. q.keeps_echo (p.keeps_echo h);
    keeps_ready = λ h. q.keeps_ready (p.keeps_ready h);
    keeps_delivered = λ h. q.keeps_delivered (p.keeps_delivered h);
    distinct_echos = λ h. q.distinct_echos (p.distinct_echos h);
    distinct_readys = λ h. q.distinct_readys (p.distinct_readys h);
    echo_source = λ x h. elim (q.echo_source x h) [
      | inl old ↦ elim (p.echo_source x old) [
        | inl older ↦ inl older
        | inr (inl v) ↦ inr (inl v)
        | inr (inr (e, k)) ↦ inr (inr (e, q.keeps_echo k))
      ]
      | inr new ↦ inr new
    ];
    ready_source =
        λ x h. elim (q.ready_source x h) [ inl old ↦ p.ready_source x old | inr new ↦ inr new ];
    ready_reason = λ h. elim (q.ready_reason h) [
      | inl old ↦ elim (p.ready_reason old) [
        | inl older ↦ inl older
        | inr (inl k) ↦ inr (inl (omega arith))
        | inr (inr k) ↦ inr (inr (omega arith))
      ]
      | inr new ↦ inr new
    ];
    delivery_reason = λ h. elim (q.delivery_reason h) [
      | inl old ↦ elim (p.delivery_reason old) [ inl older ↦ inl older | inr k ↦ inr (omega arith) ]
      | inr new ↦ inr new
    ];
  }

  pub Progress-echoed : (σ : Slot) → Progress c Voted σ (echoed c.id σ)
  Progress-echoed σ = record {
    more_echos = (length-add c.id σ.echos).0;
    more_readys = omega arith;
    keeps_echo = λ h. refl;
    keeps_ready = λ h. h;
    keeps_delivered = λ h. h;
    distinct_echos = IsDistinct-add c.id σ.echos;
    distinct_readys = λ h. h;
    echo_source = λ x h. elim (added-source c.id σ.echos x h) [
      | inl old ↦ inl old
      | inr e ↦ inr (inr (e, refl))
    ];
    ready_source = λ x h. inl h;
    ready_reason = λ h. inl h;
    delivery_reason = λ h. inl h;
  }

  pub Progress-echo :
      (src : String) (σ : Slot)
      → Voted "echo" src
      → Progress c Voted σ (after_echo c.echo_quorum src σ)
  Progress-echo src σ v = record {
    more_echos = (length-add src σ.echos).0;
    more_readys = omega arith;
    keeps_echo = λ h. h;
    keeps_ready = λ h. ground arith;
    keeps_delivered = λ h. h;
    distinct_echos = IsDistinct-add src σ.echos;
    distinct_readys = λ h. h;
    echo_source = λ x h. elim (added-source src σ.echos x h) [
      | inl old ↦ inl old
      | inr e ↦ inr (inl (rw e v))
    ];
    ready_source = λ x h. inl h;
    ready_reason = λ h. ground arith;
    delivery_reason = λ h. inl h;
  }

  pub Progress-ready :
      (src : String) (σ : Slot) → Voted "ready" src → Progress c Voted σ (after_ready c.f src σ)
  Progress-ready src σ v = record {
    more_echos = omega arith;
    more_readys = (length-add src σ.readys).0;
    keeps_echo = λ h. h;
    keeps_ready = λ h. ground arith;
    keeps_delivered = λ h. h;
    distinct_echos = λ h. h;
    distinct_readys = IsDistinct-add src σ.readys;
    echo_source = λ x h. inl h;
    ready_source =
        λ x h. elim (added-source src σ.readys x h) [ inl old ↦ inl old | inr e ↦ inr (rw e v) ];
    ready_reason = λ h. ground arith;
    delivery_reason = λ h. inl h;
  }

  pub Progress-deliver : (σ : Slot) → Progress c Voted σ (after_deliver c.ready_quorum σ)
  Progress-deliver σ = record {
    more_echos = omega arith;
    more_readys = omega arith;
    keeps_echo = λ h. h;
    keeps_ready = λ h. h;
    keeps_delivered = λ h. ground arith;
    distinct_echos = λ h. h;
    distinct_readys = λ h. h;
    echo_source = λ x h. inl h;
    ready_source = λ x h. inl h;
    ready_reason = λ h. inl h;
    delivery_reason = λ h. ground arith;
  }
