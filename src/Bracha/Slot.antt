-- ===== src/Bracha/Slot.antt =====
-- The abstract view of a ledger: what it says of one message id. No statement of a handler raises
-- on a ledger whose five dictionaries have the same keys.
pub mod Writes
use distributed_algo.Prelude.{
  String, List, [], Bool, true, false, ◌≡◌, ◌∙◌, ap, arith, has, get_or, index, put, add, has-put,
  get_or-put, get_or_absent, index-has, eq_string, ◌==◌, eq_iff, ok,
}
use distributed_algo.Bracha.Ledger.{Ledger, init_state}

pub record Slot : Type 0 where
  pub echos : List String
  pub readys : List String
  pub sent_echo : Bool
  pub sent_ready : Bool
  pub delivered : Bool

abbrev pub fresh : Slot
fresh = record { echos = []; readys = []; sent_echo = false; sent_ready = false; delivered = false }

unfoldable pub slot : Ledger → String → Slot
slot l m = record {
  echos = get_or l.echos m [];
  readys = get_or l.readys m [];
  sent_echo = get_or l.sent_echo m false;
  sent_ready = get_or l.sent_ready m false;
  delivered = get_or l.delivered m false;
}

-- A set of keys for each dictionary, and they are the same.
pub record IsAligned (l : Ledger) : Type 0 where
  pub readys : (m : String) → has l.readys m ≡ has l.echos m
  pub sent_echo : (m : String) → has l.sent_echo m ≡ has l.echos m
  pub sent_ready : (m : String) → has l.sent_ready m ≡ has l.echos m
  pub delivered : (m : String) → has l.delivered m ≡ has l.echos m

-- The ledger knows the message id.
abbrev pub Knows : Ledger → String → Type 0
Knows l m = has l.echos m ≡ true

pub init_state-IsAligned : (m : String) (l : Ledger) → IsAligned l → IsAligned (init_state m l)
unfolding init_state
init_state-IsAligned m l a = record {
  readys = λ j. ground (arith, has-put l.echos m j [], has-put l.readys m j [], a.readys j);
  sent_echo =
      λ j. ground (arith, has-put l.echos m j [], has-put l.sent_echo m j false, a.sent_echo j);
  sent_ready =
      λ j. ground (arith, has-put l.echos m j [], has-put l.sent_ready m j false, a.sent_ready j);
  delivered =
      λ j. ground (arith, has-put l.echos m j [], has-put l.delivered m j false, a.delivered j);
}

pub init_state-Knows : (m : String) (l : Ledger) → Knows (init_state m l) m
unfolding init_state
init_state-Knows m l = ground (arith, has-put l.echos m m [], eq_iff m m)

-- `l'` is `l` with the slot `s` at `m`, and every other slot as it was.
pub record Updates (l : Ledger) (m : String) (s : Slot) (l' : Ledger) : Type 0 where
  pub aligned : IsAligned l'
  pub knows : Knows l' m
  pub here : slot l' m ≡ s
  pub others : (j : String) → (m == j) ≡ false → slot l' j ≡ slot l j
  pub keeps : (j : String) → Knows l j → Knows l' j

pub Updates-trans :
    {l l' l'' : Ledger} {m : String} {s s' : Slot}
    → Updates l m s l'
    → Updates l' m s' l''
    → Updates l m s' l''
Updates-trans u v = record {
  aligned = v.aligned;
  knows = v.knows;
  here = v.here;
  others = λ j h. v.others j h ∙ u.others j h;
  keeps = λ j h. v.keeps j (u.keeps j h);
}

pub Updates-to :
    {l l' : Ledger} {m : String} {s s' : Slot} → s ≡ s' → Updates l m s l' → Updates l m s' l'
Updates-to e u = record {
  aligned = u.aligned;
  knows = u.knows;
  here = u.here ∙ e;
  others = u.others;
  keeps = u.keeps;
}

pub init_state-Updates :
    (m : String) (l : Ledger) → IsAligned l → Updates l m (slot l m) (init_state m l)
unfolding init_state slot
init_state-Updates m l a = record {
  aligned = init_state-IsAligned m l a;
  knows = init_state-Knows m l;
  here = same m;
  others = λ j h. same j;
  keeps = λ j h. ground (arith, has-put l.echos m j []);
}
  where
    same : (j : String) → slot (init_state m l) j ≡ slot l j
    same j = ground (
      arith,
      eq_iff m j,
      a.readys j,
      a.sent_echo j,
      a.sent_ready j,
      a.delivered j,
      get_or-put l.echos m j [] [],
      get_or-put l.readys m j [] [],
      get_or-put l.sent_echo m j false false,
      get_or-put l.sent_ready m j false false,
      get_or-put l.delivered m j false false,
      get_or_absent l.echos j [],
      get_or_absent l.readys j [],
      get_or_absent l.sent_echo j false,
      get_or_absent l.sent_ready j false,
      get_or_absent l.delivered j false,
    )
