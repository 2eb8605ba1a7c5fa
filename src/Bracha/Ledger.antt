-- ===== src/Bracha/Ledger.antt =====
-- distbench-py/distbench/algorithms/bracha.py: the five dictionaries of a node, keyed by message
-- id, and the statements of the handlers that read and write them. `bracha_basic.py` and
-- `bracha_optimized.py` declare the same five.
use distributed_algo.Prelude.{
  String, List, [], Bool, true, false, eq_string, Dict, has, index, put, add, if◌then◌else◌, Result,
  ok, ◌>>=◌,
}

pub record Ledger : Type 0 where
  pub echos : Dict String (List String)
  pub readys : Dict String (List String)
  pub sent_echo : Dict String Bool
  pub sent_ready : Dict String Bool
  pub delivered : Dict String Bool

abbrev pub empty_ledger : Ledger
empty_ledger = record { echos = []; readys = []; sent_echo = []; sent_ready = []; delivered = [] }

-- the tests and the writes of `init_state` stand on `echos` alone
unfoldable pub init_state : String → Ledger → Ledger
init_state m l = if has l.echos m then l else (record {
  echos = put l.echos m [];
  readys = put l.readys m [];
  sent_echo = put l.sent_echo m false;
  sent_ready = put l.sent_ready m false;
  delivered = put l.delivered m false;
})

-- `self.echos[msg_id].add(src)`
unfoldable pub add_echo : String → String → Ledger → Result Ledger
add_echo m src l = do
  voters ← index l.echos m
  ok (record l { echos = put l.echos m (add src voters) })

-- `self.readys[msg_id].add(src)`
unfoldable pub add_ready : String → String → Ledger → Result Ledger
add_ready m src l = do
  voters ← index l.readys m
  ok (record l { readys = put l.readys m (add src voters) })

-- `self.sent_echo[msg_id] = True`, and so on
unfoldable pub mark_echo : String → Ledger → Ledger
mark_echo m l = record l { sent_echo = put l.sent_echo m true }

unfoldable pub mark_ready : String → Ledger → Ledger
mark_ready m l = record l { sent_ready = put l.sent_ready m true }

unfoldable pub mark_delivered : String → Ledger → Ledger
mark_delivered m l = record l { delivered = put l.delivered m true }
