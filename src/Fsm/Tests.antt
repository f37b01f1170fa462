-- ===== src/Fsm/Tests.antt =====
-- The counter at concrete commands. A command and a snapshot are their numbers in a row.
use bf_multiraft.Base.{
  ℕ, ◌≡◌, refl, Option, none, some, List, [], ◌∷◌, arith, Bytes, contains, retain,
}
use bf_multiraft.OrdMap.{lookup}
use bf_multiraft.Fsm.Counter.{Cmd, Serde, new, value}
use bf_multiraft.Fsm.Counter.ExactlyOnce.{apply_all, value-apply_all, first_uses}

abbrev get_cmd : Bytes → Option Cmd
get_cmd (i ∷ d ∷ []) = some (record { idem = i; delta = d })
get_cmd _ = none

abbrev get_state : Bytes → Option (ℕ × List ℕ)
get_state [] = none
get_state (v ∷ keys) = some (v, keys)

abbrev pub serde : Serde
serde = record {
  cmd = record {
    to_vec = λ c. c.idem ∷ c.delta ∷ [];
    from_slice = get_cmd;
    round_trip = λ c. refl;
  };
  state = record { to_vec = λ s. s.0 ∷ s.1; from_slice = get_state; round_trip = λ s. refl };
  iter_order = λ keys. keys;
  contains-iter_order = λ keys k. refl;
}

abbrev add : ℕ → ℕ → Cmd
add delta idem = record { idem = idem; delta = delta }

-- The second command repeats the key of the first, and the third is -1.
abbrev commands : List Cmd
commands = add 5 1 ∷ add 9 1 ∷ add 18446744073709551615 2 ∷ []

value-apply_all_example : value (apply_all 7 commands new) 7 ≡ 4
unfolding first_uses retain contains value lookup
value-apply_all_example = value-apply_all 7 commands new (omega arith)
