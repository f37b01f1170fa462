-- ===== src/Fsm/Counter/ExactlyOnce.antt =====
-- Retries: each idempotency key counts once, with the delta that came first.
use bf_multiraft.Base.{
  ℕ, ◌+◌, ◌%◌, ◌^◌, ◌<◌, ◌≡◌, sym, ap, ◌∙◌, fun_ext, not, List, [], ◌∷◌, arith, ◌==◌, contains,
  retain, retain-retain,
}
use bf_multiraft.Fsm.Counter.{Cmd, CounterFsm, value, seen_keys, apply_cmd}
use bf_multiraft.Fsm.Counter.Value.{value-apply_cmd, contains-apply_cmd}

-- Commands of one group, applied in the order of its log.
unfoldable pub apply_all : ℕ → List Cmd → CounterFsm → CounterFsm
apply_all group [] s = s
apply_all group (cmd ∷ cmds) s = apply_all group cmds (apply_cmd group cmd s)

abbrev pub total : List Cmd → ℕ
total [] = 0
total (cmd ∷ cmds) = cmd.delta + total cmds

-- The first command with each key.
unfoldable pub first_uses : List Cmd → List Cmd
first_uses [] = []
first_uses (cmd ∷ cmds) = cmd ∷ retain (λ c. not (cmd.idem == c.idem)) (first_uses cmds)

abbrev pub unseen : List ℕ → List Cmd → List Cmd
unseen keys = retain (λ c. not (contains keys c.idem))

module _ (group : ℕ) where
  unseen-apply_cmd :
      (cmd : Cmd) (s : CounterFsm) (cs : List Cmd)
      → unseen (seen_keys (apply_cmd group cmd s) group) cs
        ≡ unseen (seen_keys s group) (retain (λ c. not (cmd.idem == c.idem)) cs)
  unseen-apply_cmd cmd s cs =
      ap (λ p. retain p cs)
        (fun_ext λ (c : Cmd). ground (arith, contains-apply_cmd group cmd s group c.idem))
      ∙ sym (retain-retain _ _ cs)

  -- After any commands the value is what it was, plus the deltas of the first command with each key
  -- that was new, modulo 2 ^ 64.
  pub value-apply_all :
      (cmds : List Cmd) (s : CounterFsm)
      → value s group < 2 ^ 64
      → value (apply_all group cmds s) group
        ≡ (value s group + total (unseen (seen_keys s group) (first_uses cmds))) % 2 ^ 64
  unfolding apply_all first_uses retain
  value-apply_all [] s h = omega arith
  value-apply_all (cmd ∷ cmds) s h = ground (
    arith,
    value-apply_all cmds (apply_cmd group cmd s),
    value-apply_cmd group cmd s group,
    ap total (unseen-apply_cmd cmd s (first_uses cmds)),
  )
