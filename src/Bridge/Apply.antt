-- ===== src/Bridge/Apply.antt =====
-- What applying a stream of committed entries does, when it succeeds.
use bf_multiraft.Base.{
  ℕ, ◌≡◌, refl, sym, ap, ap₂, ◌∙◌, Bool, true, false, Bool-cases, inl, inr, List, [], ◌∷◌, ◌++◌,
  Bytes, if◌then◌else◌,
}
use bf_multiraft.Io.{IoResult, IoError, ok, err, of_ok}
use bf_multiraft.Fsm.{Result, ApplyOut, StateMachine}
use bf_multiraft.Fsm
use bf_multiraft.Core.{Response, is_standby_snapshot_trigger}
use bf_multiraft.Bridge.{
  SmTypes, EntryPayload, blank, normal, membership, Entry, Item, SmOptions, StateMachineStoreInner,
  Applied, Trigger, respond_to, record_applied, after_entry, one_response, apply_entries, apply,
  called, map_ok, map_err,
}
use bf_multiraft.Bridge.Entries.{
  commands, run_commands, asked, last_log_id, memberships, replies, Effects, command_of, trigger_of,
  membership_of, answer_of, reply,
}

module _ (T : SmTypes) (M : StateMachine) where
  -- What one entry does, if it is answered.
  record Step (has_trigger : Bool) (id : T.LogId) (payload : EntryPayload T)
      (s : StateMachineStoreInner T M)
      (x : IoResult Response × StateMachineStoreInner T M × List (Trigger T)) : Type 0 where
    group_eq : x.1.group_id ≡ s.group_id
    fsm_eq : x.1.fsm ≡ run_commands T M s.group_id (command_of T M id payload) s.fsm
    applied_eq : x.1.last_applied_log ≡ s.last_applied_log
    membership_eq : x.1.last_membership ≡ membership_of T M id payload s.last_membership
    snapshot_eq : x.1.current_snapshot ≡ s.current_snapshot
    snapshot_idx_eq : x.1.snapshot_idx ≡ s.snapshot_idx
    reply_eq : (r : Response) → x.0 ≡ ok r → r ≡ reply T M s.group_id id payload s.fsm
    triggers_eq : x.2 ≡ (if has_trigger then trigger_of T M s.group_id id payload else [])

  nothing_if : (f : Bool) → ◌≡◌ {A = List (Trigger T)} [] (if f then [] else [])
  nothing_if true = refl
  nothing_if false = refl

  command-reply :
      (out : Result M.Error ApplyOut) (r : Response)
      → map_ok T M (map_err IoError.other out) ≡ ok r
      → r ≡ answer_of T M out
  command-reply (Fsm.ok out) r h = sym (of_ok (λ x. answer_of T M (Fsm.ok out) ≡ x) h refl)
  command-reply (Fsm.err e) r h = cc

  -- An entry that leaves the state machine alone.
  same-reply :
      (r : Response)
      → ◌≡◌ {A = IoResult Response} (ok (record { effects = [] })) (ok r)
      → r ≡ record { effects = [] }
  same-reply r h = sym (of_ok (λ (x : Response). record { effects = [] } ≡ x) h refl)

  respond_to-Step :
      (f : Bool) (id : T.LogId) (payload : EntryPayload T) (s : StateMachineStoreInner T M)
      → Step f id payload s (respond_to T M f id payload s)
  unfolding respond_to run_commands
  respond_to-Step f id blank s = record {
    group_eq = refl;
    fsm_eq = refl;
    applied_eq = refl;
    membership_eq = refl;
    snapshot_eq = refl;
    snapshot_idx_eq = refl;
    reply_eq = same-reply;
    triggers_eq = nothing_if f;
  }
  respond_to-Step f id (membership mem) s = record {
    group_eq = refl;
    fsm_eq = refl;
    applied_eq = refl;
    membership_eq = refl;
    snapshot_eq = refl;
    snapshot_idx_eq = refl;
    reply_eq = same-reply;
    triggers_eq = nothing_if f;
  }
  respond_to-Step f id (normal req) s =
      elim (Bool-cases (is_standby_snapshot_trigger req.payload)) [
        | inl e ↦ elim (Bool-cases f) [
          | inl b ↦ record {
            group_eq = rw e refl;
            fsm_eq = rw e refl;
            applied_eq = rw e refl;
            membership_eq = rw e refl;
            snapshot_eq = rw e refl;
            snapshot_idx_eq = rw e refl;
            reply_eq = rw e same-reply;
            triggers_eq = rw (e, b) refl;
          }
          | inr b ↦ record {
            group_eq = rw e refl;
            fsm_eq = rw e refl;
            applied_eq = rw e refl;
            membership_eq = rw e refl;
            snapshot_eq = rw e refl;
            snapshot_idx_eq = rw e refl;
            reply_eq = rw e same-reply;
            triggers_eq = rw (e, b) refl;
          }
        ]
        | inr e ↦ record {
          group_eq = rw e refl;
          fsm_eq = rw e refl;
          applied_eq = rw e refl;
          membership_eq = rw e refl;
          snapshot_eq = rw e refl;
          snapshot_idx_eq = rw e refl;
          reply_eq = rw e (command-reply (M.apply s.group_id (T.index id) req.payload s.fsm).0);
          triggers_eq = rw e (nothing_if f);
        }
      ]

  run_commands-append :
      (group : ℕ) (cs ds : List (T.LogId × Bytes)) (fsm : M.State)
      → run_commands T M group (cs ++ ds) fsm
        ≡ run_commands T M group ds (run_commands T M group cs fsm)
  unfolding run_commands
  run_commands-append group [] ds fsm = refl
  run_commands-append group ((id, c) ∷ cs) ds fsm =
      run_commands-append group cs ds (M.apply group (T.index id) c fsm).1

  one_response-if : (b : Bool) (r : Response) → one_response T M b r ≡ (if b then r ∷ [] else [])
  one_response-if true r = refl
  one_response-if false r = refl

  append_if :
      (f : Bool) (a b : List (Trigger T))
      → (if f then a else []) ++ (if f then b else []) ≡ (if f then a ++ b else [])
  append_if true a b = refl
  append_if false a b = refl

  after_entry-Effects :
      (f responder : Bool) (entry : Entry T) (items : List (Item T))
      (s : StateMachineStoreInner T M)
      (x : IoResult Response × StateMachineStoreInner T M × List (Trigger T))
      (rest : StateMachineStoreInner T M → Applied T M)
      → Step f entry.log_id entry.payload (record_applied T M entry.log_id s) x
      → ((u : StateMachineStoreInner T M)
          → (rest u).result ≡ ok tt
          → Effects T M f items u (rest u))
      → (after_entry T M responder x rest).result ≡ ok tt
      → Effects T M f (ok (entry, responder) ∷ items) s (after_entry T M responder x rest)
  unfolding commands asked last_log_id memberships replies
  after_entry-Effects f responder entry items s (err e, u, ts) rest st k h = cc
  after_entry-Effects f responder entry items s (ok r, u, ts) rest st k h =
      let e = k u h in
      record {
        group_eq = e.group_eq ∙ st.group_eq;
        fsm_eq =
            e.fsm_eq
            ∙ ap₂ (λ g m. run_commands T M g (commands T M items) m) st.group_eq st.fsm_eq
            ∙ sym (
                run_commands-append s.group_id (command_of T M entry.log_id entry.payload)
                  (commands T M items) s.fsm);
        applied_eq = e.applied_eq ∙ ap (λ l. last_log_id T M l items) st.applied_eq;
        membership_eq = e.membership_eq ∙ ap (memberships T M items) st.membership_eq;
        snapshot_eq = e.snapshot_eq ∙ st.snapshot_eq;
        snapshot_idx_eq = e.snapshot_idx_eq ∙ st.snapshot_idx_eq;
        sent_eq =
            ap₂ (λ a b. a ++ b)
              (one_response-if responder r
                ∙ ap (λ x. if responder then x ∷ [] else []) (st.reply_eq r refl))
              (e.sent_eq ∙ ap₂ (λ g m. replies T M g items m) st.group_eq st.fsm_eq);
        triggers_eq =
            ap₂ (λ a b. a ++ b) st.triggers_eq
              (e.triggers_eq ∙ ap (λ g. if f then asked T M g items else []) st.group_eq)
            ∙ append_if f (trigger_of T M s.group_id entry.log_id entry.payload)
                (asked T M s.group_id items);
      }

  apply_entries-Effects :
      (f : Bool) (items : List (Item T)) (s : StateMachineStoreInner T M)
      → (apply_entries T M f items s).result ≡ ok tt
      → Effects T M f items s (apply_entries T M f items s)
  unfolding apply_entries commands run_commands asked last_log_id memberships replies
  apply_entries-Effects f [] s h = record {
    group_eq = refl;
    fsm_eq = refl;
    applied_eq = refl;
    membership_eq = refl;
    snapshot_eq = refl;
    snapshot_idx_eq = refl;
    sent_eq = refl;
    triggers_eq = nothing_if f;
  }
  apply_entries-Effects f (err e ∷ items) s h = cc
  apply_entries-Effects f (ok (entry, responder) ∷ items) s h =
      after_entry-Effects f responder entry items s
        (respond_to T M f entry.log_id entry.payload (record_applied T M entry.log_id s))
        (apply_entries T M f items)
        (respond_to-Step f entry.log_id entry.payload (record_applied T M entry.log_id s))
        (apply_entries-Effects f items) h

  called-ok : (r : IoResult (Unit {0})) (ts : List (Trigger T)) → r ≡ ok tt → called T M r ts ≡ ts
  called-ok (ok u) ts h = refl
  called-ok (err e) ts h = cc

  -- An `apply` that returns `Ok` has run the commands among the entries on the state machine, in
  -- order and without the triggers, recorded the last log id and the last membership, kept the rest
  -- of the store, sent to each caller that awaits a response, in order, what the state machine
  -- answered to its command, or no effects for any other entry, and called the trigger for each
  -- trigger entry, in order, if there is a callback.
  pub apply-Effects :
      (o : SmOptions T) (items : List (Item T)) (s : StateMachineStoreInner T M)
      → (apply T M o items s).result ≡ ok tt
      → Effects T M o.has_trigger items s (apply T M o items s)
  unfolding apply
  apply-Effects o items s h =
      let e = apply_entries-Effects o.has_trigger items s h in
      record {
        group_eq = e.group_eq;
        fsm_eq = e.fsm_eq;
        applied_eq = e.applied_eq;
        membership_eq = e.membership_eq;
        snapshot_eq = e.snapshot_eq;
        snapshot_idx_eq = e.snapshot_idx_eq;
        sent_eq = e.sent_eq;
        triggers_eq = called-ok _ _ h ∙ e.triggers_eq;
      }

  not_called :
      (r : IoResult (Unit {0})) (ts : List (Trigger T)) (e : IoError)
      → r ≡ err e
      → called T M r ts ≡ []
  not_called (ok u) ts e h = cc
  not_called (err x) ts e h = refl

  -- A stream that ends in an error, of the stream or of the state machine, calls no trigger.
  pub apply-no_trigger :
      (o : SmOptions T) (items : List (Item T)) (s : StateMachineStoreInner T M) (e : IoError)
      → (apply T M o items s).result ≡ err e
      → (apply T M o items s).triggers ≡ []
  unfolding apply
  apply-no_trigger o items s e h = not_called _ _ e h
