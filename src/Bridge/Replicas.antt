-- ===== src/Bridge/Replicas.antt =====
-- A replica that installs a snapshot goes on as the one that built it.
use bf_multiraft.Base.{
  ◌≡◌, refl, sym, ap, subst, ◌∙◌, Bool, true, Bool-cases, inl, inr, some, List, [], ◌∷◌, ◌++◌,
  Bytes,
}
use bf_multiraft.Io.{Io, IoResult, IoError, ok, err, Env, of_ok}
use bf_multiraft.Fsm.{Result, StateMachine, Restorable}
use bf_multiraft.Fsm
use bf_multiraft.Core.{Response, is_standby_snapshot_trigger}
use bf_multiraft.Catalog.{Params, Disk}
use bf_multiraft.Bridge.{
  SmTypes, EntryPayload, blank, normal, membership, Item, StoredSnapshot, SmOptions,
  StateMachineStoreInner, Applied, map_err, respond_to, record_applied, after_entry, one_response,
  apply_entries, apply, applied_state, build_snapshot, install_snapshot, Trigger, map_ok,
  build_from, installed, restored, install, built,
}

module _ (T : SmTypes) (M : StateMachine) (R : Restorable M) where
  -- The two hold the same group in the same state.
  pub record Alike (s t : StateMachineStoreInner T M) : Type 0 where
    pub group_eq : s.group_id ≡ t.group_id
    pub applied_eq : applied_state T M s ≡ applied_state T M t
    pub same : R.Same s.group_id s.fsm t.fsm

  respond_to-Alike :
      (f g : Bool) (id : T.LogId) (payload : EntryPayload T) (s t : StateMachineStoreInner T M)
      → Alike s t
      → ((respond_to T M f id payload s).0 ≡ (respond_to T M g id payload t).0)
        × Alike (respond_to T M f id payload s).1 (respond_to T M g id payload t).1
  unfolding respond_to applied_state
  respond_to-Alike f g id blank s t h = (refl, h)
  respond_to-Alike f g id (membership mem) s t h = (
    refl,
    record {
      group_eq = h.group_eq;
      applied_eq = ap (λ x. (x.0, T.new_membership (some id) mem)) h.applied_eq;
      same = h.same;
    },
  )
  respond_to-Alike f g id (normal req) s t h =
      elim (Bool-cases (is_standby_snapshot_trigger req.payload)) [
        | inl e ↦ rw e (refl, h)
        | inr e ↦
            let (a, b) = R.Same-apply s.group_id (T.index id) req.payload s.fsm t.fsm h.same in
            rw (e, ← h.group_eq)
              (
                ap (λ r. map_ok T M (map_err IoError.other r)) a,
                record { group_eq = refl; applied_eq = h.applied_eq; same = b },
              )
      ]

  -- The same result, the same responses, and states that are alike.
  abbrev pub Answers : Applied T M → Applied T M → Type 0
  Answers a b = (a.result ≡ b.result) × (a.sent ≡ b.sent) × Alike a.inner b.inner

  after_entry-Answers :
      (responder : Bool) (x y : IoResult Response × StateMachineStoreInner T M × List (Trigger T))
      (k l : StateMachineStoreInner T M → Applied T M)
      → x.0 ≡ y.0
      → Alike x.1 y.1
      → ((u v : StateMachineStoreInner T M) → Alike u v → Answers (k u) (l v))
      → Answers (after_entry T M responder x k) (after_entry T M responder y l)
  after_entry-Answers responder (err e, u, _) (err e', v, _) k l q h f =
      let r : e ≡ e' = cc in (ap (λ z. err z) r, refl, h)
  after_entry-Answers responder (err e, u, _) (ok r, v, _) k l q h f = cc
  after_entry-Answers responder (ok r, u, _) (err e, v, _) k l q h f = cc
  after_entry-Answers responder (ok r, u, _) (ok r', v, _) k l q h f =
      let (a, b, c) = f u v h in
      let same_response : r ≡ r' = cc in
      (
        a,
        ap (λ z. one_response T M responder z ++ (k u).sent) same_response
            ∙ ap (λ z. one_response T M responder r' ++ z) b,
        c,
      )

  record_applied-Alike :
      (id : T.LogId) (s t : StateMachineStoreInner T M)
      → Alike s t
      → Alike (record_applied T M id s) (record_applied T M id t)
  unfolding applied_state
  record_applied-Alike id s t h = record {
    group_eq = h.group_eq;
    applied_eq = ap (λ x. (some id, x.1)) h.applied_eq;
    same = h.same;
  }

  apply_entries-Answers :
      (f g : Bool) (items : List (Item T)) (s t : StateMachineStoreInner T M)
      → Alike s t
      → Answers (apply_entries T M f items s) (apply_entries T M g items t)
  unfolding apply_entries
  apply_entries-Answers f g [] s t h = (refl, refl, h)
  apply_entries-Answers f g (err e ∷ items) s t h = (refl, refl, h)
  apply_entries-Answers f g (ok (entry, responder) ∷ items) s t h =
      let (a, b) =
        respond_to-Alike f g entry.log_id entry.payload (record_applied T M entry.log_id s)
          (record_applied T M entry.log_id t) (record_applied-Alike entry.log_id s t h) in
      after_entry-Answers responder
        (respond_to T M f entry.log_id entry.payload (record_applied T M entry.log_id s))
        (respond_to T M g entry.log_id entry.payload (record_applied T M entry.log_id t))
        (apply_entries T M f items) (apply_entries T M g items) a b
        (apply_entries-Answers f g items)

  -- Stores that are alike apply the same entries with the same result and responses, and stay
  -- alike, whether or not they have a trigger.
  pub apply-Answers :
      (o o' : SmOptions T) (items : List (Item T)) (s t : StateMachineStoreInner T M)
      → Alike s t
      → Answers (apply T M o items s) (apply T M o' items t)
  unfolding apply
  apply-Answers o o' items s t h = apply_entries-Answers o.has_trigger o'.has_trigger items s t h

  module _ (p : Params) where
    restored-inner :
        (snap : StoredSnapshot T) (x : Result M.Error (Unit {0}) × M.State)
        (t : StateMachineStoreInner T M) (save : Io Disk (Unit {0})) (w : Env Disk)
        → x.0 ≡ Fsm.ok tt
        → (restored T M p snap x t save w).inner ≡ installed T M p snap x.1 t
    restored-inner snap (Fsm.ok u, fsm) t save w h = refl
    restored-inner snap (Fsm.err e, fsm) t save w h = cc

    restored-Alike :
        (s t : StateMachineStoreInner T M) (w w' : Env Disk) (snap : StoredSnapshot T)
        (save : Io Disk (Unit {0})) (r : Result M.Error Bytes)
        → s.group_id ≡ t.group_id
        → M.freeze_for_snapshot s.group_id s.fsm ≡ r
        → (build_from T M p s w (map_err IoError.other r)).result ≡ ok snap
        → Alike
            (build_from T M p s w (map_err IoError.other r)).inner
            (install T M p snap save t w').inner
    unfolding applied_state
    restored-Alike s t w w' snap save (Fsm.err e) q f h = cc
    restored-Alike s t w w' snap save (Fsm.ok b) q f h =
        let (r, same) =
          subst
            (λ g.
              ((M.restore g b t.fsm).0 ≡ Fsm.ok tt)
              × R.Same s.group_id s.fsm (M.restore g b t.fsm).1)
            q (R.Same-restore s.group_id s.fsm t.fsm b f) in
        of_ok (λ x. Alike (build_from T M p s w (ok b)).inner (install T M p x save t w').inner) h
          (subst (λ x. Alike (build_from T M p s w (ok b)).inner x)
            (sym (restored-inner (built T M p s b) (M.restore t.group_id b t.fsm) t save w' r))
            (record { group_eq = q; applied_eq = refl; same = same }))

    -- A store that installs what a hot build gave is alike to the one that built it, also where the
    -- catalog then fails to save the snapshot.
    pub install_snapshot-Alike :
        (o o' : SmOptions T) (s t : StateMachineStoreInner T M) (w w' : Env Disk)
        (snap : StoredSnapshot T)
        → o.allow_hot_build ≡ true
        → s.group_id ≡ t.group_id
        → (build_snapshot T M p o s w).result ≡ ok snap
        → Alike (build_snapshot T M p o s w).inner (install_snapshot T M p o' snap t w').inner
    unfolding build_snapshot install_snapshot applied_state
    install_snapshot-Alike o o' s t w w' snap hot q h =
        let f : build_snapshot T M p o s w
            ≡ build_from T M p s w
                (map_err IoError.other (M.freeze_for_snapshot s.group_id s.fsm)) =
          rw hot refl in
        subst (λ x. Alike x.inner (install_snapshot T M p o' snap t w').inner) (sym f)
          (restored-Alike s t w w' snap _ (M.freeze_for_snapshot s.group_id s.fsm) q refl
            (subst (λ x. x.result ≡ ok snap) f h))
