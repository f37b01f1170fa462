-- ===== src/Net/Channels/Reuse.antt =====
-- However tasks interleave, those that get a channel to a peer get the same one.
use bf_multiraft.Base.{
  ℕ, zero, suc, ◌≡◌, refl, subst, Bool-cases, Option, none, some, List, [], ◌∷◌, All, arith, inl,
  inr, ◌==◌,
}
use bf_multiraft.OrdMap.{OrdMap, lookup, insert, lookup-insert}
use bf_multiraft.Core.{SocketAddr}
use bf_multiraft.Net.Channels.{
  GrpcRouter, Stage, starts, connects, connected, records, returned, failed, Task, look_up,
  channel_for, insert_or_reuse, await_connect, System, and_task, step, run, begun,
}

-- A task that has a channel to hand back has the one in the cache.
abbrev Holds : ℕ → Stage → OrdMap ℕ → Type 0
Holds peer (records ch) channels = lookup peer channels ≡ some ch
Holds peer (returned ch) channels = lookup peer channels ≡ some ch
Holds peer _ channels = Unit

abbrev Agrees : OrdMap ℕ → Task → Type 0
Agrees channels t = Holds t.peer t.stage channels

-- What is cached stays cached.
abbrev Grows : OrdMap ℕ → OrdMap ℕ → Type 0
Grows c d = (p ch : ℕ) → lookup p c ≡ some ch → lookup p d ≡ some ch

Holds-Grows :
    (peer : ℕ) (stage : Stage) (c d : OrdMap ℕ)
    → Grows c d
    → Holds peer stage c
    → Holds peer stage d
Holds-Grows peer starts c d g h = tt
Holds-Grows peer (connects a) c d g h = tt
Holds-Grows peer (connected ch) c d g h = tt
Holds-Grows peer (records ch) c d g h = g peer ch h
Holds-Grows peer (returned ch) c d g h = g peer ch h
Holds-Grows peer failed c d g h = tt

-- What a step of one task guarantees.
abbrev Sound : ℕ → OrdMap ℕ → GrpcRouter × Stage → Type 0
Sound peer c (router, stage) = Grows c router.channels × Holds peer stage router.channels

Grows-insert : (peer ch : ℕ) (c : OrdMap ℕ) → lookup peer c ≡ none → Grows c (insert peer ch c)
Grows-insert peer ch c h p x q = elim (Bool-cases (peer == p)) [
  | inl e ↦
      let r : peer ≡ p = ground arith in
      let z : lookup p c ≡ none = subst (λ k. lookup k c ≡ none) r h in cc
  | inr e ↦ ground (arith, lookup-insert peer p ch c)
]

look_up-Holds :
    (peer : ℕ) (o : Option ℕ) (a : Option SocketAddr) (c : OrdMap ℕ)
    → lookup peer c ≡ o
    → Holds peer (look_up o a) c
look_up-Holds peer (some ch) a c h = h
look_up-Holds peer none none c h = tt
look_up-Holds peer none (some addr) c h = tt

insert_or_reuse-Sound :
    (peer ch : ℕ) (o : Option ℕ) (router : GrpcRouter)
    → lookup peer router.channels ≡ o
    → Sound peer router.channels (insert_or_reuse peer ch o router)
insert_or_reuse-Sound peer ch (some existing) router h = (λ p x q. q, h)
insert_or_reuse-Sound peer ch none router h = (
  Grows-insert peer ch router.channels h,
  ground (arith, lookup-insert peer peer ch router.channels),
)

await_connect-Holds : (peer : ℕ) (o : Option ℕ) (c : OrdMap ℕ) → Holds peer (await_connect o) c
await_connect-Holds peer none c = tt
await_connect-Holds peer (some ch) c = tt

channel_for-Sound :
    (outcome : Option ℕ) (peer : ℕ) (stage : Stage) (router : GrpcRouter)
    → Holds peer stage router.channels
    → Sound peer router.channels (channel_for outcome peer stage router)
unfolding channel_for
channel_for-Sound outcome peer starts router h = (
  λ p x q. q,
  look_up-Holds peer (lookup peer router.channels) (lookup peer router.peers) router.channels refl,
)
channel_for-Sound outcome peer (connects addr) router h =
    (λ p x q. q, await_connect-Holds peer outcome router.channels)
channel_for-Sound outcome peer (connected ch) router h =
    insert_or_reuse-Sound peer ch (lookup peer router.channels) router refl
channel_for-Sound outcome peer (records ch) router h = (λ p x q. q, h)
channel_for-Sound outcome peer (returned ch) router h = (λ p x q. q, h)
channel_for-Sound outcome peer failed router h = (λ p x q. q, tt)

All-Grows :
    (tasks : List Task) (c d : OrdMap ℕ) → Grows c d → All (Agrees c) tasks → All (Agrees d) tasks
All-Grows [] c d g h = tt
All-Grows (t ∷ tasks) c d g h = (Holds-Grows t.peer t.stage c d g h.0, All-Grows tasks c d g h.1)

abbrev SystemSound : OrdMap ℕ → System → Type 0
SystemSound c (router, tasks) = Grows c router.channels × All (Agrees router.channels) tasks

and_task-Sound :
    (t : Task) (c : OrdMap ℕ) (s : System)
    → Agrees c t
    → SystemSound c s
    → SystemSound c (and_task t s)
and_task-Sound t c (router, tasks) h k =
    (k.0, (Holds-Grows t.peer t.stage c router.channels k.0 h, k.1))

step-Sound :
    (n : ℕ) (outcome : Option ℕ) (tasks : List Task) (router : GrpcRouter)
    → All (Agrees router.channels) tasks
    → SystemSound router.channels (step n outcome tasks router)
unfolding step
step-Sound n outcome [] router h = (λ p x q. q, tt)
step-Sound zero outcome (t ∷ tasks) router h =
    let (g, k) = channel_for-Sound outcome t.peer t.stage router h.0 in
    (
      g,
      (
        k,
        All-Grows tasks router.channels (channel_for outcome t.peer t.stage router).0.channels g
            h.1,
      ),
    )
step-Sound (suc n) outcome (t ∷ tasks) router h =
    and_task-Sound t router.channels (step n outcome tasks router) h.0
      (step-Sound n outcome tasks router h.1)

run-Agrees :
    (schedule : List (ℕ × Option ℕ)) (tasks : List Task) (router : GrpcRouter)
    → All (Agrees router.channels) tasks
    → All (Agrees (run schedule tasks router).0.channels) (run schedule tasks router).1
unfolding run
run-Agrees [] tasks router h = h
run-Agrees ((n, outcome) ∷ schedule) tasks router h =
    run-Agrees schedule (step n outcome tasks router).1 (step n outcome tasks router).0
      (step-Sound n outcome tasks router h).1

begun-Agrees : (ps : List ℕ) (c : OrdMap ℕ) → All (Agrees c) (begun ps)
unfolding begun
begun-Agrees [] c = tt
begun-Agrees (p ∷ ps) c = (tt, begun-Agrees ps c)

unfoldable pub task_at : ℕ → List Task → Option Task
task_at n [] = none
task_at zero (t ∷ tasks) = some t
task_at (suc n) (t ∷ tasks) = task_at n tasks

task_at-All :
    (c : OrdMap ℕ) (n : ℕ) (tasks : List Task) (peer ch : ℕ)
    → All (Agrees c) tasks
    → task_at n tasks ≡ some (record { peer = peer; stage = returned ch })
    → lookup peer c ≡ some ch
unfolding task_at
task_at-All c n [] peer ch h q = cc
task_at-All c zero (t ∷ tasks) peer ch h q =
    let r : t ≡ record { peer = peer; stage = returned ch } = cc in subst (Agrees c) r h.0
task_at-All c (suc n) (t ∷ tasks) peer ch h q = task_at-All c n tasks peer ch h.1 q

-- Whatever tasks ask for channels, and however their steps interleave, two of them that have
-- returned a channel to the same peer have returned the same channel, which is the cached one.
pub run-same_channel :
    (router : GrpcRouter) (ps : List ℕ) (schedule : List (ℕ × Option ℕ)) (i j peer x y : ℕ)
    → task_at i (run schedule (begun ps) router).1
      ≡ some (record { peer = peer; stage = returned x })
    → task_at j (run schedule (begun ps) router).1
      ≡ some (record { peer = peer; stage = returned y })
    → (x ≡ y) × (lookup peer (run schedule (begun ps) router).0.channels ≡ some x)
run-same_channel router ps schedule i j peer x y p q =
    let h = run-Agrees schedule (begun ps) router (begun-Agrees ps router.channels) in
    let a =
      task_at-All (run schedule (begun ps) router).0.channels i (run schedule (begun ps) router).1
        peer x h p in
    let b =
      task_at-All (run schedule (begun ps) router).0.channels j (run schedule (begun ps) router).1
        peer y h q in
    (cc, a)
