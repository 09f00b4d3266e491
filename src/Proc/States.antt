-- ===== src/Proc/States.antt =====
-- The states that processes go through in arch/x86/proc.c.
use march_os.Base.{
  ℕ, ◌≡◌, ◌≢◌, refl, ap, sym, ◌∙◌, true, ◌||◌, none, some, ◌==◌, Bool-cases, inl, inr, ok, panic,
  Ensures, bind-Ensures, then-Ensures, panic-Ensures, Ensures-ok, ◌>>=◌, arith,
}
use march_os.Mm.Pm.{pm_4k, Pm, pmalloc, pmfree}
use march_os.Mm.Vm.{user_addr_start, switch_uvm, is_absent, rounddown, free_pdpt, free_uvm}
use march_os.Mm.Slab.{kmalloc, kmfree}
use march_os.LinkedList.{list_push, list_remove}
use march_os.Proc.{
  Stat, unused, set, ready, run, sleep, zomb, stop, stat_number, Proc, ProcState, set_stat,
  kstack_size, or_endless, palloc, pfree, switch_proc, uinit, set_proc, copy_to_user, initcode,
}

pmfree-null :
    (kernel_end memtotal addr : ℕ) (pm : Pm)
    → addr ≡ 0
    → pmfree kernel_end memtotal addr pm_4k pm ≡ panic
unfolding pmfree
pmfree-null kernel_end memtotal addr pm e = rw e refl

is_ready : (stat : Stat) → (stat_number stat == stat_number ready) ≡ true → stat ≡ ready
is_ready ready e = refl
is_ready unused e = let wrong = e in cc
is_ready set e = let wrong = e in cc
is_ready run e = let wrong = e in cc
is_ready sleep e = let wrong = e in cc
is_ready zomb e = let wrong = e in cc
is_ready stop e = let wrong = e in cc

set-ne-ready : set ≢ ready
set-ne-ready e = let numbers : stat_number set ≡ stat_number ready = ap stat_number e in omega arith

run-ne-ready : run ≢ ready
run-ne-ready e = let numbers : stat_number run ≡ stat_number ready = ap stat_number e in omega arith

-- No process waits for the processor.
abbrev pub NoReady : ProcState → Type 0
NoReady s = (p : ℕ) → (s.procs p).stat ≢ ready

written : (p : ℕ) (v : Proc) (s : ProcState) → v.stat ≢ ready → NoReady s → NoReady (set_proc p v s)
written p v s other none_ready q = elim (Bool-cases (p == q)) [
  | inl here ↦ rw here other
  | inr away ↦ rw away (none_ready q)
]

module _ (kernel_end memtotal pgdir proc_list sysret stdio fuel : ℕ) where
  -- free_uvm leaves 0 in the field that pfree then gives to pmfree.
  free_uvm-zero :
      (upml4 : ℕ) (pm : Pm) → Ensures (λ (r, pm'). r ≡ 0) (free_uvm kernel_end memtotal upml4 pm)
  unfolding free_uvm
  free_uvm-zero upml4 pm = elim (Bool-cases (is_absent upml4)) [
    | inl absent ↦ rw absent tt
    | inr present ↦ rw present (
        then-Ensures (λ (r, pm'). r ≡ 0)
          (free_pdpt kernel_end memtotal (rounddown upml4 12) 512 0 pm
            >>= pmfree kernel_end memtotal (rounddown upml4 12) pm_4k)
          (λ pm'. ok (0, pm')) λ pm'. refl)
  ]

  pub pfree-Ensures :
      (p : ℕ) (s : ProcState)
      → Ensures (λ s'. ⊥) (pfree kernel_end memtotal pgdir proc_list sysret stdio fuel p s)
  unfolding pfree
  pfree-Ensures p s =
      then-Ensures (λ s'. ⊥) (or_endless (list_remove fuel s.entries proc_list p)) _
        λ (entries, freed).
          then-Ensures (λ s'. ⊥)
            (elim freed [ none ↦ ok s.kmem | some entry ↦ kmfree kernel_end memtotal entry s.kmem ]
              >>= kmfree kernel_end memtotal ((s.procs p).kstack))
            _
            λ km.
              bind-Ensures (λ (r, pm). r ≡ 0) (λ s'. ⊥)
                (free_uvm kernel_end memtotal ((s.procs p).upml4) km.pm) _
                (free_uvm-zero ((s.procs p).upml4) km.pm)
                λ (r, pm) e. panic-Ensures (λ s'. ⊥) _ _ (pmfree-null kernel_end memtotal r pm e)

  -- pfree never returns: for every process and every state, it panics or does not end.
  pub pfree-never :
      (p : ℕ) (s s' : ProcState)
      → pfree kernel_end memtotal pgdir proc_list sysret stdio fuel p s ≢ ok s'
  pfree-never p s s' = Ensures-ok (λ s''. ⊥) _ s' (pfree-Ensures p s)

  palloc-NoReady :
      (s : ProcState)
      → NoReady s
      → Ensures
          (λ (p, s'). NoReady s')
          (palloc kernel_end memtotal pgdir proc_list sysret stdio fuel s)
  unfolding palloc
  palloc-NoReady s none_ready =
      then-Ensures (λ (p, s'). NoReady s') (kmalloc kernel_end memtotal 304 s.kmem) _
        λ (p, km1).
          then-Ensures (λ (p, s'). NoReady s') (kmalloc kernel_end memtotal kstack_size km1) _
            λ (kstack, km2).
              then-Ensures (λ (p, s'). NoReady s') (pmalloc kernel_end memtotal pm_4k km2.pm) _
                λ (table, pm3).
                  then-Ensures (λ (p, s'). NoReady s')
                    (kmalloc kernel_end memtotal 24 (record km2 { pm = pm3 })) _
                    λ (entry, km4).
                      then-Ensures (λ (p, s'). NoReady s')
                        (or_endless (list_push fuel s.entries proc_list p entry)) _
                        λ entries q. written p _ s (λ e. set-ne-ready e) none_ready q

  uinit-NoReady :
      (s : ProcState)
      → NoReady s
      → Ensures NoReady (uinit kernel_end memtotal pgdir proc_list sysret stdio fuel s)
  unfolding uinit
  uinit-NoReady s none_ready =
      bind-Ensures (λ (p, s'). NoReady s') NoReady
        (palloc kernel_end memtotal pgdir proc_list sysret stdio fuel s) _
        (palloc-NoReady s none_ready)
        λ (init, s1) none_ready1.
          then-Ensures NoReady
            (copy_to_user kernel_end memtotal pgdir proc_list sysret stdio fuel user_addr_start
              initcode (switch_uvm pgdir (((set_stat init run s1).procs init).upml4) s1.kmem.pm))
            _ λ pm q. written init _ s1 (λ e. run-ne-ready e) none_ready1 q

  -- switch_proc wants a process that is ready.
  switch_proc-panics :
      (new old : ℕ) (s : ProcState)
      → NoReady s
      → switch_proc kernel_end memtotal pgdir proc_list sysret stdio fuel new old s ≡ panic
  unfolding switch_proc
  switch_proc-panics new old s none_ready =
      elim (Bool-cases (stat_number ((s.procs new).stat) == stat_number ready)) [
        | inl yes_ready ↦ absurd (none_ready new (is_ready _ yes_ready))
        | inr no_ready ↦ elim (Bool-cases (new == 0 || old == 0)) [
          | inl null ↦ rw null refl
          | inr some_proc ↦
              elim (Bool-cases (stat_number ((s.procs old).stat) == stat_number run)) [
                | inl runs ↦ rw (some_proc, no_ready, runs) refl
                | inr other ↦ rw (some_proc, no_ready, other) refl
              ]
        ]
      ]

  -- The calls of proc.c that return.
  pub data Step (s s' : ProcState) : Type 0 where
    allocated :
        (p : ℕ)
        → palloc kernel_end memtotal pgdir proc_list sysret stdio fuel s ≡ ok (p, s')
        → Step s s'
    freed :
        (p : ℕ)
        → pfree kernel_end memtotal pgdir proc_list sysret stdio fuel p s ≡ ok s'
        → Step s s'
    started : uinit kernel_end memtotal pgdir proc_list sysret stdio fuel s ≡ ok s' → Step s s'
    switched :
        (new old : ℕ)
        → switch_proc kernel_end memtotal pgdir proc_list sysret stdio fuel new old s ≡ ok s'
        → Step s s'

  pub data Reach (s : ProcState) : ProcState → Type 0 where
    here : Reach s s
    after : {t u : ProcState} → Reach s t → Step t u → Reach s u

  Step-NoReady : (s s' : ProcState) → Step s s' → NoReady s → NoReady s'
  Step-NoReady s s' (allocated p e) none_ready =
      Ensures-ok (λ (q, s''). NoReady s'') _ (p, s') (palloc-NoReady s none_ready) e
  Step-NoReady s s' (freed p e) none_ready = absurd (pfree-never p s s' e)
  Step-NoReady s s' (started e) none_ready = Ensures-ok NoReady _ s' (uinit-NoReady s none_ready) e
  Step-NoReady s s' (switched new old e) none_ready =
      let stuck = switch_proc-panics new old s none_ready in let wrong = sym stuck ∙ e in cc

  Reach-NoReady : {s t : ProcState} → Reach s t → NoReady s → NoReady t
  Reach-NoReady here none_ready = none_ready
  Reach-NoReady (after {t} {u} r step) none_ready =
      Step-NoReady t u step (Reach-NoReady r none_ready)

  -- Whatever calls of proc.c are made from a state without a process that is ready on, switch_proc
  -- panics, for any two processes: no call makes a process ready before a switch has been made.
  pub Reach-stuck :
      {s t : ProcState} (new old : ℕ)
      → NoReady s
      → Reach s t
      → switch_proc kernel_end memtotal pgdir proc_list sysret stdio fuel new old t ≡ panic
  Reach-stuck {s} {t} new old none_ready r =
      switch_proc-panics new old t (Reach-NoReady r none_ready)
