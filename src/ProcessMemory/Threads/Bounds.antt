-- ===== src/ProcessMemory/Threads/Bounds.antt =====
-- core/memory/memory.hpp: how far the counter of calls is from the reads when calls of `RecordRead` and
-- `ResetReadMetrics` overlap.
use hardware_assisted_game_s.Base.{
  ℕ, zero, suc, ◌+◌, ◌*◌, ◌≤◌, ◌<◌, ◌≡◌, ◌≢◌, inl, inr, refl, List, ◌∷◌, length, u64_mod, ◌==◌,
  if◌then◌else◌, arith, Bool-cases,
}
use hardware_assisted_game_s.ProcessMemory.{
  LocalAccumulator, ReadCounters, no_reads, fresh_local, put, accumulate,
}
use hardware_assisted_game_s.ProcessMemory.Metrics.{sum_to, sum_to-change, sum_to-bound}
use hardware_assisted_game_s.ProcessMemory.Threads.{
  Phase, idle, adding_calls, adding_failures, adding_bytes, renewing_failures, renewing_bytes,
  renewing_epoch, Kind, reading, handing, storing, renewing, Access, load_epoch, add_calls,
  add_failures, add_bytes, store_calls, store_failures, store_bytes, add_epoch, set_phase, Reach,
  start, access, since_store, since_reset,
}

-- The calls that a thread has counted and not yet added.
abbrev held : Phase → LocalAccumulator → ℕ
held adding_failures l = 0
held adding_bytes l = 0
held _ l = l.calls

abbrev fresh : ℕ → Phase → LocalAccumulator → ℕ
fresh epoch p l = if l.epoch == epoch then held p l else 0

abbrev IsSmall : Phase → LocalAccumulator → Type 0
IsSmall adding_calls l = l.calls ≤ 256
IsSmall adding_failures l = Unit
IsSmall adding_bytes l = Unit
IsSmall _ l = l.calls < 256

abbrev reads : Kind → ℕ
reads reading = 1
reads _ = 0

held_small : (p : Phase) (l : LocalAccumulator) → IsSmall p l → held p l ≤ 256
held_small idle l s = omega arith
held_small adding_calls l s = s
held_small adding_failures l s = omega arith
held_small adding_bytes l s = omega arith
held_small renewing_failures l s = omega arith
held_small renewing_bytes l s = omega arith
held_small renewing_epoch l s = omega arith

Access-IsSmall :
    {t : ℕ} {c d : ReadCounters} {p q : Phase} {k : Kind}
    → Access t c p k d q
    → IsSmall p (c.locals t)
    → IsSmall q (d.locals t)
unfolding put accumulate
Access-IsSmall (load_epoch c size succeeded) s = ground arith
Access-IsSmall (add_calls c) s = tt
Access-IsSmall (add_failures c) s = tt
Access-IsSmall (add_bytes c) s = ground arith
Access-IsSmall (store_calls c) s = s
Access-IsSmall (store_failures c) s = s
Access-IsSmall (store_bytes c) s = s
Access-IsSmall (add_epoch c) s = s

-- No access makes more calls than it reads.
Access-total :
    {t : ℕ} {c d : ReadCounters} {p q : Phase} {k : Kind}
    → Access t c p k d q
    → d.read_calls + held q (d.locals t) ≤ c.read_calls + held p (c.locals t) + reads k
unfolding put accumulate
Access-total (load_epoch c size succeeded) = ground arith
Access-total (add_calls c) = omega arith
Access-total (add_failures c) = omega arith
Access-total (add_bytes c) = ground arith
Access-total (store_calls c) = omega arith
Access-total (store_failures c) = omega arith
Access-total (store_bytes c) = omega arith
Access-total (add_epoch c) = omega arith

-- An access of a read loses no call that was counted in the present epoch.
abbrev Keeps : Kind → ℕ → ℕ → ℕ → ℕ → Type 0
Keeps reading before epoch after epoch' = (before + 1 ≤ after) × (epoch' ≡ epoch)
Keeps handing before epoch after epoch' = (before ≤ after) × (epoch' ≡ epoch)
Keeps _ before epoch after epoch' = Unit

Access-Keeps :
    {t : ℕ} {c d : ReadCounters} {p q : Phase} {k : Kind}
    → Access t c p k d q
    → IsSmall p (c.locals t)
    → c.read_calls + 256 < u64_mod
    → Keeps k
        (c.read_calls + fresh c.epoch p (c.locals t))
        c.epoch
        (d.read_calls + fresh d.epoch q (d.locals t))
        d.epoch
unfolding put accumulate
Access-Keeps (load_epoch c size succeeded) s room = ground arith
Access-Keeps (add_calls c) s room = ground arith
Access-Keeps (add_failures c) s room = ground arith
Access-Keeps (add_bytes c) s room = ground arith
Access-Keeps (store_calls c) s room = tt
Access-Keeps (store_failures c) s room = tt
Access-Keeps (store_bytes c) s room = tt
Access-Keeps (add_epoch c) s room = tt

Access-others :
    {t : ℕ} {c d : ReadCounters} {p q : Phase} {k : Kind}
    → Access t c p k d q
    → (u : ℕ) → u ≢ t
    → d.locals u ≡ c.locals u
unfolding put
Access-others (load_epoch c size succeeded) u apart = ground arith
Access-others (add_calls c) u apart = refl
Access-others (add_failures c) u apart = refl
Access-others (add_bytes c) u apart = ground arith
Access-others (store_calls c) u apart = refl
Access-others (store_failures c) u apart = refl
Access-others (store_bytes c) u apart = refl
Access-others (add_epoch c) u apart = refl

-- A sum over the threads changes by what it changes for the one that makes the access.
abbrev over : ℕ → (Phase → LocalAccumulator → ℕ) → ReadCounters → (ℕ → Phase) → ℕ
over n weight c phases = sum_to n (λ u. weight (phases u) (c.locals u))

set_phase_same : (phases : ℕ → Phase) (t : ℕ) (q : Phase) → set_phase phases t q t ≡ q
unfolding set_phase
set_phase_same phases t q = ground arith

set_phase_other :
    (phases : ℕ → Phase) (t : ℕ) (q : Phase) (u : ℕ) → u ≢ t → set_phase phases t q u ≡ phases u
unfolding set_phase
set_phase_other phases t q u apart = ground arith

over-change :
    {n t : ℕ} {c d : ReadCounters} {q : Phase} {k : Kind} (phases : ℕ → Phase)
    (weight : Phase → LocalAccumulator → ℕ)
    → t < n
    → Access t c (phases t) k d q
    → over n weight d (set_phase phases t q) + weight (phases t) (c.locals t)
      ≡ over n weight c phases + weight q (d.locals t)
over-change {n} {t} {c} {d} {q} phases weight below a = rw (set_phase_same phases t q) at (
    sum_to-change n t (λ u. weight (phases u) (c.locals u))
      (λ u. weight (set_phase phases t q u) (d.locals u)) below
      (λ u apart. rw (set_phase_other phases t q u apart, Access-others a u apart) refl))

record IsCounted (n : ℕ) (c : ReadCounters) (phases : ℕ → Phase) (ks : List Kind) : Type 0 where
  small : (u : ℕ) → IsSmall (phases u) (c.locals u)
  total : c.read_calls + over n held c phases ≤ length ks
  upper : c.read_calls + over n held c phases ≤ since_store ks + n * 256
  lower : since_reset ks ≤ c.read_calls + over n (fresh c.epoch) c phases

no_reads-over :
    (n : ℕ) (weight : Phase → LocalAccumulator → ℕ)
    → weight idle (fresh_local 0) ≡ 0
    → over n weight no_reads (λ u. idle) ≡ 0
unfolding sum_to
no_reads-over zero weight e = refl
no_reads-over (suc n) weight e = grind (arith, no_reads-over n weight e)

all_small :
    {t : ℕ} {c d : ReadCounters} {q : Phase} {k : Kind} (phases : ℕ → Phase)
    → Access t c (phases t) k d q
    → ((u : ℕ) → IsSmall (phases u) (c.locals u))
    → (u : ℕ) → IsSmall (set_phase phases t q u) (d.locals u)
all_small {t} {c} {d} {q} phases a small u = elim (Bool-cases (u == t)) [
  | inl same ↦
      let place : u ≡ t = ground arith in
      rw (place, set_phase_same phases t q) (Access-IsSmall a (small t))
  | inr other ↦
      let apart : u ≢ t = ground arith in
      rw (set_phase_other phases t q u apart, Access-others a u apart) (small u)
]

-- A store leaves 0.
abbrev Clears : Kind → ℕ → Type 0
Clears storing calls = calls ≡ 0
Clears _ calls = Unit

Access-Clears :
    {t : ℕ} {c d : ReadCounters} {p q : Phase} {k : Kind}
    → Access t c p k d q
    → Clears k d.read_calls
Access-Clears (load_epoch c size succeeded) = tt
Access-Clears (add_calls c) = tt
Access-Clears (add_failures c) = tt
Access-Clears (add_bytes c) = tt
Access-Clears (store_calls c) = refl
Access-Clears (store_failures c) = tt
Access-Clears (store_bytes c) = tt
Access-Clears (add_epoch c) = tt

reads_small : (k : Kind) → reads k ≤ 1
reads_small reading = omega arith
reads_small handing = omega arith
reads_small storing = omega arith
reads_small renewing = omega arith

upper_step :
    (k : Kind) (ks : List Kind) (calls sum before limit : ℕ)
    → Clears k calls
    → before ≤ since_store ks + limit
    → sum ≤ limit
    → calls + sum ≤ before + reads k
    → calls + sum ≤ since_store (k ∷ ks) + limit
unfolding since_store
upper_step reading ks calls sum before limit clears b few step = omega arith
upper_step handing ks calls sum before limit clears b few step = omega arith
upper_step storing ks calls sum before limit clears b few step = omega arith
upper_step renewing ks calls sum before limit clears b few step = omega arith

lower_step :
    (k : Kind) (ks : List Kind) (e e' calls calls' own sum : ℕ) (own' sum' : ℕ → ℕ)
    → Keeps k (calls + own) e (calls' + own' e') e'
    → sum' e + own ≡ sum + own' e
    → since_reset ks ≤ calls + sum
    → since_reset (k ∷ ks) ≤ calls' + sum' e'
unfolding since_reset
lower_step reading ks e e' calls calls' own sum own' sum' (more, same) change before =
    let epoch : e ≡ e' = ground arith in let changed = rw epoch at change in omega arith
lower_step handing ks e e' calls calls' own sum own' sum' (more, same) change before =
    let epoch : e ≡ e' = ground arith in let changed = rw epoch at change in omega arith
lower_step storing ks e e' calls calls' own sum own' sum' keeps change before = omega arith
lower_step renewing ks e e' calls calls' own sum own' sum' keeps change before = omega arith

Access-IsCounted :
    {n t : ℕ} {c d : ReadCounters} {q : Phase} {k : Kind} {ks : List Kind} (phases : ℕ → Phase)
    → t < n
    → length ks + 300 < u64_mod
    → IsCounted n c phases ks
    → Access t c (phases t) k d q
    → IsCounted n d (set_phase phases t q) (k ∷ ks)
Access-IsCounted {n} {t} {c} {d} {q} {k} {ks} phases below room v a =
    let later = set_phase phases t q in
    let small = all_small phases a v.small in
    let few =
      sum_to-bound n 256 (λ u. held (later u) (d.locals u))
        (λ u. held_small (later u) (d.locals u) (small u)) in
    let step : d.read_calls + over n held d later ≤ c.read_calls + over n held c phases + reads k =
      omega (arith, over-change phases held below a, Access-total a) in
    record {
      small = small;
      total = omega (arith, step, v.total, reads_small k);
      upper =
          upper_step k ks d.read_calls (over n held d later) (c.read_calls + over n held c phases)
            (n * 256) (Access-Clears a) v.upper few step;
      lower =
          lower_step k ks c.epoch d.epoch c.read_calls d.read_calls
            (fresh c.epoch (phases t) (c.locals t)) (over n (fresh c.epoch) c phases)
            (λ e. fresh e q (d.locals t)) (λ e. over n (fresh e) d later)
            (Access-Keeps a (v.small t) (omega (arith, v.total)))
            (over-change phases (fresh c.epoch) below a) v.lower;
    }

Reach-IsCounted :
    {n : ℕ} {c : ReadCounters} {phases : ℕ → Phase} {ks : List Kind}
    → Reach n c phases ks
    → length ks + 300 < u64_mod
    → IsCounted n c phases ks
unfolding since_store since_reset
Reach-IsCounted {n} start room = record {
  small = λ u. omega arith;
  total = omega (arith, no_reads-over n held refl);
  upper = omega (arith, no_reads-over n held refl);
  lower = omega arith;
}
Reach-IsCounted (access {phases = phases} t below before a) room =
    Access-IsCounted phases below (omega arith) (Reach-IsCounted before (omega arith)) a

fresh_small : (e : ℕ) (p : Phase) (l : LocalAccumulator) → IsSmall p l → fresh e p l ≤ 256
fresh_small e p l small = ground (arith, held_small p l small)

-- However the atomic accesses of any calls of `RecordRead` and `ResetReadMetrics` by up to `n` threads
-- interleave: the counter of calls tells at most 256 a thread more than the reads that began since it
-- was last stored; and of the reads that began since the last access of a reset it lacks at most 256 a
-- thread. (There are fewer than 2 ^ 64 - 300 accesses, so that nothing wraps.)
pub Reach-bounds :
    {n : ℕ} {c : ReadCounters} {phases : ℕ → Phase} {ks : List Kind}
    → Reach n c phases ks
    → length ks + 300 < u64_mod
    → (c.read_calls ≤ since_store ks + n * 256) × (since_reset ks ≤ c.read_calls + n * 256)
Reach-bounds {n} {c} {phases} r room =
    let v = Reach-IsCounted r room in
    let few =
      sum_to-bound n 256 (λ u. fresh c.epoch (phases u) (c.locals u))
        (λ u. fresh_small c.epoch (phases u) (c.locals u) (v.small u)) in
    (omega (arith, v.upper), omega (arith, v.lower))
