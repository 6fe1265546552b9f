-- ===== src/Schemas/Blocks.antt =====
-- analysis.cpp, `hash_elements`: the elements of a hash table of the process, those in its buckets and
-- those on the list of free blocks. The loop over the free blocks takes fuel, since it need not end:
-- `none` means that it is still running.
pub mod Elements
pub mod Ending
pub mod Tests
use hardware_assisted_game_s.Base.{
  ℕ, zero, suc, ◌+◌, ◌*◌, ◌%◌, Bool, true, false, not, ◌&&◌, ◌||◌, Option, none, some, List, [],
  ◌∷◌, ◌++◌, Bytes, codes, u64_mod, ltb, ◌==◌, if◌then◌else◌,
}
use Prim.Native.String.{String}
use hardware_assisted_game_s.Config.{LayoutConfig, get}
use hardware_assisted_game_s.Interfaces.{plausible_user_pointer, contains_address}
use hardware_assisted_game_s.Process.{
  Outcome, returned, thrown, Process, M, return, try_or, handled, lift, continue, ◌>>=◌, read,
}

abbrev pub hard_cap : ℕ
hard_cap = 1000000

-- A signed number of 32 bits where it is positive, and else 0.
abbrev pub positive32 : ℕ → ℕ
positive32 bits = if ltb bits 0x8000_0000 then bits else 0

-- How many data pointers were taken, and the elements so far.
pub record Taken : Type 0 where
  pub count : ℕ
  pub elements : List ℕ

abbrev pub take_data : ℕ → Taken → Taken
take_data data_ t =
    if data_ == 0 then t else record { count = t.count + 1; elements = t.elements ++ (data_ ∷ []) }

-- The two bounds on what is taken.
abbrev pub has_room : ℕ → Taken → Bool
has_room blocks t = ltb t.count blocks && ltb t.count hard_cap

-- The last step: plausible pointers, each once.
unfoldable pub unique_plausible : List ℕ → List ℕ → List ℕ
unique_plausible seen [] = []
unique_plausible seen (q ∷ qs) = elim (not (plausible_user_pointer q) || contains_address seen q) [
  | true ↦ unique_plausible seen qs
  | false ↦ q ∷ unique_plausible (q ∷ seen) qs
]

module _ {W : Type 0} where
  -- The chain of a bucket, of which `n` nodes may follow. A round tells the data of a node and the
  -- next node; its error ends the chain.
  unfoldable pub walk_chain : (ℕ → M W (ℕ × ℕ)) → ℕ → ℕ → ℕ → Taken → W → Taken × W
  walk_chain round blocks zero cur t w = (t, w)
  walk_chain round blocks (suc n) cur t w = elim (not (cur == 0) && has_room blocks t) [
    | false ↦ (t, w)
    | true ↦ elim (round cur w).0 [
      | thrown e ↦ (t, (round cur w).1)
      | returned r ↦ walk_chain round blocks n r.1 (take_data r.0 t) (round cur w).1
    ]
  ]

  -- The buckets from `i` on, of which there are `n`. One whose head cannot be read is passed over.
  unfoldable pub walk_buckets : (ℕ → M W ℕ) → (ℕ → M W (ℕ × ℕ)) → ℕ → ℕ → ℕ → Taken → W → Taken × W
  walk_buckets head round blocks zero i t w = (t, w)
  walk_buckets head round blocks (suc n) i t w = elim (has_room blocks t) [
    | false ↦ (t, w)
    | true ↦ elim (head i w).0 [
      | thrown e ↦ walk_buckets head round blocks n (i + 1) t (head i w).1
      | returned cur ↦
          let chain = walk_chain round blocks hard_cap cur t (head i w).1 in
          walk_buckets head round blocks n (i + 1) chain.0 chain.1
    ]
  ]

  -- The list of free blocks.
  unfoldable pub walk_free : (ℕ → M W (ℕ × ℕ)) → ℕ → ℕ → ℕ → Taken → W → Option (Taken × W)
  walk_free round peak zero blob t w =
      if not (blob == 0) && has_room peak t then none else some (t, w)
  walk_free round peak (suc fuel) blob t w = elim (not (blob == 0) && has_room peak t) [
    | false ↦ some (t, w)
    | true ↦ elim (round blob w).0 [
      | thrown e ↦ some (t, (round blob w).1)
      | returned r ↦ walk_free round peak fuel r.1 (take_data r.0 t) (round blob w).1
    ]
  ]

module _ (p : Process) (l : LayoutConfig) where
  open p use {World}

  -- The offset of a key, and the word at it.
  abbrev pub offset_of : String → M World ℕ
  offset_of key = lift (get l (codes key))

  unfoldable pub read_field : ℕ → ℕ → String → M World ℕ
  read_field n base key = do offset ← offset_of key; read p n ((base + offset) % u64_mod)

  -- A node with its data and its next node, at two offsets.
  unfoldable pub node : ℕ → ℕ → ℕ → M World (ℕ × ℕ)
  node data_off next_off cur = do
    data_ ← read p 8 ((cur + data_off) % u64_mod)
    next ← read p 8 ((cur + next_off) % u64_mod)
    return (data_, next)

  unfoldable pub free_block : ℕ → M World (ℕ × ℕ)
  free_block blob = do
    data_ ← read_field 8 blob "hash_blob.data"
    next ← read_field 8 blob "hash_blob.next"
    return (data_, next)

  -- What the buckets give, with the peak of the pool.
  unfoldable pub bucket_elements : ℕ → M World (ℕ × Taken)
  bucket_elements hash_base = do
    entry_mem ← offset_of "hash.entry_mem"
    blocks ← read_field 4 ((hash_base + entry_mem) % u64_mod) "memory_pool.blocks_allocated"
    peak ← read_field 4 ((hash_base + entry_mem) % u64_mod) "memory_pool.peak_allocated"
    buckets ← offset_of "hash.buckets"
    bucket_count ← offset_of "hash.bucket_count"
    bucket_stride ← offset_of "hash.bucket_stride"
    first_uncommitted ← offset_of "hash.bucket.first_uncommitted"
    node_next ← offset_of "hash_node.next"
    node_data ← offset_of "hash_node.data"
    λ w.
        let head = λ (i : ℕ).
          read p 8 ((hash_base + buckets + i * bucket_stride + first_uncommitted) % u64_mod) in
        let r =
          walk_buckets head (node node_data node_next) (positive32 blocks) bucket_count 0
            (record { count = 0; elements = [] }) w in
        (returned (positive32 peak, r.0), r.1)

  -- The head of the free blocks, null where it cannot be read.
  unfoldable pub free_head : ℕ → World → ℕ × World
  free_head hash_base w =
      let head = (do
        entry_mem ← offset_of "hash.entry_mem"
        read_field 8 ((hash_base + entry_mem) % u64_mod) "memory_pool.free_blocks_head_next") in
      elim (head w).0 [ thrown e ↦ (0, (head w).1) | returned blob ↦ (blob, (head w).1) ]

  abbrev pub unique_result : Option (Taken × World) → Option (Outcome (List ℕ) × World)
  unique_result none = none
  unique_result (some (t, w)) = some (returned (unique_plausible [] t.elements), w)

  -- The free blocks after the buckets, with a count of their own.
  unfoldable pub with_free : ℕ → ℕ → Outcome (ℕ × Taken) × World → Option (Outcome (List ℕ) × World)
  with_free fuel hash_base (thrown e, w) = some (thrown e, w)
  with_free fuel hash_base (returned (peak, t), w) =
      let head = free_head hash_base w in
      unique_result
        (walk_free free_block peak fuel head.0 (record { count = 0; elements = t.elements }) head.1)

  unfoldable pub hash_elements : ℕ → ℕ → World → Option (Outcome (List ℕ) × World)
  hash_elements fuel hash_base w = with_free fuel hash_base (bucket_elements hash_base w)
