-- ===== src/Schemas/Blocks/Tests.antt =====
-- A process in which every pointer is the same, and lists that end or do not.
use Prim.Native.String.{String}
use hardware_assisted_game_s.Base.{
  ℕ, ◌≤◌, ◌≡◌, ◌≢◌, ◌⊎◌, inl, refl, true, none, some, List, [], ◌∷◌, All, Bytes, codes, bytes_eq,
  length, le_word, ◌==◌, if◌then◌else◌, arith,
}
use hardware_assisted_game_s.Base.Maps.{lookup, bytes_key}
use hardware_assisted_game_s.Config.{LayoutConfig, get}
use hardware_assisted_game_s.Interfaces.{plausible_user_pointer}
use hardware_assisted_game_s.Process.{
  Process, M, returned, thrown, no_module, read, or_memory_error,
}
use hardware_assisted_game_s.Schemas.Blocks.{
  Taken, hash_elements, bucket_elements, walk_buckets, walk_chain, walk_free, free_head, free_block,
  node, read_field, unique_plausible, with_free,
}
use hardware_assisted_game_s.Schemas.Blocks.Elements.{AreDistinct, hash_elements-AreDistinct}
use hardware_assisted_game_s.Schemas.Blocks.Ending.{IsStuck, walk_free-ends, walk_free-runs_on}

abbrev pub word_of : ℕ → Bytes
word_of n = if n == 8 then 0 ∷ 0 ∷ 1 ∷ 0 ∷ 0 ∷ 0 ∷ 0 ∷ 0 ∷ [] else 1 ∷ 0 ∷ 0 ∷ 0 ∷ []

abbrev pub same_pointers : Process
same_pointers = record {
  World = Unit {0};
  read_raw = λ address n w. (some (word_of n), w);
  module_list = λ w. (returned [], w);
  module_by_name = λ name w. (thrown no_module, w);
}

abbrev key : String → ℕ → Bytes × ℕ
key name v = (codes name, v)

abbrev hash_layout : LayoutConfig
hash_layout = record {
  values =
      key "hash.entry_mem" 0
      ∷ key "memory_pool.blocks_allocated" 12
      ∷ key "memory_pool.peak_allocated" 16
      ∷ key "hash.buckets" 96
      ∷ key "hash.bucket_count" 3
      ∷ key "hash.bucket_stride" 24
      ∷ key "hash.bucket.first_uncommitted" 16
      ∷ key "hash_node.next" 8
      ∷ key "hash_node.data" 16
      ∷ key "memory_pool.free_blocks_head_next" 32
      ∷ key "hash_blob.data" 16
      ∷ key "hash_blob.next" 0
      ∷ [];
  loaded_file = none;
}

abbrev the_pointer : List ℕ
the_pointer = 0x10000 ∷ []

one_element : hash_elements same_pointers hash_layout 2 0x20000 tt ≡ some (returned the_pointer, tt)
unfolding hash_elements bucket_elements with_free walk_buckets walk_chain walk_free free_head
    free_block node read_field unique_plausible plausible_user_pointer read or_memory_error le_word
    lookup bytes_eq get
one_element = refl

hash_elements-AreDistinct_example :
    AreDistinct [] the_pointer
    × All (λ q. plausible_user_pointer q ≡ true) the_pointer
    × (length the_pointer ≤ 2000000)
hash_elements-AreDistinct_example =
    hash_elements-AreDistinct same_pointers hash_layout 2 0x20000 tt tt the_pointer one_element

-- Blocks with data, each of them followed by the block behind it.
abbrev with_data : ℕ → M (Unit {0}) (ℕ × ℕ)
with_data blob w = (returned (7, blob), w)

with_data_has :
    (blob : ℕ) (w : Unit {0}) (r : ℕ × ℕ)
    → (with_data blob w).0 ≡ returned r
    → (r.0 ≢ 0) ⊎ (r.1 ≡ 0)
with_data_has blob w r e = inl (ground arith)

abbrev nothing_taken : Taken
nothing_taken = record { count = 0; elements = [] }

walk_free-ends_example : walk_free with_data 5 1000001 3 nothing_taken tt ≢ none
walk_free-ends_example =
    walk_free-ends with_data 5 1000001 3 nothing_taken tt with_data_has (omega arith)

-- A block without data, which names itself.
abbrev stuck_block : ℕ → M (Unit {0}) (ℕ × ℕ)
stuck_block blob w = (returned (0, blob), w)

abbrev stuck_at_3 : IsStuck stuck_block 3
stuck_at_3 = record { there = omega arith; same = λ w. refl }

walk_free-runs_on_example : walk_free stuck_block 5 40 3 nothing_taken tt ≡ none
walk_free-runs_on_example = walk_free-runs_on stuck_block 5 40 3 nothing_taken tt stuck_at_3 refl
